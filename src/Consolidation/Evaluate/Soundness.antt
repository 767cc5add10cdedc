-- ===== src/Consolidation/Evaluate/Soundness.antt =====
-- When `evaluate_candidate` of src/consolidation/policy.rs adopts, and what it adopts.
use codex_memoryd.Prelude.{
  ◌≤◌, String, Bool, true, false, ◌≡◌, ◌≢◌, ◌↔◌, ◌⊎◌, inl, inr, Option, none, some, List, [], arith,
  length, mem_str, Bool-cases,
}
use codex_memoryd.Policy.Regex.{RegexEngine}
use codex_memoryd.Policy.Screen.{screen_content, is_accept, max_record_chars}
use codex_memoryd.Consolidation.Types.{
  ConsolidationOperation, ConsolidationOperation-discrete, ConsolidationDecision, adopt_statement,
  adopt_inference, no_change, defer, ConsolidationPolicy, ConsolidationCandidate, validate_policy,
  validate_candidate,
}
use codex_memoryd.Consolidation.Evaluate.{
  EvidenceDescriptor, SemanticValidation, Step, go, mode_on, uncertain_statement, matched, roots,
  resolved, classes_allowed, subjects_match, actors_allowed, represented, allows, screen_steps,
  evidence_steps, inference_steps, conclude, evaluate_candidate, operation_of, decide_as,
}

module _ (E : RegexEngine) (policy : ConsolidationPolicy) (scope : String)
    (candidate : ConsolidationCandidate) (evidence : List EvidenceDescriptor)
    (current_claims current_roots : List String) (validation : Option SemanticValidation) where
  -- The policy and the claim itself allow adoption.
  pub record Screened : Type 0 where
    pub policy_valid : validate_policy policy ≡ none
    pub enabled : mode_on policy.mode ≡ true
    pub scope_allowed : mem_str scope policy.scopes ≡ true
    pub class_allowed : mem_str candidate.claim_class policy.claim_classes ≡ true
    pub well_formed : validate_candidate candidate ≡ none
    pub content_safe : is_accept (screen_content E candidate.claim max_record_chars) ≡ true
    pub certain : (candidate.inferred ≡ true) ⊎ (uncertain_statement candidate.claim ≡ false)

  -- The evidence that the candidate names is there, and allowed.
  pub record Supported : Type 0 where
    pub all_found : resolved candidate evidence ≡ true
    pub classes : classes_allowed policy (matched candidate evidence) ≡ true
    pub subjects : subjects_match candidate (matched candidate evidence) ≡ true
    pub actors : (candidate.inferred ≡ true) ⊎ (actors_allowed (matched candidate evidence) ≡ true)
    pub two_roots : (candidate.inferred ≡ false) ⊎ (2 ≤ length (roots candidate evidence))

  -- A validator has confirmed an inferred claim.
  pub record Confirmed : Type 0 where
    pub validates : policy.semantic_validation ≡ true
    pub confirmed : (v : SemanticValidation) × (validation ≡ some v) × (v.supported ≡ true)

  abbrev screening : Step (Unit {0})
  screening = screen_steps E policy scope candidate evidence current_claims current_roots validation

  abbrev evidencing : Step (Unit {0})
  evidencing =
      evidence_steps E policy scope candidate evidence current_claims current_roots validation

  abbrev inferring : Step (Unit {0})
  inferring =
      inference_steps E policy scope candidate evidence current_claims current_roots validation

  abbrev decision : ConsolidationDecision
  decision =
      evaluate_candidate E policy scope candidate evidence current_claims current_roots validation

  Screened_of_go : screening ≡ go tt → Screened
  unfolding screen_steps
  Screened_of_go h = ground arith

  go_of_Screened : Screened → screening ≡ go tt
  unfolding screen_steps
  go_of_Screened h = ground arith

  Supported_of_go : evidencing ≡ go tt → Supported
  unfolding evidence_steps
  Supported_of_go h = ground arith

  go_of_Supported : Supported → evidencing ≡ go tt
  unfolding evidence_steps
  go_of_Supported h = ground arith

  Confirmed_of_go : candidate.inferred ≡ true → inferring ≡ go tt → Confirmed
  unfolding inference_steps
  Confirmed_of_go i h = ground arith

  go_of_Confirmed : (candidate.inferred ≡ true → Confirmed) → inferring ≡ go tt
  unfolding inference_steps
  go_of_Confirmed h = elim (Bool-cases candidate.inferred) [
    | inl i ↦ let c = h i in ground arith
    | inr n ↦ ground arith
  ]

  abbrev concluding : Step ConsolidationDecision
  concluding = conclude E policy scope candidate evidence current_claims current_roots validation

  abbrev is_represented : Bool
  is_represented = represented candidate current_claims current_roots (roots candidate evidence)

  -- A decision is what `conclude` gives, or a deferral.
  decision_of_go :
      screening ≡ go tt
      → evidencing ≡ go tt
      → (d : ConsolidationDecision) → concluding ≡ go d
      → decision ≡ d
  unfolding evaluate_candidate
  decision_of_go s e d h = ground arith

  go_of_decision :
      decision.operation ≢ defer
      → (screening ≡ go tt) × (evidencing ≡ go tt) × (concluding ≡ go decision)
  unfolding evaluate_candidate
  go_of_decision h = ground arith

  -- What an adoption of the operation needs, besides its own condition.
  abbrev Adopts : ConsolidationOperation → Type 0
  Adopts operation =
      Screened × Supported × (is_represented ≡ false) × (allows policy operation ≡ true)

  abbrev adoption : ConsolidationDecision
  adoption =
      decide_as E policy scope candidate evidence current_claims current_roots validation
        (operation_of candidate.inferred) "bounded_source_and_semantic_checks_passed"
        (roots candidate evidence)

  abbrev repetition : ConsolidationDecision
  repetition =
      decide_as E policy scope candidate evidence current_claims current_roots validation no_change
        "claim_and_evidence_already_represented" (roots candidate evidence)

  -- The two ways to conclude, with what each needs.
  concluding_cases :
      (d : ConsolidationDecision)
      → concluding ≡ go d
      → ((is_represented ≡ true) × (allows policy no_change ≡ true) × (d ≡ repetition))
        ⊎ ((is_represented ≡ false)
            × (inferring ≡ go tt)
            × (allows policy (operation_of candidate.inferred) ≡ true)
            × (d ≡ adoption))
  unfolding conclude
  concluding_cases d h = elim (Bool-cases is_represented) [
    | inl r ↦ inl (r, ground arith, ground arith)
    | inr n ↦ inr (n, ground arith, ground arith, ground arith)
  ]

  concluding-adoption :
      is_represented ≡ false
      → inferring ≡ go tt
      → allows policy (operation_of candidate.inferred) ≡ true
      → concluding ≡ go adoption
  unfolding conclude
  concluding-adoption n i a = ground arith

  concluding-repetition :
      is_represented ≡ true → allows policy no_change ≡ true → concluding ≡ go repetition
  unfolding conclude
  concluding-repetition r a = ground arith

  -- A decision that is no deferral comes from all steps.
  undeferred :
      decision.operation ≢ defer
      → Screened
        × Supported
        × (((is_represented ≡ true) × (allows policy no_change ≡ true) × (decision ≡ repetition))
            ⊎ ((is_represented ≡ false)
                × (inferring ≡ go tt)
                × (allows policy (operation_of candidate.inferred) ≡ true)
                × (decision ≡ adoption)))
  undeferred h =
      let (s, e, c) = go_of_decision h in
      (Screened_of_go s, Supported_of_go e, concluding_cases decision c)

  -- An inference is adopted exactly when the policy is valid and on and allows its scope and class,
  -- the claim is well formed and safe, all its evidence is found, allowed and about its subject,
  -- with at least two roots, the claim is not yet represented with all these roots, a validator
  -- confirmed it, and the policy allows `adopt_inference`.
  pub adopt_inference_steps :
      (decision.operation ≡ adopt_inference)
      ↔ (Adopts adopt_inference × (candidate.inferred ≡ true) × Confirmed)
  adopt_inference_steps = (
    λ h.
        let (s, e, u) = undeferred (λ (d : decision.operation ≡ defer). cc) in
        elim u [
          | inl (r, a, d) ↦ absurd (cc)
          | inr (n, i, a, d) ↦ elim (Bool-cases candidate.inferred) [
            | inl yes_ ↦ ((s, e, n, ground arith), yes_, Confirmed_of_go yes_ i)
            | inr no_ ↦ absurd (ground arith)
          ]
        ],
    λ a.
        let (s, e, n, allowed) = a.0 in
        let i = a.1 in
        let c = concluding-adoption n (go_of_Confirmed (λ _. a.2)) (rw i allowed) in
        let d = decision_of_go (go_of_Screened s) (go_of_Supported e) adoption c in ground arith,
  )

  -- A stated claim is adopted exactly when the policy is valid and on and allows its scope and
  -- class, the claim is well formed, safe and certain, all its evidence is found, allowed and about
  -- its subject, what of it comes from a user source has the user as its actor, the claim is not
  -- yet represented with all its roots, and the policy allows `adopt_statement`; no validator is
  -- needed.
  pub adopt_statement_steps :
      (decision.operation ≡ adopt_statement)
      ↔ (Adopts adopt_statement × (candidate.inferred ≡ false))
  adopt_statement_steps = (
    λ h.
        let (s, e, u) = undeferred (λ (d : decision.operation ≡ defer). cc) in
        elim u [
          | inl (r, a, d) ↦ absurd (cc)
          | inr (n, i, a, d) ↦ elim (Bool-cases candidate.inferred) [
            | inl inference ↦ absurd (ground arith)
            | inr statement ↦ ((s, e, n, ground arith), statement)
          ]
        ],
    λ a.
        let (s, e, n, allowed) = a.0 in
        let i = a.1 in
        let unconfirmed = go_of_Confirmed (λ (t : candidate.inferred ≡ true). absurd (cc)) in
        let c = concluding-adoption n unconfirmed (rw i allowed) in
        let d = decision_of_go (go_of_Screened s) (go_of_Supported e) adoption c in ground arith,
  )

  -- `no_change` is decided exactly when the policy is valid and on and allows the scope and class,
  -- the claim is well formed, safe and (unless inferred) certain, its evidence is found and allowed
  -- as an adoption needs it, the claim is already represented with all its roots, and the policy
  -- allows `no_change`; no validator is asked.
  pub no_change_iff :
      (decision.operation ≡ no_change)
      ↔ (Screened × Supported × (is_represented ≡ true) × (allows policy no_change ≡ true))
  no_change_iff = (
    λ h.
        let (s, e, u) = undeferred (λ (d : decision.operation ≡ defer). cc) in
        elim u [ inl (r, a, d) ↦ (s, e, r, a) | inr (n, i, a, d) ↦ absurd (ground arith) ],
    λ (s, e, r, a).
        let c = concluding-repetition r a in
        let d = decision_of_go (go_of_Screened s) (go_of_Supported e) repetition c in cc,
  )

  deferred_roots : decision.operation ≡ defer → decision.distinct_evidence_roots ≡ []
  unfolding evaluate_candidate
  deferred_roots h = ground arith

  -- Whatever the input, the decision adopts, finds no change or defers: it never reinforces,
  -- supersedes or rejects. One that does not defer lists exactly the distinct roots of the evidence
  -- named by the candidate, and a deferral lists none.
  pub decision_shape :
      ((decision.operation ≡ defer) × (decision.distinct_evidence_roots ≡ []))
      ⊎ (((decision.operation ≡ no_change) ⊎ (decision.operation ≡ operation_of candidate.inferred))
          × (decision.distinct_evidence_roots ≡ roots candidate evidence))
  decision_shape = elim (ConsolidationOperation-discrete decision.operation defer) [
    | yes d ↦ inl (d, deferred_roots d)
    | no n ↦
        let (s, e, u) = undeferred n in
        elim u [ inl (r, a, d) ↦ inr (inl (cc), cc) | inr (f, i, a, d) ↦ inr (inr (cc), cc) ]
  ]
