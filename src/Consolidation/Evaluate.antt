-- ===== src/Consolidation/Evaluate.antt =====
-- `evaluate_candidate` of src/consolidation/policy.rs. Each early return of `defer(reason)` is a
-- `need` in the `do` block, in the source's order.
pub mod Evidence
pub mod Soundness
pub mod Adoption
use codex_memoryd.Prelude.{
  String, Bool, true, false, not, ◌&&◌, ◌||◌, Option, none, some, List, [], ◌∷◌, any, all, select,
  is_empty, length, ltb, ◌==◌, str_eq, starts_with, to_ascii_lowercase, contains, contains_any,
  mem_str, map, if◌then◌else◌,
}
use codex_memoryd.Prelude.StrSet.{set_of}
use codex_memoryd.Policy.Regex.{RegexEngine}
use codex_memoryd.Policy.Screen.{screen_content, is_accept, max_record_chars}
use codex_memoryd.Consolidation.Types.{
  ConsolidationMode, off, preview, automatic, ConsolidationOperation, adopt_statement,
  adopt_inference, reinforce, supersede, no_change, defer, reject, ConsolidationPolicy,
  ConsolidationCandidate, ConsolidationDecision, validate_policy, validate_candidate,
}

pub record EvidenceDescriptor : Type 0 where
  pub id : String
  pub root_id : String
  pub source_class : String
  pub actor : String
  pub subject : String
  pub content : String
  pub supporting_span : Option String

pub record SemanticValidation : Type 0 where
  pub supported : Bool
  pub validator : String
  pub reason : String

-- an early `return defer(reason)`, or going on
pub data Step {ℓ} (A : Type ℓ) : Type ℓ where
  go : A → Step A
  stop : String → Step A

infixl 5 ◌>>=◌ ◌>>◌
abbrev pub ◌>>=◌ {ℓ κ} : {A : Type ℓ} {B : Type κ} → Step A → (A → Step B) → Step B
go a >>= f = f a
stop r >>= f = stop r

abbrev pub ◌>>◌ {ℓ} : {B : Type ℓ} → Step (Unit {0}) → Step B → Step B
m >> k = m >>= λ _. k

abbrev pub need : Bool → String → Step (Unit {0})
need true reason = go tt
need false reason = stop reason

abbrev pub is_none : Option String → Bool
is_none none = true
is_none (some _) = false

abbrev pub mode_on : ConsolidationMode → Bool
mode_on off = false
mode_on preview = true
mode_on automatic = true

abbrev pub same_operation : ConsolidationOperation → ConsolidationOperation → Bool
same_operation adopt_statement adopt_statement = true
same_operation adopt_inference adopt_inference = true
same_operation reinforce reinforce = true
same_operation supersede supersede = true
same_operation no_change no_change = true
same_operation defer defer = true
same_operation reject reject = true
same_operation _ _ = false

-- `policy.operations.contains(&operation)`
unfoldable pub allows : ConsolidationPolicy → ConsolidationOperation → Bool
allows policy operation = any (same_operation operation) policy.operations

-- Is a stated claim hedged, quoted or negated, so that its scope is uncertain?
unfoldable pub uncertain_statement : String → Bool
unfolding contains to_ascii_lowercase
uncertain_statement claim =
    let lower = to_ascii_lowercase claim in
    contains_any lower (
      "just for this task" ∷ "only for this task" ∷ "hypothetically" ∷ "as an example" ∷ "quoted"
      ∷ "do not remember" ∷ "don't remember" ∷ [])
    || starts_with lower "not "

-- the evidence that the candidate names
unfoldable pub matched : ConsolidationCandidate → List EvidenceDescriptor → List EvidenceDescriptor
unfolding set_of
matched candidate evidence = select (λ item. mem_str item.id (set_of candidate.source_ids)) evidence

unfoldable pub roots : ConsolidationCandidate → List EvidenceDescriptor → List String
unfolding matched
roots candidate evidence = set_of (map (λ item. item.root_id) (matched candidate evidence))

abbrev from_user_source : String → Bool
from_user_source c = str_eq c "user_statement" || str_eq c "turn"

unfoldable pub resolved : ConsolidationCandidate → List EvidenceDescriptor → Bool
unfolding matched roots
resolved candidate evidence =
    length (matched candidate evidence) == length (set_of candidate.source_ids)
    && not (is_empty (roots candidate evidence))

unfoldable pub classes_allowed : ConsolidationPolicy → List EvidenceDescriptor → Bool
classes_allowed policy items = all (λ item. mem_str item.source_class policy.source_classes) items

unfoldable pub subjects_match : ConsolidationCandidate → List EvidenceDescriptor → Bool
subjects_match candidate items = all (λ item. str_eq item.subject candidate.subject) items

unfoldable pub actors_allowed : List EvidenceDescriptor → Bool
actors_allowed items =
    all (λ item. not (from_user_source item.source_class) || str_eq item.actor "user") items

-- `current_claims` holds the claim, and `current_roots` all its roots
unfoldable pub represented : ConsolidationCandidate → List String → List String → List String → Bool
represented candidate current_claims current_roots rs =
    mem_str candidate.claim current_claims && all (λ root. mem_str root current_roots) rs

abbrev semantic_check : Option SemanticValidation → Step (Unit {0})
semantic_check none = stop "semantic_validation_unavailable"
semantic_check (some result) = need result.supported "semantic_support_not_established"

abbrev operation_of : Bool → ConsolidationOperation
operation_of inferred = if inferred then adopt_inference else adopt_statement

module _ (E : RegexEngine) (policy : ConsolidationPolicy) (scope : String)
    (candidate : ConsolidationCandidate) (evidence : List EvidenceDescriptor)
    (current_claims current_roots : List String) (validation : Option SemanticValidation) where
  abbrev decide_as : ConsolidationOperation → String → List String → ConsolidationDecision
  decide_as operation reason rs = record {
    candidate_id = candidate.candidate_id;
    output_digest = candidate.output_digest;
    operation = operation;
    reason = reason;
    distinct_evidence_roots = rs;
    supersedes = candidate.supersedes;
    validator = elim validation [ none ↦ none | some result ↦ some result.validator ];
  }

  -- the checks that do not read the evidence
  screen_steps : Step (Unit {0})
  screen_steps = do
    need (is_none (validate_policy policy)) "invalid_policy"
    need (mode_on policy.mode) "policy_off"
    need (mem_str scope policy.scopes) "scope_not_allowed"
    need (mem_str candidate.claim_class policy.claim_classes) "claim_class_not_allowed"
    need (is_none (validate_candidate candidate)) "malformed_candidate"
    need (is_accept (screen_content E candidate.claim max_record_chars))
        "candidate_content_rejected"
    need (candidate.inferred || not (uncertain_statement candidate.claim))
        "statement_scope_or_negation_uncertain"

  -- the checks of the evidence
  evidence_steps : Step (Unit {0})
  evidence_steps =
      let items = matched candidate evidence in
      do
        need (resolved candidate evidence) "unresolved_source_reference"
        need (classes_allowed policy items) "source_class_not_allowed"
        need (subjects_match candidate items) "subject_scope_mismatch"
        need (candidate.inferred || actors_allowed items) "source_actor_not_allowed"
        need (not (candidate.inferred && ltb (length (roots candidate evidence)) 2))
            "insufficient_distinct_evidence"

  -- what an inferred claim needs besides
  inference_steps : Step (Unit {0})
  inference_steps =
      if candidate.inferred
      then (do
        need policy.semantic_validation "semantic_validation_disabled"
        semantic_check validation)
      else go tt

  conclude : Step ConsolidationDecision
  unfolding inference_steps
  conclude =
      let rs = roots candidate evidence in
      if represented candidate current_claims current_roots rs
      then (do
        need (allows policy no_change) "operation_not_allowed"
        go (decide_as no_change "claim_and_evidence_already_represented" rs))
      else (do
        inference_steps
        need (allows policy (operation_of candidate.inferred)) "operation_not_allowed"
        go (
            decide_as (operation_of candidate.inferred) "bounded_source_and_semantic_checks_passed"
              rs))

  unfoldable pub evaluate_candidate : ConsolidationDecision
  unfolding screen_steps evidence_steps conclude
  evaluate_candidate =
      let outcome : Step ConsolidationDecision = (do screen_steps; evidence_steps; conclude) in
      elim outcome [ go decision ↦ decision | stop reason ↦ decide_as defer reason [] ]
