-- ===== src/Consolidation/Evaluate/Adoption.antt =====
-- When `evaluate_candidate` of src/consolidation/policy.rs adopts, in terms of the evidence itself.
use codex_memoryd.Prelude.{
  String, Bool, true, false, not, ◌&&◌, ◌||◌, ◌≡◌, ◌≢◌, ◌↔◌, ◌⊎◌, inl, inr, sym, ◌∙◌, Option, none,
  List, [], ◌∷◌, All, All-imp, all, select, arith, is_empty, mem_str, str_eq, eq_iff, contains,
  starts_with, to_ascii_lowercase, Bool-cases,
}
use codex_memoryd.Prelude.Distinct.{Distinct}
use codex_memoryd.Prelude.StrSet.{set_of, mem_str-set_of}
use codex_memoryd.Prelude.Counting.{IsPart}
use codex_memoryd.Policy.Regex.{RegexEngine}
use codex_memoryd.Policy.Screen.{screen_content, is_accept, max_record_chars}
use codex_memoryd.Consolidation.Types.{
  off, ConsolidationOperation, ConsolidationDecision, adopt_statement, ConsolidationPolicy,
  ConsolidationCandidate, validate_policy, validate_candidate,
}
use codex_memoryd.Consolidation.Evaluate.{
  EvidenceDescriptor, SemanticValidation, uncertain_statement, roots, classes_allowed,
  subjects_match, actors_allowed, represented, allows, evaluate_candidate,
}
use codex_memoryd.Consolidation.Evaluate.Evidence.{
  evidence_ids, is_named, named_roots, matched-named, roots-named, all-select, select-all,
  two_of_length, length_of_two, failing, not_all, found_of_resolved, resolved_of_found,
}
use codex_memoryd.Consolidation.Evaluate.Soundness.{Screened, Supported, adopt_statement_steps}

-- the words that make a stated claim uncertain
abbrev hedges : List String
hedges =
    "just for this task" ∷ "only for this task" ∷ "hypothetically" ∷ "as an example" ∷ "quoted"
    ∷ "do not remember" ∷ "don't remember" ∷ []

-- a statement with no hedge in it, and no negation in front
abbrev pub IsPlainStatement : String → Type 0
IsPlainStatement claim =
    All (λ hedge. contains (to_ascii_lowercase claim) hedge ≡ false) hedges
    × (starts_with (to_ascii_lowercase claim) "not " ≡ false)

plain_of_certain : (claim : String) → uncertain_statement claim ≡ false → IsPlainStatement claim
unfolding uncertain_statement
plain_of_certain claim h = ground arith

certain_of_plain : (claim : String) → IsPlainStatement claim → uncertain_statement claim ≡ false
unfolding uncertain_statement
certain_of_plain claim h = ground arith

module _ (policy : ConsolidationPolicy) (candidate : ConsolidationCandidate)
    (evidence : List EvidenceDescriptor) where
  -- An evidence that the candidate does not name, or that is good for it.
  pub record IsGood (item : EvidenceDescriptor) : Type 0 where
    pub class : mem_str item.source_class policy.source_classes ≡ true
    pub subject : item.subject ≡ candidate.subject
    pub actor :
        (candidate.inferred ≡ true)
        ⊎ ((item.source_class ≢ "user_statement") × (item.source_class ≢ "turn"))
        ⊎ (item.actor ≡ "user")

  -- The evidence for a candidate: each source that it names is there, what it names is good, and for
  -- an inference it has two different roots.
  pub record Evidenced : Type 0 where
    pub all_found : IsPart candidate.source_ids (evidence_ids evidence)
    pub good : All (λ item. (is_named candidate item ≡ false) ⊎ IsGood item) evidence
    pub two_roots :
        (candidate.inferred ≡ false)
        ⊎ ((r s : String) × (mem_str r (named_roots candidate evidence) ≡ true)
            × (mem_str s (named_roots candidate evidence) ≡ true)
            × (r ≢ s))

  -- the three checks of one evidence
  abbrev acts_for : EvidenceDescriptor → Bool
  acts_for item =
      not (str_eq item.source_class "user_statement" || str_eq item.source_class "turn")
      || str_eq item.actor "user"

  abbrev is_good : EvidenceDescriptor → Bool
  is_good item =
      mem_str item.source_class policy.source_classes
      && str_eq item.subject candidate.subject
      && (candidate.inferred || acts_for item)

  IsGood-checks : (item : EvidenceDescriptor) → is_good item ≡ true → IsGood item
  IsGood-checks item h = record {
    class = ground arith;
    subject = ground (arith, eq_iff item.subject candidate.subject);
    actor = ground (
      arith,
      eq_iff item.source_class "user_statement",
      eq_iff item.source_class "turn",
      eq_iff item.actor "user",
    );
  }

  checked : (item : EvidenceDescriptor) → IsGood item → is_good item ≡ true
  checked item g = ground (
    arith,
    eq_iff item.subject candidate.subject,
    eq_iff item.source_class "user_statement",
    eq_iff item.source_class "turn",
    eq_iff item.actor "user",
  )

  all_checks :
      (items : List EvidenceDescriptor)
      → all is_good items ≡ (
          classes_allowed policy items
          && subjects_match candidate items
          && (candidate.inferred || actors_allowed items))
  unfolding classes_allowed subjects_match actors_allowed
  all_checks [] = ground arith
  all_checks (item ∷ items) = ground (arith, all_checks items)

  abbrev named : List EvidenceDescriptor
  named = select (is_named candidate) evidence

  module _ (E : RegexEngine) (scope : String) (current_claims current_roots : List String)
      (validation : Option SemanticValidation) (distinct : Distinct (evidence_ids evidence)) where
    -- The policy and the claim itself allow adoption.
    pub record Cleared : Type 0 where
      pub policy_valid : validate_policy policy ≡ none
      pub enabled : policy.mode ≢ off
      pub scope_allowed : mem_str scope policy.scopes ≡ true
      pub class_allowed : mem_str candidate.claim_class policy.claim_classes ≡ true
      pub well_formed : validate_candidate candidate ≡ none
      pub content_safe : is_accept (screen_content E candidate.claim max_record_chars) ≡ true
      pub certain : (candidate.inferred ≡ true) ⊎ IsPlainStatement candidate.claim

    -- The claim is not held yet, or one of its roots is not.
    abbrev pub IsNew : Type 0
    IsNew =
        (mem_str candidate.claim current_claims ≡ false)
        ⊎ ((r : String) × (mem_str r (named_roots candidate evidence) ≡ true)
            × (mem_str r current_roots ≡ false))

    abbrev IsScreened : Type 0
    IsScreened = Screened E policy scope candidate evidence current_claims current_roots validation

    abbrev IsSupported : Type 0
    IsSupported =
        Supported E policy scope candidate evidence current_claims current_roots validation

    cleared : IsScreened → Cleared
    cleared s = record {
      policy_valid = s.policy_valid;
      enabled = λ e. ground (arith, s.enabled);
      scope_allowed = s.scope_allowed;
      class_allowed = s.class_allowed;
      well_formed = s.well_formed;
      content_safe = s.content_safe;
      certain = elim s.certain [ inl i ↦ inl i | inr c ↦ inr (plain_of_certain candidate.claim c) ];
    }

    screened : Cleared → IsScreened
    screened c = record {
      policy_valid = c.policy_valid;
      enabled = ground (arith, c.enabled);
      scope_allowed = c.scope_allowed;
      class_allowed = c.class_allowed;
      well_formed = c.well_formed;
      content_safe = c.content_safe;
      certain = elim c.certain [ inl i ↦ inl i | inr p ↦ inr (certain_of_plain candidate.claim p) ];
    }

    evidenced : IsSupported → Evidenced
    evidenced s =
        let same = matched-named candidate evidence in
        let good : all is_good named ≡ true =
          ground (arith, all_checks named, same, s.classes, s.subjects, s.actors) in
        record {
          all_found = found_of_resolved candidate evidence distinct s.all_found;
          good =
              All-imp
                (λ item h. elim h [
                  | inl other ↦ inl other
                  | inr fine ↦ inr (IsGood-checks item fine)
                ])
                evidence (all-select (is_named candidate) is_good evidence good);
          two_roots = elim s.two_roots [
            | inl no_ ↦ inl no_
            | inr two ↦ inr (
                two_of_length (named_roots candidate evidence)
                  (rw (roots-named candidate evidence) at two))
          ];
        }

    filled : validate_candidate candidate ≡ none → is_empty candidate.source_ids ≡ false
    unfolding validate_candidate
    filled h = ground arith

    supported : validate_candidate candidate ≡ none → Evidenced → IsSupported
    supported w e =
        let same = matched-named candidate evidence in
        let good = select-all (is_named candidate) is_good evidence (
          All-imp (λ item h. elim h [ inl other ↦ inl other | inr fine ↦ inr (checked item fine) ])
            evidence e.good) in
        record {
          all_found = resolved_of_found candidate evidence distinct (filled w) e.all_found;
          classes = ground (arith, all_checks named, same, good);
          subjects = ground (arith, all_checks named, same, good);
          actors = ground (arith, all_checks named, same, good);
          two_roots = elim e.two_roots [
            | inl no_ ↦ inl no_
            | inr (r, s, m, n, apart) ↦ inr (
                rw (roots-named candidate evidence)
                  (length_of_two (named_roots candidate evidence) r s m n apart))
          ];
        }

    abbrev is_represented : Bool
    is_represented = represented candidate current_claims current_roots (roots candidate evidence)

    new_of_unrepresented : is_represented ≡ false → IsNew
    unfolding represented
    new_of_unrepresented h = elim (Bool-cases (mem_str candidate.claim current_claims)) [
      | inr unknown ↦ inl unknown
      | inl known ↦
          let some_ : all (λ root. mem_str root current_roots) (roots candidate evidence) ≡ false =
            ground arith in
          let (r, m, fresh) =
            failing (λ root. mem_str root current_roots) (roots candidate evidence) some_ in
          inr (r, sym (mem_str-set_of r _) ∙ (rw (roots-named candidate evidence) at m), fresh)
    ]

    unrepresented_of_new : IsNew → is_represented ≡ false
    unfolding represented
    unrepresented_of_new n = elim n [
      | inl unknown ↦ ground arith
      | inr (r, m, fresh) ↦
          let missing =
            not_all (λ root. mem_str root current_roots) (set_of (named_roots candidate evidence)) r
              (mem_str-set_of r _ ∙ m) fresh in
          rw (roots-named candidate evidence) (ground (arith, missing))
    ]

    abbrev decision : ConsolidationDecision
    decision =
        evaluate_candidate E policy scope candidate evidence current_claims current_roots validation

    abbrev Adopts : ConsolidationOperation → Type 0
    Adopts operation = Cleared × Evidenced × IsNew × (allows policy operation ≡ true)

    -- Where no two evidences have the same id, a stated claim is adopted exactly when the policy is
    -- valid and on and allows its scope and class; the claim is well formed and safe, has none of the
    -- seven hedges in it and does not begin with `not `; each source that it names is among the
    -- evidence, and each evidence that it names is of an allowed class and about its subject, and has
    -- the user as its actor if it is a user statement or a turn; the claim is not held yet, or one of
    -- the roots of this evidence is not; and the policy allows `adopt_statement`.
    pub adopt_statement_iff :
        (decision.operation ≡ adopt_statement)
        ↔ (Adopts adopt_statement × (candidate.inferred ≡ false))
    adopt_statement_iff =
        let steps =
          adopt_statement_steps E policy scope candidate evidence current_claims current_roots
            validation in
        (
          λ h.
              let ((s, e, n, a), i) = steps.0 h in
              ((cleared s, evidenced e, new_of_unrepresented n, a), i),
          λ ((s, e, n, a), i).
              steps.1 ((screened s, supported s.well_formed e, unrepresented_of_new n, a), i),
        )
