-- ===== src/Consolidation/Evaluate/Evidence.antt =====
-- What the evidence checks of src/consolidation/policy.rs come to, where no two evidences have one id.
use codex_memoryd.Prelude.{
  suc, ◌≤◌, ◌<◌, String, Bool, true, false, ◌&&◌, ◌≡◌, ◌≢◌, ◌⊎◌, refl, ap, sym, ◌∙◌, inl, inr, List,
  [], ◌∷◌, All, all, select, map, length, is_empty, mem_str, eq_iff, arith, Bool-cases,
}
use text.Mathlib.TextPositions.{eq_refl}
use codex_memoryd.Prelude.Distinct.{Distinct}
use codex_memoryd.Prelude.StrSet.{set_of, mem_str-set_of}
use codex_memoryd.Prelude.StrOrder.{Ascending-set_of}
use codex_memoryd.Prelude.Counting.{IsPart, length-IsPart, IsPart-full, Distinct-Ascending}
use codex_memoryd.Consolidation.Types.{ConsolidationCandidate}
use codex_memoryd.Consolidation.Evaluate.{EvidenceDescriptor, matched, roots, resolved}

-- the ids of evidence
abbrev pub evidence_ids : List EvidenceDescriptor → List String
evidence_ids = map λ item. item.id

-- an evidence that the candidate names
abbrev pub is_named : ConsolidationCandidate → EvidenceDescriptor → Bool
is_named candidate item = mem_str item.id candidate.source_ids

-- the roots of the evidence that the candidate names
abbrev pub named_roots : ConsolidationCandidate → List EvidenceDescriptor → List String
named_roots candidate evidence = map (λ item. item.root_id) (select (is_named candidate) evidence)

select-same {ℓ} :
    {A : Type ℓ} (p q : A → Bool)
    → ((x : A) → p x ≡ q x)
    → (xs : List A) → select p xs ≡ select q xs
select-same p q same [] = refl
select-same p q same (x ∷ xs) = ground (arith, same x, select-same p q same xs)

pub all-select {ℓ} :
    {A : Type ℓ} (p q : A → Bool) (xs : List A)
    → all q (select p xs) ≡ true
    → All (λ x. (p x ≡ false) ⊎ (q x ≡ true)) xs
all-select p q [] h = tt
all-select p q (x ∷ xs) h = elim (Bool-cases (p x)) [
  | inl yes_ ↦ (inr (ground arith), all-select p q xs (ground arith))
  | inr no_ ↦ (inl no_, all-select p q xs (ground arith))
]

pub select-all {ℓ} :
    {A : Type ℓ} (p q : A → Bool) (xs : List A)
    → All (λ x. (p x ≡ false) ⊎ (q x ≡ true)) xs
    → all q (select p xs) ≡ true
select-all p q [] h = refl
select-all p q (x ∷ xs) h = ground (arith, select-all p q xs h.1)

module _ (candidate : ConsolidationCandidate) (evidence : List EvidenceDescriptor) where
  pub matched-named : matched candidate evidence ≡ select (is_named candidate) evidence
  unfolding matched
  matched-named = select-same _ _ (λ item. mem_str-set_of item.id candidate.source_ids) evidence

  pub roots-named : roots candidate evidence ≡ set_of (named_roots candidate evidence)
  unfolding roots
  roots-named = ap (λ items. set_of (map (λ item. item.root_id) items)) matched-named

abbrev matched_ids : ConsolidationCandidate → List EvidenceDescriptor → List String
matched_ids candidate evidence = evidence_ids (select (is_named candidate) evidence)

mem-matched_ids :
    (candidate : ConsolidationCandidate) (evidence : List EvidenceDescriptor) (a : String)
    → mem_str a (matched_ids candidate evidence)
      ≡ (mem_str a (evidence_ids evidence) && mem_str a candidate.source_ids)
mem-matched_ids candidate [] a = refl
mem-matched_ids candidate (e ∷ es) a = ground (arith, mem-matched_ids candidate es a, eq_iff e.id a)

Distinct-matched_ids :
    (candidate : ConsolidationCandidate) (evidence : List EvidenceDescriptor)
    → Distinct (evidence_ids evidence)
    → Distinct (matched_ids candidate evidence)
Distinct-matched_ids candidate [] d = tt
Distinct-matched_ids candidate (e ∷ es) d = elim (Bool-cases (is_named candidate e)) [
  | inl named ↦
      rw named
        (ground (arith, mem-matched_ids candidate es e.id), Distinct-matched_ids candidate es d.1)
  | inr other ↦ rw other (Distinct-matched_ids candidate es d.1)
]

length-evidence_ids : (es : List EvidenceDescriptor) → length (evidence_ids es) ≡ length es
length-evidence_ids [] = refl
length-evidence_ids (e ∷ es) = ap suc (length-evidence_ids es)

no_member : (a : String) (xs : List String) → is_empty xs ≡ true → mem_str a xs ≡ false
no_member a [] h = refl
no_member a (x ∷ xs) h = absurd (ground arith)

length_filled : (xs : List String) → is_empty xs ≡ false → 0 < length xs
length_filled [] h = absurd (ground arith)
length_filled (x ∷ xs) h = ground arith

two_of_distinct :
    (xs : List String)
    → Distinct xs
    → 2 ≤ length xs
    → (r s : String) × (mem_str r xs ≡ true) × (mem_str s xs ≡ true) × (r ≢ s)
two_of_distinct [] d h = absurd (ground arith)
two_of_distinct (r ∷ []) d h = absurd (ground arith)
two_of_distinct (r ∷ s ∷ xs) d h =
    (r, s, ground (arith, eq_refl r), ground (arith, eq_refl s), λ e. ground (arith, eq_iff s r))

filled_set : (xs : List String) → is_empty xs ≡ false → is_empty (set_of xs) ≡ false
filled_set [] h = absurd (ground arith)
filled_set (x ∷ xs) h = elim (Bool-cases (is_empty (set_of (x ∷ xs)))) [
  | inl none_ ↦
      absurd
        (ground (arith, no_member x (set_of (x ∷ xs)) none_, mem_str-set_of x (x ∷ xs), eq_refl x))
  | inr some_ ↦ some_
]

some_source : (xs : List String) → is_empty xs ≡ false → 0 < length (set_of xs)
some_source xs h = length_filled (set_of xs) (filled_set xs h)

some_root :
    (es : List EvidenceDescriptor)
    → 0 < length es
    → is_empty (set_of (map (λ item. item.root_id) es)) ≡ false
some_root [] h = absurd (ground arith)
some_root (e ∷ es) h = filled_set (map (λ item. item.root_id) (e ∷ es)) refl

-- two members that differ, of a set with two members or more
pub two_of_length :
    (xs : List String)
    → 2 ≤ length (set_of xs)
    → (r s : String) × (mem_str r xs ≡ true) × (mem_str s xs ≡ true) × (r ≢ s)
two_of_length xs h =
    let (r, s, m, n, apart) =
      two_of_distinct (set_of xs) (Distinct-Ascending _ (Ascending-set_of xs)) h in
    (r, s, sym (mem_str-set_of r xs) ∙ m, sym (mem_str-set_of s xs) ∙ n, apart)

pub length_of_two :
    (xs : List String) (r s : String)
    → mem_str r xs ≡ true
    → mem_str s xs ≡ true
    → r ≢ s
    → 2 ≤ length (set_of xs)
length_of_two xs r s m n apart =
    length-IsPart (r ∷ s ∷ []) (set_of xs) (ground (arith, eq_iff s r), (refl, tt))
      (λ a k. ground (arith, mem_str-set_of a xs, eq_iff r a, eq_iff s a))

-- a member that fails a test of all
pub failing :
    (p : String → Bool) (xs : List String)
    → all p xs ≡ false
    → (r : String) × (mem_str r xs ≡ true) × (p r ≡ false)
failing p [] h = absurd (ground arith)
failing p (x ∷ xs) h = elim (Bool-cases (p x)) [
  | inl good ↦ let (r, m, bad) = failing p xs (ground arith) in (r, ground arith, bad)
  | inr bad ↦ (x, ground (arith, eq_refl x), bad)
]

pub not_all :
    (p : String → Bool) (xs : List String) (r : String)
    → mem_str r xs ≡ true
    → p r ≡ false
    → all p xs ≡ false
not_all p [] r m bad = absurd (ground arith)
not_all p (x ∷ xs) r m bad = ground (arith, not_all p xs r, eq_iff x r)

module _ (candidate : ConsolidationCandidate) (evidence : List EvidenceDescriptor)
    (distinct : Distinct (evidence_ids evidence)) where
  part : IsPart (matched_ids candidate evidence) (set_of candidate.source_ids)
  part a m =
      ground (arith, mem-matched_ids candidate evidence a, mem_str-set_of a candidate.source_ids)

  abbrev SameCount : Type 0
  SameCount = length (matched_ids candidate evidence) ≡ length (set_of candidate.source_ids)

  found_of_count : SameCount → IsPart candidate.source_ids (evidence_ids evidence)
  found_of_count e a m =
      let full =
        IsPart-full (matched_ids candidate evidence) (set_of candidate.source_ids)
          (Distinct-matched_ids candidate evidence distinct) part e a
          (mem_str-set_of a candidate.source_ids ∙ m) in
      ground (arith, mem-matched_ids candidate evidence a)

  count_of_found : IsPart candidate.source_ids (evidence_ids evidence) → SameCount
  count_of_found h =
      let below =
        length-IsPart (matched_ids candidate evidence) (set_of candidate.source_ids)
          (Distinct-matched_ids candidate evidence distinct) part in
      let above =
        length-IsPart (set_of candidate.source_ids) (matched_ids candidate evidence)
          (Distinct-Ascending _ (Ascending-set_of candidate.source_ids))
          (λ a m. ground (
            arith,
            mem_str-set_of a candidate.source_ids,
            h a,
            mem-matched_ids candidate evidence a,
          )) in
      omega arith

  -- The count of the evidence found is right exactly when each source that is named is there.
  pub found_of_resolved :
      resolved candidate evidence ≡ true → IsPart candidate.source_ids (evidence_ids evidence)
  unfolding resolved
  found_of_resolved h =
      let named = matched-named candidate evidence in
      found_of_count (
        length-evidence_ids (select (is_named candidate) evidence)
        ∙ (ap length (sym named) ∙ ground arith))

  pub resolved_of_found :
      is_empty candidate.source_ids ≡ false
      → IsPart candidate.source_ids (evidence_ids evidence)
      → resolved candidate evidence ≡ true
  unfolding resolved
  resolved_of_found filled h =
      let named = matched-named candidate evidence in
      let count = count_of_found h in
      let size = length-evidence_ids (select (is_named candidate) evidence) in
      rw named (
        ground (
          arith,
          some_root (select (is_named candidate) evidence),
          some_source candidate.source_ids,
        ))
