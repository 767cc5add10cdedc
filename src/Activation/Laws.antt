-- ===== src/Activation/Laws.antt =====
-- When src/activation.rs activates a procedure: its veto looks at every negative example.
use codex_memoryd.Prelude.{
  ℕ, ◌<◌, String, Bool, true, false, ◌||◌, ◌≡◌, ◌↔◌, inl, inr, List, [], ◌∷◌, any, is_empty, arith,
  Bool-cases,
}
use codex_memoryd.Domain.MemoryRecord.{F64}
use codex_memoryd.Recall.Float.{Float}
use codex_memoryd.Store.Procedures.{Procedure}
use codex_memoryd.Activation.{
  token_set, cue_tokens, zero_score, ge, jaccard, coverage, negative_match_from, evaluate_with,
}

-- Numbers that are no NaN are ordered: zero is one, and so is a quotient of counts.
pub record IsOrdered (f : Float) (is_number : F64 → Bool) : Type 0 where
  pub zero_is_number : is_number (zero_score f) ≡ true
  pub quotient_is_number :
      (m n : ℕ) → 0 < n → is_number (f.div (f.of_usize m) (f.of_usize n)) ≡ true
  pub above :
      (a b bound : F64)
      → is_number a ≡ true
      → is_number b ≡ true
      → f.lt a b ≡ true
      → (ge f a bound || ge f b bound) ≡ ge f b bound
  pub not_above :
      (a b bound : F64)
      → is_number a ≡ true
      → is_number b ≡ true
      → f.lt a b ≡ false
      → (ge f a bound || ge f b bound) ≡ ge f a bound

module _ (f : Float) (is_number : F64 → Bool) (ordered : IsOrdered f is_number) where
  jaccard_is_number : (a b : List String) → is_number (jaccard f a b) ≡ true
  unfolding jaccard
  jaccard_is_number [] b = ordered.zero_is_number
  jaccard_is_number (x ∷ xs) [] = ordered.zero_is_number
  jaccard_is_number (x ∷ xs) (y ∷ ys) = ordered.quotient_is_number _ _ (omega arith)

  -- Is the query similar to the example, by the bound?
  abbrev pub resembles : F64 → List String → String → Bool
  resembles bound query negative = ge f (jaccard f query (token_set negative)) bound

  negative_match_from-ge :
      (bound : F64) (query : List String) (best : F64) (negatives : List String)
      → is_number best ≡ true
      → ge f (negative_match_from f query best negatives) bound
        ≡ (ge f best bound || any (resembles bound query) negatives)
  unfolding negative_match_from
  negative_match_from-ge bound query best [] h = ground arith
  negative_match_from-ge bound query best (n ∷ negatives) h =
      let sim = jaccard f query (token_set n) in
      let is_sim = jaccard_is_number query (token_set n) in
      elim (Bool-cases (f.lt best sim)) [
        | inl up ↦ rw up (
            ground (
              arith,
              negative_match_from-ge bound query sim negatives is_sim,
              ordered.above best sim bound h is_sim up,
            ))
        | inr stay ↦ rw stay (
            ground (
              arith,
              negative_match_from-ge bound query best negatives h,
              ordered.not_above best sim bound h is_sim stay,
            ))
      ]

  -- Where numbers are ordered and the veto threshold is above zero, a procedure is activated exactly
  -- when the query has a token, resembles none of the negative examples by the veto threshold, and is
  -- covered by the cues by the activation threshold.
  pub evaluate_with_iff :
      (p : Procedure) (query : String) (activation veto : F64)
      → ge f (zero_score f) veto ≡ false
      → ((evaluate_with f p query activation veto).activate ≡ true) ↔ (
          (is_empty (token_set query) ≡ false)
          × (any (resembles veto (token_set query)) p.negative_examples ≡ false)
          × (ge f (coverage f (token_set query) (cue_tokens p)) activation ≡ true))
  unfolding evaluate_with
  evaluate_with_iff p query activation veto low = ground (
    arith,
    negative_match_from-ge veto (token_set query) (zero_score f) p.negative_examples
        ordered.zero_is_number,
  )
