-- ===== src/Retrieval/Fusion/Laws.antt =====
-- The fused ranking of src/hybrid_retrieval.rs has the candidates of the rankings, each once.
use text.Mathlib.TextEquality.{path_by_compare, eq_iff}
use codex_memoryd.Prelude.Distinct.{Distinct}
use codex_memoryd.Prelude.StrOrder.{Ascending, Ascending-set_insert, not-mem-Ascending}
use codex_memoryd.Prelude.{
  sym, ◌∙◌, false, ℕ, suc, String, true, ◌||◌, ◌≡◌, refl, subst, inl, inr, List, [], ◌∷◌, any,
  mem_str, str_eq, arith, Bool-cases,
}
use codex_memoryd.Prelude.StrSet.{set_insert, mem_str-set_insert}
use codex_memoryd.Domain.MemoryRecord.{F64}
use codex_memoryd.Recall.Float.{Float}
use codex_memoryd.Retrieval.Fusion.{
  Fused, ids, follows, add_score, weight_at, fuse_from, fuse_all, sort_insert, sort_scores,
  reciprocal_rank_fusion,
}

module _ (f : Float) (a : String) where
  mem_str-add_score :
      (c : String) (w : F64) (scores : List Fused)
      → mem_str a (ids (add_score f c w scores)) ≡ (str_eq c a || mem_str a (ids scores))
  unfolding add_score
  mem_str-add_score c w [] = refl
  mem_str-add_score c w (e ∷ scores) =
      ground (arith, mem_str-add_score c w scores, path_by_compare c e.id)

  mem_str-sort_insert :
      (e : Fused) (xs : List Fused)
      → mem_str a (ids (sort_insert f e xs)) ≡ (str_eq e.id a || mem_str a (ids xs))
  unfolding sort_insert
  mem_str-sort_insert e [] = refl
  mem_str-sort_insert e (x ∷ xs) = ground (arith, mem_str-sort_insert e xs)

  mem_str-sort_scores : (xs : List Fused) → mem_str a (ids (sort_scores f xs)) ≡ mem_str a (ids xs)
  unfolding sort_scores
  mem_str-sort_scores [] = refl
  mem_str-sort_scores (x ∷ xs) =
      ground (arith, mem_str-sort_insert x (sort_scores f xs), mem_str-sort_scores xs)

  -- a text that was seen in the ranking has a score
  abbrev Scored : List String → List Fused → Type 0
  Scored seen scores = mem_str a seen ≡ true → mem_str a (ids scores) ≡ true

  mem_str-fuse_from :
      (k rank : ℕ) (seen : List String) (scores : List Fused) (ranking : List String)
      → Scored seen scores
      → mem_str a (ids (fuse_from f k rank seen scores ranking))
        ≡ (mem_str a ranking || mem_str a (ids scores))
  unfolding fuse_from
  mem_str-fuse_from k rank seen scores [] h = refl
  mem_str-fuse_from k rank seen scores (c ∷ ranking) h =
      let fresh_scores = add_score f c (weight_at f k rank) scores in
      elim (Bool-cases (mem_str c seen)) [
        | inl old ↦
            let again : str_eq c a ≡ true → mem_str a seen ≡ true =
              λ e. subst (λ x. mem_str x seen ≡ true) ((eq_iff c a).0 e) old in
            rw old (ground (arith, again, h, mem_str-fuse_from k (suc rank) seen scores ranking h))
        | inr new ↦
            let kept : Scored (set_insert c seen) fresh_scores = ground (
              arith,
              mem_str-set_insert a c seen,
              mem_str-add_score c (weight_at f k rank) scores,
              h,
            ) in
            rw new (
              ground (
                arith,
                mem_str-add_score c (weight_at f k rank) scores,
                mem_str-fuse_from k (suc rank) (set_insert c seen) fresh_scores ranking kept,
              ))
      ]

  mem_str-fuse_all :
      (k : ℕ) (scores : List Fused) (rankings : List (List String))
      → mem_str a (ids (fuse_all f k scores rankings))
        ≡ (any (mem_str a) rankings || mem_str a (ids scores))
  unfolding fuse_all
  mem_str-fuse_all k scores [] = refl
  mem_str-fuse_all k scores (r ∷ rankings) = ground (
    arith,
    mem_str-fuse_all k (fuse_from f k 0 [] scores r) rankings,
    mem_str-fuse_from k 0 [] scores r,
  )

-- The ids of the scores are ascending, so that none stands there twice.
module _ (f : Float) where
  ids-add_score :
      (c : String) (w : F64) (scores : List Fused)
      → ids (add_score f c w scores) ≡ set_insert c (ids scores)
  unfolding add_score set_insert
  ids-add_score c w [] = refl
  ids-add_score c w (e ∷ scores) = ground (arith, ids-add_score c w scores)

  Ascending-fuse_from :
      (k rank : ℕ) (seen : List String) (scores : List Fused) (ranking : List String)
      → Ascending (ids scores)
      → Ascending (ids (fuse_from f k rank seen scores ranking))
  unfolding fuse_from
  Ascending-fuse_from k rank seen scores [] h = h
  Ascending-fuse_from k rank seen scores (c ∷ ranking) h =
      let fresh_scores = add_score f c (weight_at f k rank) scores in
      let ordered : Ascending (ids fresh_scores) =
        subst Ascending (sym (ids-add_score c (weight_at f k rank) scores))
          (Ascending-set_insert c (ids scores) h) in
      elim (Bool-cases (mem_str c seen)) [
        | inl old ↦ rw old (Ascending-fuse_from k (suc rank) seen scores ranking h)
        | inr new ↦
            rw new
              (Ascending-fuse_from k (suc rank) (set_insert c seen) fresh_scores ranking ordered)
      ]

  Ascending-fuse_all :
      (k : ℕ) (scores : List Fused) (rankings : List (List String))
      → Ascending (ids scores)
      → Ascending (ids (fuse_all f k scores rankings))
  unfolding fuse_all
  Ascending-fuse_all k scores [] h = h
  Ascending-fuse_all k scores (r ∷ rankings) h =
      Ascending-fuse_all k (fuse_from f k 0 [] scores r) rankings
        (Ascending-fuse_from k 0 [] scores r h)

  Distinct-sort_insert :
      (e : Fused) (xs : List Fused)
      → mem_str e.id (ids xs) ≡ false
      → Distinct (ids xs)
      → Distinct (ids (sort_insert f e xs))
  unfolding sort_insert
  Distinct-sort_insert e [] n d = (refl, tt)
  Distinct-sort_insert e (x ∷ xs) n d = elim (Bool-cases (follows f e x)) [
    | inl after ↦ rw after (
      ground (arith, mem_str-sort_insert f x.id e xs, eq_iff e.id x.id, eq_iff x.id e.id),
      Distinct-sort_insert e xs (ground arith) d.1,
    )
    | inr fits ↦ rw fits (n, d)
  ]

  Distinct-sort_scores : (xs : List Fused) → Ascending (ids xs) → Distinct (ids (sort_scores f xs))
  unfolding sort_scores
  Distinct-sort_scores [] h = tt
  Distinct-sort_scores (x ∷ xs) h =
      Distinct-sort_insert x (sort_scores f xs)
        (mem_str-sort_scores f x.id xs ∙ not-mem-Ascending x.id (ids xs) h.0)
        (Distinct-sort_scores xs h.1)

  -- The fused ranking holds a candidate exactly when one of the rankings does, and none twice.
  pub reciprocal_rank_fusion_lem :
      (rankings : List (List String)) (fusion_k : ℕ)
      → ((a : String)
          → mem_str a (reciprocal_rank_fusion f rankings fusion_k) ≡ any (mem_str a) rankings)
        × Distinct (reciprocal_rank_fusion f rankings fusion_k)
  unfolding reciprocal_rank_fusion
  reciprocal_rank_fusion_lem rankings fusion_k = (
    λ a. ground (
      arith,
      mem_str-sort_scores f a (fuse_all f fusion_k [] rankings),
      mem_str-fuse_all f a fusion_k [] rankings,
    ),
    Distinct-sort_scores (fuse_all f fusion_k [] rankings)
        (Ascending-fuse_all fusion_k [] rankings tt),
  )
