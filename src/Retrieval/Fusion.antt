-- ===== src/Retrieval/Fusion.antt =====
-- `reciprocal_rank_fusion` of src/hybrid_retrieval.rs, over the arithmetic of f64.
pub mod Laws
use Prim.Native.Nat.{Ordering}
use Prim.Native.String.{compare}
use codex_memoryd.Prelude.{
  ℕ, suc, String, Bool, true, false, List, [], ◌∷◌, map, mem_str, if◌then◌else◌,
}
use codex_memoryd.Prelude.Int.{pos}
use codex_memoryd.Prelude.StrSet.{set_insert}
use codex_memoryd.Domain.MemoryRecord.{F64}
use codex_memoryd.Recall.Float.{Float}
use codex_memoryd.Recall.Rank.{then_with, or_equal}

-- an entry of the `BTreeMap` of scores, which is in the order of its ids
pub record Fused : Type 0 where
  pub id : String
  pub score : F64

abbrev pub ids : List Fused → List String
ids scores = map (λ e. e.id) scores

module _ (f : Float) where
  abbrev one : F64
  one = f.hundredths (pos 100)

  abbrev fused : String → F64 → F64 → Fused
  fused candidate score weight = record { id = candidate; score = f.add score weight }

  -- `*scores.entry(candidate).or_insert(0.0) += weight`
  unfoldable pub add_score : String → F64 → List Fused → List Fused
  add_score candidate weight [] = fused candidate (f.hundredths (pos 0)) weight ∷ []
  add_score candidate weight (e ∷ scores) =
      let rest = add_score candidate weight scores in
      elim (compare candidate e.id) [
        | Ordering.lt ↦ fused candidate (f.hundredths (pos 0)) weight ∷ e ∷ scores
        | Ordering.eq ↦ fused e.id e.score weight ∷ scores
        | Ordering.gt ↦ e ∷ rest
      ]

  abbrev weight_at : ℕ → ℕ → F64
  weight_at fusion_k rank = f.div one (f.add (f.add (f.of_usize fusion_k) (f.of_usize rank)) one)

  -- the loop over a ranking from some rank on, with `seen`
  unfoldable pub fuse_from : ℕ → ℕ → List String → List Fused → List String → List Fused
  fuse_from fusion_k rank seen scores [] = scores
  fuse_from fusion_k rank seen scores (candidate ∷ ranking) =
      let skip = fuse_from fusion_k (suc rank) seen scores ranking in
      let next =
        fuse_from fusion_k (suc rank) (set_insert candidate seen)
          (add_score candidate (weight_at fusion_k rank) scores) ranking in
      if mem_str candidate seen then skip else next

  unfoldable pub fuse_all : ℕ → List Fused → List (List String) → List Fused
  fuse_all fusion_k scores [] = scores
  fuse_all fusion_k scores (ranking ∷ rankings) =
      fuse_all fusion_k (fuse_from fusion_k 0 [] scores ranking) rankings

  -- highest score first, then the first id
  abbrev pub follows : Fused → Fused → Bool
  follows a b = elim (then_with (or_equal (f.partial_cmp b.score a.score)) (compare a.id b.id)) [
    | Ordering.gt ↦ true
    | _ ↦ false
  ]

  unfoldable pub sort_insert : Fused → List Fused → List Fused
  sort_insert e [] = e ∷ []
  sort_insert e (x ∷ xs) =
      let rest = sort_insert e xs in if follows e x then x ∷ rest else e ∷ x ∷ xs

  unfoldable pub sort_scores : List Fused → List Fused
  sort_scores [] = []
  sort_scores (e ∷ es) = sort_insert e (sort_scores es)

  unfoldable pub reciprocal_rank_fusion : List (List String) → ℕ → List String
  reciprocal_rank_fusion rankings fusion_k = ids (sort_scores (fuse_all fusion_k [] rankings))
