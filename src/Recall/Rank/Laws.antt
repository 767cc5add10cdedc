-- ===== src/Recall/Rank/Laws.antt =====
-- The order of the ranked records keeps them all, each in its place.
use Prim.Native.Nat.{Ordering}
use Prim.Native.String.{compare}
use mathlib.Core.List.{Perm}
use mathlib.Core.List.Perm
use codex_memoryd.Prelude.{
  none, some, ◌⊎◌, ◌≢◌, suc, true, false, Bool-cases, subst, ◌≡◌, refl, ap, ◌∙◌, inl, inr, List, [],
  ◌∷◌, length, All, arith,
}
use codex_memoryd.Prelude.StrOrder.{flip, compare-flip}
use codex_memoryd.Domain.MemoryRecord.{F64}
use codex_memoryd.Recall.Facts.{Scored}
use codex_memoryd.Recall.Float.{Float}
use codex_memoryd.Recall.Rank.{or_equal, rank_cmp, goes_after, rank_insert, rank}

module _ (f : Float) where
  length-rank_insert :
      (e : Scored) (xs : List Scored) → length (rank_insert f e xs) ≡ suc (length xs)
  unfolding rank_insert
  length-rank_insert e [] = refl
  length-rank_insert e (x ∷ xs) = ground (arith, length-rank_insert e xs)

  pub length-rank : (xs : List Scored) → length (rank f xs) ≡ length xs
  unfolding rank
  length-rank [] = refl
  length-rank (x ∷ xs) = length-rank_insert x (rank f xs) ∙ ap suc (length-rank xs)

  All-rank_insert :
      (P : Scored → Type 0) (e : Scored) (xs : List Scored)
      → P e
      → All P xs
      → All P (rank_insert f e xs)
  unfolding rank_insert
  All-rank_insert P e [] p h = (p, tt)
  All-rank_insert P e (x ∷ xs) p h = elim (Bool-cases (goes_after f e x)) [
    | inl after ↦ rw after (h.0, All-rank_insert P e xs p h.1)
    | inr fits ↦ rw fits (p, (h.0, h.1))
  ]

  pub All-rank : (P : Scored → Type 0) (xs : List Scored) → All P xs → All P (rank f xs)
  unfolding rank
  All-rank P [] h = tt
  All-rank P (x ∷ xs) h = All-rank_insert P x (rank f xs) h.0 (All-rank P xs h.1)

  -- No entry goes after the one behind it.
  abbrev pub IsRanked : List Scored → Type 0
  IsRanked [] = Unit
  IsRanked (e ∷ []) = Unit
  IsRanked (e ∷ x ∷ xs) = (goes_after f e x ≡ false) × IsRanked (x ∷ xs)

  rank_insert-perm : (e : Scored) (xs : List Scored) → Perm (rank_insert f e xs) (e ∷ xs)
  unfolding rank_insert
  rank_insert-perm e [] = Perm.refl (e ∷ [])
  rank_insert-perm e (x ∷ xs) = elim (Bool-cases (goes_after f e x)) [
    | inl after ↦ rw after (Perm.trans (Perm.cons x (rank_insert-perm e xs)) (Perm.swap e x xs))
    | inr fits ↦ rw fits (Perm.refl (e ∷ x ∷ xs))
  ]

  rank-perm : (xs : List Scored) → Perm (rank f xs) xs
  unfolding rank
  rank-perm [] = Perm.refl []
  rank-perm (x ∷ xs) = Perm.trans (rank_insert-perm x (rank f xs)) (Perm.cons x (rank-perm xs))

  -- numbers of which neither is the greater
  abbrev pub Tied : F64 → F64 → Type 0
  Tied x y = (f.partial_cmp x y ≡ some Ordering.eq) ⊎ (f.partial_cmp x y ≡ none)

  -- the order that the answer promises, of an entry and the next
  abbrev pub Precedes : Scored → Scored → Type 0
  Precedes a b =
      (f.partial_cmp a.score b.score ≡ some Ordering.gt)
      ⊎ (Tied a.score b.score
          × ((compare a.entry.updated_at b.entry.updated_at ≡ Ordering.gt)
              ⊎ ((compare a.entry.updated_at b.entry.updated_at ≡ Ordering.eq)
                  × ((f.partial_cmp a.entry.confidence b.entry.confidence ≡ some Ordering.gt)
                      ⊎ (Tied a.entry.confidence b.entry.confidence
                          × (compare a.entry.id b.entry.id ≢ Ordering.gt))))))

  abbrev pub InOrder : List Scored → Type 0
  InOrder [] = Unit
  InOrder (a ∷ []) = Unit
  InOrder (a ∷ b ∷ xs) = Precedes a b × InOrder (b ∷ xs)

  module _
      (dual : (a b : F64)
        → or_equal (f.partial_cmp b a) ≡ flip (or_equal (f.partial_cmp a b))) where
    rank_cmp-flip : (a b : Scored) → rank_cmp f b a ≡ flip (rank_cmp f a b)
    unfolding rank_cmp
    rank_cmp-flip a b = ground (
      arith,
      dual a.score b.score,
      dual b.score a.score,
      dual a.entry.confidence b.entry.confidence,
      dual b.entry.confidence a.entry.confidence,
      compare-flip a.entry.updated_at b.entry.updated_at,
      compare-flip a.entry.id b.entry.id,
      compare-flip b.entry.updated_at a.entry.updated_at,
    )

    goes_after-flip : (a b : Scored) → goes_after f a b ≡ true → goes_after f b a ≡ false
    goes_after-flip a b h = ground (arith, rank_cmp-flip a b)

    rank_insert-behind :
        (e x : Scored) (xs : List Scored)
        → goes_after f e x ≡ true
        → rank_insert f e (x ∷ xs) ≡ x ∷ rank_insert f e xs
    unfolding rank_insert
    rank_insert-behind e x xs after = rw after

    rank_insert-before :
        (e x : Scored) (xs : List Scored)
        → goes_after f e x ≡ false
        → rank_insert f e (x ∷ xs) ≡ e ∷ x ∷ xs
    unfolding rank_insert
    rank_insert-before e x xs fits = rw fits

    -- an insertion further back keeps the order of the first
    IsRanked-behind :
        (e x y : Scored) (ys : List Scored)
        → goes_after f e x ≡ true
        → goes_after f x y ≡ false
        → IsRanked (rank_insert f e (y ∷ ys))
        → IsRanked (rank_insert f e (x ∷ y ∷ ys))
    unfolding rank_insert
    IsRanked-behind e x y ys after xy h = elim (Bool-cases (goes_after f e y)) [
      | inl later ↦ rw (after, later) (xy, subst IsRanked (rank_insert-behind e y ys later) h)
      | inr fits ↦
          rw (after, fits)
            (goes_after-flip e x after, subst IsRanked (rank_insert-before e y ys fits) h)
    ]

    IsRanked-rank_insert :
        (e : Scored) (xs : List Scored) → IsRanked xs → IsRanked (rank_insert f e xs)
    unfolding rank_insert
    IsRanked-rank_insert e [] h = tt
    IsRanked-rank_insert e (x ∷ []) h = elim (Bool-cases (goes_after f e x)) [
      | inl after ↦ rw after (goes_after-flip e x after, tt)
      | inr fits ↦ rw fits (fits, tt)
    ]
    IsRanked-rank_insert e (x ∷ y ∷ ys) h = elim (Bool-cases (goes_after f e x)) [
      | inl after ↦ IsRanked-behind e x y ys after h.0 (IsRanked-rank_insert e (y ∷ ys) h.1)
      | inr fits ↦ rw fits (fits, h)
    ]

    before_next : (a b : Scored) → goes_after f a b ≡ false → Precedes a b
    unfolding rank_cmp
    before_next a b h = ground (
      arith,
      dual a.score b.score,
      dual a.entry.confidence b.entry.confidence,
      compare-flip a.entry.updated_at b.entry.updated_at,
    )

    in_order : (xs : List Scored) → IsRanked xs → InOrder xs
    in_order [] h = tt
    in_order (a ∷ []) h = tt
    in_order (a ∷ b ∷ xs) h = (before_next a b h.0, in_order (b ∷ xs) h.1)

    IsRanked-rank : (xs : List Scored) → IsRanked (rank f xs)
    unfolding rank
    IsRanked-rank [] = tt
    IsRanked-rank (x ∷ xs) = IsRanked-rank_insert x (rank f xs) (IsRanked-rank xs)

    -- Where the comparison of numbers is dual, as `PartialOrd` documents it, the ranked entries are
    -- the given ones in another order, and each has a greater score than the next; or their scores
    -- are equal or not comparable and it was updated later; or at the same time, and it has the
    -- greater confidence; or that is equal or not comparable too, and its id is not the greater.
    pub rank-InOrder : (xs : List Scored) → InOrder (rank f xs) × Perm (rank f xs) xs
    rank-InOrder xs = (in_order (rank f xs) (IsRanked-rank xs), rank-perm xs)
