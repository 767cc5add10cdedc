-- ===== src/Recall/Rank.antt =====
-- src/recall.rs: the order of the ranked records, `sort_by` in `recall`.
pub mod Laws
use Prim.Native.Nat.{Ordering}
use Prim.Native.String.{compare}
use codex_memoryd.Prelude.{Bool, true, false, Option, none, some, List, [], ◌∷◌, if◌then◌else◌}
use codex_memoryd.Recall.Facts.{Scored}
use codex_memoryd.Recall.Float.{Float}

-- `then_with`
abbrev pub then_with : Ordering → Ordering → Ordering
then_with Ordering.eq later = later
then_with Ordering.lt later = Ordering.lt
then_with Ordering.gt later = Ordering.gt

-- `unwrap_or(Ordering::Equal)`
abbrev pub or_equal : Option Ordering → Ordering
or_equal none = Ordering.eq
or_equal (some o) = o

module _ (f : Float) where
  -- highest score first, then the latest, the most confident, and the first id
  unfoldable pub rank_cmp : Scored → Scored → Ordering
  rank_cmp a b = then_with (or_equal (f.partial_cmp b.score a.score)) (
      then_with (compare b.entry.updated_at a.entry.updated_at) (
        then_with (or_equal (f.partial_cmp b.entry.confidence a.entry.confidence))
          (compare a.entry.id b.entry.id)))

  abbrev pub goes_after : Scored → Scored → Bool
  goes_after a b = elim (rank_cmp a b) [ Ordering.gt ↦ true | _ ↦ false ]

  -- in front of the first entry that it does not go after
  rank_insert : Scored → List Scored → List Scored
  rank_insert e [] = e ∷ []
  rank_insert e (x ∷ xs) =
      let rest = rank_insert e xs in if goes_after e x then x ∷ rest else e ∷ x ∷ xs

  -- A stable sort; where the order is total there is only one.
  unfoldable pub rank : List Scored → List Scored
  unfolding rank_insert
  rank [] = []
  rank (e ∷ es) = rank_insert e (rank es)
