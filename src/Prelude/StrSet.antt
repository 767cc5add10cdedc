-- ===== src/Prelude/StrSet.antt =====
-- `BTreeSet<&str>`: a list of texts in ascending order, none twice.
use Prim.Native.Nat.{Ordering}
use Prim.Native.String.{String, compare}
use mathlib.Core.Path.{◌≡◌, refl}
use mathlib.Core.Bool.{◌||◌}
use mathlib.Core.List.{List, [], ◌∷◌}
use native.Mathlib.Omega.{arith}
use text.Mathlib.Text.{◌==◌ as str_eq}
use text.Mathlib.TextEquality.{path_by_compare}
use codex_memoryd.Prelude.Text.{mem_str}

-- `insert`
unfoldable pub set_insert : String → List String → List String
set_insert a [] = a ∷ []
set_insert a (b ∷ bs) = elim (compare a b) [
  | Ordering.lt ↦ a ∷ b ∷ bs
  | Ordering.eq ↦ b ∷ bs
  | Ordering.gt ↦ b ∷ set_insert a bs
]

-- `collect()`
unfoldable pub set_of : List String → List String
unfolding set_insert
set_of [] = []
set_of (a ∷ as_) = set_insert a (set_of as_)

pub mem_str-set_insert :
    (a b : String) (s : List String) → mem_str a (set_insert b s) ≡ (str_eq b a || mem_str a s)
unfolding set_insert
mem_str-set_insert a b [] = refl
mem_str-set_insert a b (c ∷ s) = ground (arith, mem_str-set_insert a b s, path_by_compare b c)

-- A set has the members of the list that it was collected from.
pub mem_str-set_of : (a : String) (xs : List String) → mem_str a (set_of xs) ≡ mem_str a xs
unfolding set_of
mem_str-set_of a [] = refl
mem_str-set_of a (x ∷ xs) = ground (arith, mem_str-set_insert a x (set_of xs), mem_str-set_of a xs)
