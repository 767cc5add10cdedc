-- ===== src/Prelude/Distinct.antt =====
-- Lists of texts with no text twice: what the program's `!contains` before `push` and its
-- `BTreeSet::insert` guards keep.
use mathlib.Core.Path.{◌≡◌, refl}
use mathlib.Core.Bool.{false, ◌||◌}
use mathlib.Core.List.{List, [], ◌∷◌, ◌++◌}
use Prim.Native.String.{String}
use native.Mathlib.Omega.{arith}
use text.Mathlib.Text.{◌==◌ as str_eq}
use text.Mathlib.TextEquality.{eq_iff}
use codex_memoryd.Prelude.Tests.{if◌then◌else◌}
use codex_memoryd.Prelude.Text.{mem_str}

abbrev pub Distinct : List String → Type 0
Distinct [] = Unit
Distinct (x ∷ xs) = (mem_str x xs ≡ false) × Distinct xs

pub mem_str-append :
    (a b : String) (xs : List String) → mem_str a (xs ++ b ∷ []) ≡ (mem_str a xs || str_eq b a)
mem_str-append a b [] = ground arith
mem_str-append a b (x ∷ xs) = ground (arith, mem_str-append a b xs)

pub Distinct-append :
    (xs : List String) (x : String) → Distinct xs → mem_str x xs ≡ false → Distinct (xs ++ x ∷ [])
Distinct-append [] x d h = (refl, tt)
Distinct-append (y ∷ ys) x d h = (
  ground (arith, mem_str-append y x ys, eq_iff x y, eq_iff y x),
  Distinct-append ys x d.1 (ground arith),
)

-- the guarded push
abbrev pub push_new : List String → String → List String
push_new xs x = if mem_str x xs then xs else xs ++ x ∷ []

pub push_new-Distinct : (xs : List String) (x : String) → Distinct xs → Distinct (push_new xs x)
push_new-Distinct xs x d = ground (arith, Distinct-append xs x)
