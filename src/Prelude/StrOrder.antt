-- ===== src/Prelude/StrOrder.antt =====
-- The order of `str`: `compare` is a strict total order, and an ascending list is determined by its
-- members.
use Prim.Native.Nat.{Ordering}
use Prim.Native.String.{String, compare}
use Prim.Native.String.compare
use mathlib.Core.Path.{◌≡◌, refl, sym, ◌∙◌, subst}
use mathlib.Core.Bool.{true, false}
use mathlib.Core.List.{List, [], ◌∷◌}
use mathlib.Core.Logic.{◌⊎◌, inl, inr}
use native.Mathlib.Omega.{arith}
use text.Mathlib.Text.{◌==◌ as str_eq}
use text.Mathlib.TextEquality.{eq_iff}
use text.Mathlib.TextPositions.{compare_refl, eq_refl}
use codex_memoryd.Prelude.Tests.{Bool-cases}
use codex_memoryd.Prelude.Lists.{All}
use codex_memoryd.Prelude.Text.{mem_str}
use codex_memoryd.Prelude.StrSet.{set_insert, set_of, mem_str-set_of}

-- the order read the other way round
abbrev pub flip : Ordering → Ordering
flip Ordering.lt = Ordering.gt
flip Ordering.eq = Ordering.eq
flip Ordering.gt = Ordering.lt

pub compare-flip : (s t : String) → compare t s ≡ flip (compare s t)
compare-flip String.[] String.[] = ground arith
compare-flip String.[] (String.◌∷◌ d t) = ground (arith, compare.nil-cons d t, compare.cons-nil d t)
compare-flip (String.◌∷◌ c s) String.[] = ground (arith, compare.nil-cons c s, compare.cons-nil c s)
compare-flip (String.◌∷◌ c s) (String.◌∷◌ d t) =
    ground (arith, compare.cons-cons c d s t, compare.cons-cons d c t s, compare-flip s t)

pub compare_trans :
    (s t u : String)
    → compare s t ≡ Ordering.lt
    → compare t u ≡ Ordering.lt
    → compare s u ≡ Ordering.lt
compare_trans s String.[] String.[] h k = ground (arith, compare.nil-nil)
compare_trans String.[] String.[] (String.◌∷◌ e u) h k = ground (arith, compare.nil-nil)
compare_trans (String.◌∷◌ c s) String.[] u h k = ground (arith, compare.cons-nil c s)
compare_trans s (String.◌∷◌ d t) String.[] h k = ground (arith, compare.cons-nil d t)
compare_trans String.[] (String.◌∷◌ d t) (String.◌∷◌ e u) h k = ground (arith, compare.nil-cons e u)
compare_trans (String.◌∷◌ c s) (String.◌∷◌ d t) (String.◌∷◌ e u) h k = ground (
  arith,
  compare.cons-cons c d s t,
  compare.cons-cons d e t u,
  compare.cons-cons c e s u,
  compare_trans s t u,
)

-- every element is below all that follow it
abbrev pub Ascending : List String → Type 0
Ascending [] = Unit
Ascending (x ∷ xs) = All (λ y. compare x y ≡ Ordering.lt) xs × Ascending xs

All_mem :
    (P : String → Type 0) (xs : List String) (a : String) → All P xs → mem_str a xs ≡ true → P a
All_mem P [] a h m = absurd (cc)
All_mem P (x ∷ xs) a h m = elim (Bool-cases (str_eq x a)) [
  | inl e ↦ subst P ((eq_iff x a).0 e) h.0
  | inr n ↦ All_mem P xs a h.1 (ground arith)
]

pub not-mem-Ascending :
    (x : String) (xs : List String) → All (λ y. compare x y ≡ Ordering.lt) xs → mem_str x xs ≡ false
not-mem-Ascending x [] h = refl
not-mem-Ascending x (y ∷ ys) h =
    ground (arith, not-mem-Ascending x ys h.1, eq_iff y x, compare_refl x)

All-below :
    (a x : String) (xs : List String)
    → compare a x ≡ Ordering.lt
    → All (λ y. compare x y ≡ Ordering.lt) xs
    → All (λ y. compare a y ≡ Ordering.lt) xs
All-below a x [] l h = tt
All-below a x (y ∷ ys) l h = (compare_trans a x y l h.0, All-below a x ys l h.1)

All-set_insert :
    (x a : String) (s : List String)
    → compare x a ≡ Ordering.lt
    → All (λ y. compare x y ≡ Ordering.lt) s
    → All (λ y. compare x y ≡ Ordering.lt) (set_insert a s)
unfolding set_insert
All-set_insert x a [] l h = (l, tt)
All-set_insert x a (b ∷ bs) l h = ground (arith, All-set_insert x a bs l)

pub Ascending-set_insert : (a : String) (s : List String) → Ascending s → Ascending (set_insert a s)
unfolding set_insert
Ascending-set_insert a [] h = (tt, tt)
Ascending-set_insert a (b ∷ bs) h =
    ground
      (arith, compare-flip a b, All-below a b bs, All-set_insert b a bs, Ascending-set_insert a bs)

pub Ascending-set_of : (xs : List String) → Ascending (set_of xs)
unfolding set_of
Ascending-set_of [] = tt
Ascending-set_of (x ∷ xs) = Ascending-set_insert x (set_of xs) (Ascending-set_of xs)

abbrev pub SameMembers : List String → List String → Type 0
SameMembers xs ys = (a : String) → mem_str a xs ≡ mem_str a ys

member_ge :
    (x y : String) (ys : List String)
    → Ascending (y ∷ ys)
    → mem_str x (y ∷ ys) ≡ true
    → (x ≡ y) ⊎ (compare y x ≡ Ordering.lt)
member_ge x y ys k m = elim (Bool-cases (str_eq y x)) [
  | inl e ↦ inl (sym ((eq_iff y x).0 e))
  | inr n ↦ inr (All_mem (λ z. compare y z ≡ Ordering.lt) ys x k.0 (ground arith))
]

heads_equal :
    (x y : String) (xs ys : List String)
    → Ascending (x ∷ xs)
    → Ascending (y ∷ ys)
    → SameMembers (x ∷ xs) (y ∷ ys)
    → x ≡ y
heads_equal x y xs ys h k e =
    let in_ys : mem_str x (y ∷ ys) ≡ true = ground (arith, e x, eq_refl x) in
    let in_xs : mem_str y (x ∷ xs) ≡ true = ground (arith, e y, eq_refl y) in
    ground (arith, member_ge x y ys k in_ys, member_ge y x xs h in_xs, compare-flip x y)

tails_same :
    (x y : String) (xs ys : List String)
    → Ascending (x ∷ xs)
    → Ascending (y ∷ ys)
    → x ≡ y
    → SameMembers (x ∷ xs) (y ∷ ys)
    → SameMembers xs ys
tails_same x y xs ys h k p e a =
    ground
      (arith, e a, eq_iff x a, eq_iff y a, not-mem-Ascending x xs h.0, not-mem-Ascending y ys k.0)

-- Two ascending lists with the same members are the same list.
pub Ascending-ext :
    (xs ys : List String) → Ascending xs → Ascending ys → SameMembers xs ys → xs ≡ ys
Ascending-ext [] [] h k e = refl
Ascending-ext [] (y ∷ ys) h k e = absurd (ground (arith, e y, eq_refl y))
Ascending-ext (x ∷ xs) [] h k e = absurd (ground (arith, e x, eq_refl x))
Ascending-ext (x ∷ xs) (y ∷ ys) h k e =
    let p = heads_equal x y xs ys h k e in
    let rest = Ascending-ext xs ys h.1 k.1 (tails_same x y xs ys h k p e) in cc

-- The set collected from a list depends on its members alone: neither their order nor how often
-- they stand there matters.
pub set_of_ext : (xs ys : List String) → SameMembers xs ys → set_of xs ≡ set_of ys
set_of_ext xs ys e =
    Ascending-ext (set_of xs) (set_of ys) (Ascending-set_of xs) (Ascending-set_of ys)
      (λ a. mem_str-set_of a xs ∙ e a ∙ sym (mem_str-set_of a ys))
