-- ===== src/Prelude/Counting.antt =====
-- Counting by texts that are distinct: a list of distinct texts is no longer than one that has them.
use Prim.Native.Nat.{suc, ◌≤◌}
use Prim.Native.String.{String}
use mathlib.Core.Path.{◌≡◌}
use mathlib.Core.Bool.{true, false}
use mathlib.Core.Logic.{inl, inr}
use mathlib.Core.List.{List, [], ◌∷◌}
use native.Mathlib.Omega.{arith}
use text.Mathlib.Text.{◌==◌ as str_eq}
use text.Mathlib.TextEquality.{eq_iff}
use text.Mathlib.TextPositions.{eq_refl}
use codex_memoryd.Prelude.Tests.{Bool-cases, if◌then◌else◌}
use codex_memoryd.Prelude.Lists.{length}
use codex_memoryd.Prelude.Text.{mem_str}
use codex_memoryd.Prelude.Distinct.{Distinct}
use codex_memoryd.Prelude.StrOrder.{Ascending, not-mem-Ascending}

without : String → List String → List String
without a [] = []
without a (x ∷ xs) = let rest = without a xs in if str_eq x a then xs else x ∷ rest

length-without :
    (a : String) (xs : List String) → mem_str a xs ≡ true → length xs ≡ suc (length (without a xs))
unfolding without
length-without a [] h = absurd (ground arith)
length-without a (x ∷ xs) h = ground (arith, length-without a xs)

mem_str-without :
    (a b : String) (xs : List String)
    → str_eq a b ≡ false
    → mem_str b xs ≡ true
    → mem_str b (without a xs) ≡ true
unfolding without
mem_str-without a b [] n h = absurd (ground arith)
mem_str-without a b (x ∷ xs) n h =
    ground (arith, mem_str-without a b xs n, eq_iff x a, eq_iff x b, eq_iff a b)

abbrev pub IsPart : List String → List String → Type 0
IsPart xs ys = (a : String) → mem_str a xs ≡ true → mem_str a ys ≡ true

pub length-IsPart : (xs ys : List String) → Distinct xs → IsPart xs ys → length xs ≤ length ys
length-IsPart [] ys d h = ground arith
length-IsPart (x ∷ xs) ys d h =
    let here : mem_str x ys ≡ true = h x (ground (arith, eq_refl x)) in
    let rest =
      length-IsPart xs (without x ys) d.1
        (λ a m. mem_str-without x a ys (ground (arith, eq_iff x a)) (h a (ground arith))) in
    ground (arith, length-without x ys here)

-- A list of distinct texts that is as long as one it is a part of has all of them.
pub IsPart-full :
    (xs ys : List String) → Distinct xs → IsPart xs ys → length xs ≡ length ys → IsPart ys xs
IsPart-full xs ys d h e a m = elim (Bool-cases (mem_str a xs)) [
  | inl has ↦ has
  | inr lacks ↦
      let longer =
        length-IsPart (a ∷ xs) ys (lacks, d)
          (λ b n. elim (Bool-cases (mem_str b xs)) [
            | inl old ↦ h b old
            | inr new ↦ ground (arith, eq_iff a b)
          ]) in
      ground arith
]

pub Distinct-Ascending : (xs : List String) → Ascending xs → Distinct xs
Distinct-Ascending [] h = tt
Distinct-Ascending (x ∷ xs) h = (not-mem-Ascending x xs h.0, Distinct-Ascending xs h.1)
