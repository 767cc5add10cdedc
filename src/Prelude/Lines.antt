-- ===== src/Prelude/Lines.antt =====
-- Rust's `str::lines` and `str::split` on a character, and lemmas on trimming and counting.
use Prim.Native.Nat.{ℕ, zero, suc, ◌+◌, ◌≤◌}
use Prim.Native.Char.{Char, code}
use Prim.Native.String.{String, count, ◌++◌}
use Prim.Native.String.count
use mathlib.Core.Path.{◌≡◌, refl, ap, ◌∙◌}
use text.Mathlib.TextLemmas.{length-append}
use mathlib.Core.Bool.{Bool, true, false, ◌&&◌}
use mathlib.Core.List.{List, [], ◌∷◌}
use native.Mathlib.Omega.{arith}
use text.Mathlib.Text.{starts_with}
use codex_memoryd.Prelude.Tests.{◌==◌, if◌then◌else◌}
use codex_memoryd.Prelude.Text.{is_whitespace, trim_start, trim_end, trim, take_chars}

-- put a character in front of the first piece
abbrev extend : Char → List String → List String
extend c [] = String.◌∷◌ c String.[] ∷ []
extend c (l ∷ ls) = String.◌∷◌ c l ∷ ls

-- `lines()`: a newline ends a line, with the carriage return before it
unfoldable pub lines : String → List String
lines String.[] = []
lines (String.◌∷◌ c s) =
    let rest = lines s in
    if code c == 10
    then String.[] ∷ rest
    else if code c == 13 && starts_with s "\n"
    then rest
    else extend c rest

-- `split(sep).next()`: the text before the first `sep`
unfoldable pub until : Char → String → String
until sep String.[] = String.[]
until sep (String.◌∷◌ c s) =
    let rest = until sep s in if code c == code sep then String.[] else String.◌∷◌ c rest

-- `split(sep)`
unfoldable pub split : Char → String → List String
split sep String.[] = String.[] ∷ []
split sep (String.◌∷◌ c s) =
    let rest = split sep s in if code c == code sep then String.[] ∷ rest else extend c rest

trim_end_idem : (s : String) → trim_end (trim_end s) ≡ trim_end s
unfolding trim_end
trim_end_idem String.[] = refl
trim_end_idem (String.◌∷◌ c s) = ground (arith, trim_end_idem s)

abbrev starts_solid : String → Bool
starts_solid String.[] = true
starts_solid (String.◌∷◌ c s) = elim (is_whitespace c) [ true ↦ false | false ↦ true ]

starts_solid-trim_start : (s : String) → starts_solid (trim_start s) ≡ true
unfolding trim_start
starts_solid-trim_start String.[] = refl
starts_solid-trim_start (String.◌∷◌ c s) = ground (arith, starts_solid-trim_start s)

trim_start_of_solid : (s : String) → starts_solid s ≡ true → trim_start s ≡ s
unfolding trim_start
trim_start_of_solid String.[] h = refl
trim_start_of_solid (String.◌∷◌ c s) h = ground arith

starts_solid-trim_end : (s : String) → starts_solid s ≡ true → starts_solid (trim_end s) ≡ true
unfolding trim_end
starts_solid-trim_end String.[] h = refl
starts_solid-trim_end (String.◌∷◌ c s) h = ground arith

pub trim_idem : (s : String) → trim (trim s) ≡ trim s
unfolding trim
trim_idem s =
    let t = trim_start s in
    let solid = starts_solid-trim_end t (starts_solid-trim_start s) in
    ap trim_end {y = trim_end t} (trim_start_of_solid (trim_end t) solid) ∙ trim_end_idem t

pub count-append : (s t : String) → count (s ++ t) ≡ count s + count t
count-append s t = length-append s t

-- `chars().take(n)` of a text that is longer has n characters.
pub count-take_chars : (n : ℕ) (s : String) → n ≤ count s → count (take_chars n s) ≡ n
count-take_chars zero s h = count.nil
count-take_chars (suc n) String.[] h = absurd (omega (arith, count.nil))
count-take_chars (suc n) (String.◌∷◌ c s) h =
    count.cons c (take_chars n s) ∙ ap suc (count-take_chars n s (omega (arith, count.cons c s)))
