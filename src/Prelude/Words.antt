-- ===== src/Prelude/Words.antt =====
-- Rust's `str` functions on words and suffixes, `join`, and the decimal form of a number.
use Prim.Native.Nat.{ℕ, zero, suc, ◌/◌, ◌%◌}
use Prim.Native.String.{String, char_at, ◌++◌ as push_str}
use mathlib.Core.Path.{◌≡◌, refl}
use mathlib.Core.Bool.{Bool, ◌||◌}
use mathlib.Core.List.{List, [], ◌∷◌}
use text.Mathlib.Text.{◌==◌ as str_eq}
use codex_memoryd.Prelude.Tests.{◌==◌, if◌then◌else◌}
use codex_memoryd.Prelude.Text.{is_whitespace, str_is_empty}

-- `ends_with`
unfoldable pub ends_with : String → String → Bool
ends_with String.[] t = str_is_empty t
ends_with (String.◌∷◌ c s) t = str_eq (String.◌∷◌ c s) t || ends_with s t

-- a word that is over, if it has a character
abbrev flush : String × List String → List String
flush (w, ws) = if str_is_empty w then ws else w ∷ ws

-- the word that a text starts with, and the words after it
words_from : String → String × List String
unfolding is_whitespace
words_from String.[] = (String.[], [])
words_from (String.◌∷◌ c s) =
    let rest = words_from s in
    if is_whitespace c then (String.[], flush rest) else (String.◌∷◌ c rest.0, rest.1)

-- `split_whitespace()`
unfoldable pub split_whitespace : String → List String
unfolding words_from
split_whitespace s = flush (words_from s)

-- `join(sep)`
abbrev pub join : String → List String → String
join sep [] = ""
join sep (s ∷ []) = s
join sep (s ∷ t ∷ rest) = push_str s (push_str sep (join sep (t ∷ rest)))

-- the digits of `n` before those held; a number has no more digits than `n + 1`
digits_before : ℕ → ℕ → String → String
digits_before zero n held = held
digits_before (suc fuel) n held =
    let held' = String.◌∷◌ (char_at "0123456789" (n % 10)) held in
    let rest = digits_before fuel (n / 10) held' in if n / 10 == 0 then held' else rest

-- `to_string()` of an unsigned number
unfoldable pub decimal : ℕ → String
unfolding digits_before
decimal n = digits_before (suc n) n String.[]

decimal_runs : decimal 1200 ≡ "1200"
unfolding decimal
decimal_runs = refl
