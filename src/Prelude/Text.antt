-- ===== src/Prelude/Text.antt =====
-- Rust's `str` functions that the program calls, over the native `String`, whose `len`, `count`,
-- `find` and `compare` are Rust's.
use Prim.Native.Nat.{ℕ, zero, suc, ◌-◌, Ordering}
use Prim.Native.Char.{Char, code}
use Prim.Native.String.{String, len, find, char_at, compare}
use mathlib.Core.Path.{◌≡◌, ◌∙◌, ap}
use mathlib.Core.Logic.{inl, inr}
use mathlib.Core.Bool.{Bool, true, false, ◌&&◌, ◌||◌}
use mathlib.Core.List.{List, [], ◌∷◌}
use native.Mathlib.Omega.{arith}
use text.Mathlib.Text.{◌==◌ as str_eq}
use codex_memoryd.Prelude.Tests.{leb, ◌==◌, if◌then◌else◌, Bool-cases}
use mathlib.Core.Option.{Option, some}
use text.Mathlib.TextEquality.{eq_iff}

abbrev pub str_is_empty : String → Bool
str_is_empty String.[] = true
str_is_empty (String.◌∷◌ c s) = false

-- `contains`
unfoldable pub contains : String → String → Bool
contains s needle = leb (find s needle) (len s)

-- `<` of `str`
unfoldable pub str_lt : String → String → Bool
str_lt s t = elim (compare s t) [ Ordering.lt ↦ true | _ ↦ false ]

-- `char::is_whitespace`: the characters of Unicode's White_Space
unfoldable pub is_whitespace : Char → Bool
is_whitespace c =
    let n = code c in
    (leb 9 n && leb n 13)
    || n == 32
    || n == 0x85
    || n == 0xA0
    || n == 0x1680
    || (leb 0x2000 n && leb n 0x200A)
    || n == 0x2028
    || n == 0x2029
    || n == 0x202F
    || n == 0x205F
    || n == 0x3000

unfoldable pub trim_start : String → String
unfolding is_whitespace
trim_start String.[] = String.[]
trim_start (String.◌∷◌ c s) =
    let rest = trim_start s in if is_whitespace c then rest else String.◌∷◌ c s

unfoldable pub trim_end : String → String
unfolding is_whitespace
trim_end String.[] = String.[]
trim_end (String.◌∷◌ c s) =
    let rest = trim_end s in
    if str_is_empty rest && is_whitespace c then String.[] else String.◌∷◌ c rest

unfoldable pub trim : String → String
unfolding trim_start trim_end
trim s = trim_end (trim_start s)

abbrev pub map_chars : (Char → Char) → String → String
map_chars f String.[] = String.[]
map_chars f (String.◌∷◌ c s) = String.◌∷◌ (f c) (map_chars f s)

-- `u8::to_ascii_lowercase` on a character
unfoldable pub lower_char : Char → Char
lower_char c =
    if leb b'A' (code c) && leb (code c) b'Z'
    then char_at "abcdefghijklmnopqrstuvwxyz" (code c - b'A')
    else c

unfoldable pub to_ascii_lowercase : String → String
unfolding lower_char
to_ascii_lowercase = map_chars lower_char

-- `replace(from, to)` on single characters
unfoldable pub replace_char : Char → Char → String → String
replace_char from to = map_chars (λ c. if code c == code from then to else c)

-- `chars().take(n)`
abbrev pub take_chars : ℕ → String → String
take_chars zero s = String.[]
take_chars (suc n) String.[] = String.[]
take_chars (suc n) (String.◌∷◌ c s) = String.◌∷◌ c (take_chars n s)

abbrev pub any_char : (Char → Bool) → String → Bool
any_char p String.[] = false
any_char p (String.◌∷◌ c s) = p c || any_char p s

abbrev pub all_chars : (Char → Bool) → String → Bool
all_chars p String.[] = true
all_chars p (String.◌∷◌ c s) = p c && all_chars p s

-- `Vec<String>::contains`, and `BTreeSet::contains`
abbrev pub mem_str : String → List String → Bool
mem_str a [] = false
mem_str a (b ∷ bs) = str_eq b a || mem_str a bs

-- Does the text hold one of these?
abbrev pub contains_any : String → List String → Bool
contains_any s [] = false
contains_any s (needle ∷ more) = contains s needle || contains_any s more

-- One link of an `if` chain that maps each wire form `f v` to its value `v`.
pub keyed {ℓ} :
    {A : Type ℓ} (f : A → String) (s : String) (v : A) (rest : Option A) (x : A)
    → (rest ≡ some x → s ≡ f x)
    → (if str_eq s (f v) then some v else rest) ≡ some x
    → s ≡ f x
keyed f s v rest x later h = elim (Bool-cases (str_eq s (f v))) [
  | inl e ↦ (eq_iff s (f v)).0 e ∙ ap f (ground arith)
  | inr e ↦ later (ground arith)
]
