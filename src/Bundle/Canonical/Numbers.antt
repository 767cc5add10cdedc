-- ===== src/Bundle/Canonical/Numbers.antt =====
-- `canonical_number` of src/portable_bundle.rs, from the text that serde_json writes of a finite
-- number: digits with a point or an exponent.
use codex_memoryd.Prelude.{
  ℕ, zero, suc, ◌+◌, ◌-◌, ◌*◌, Char, code, String, len, push_str, Bool, true, false, not, ◌&&◌,
  ◌||◌, Option, none, some, leb, ltb, ◌==◌, str_eq, str_is_empty, take_chars, any_char, decimal,
  if◌then◌else◌,
}
use codex_memoryd.Prelude.Int.{ℤ, pos, negsuc}
use codex_memoryd.Errors.{Result, ok, fail, bundle_integrity_failed}

-- what is before the first such character, and what is after it
unfoldable pub split_first : (Char → Bool) → String → Option (String × String)
split_first p String.[] = none
split_first p (String.◌∷◌ c s) =
    let rest = split_first p s in
    if p c
    then some (String.[], s)
    else elim rest [ none ↦ none | some parts ↦ some (String.◌∷◌ c parts.0, parts.1) ]

-- `trim_end_matches`
unfoldable pub trim_end_matches : (Char → Bool) → String → String
trim_end_matches p String.[] = String.[]
trim_end_matches p (String.◌∷◌ c s) =
    let rest = trim_end_matches p s in
    if p c && str_is_empty rest then String.[] else String.◌∷◌ c rest

abbrev is_zero_digit : Char → Bool
is_zero_digit c = code c == b'0'

abbrev is_point : Char → Bool
is_point c = code c == b'.'

abbrev is_exponent_mark : Char → Bool
is_exponent_mark c = code c == b'e' || code c == b'E'

-- `replace('.', "")`
unfoldable pub without_points : String → String
without_points String.[] = String.[]
without_points (String.◌∷◌ c s) =
    let rest = without_points s in if is_point c then rest else String.◌∷◌ c rest

-- `while digits.ends_with('0') && digits.len() > 1 { digits.pop(); }`
abbrev pop_zeros : String → String
pop_zeros String.[] = String.[]
pop_zeros (String.◌∷◌ c s) = String.◌∷◌ c (trim_end_matches is_zero_digit s)

-- `skip(n)`
abbrev skip : ℕ → String → String
skip zero s = s
skip (suc n) String.[] = String.[]
skip (suc n) (String.◌∷◌ c s) = skip n s

-- `"0".repeat(n)`
unfoldable pub zeros : ℕ → String
zeros zero = String.[]
zeros (suc n) = push_str "0" (zeros n)

unfoldable pub magnitude_from : ℕ → String → Option ℕ
magnitude_from n String.[] = some n
magnitude_from n (String.◌∷◌ c s) =
    let rest = magnitude_from (n * 10 + (code c - b'0')) s in
    if leb b'0' (code c) && leb (code c) b'9' then rest else none

-- the digits of an i32, below the bound
abbrev magnitude : ℕ → String → Option ℕ
magnitude bound digits = if str_is_empty digits then none else elim (magnitude_from 0 digits) [
  | none ↦ none
  | some n ↦ if ltb n bound then some n else none
]

abbrev minus : ℕ → ℤ
minus zero = pos 0
minus (suc n) = negsuc n

-- `parse::<i32>()`
unfoldable pub parse_i32 : String → Option ℤ
parse_i32 String.[] = none
parse_i32 (String.◌∷◌ c s) =
    if code c == b'-'
    then elim (magnitude 2147483649 s) [ none ↦ none | some n ↦ some (minus n) ]
    else elim (magnitude 2147483648 (if code c == b'+' then s else String.◌∷◌ c s)) [
      | none ↦ none
      | some n ↦ some (pos n)
    ]

-- `n + z`
abbrev plus : ℕ → ℤ → ℤ
plus n (pos m) = pos (n + m)
plus n (negsuc m) = if ltb m n then pos (n - suc m) else negsuc (m - n)

-- `abs_digits`: the digits with the point put at a position among them, before or after
unfoldable pub placed : String → ℤ → String
placed digits (negsuc n) = push_str "0." (push_str (zeros (suc n)) digits)
placed digits (pos n) =
    if n == 0
    then push_str "0." digits
    else if leb (len digits) n
    then push_str digits (zeros (n - len digits))
    else push_str (take_chars n digits) (push_str "." (skip n digits))

unfoldable pub or_zero : String → String
or_zero s = if str_is_empty s then "0" else s

-- `abs_value`
unfoldable pub abs_value : String → ℤ → String
abs_value digits position =
    let s = placed digits position in
    or_zero (
      if any_char is_point s
      then trim_end_matches is_point (trim_end_matches is_zero_digit s)
      else s)

abbrev signed : Bool → String → String
signed negative s = if negative then push_str "-" s else s

-- `exponent >= -6 && exponent < 21`
abbrev use_decimal : ℤ → Bool
use_decimal (pos n) = ltb n 21
use_decimal (negsuc n) = ltb n 6

-- the exponent with its sign
unfoldable pub exponent_text : ℤ → String
exponent_text (pos n) = push_str "+" (decimal n)
exponent_text (negsuc n) = push_str "-" (decimal (suc n))

-- `scientific_exp`
abbrev before : ℤ → ℤ
before (pos zero) = negsuc 0
before (pos (suc n)) = pos n
before (negsuc n) = negsuc (suc n)

unfoldable pub scientific : String → ℤ → String
scientific String.[] position = push_str "0e" (exponent_text (before position))
scientific (String.◌∷◌ c rest) position =
    push_str (String.◌∷◌ c (if str_is_empty rest then String.[] else push_str "." rest))
      (push_str "e" (exponent_text (before position)))

-- `unsigned.find('.').unwrap_or(unsigned.len())`
abbrev point_of : String → ℕ
point_of unsigned = elim (split_first is_point unsigned) [
  | none ↦ len unsigned
  | some parts ↦ len parts.0
]

-- a mantissa without its sign, and an exponent
unfoldable pub with_exponent : Bool → String → ℤ → String
with_exponent negative unsigned exponent =
    let digits = pop_zeros (without_points unsigned) in
    let position = plus (point_of unsigned) exponent in
    let value = abs_value digits position in
    if use_decimal exponent
    then signed (negative && not (str_eq value "0")) value
    else signed negative (scientific digits position)

-- a number without an exponent
unfoldable pub plain_number : String → String
plain_number raw = elim (split_first is_point raw) [
  | none ↦ raw
  | some parts ↦
      let fraction = trim_end_matches is_zero_digit parts.1 in
      if str_is_empty fraction then parts.0 else push_str parts.0 (push_str "." fraction)
]

unfoldable pub from_mantissa : String → ℤ → String
from_mantissa String.[] exponent = with_exponent false String.[] exponent
from_mantissa (String.◌∷◌ c s) exponent =
    if code c == b'-'
    then with_exponent true s exponent
    else with_exponent false (String.◌∷◌ c s) exponent

-- the text of a finite number, or none for a number that an f64 does not hold
unfoldable pub canonical_number : Option String → Result String
canonical_number none = fail bundle_integrity_failed "non-I-JSON number"
canonical_number (some raw) =
    if str_eq raw "-0" || str_eq raw "-0.0"
    then ok "0"
    else elim (split_first is_exponent_mark raw) [
      | none ↦ ok (plain_number raw)
      | some parts ↦ elim (parse_i32 parts.1) [
        | none ↦ fail bundle_integrity_failed "invalid JSON number"
        | some exponent ↦ ok (from_mantissa parts.0 exponent)
      ]
    ]
