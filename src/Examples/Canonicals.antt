-- ===== src/Examples/Canonicals.antt =====
-- The canonical JSON of src/portable_bundle.rs, on the vectors of its tests.
use Prim.Native.Nat.{Ordering}
use codex_memoryd.Prelude.{
  String, push_str, true, false, ◌≡◌, refl, Option, some, str_eq, arith, if◌then◌else◌, decimal,
}
use codex_memoryd.Errors.{ok}
use codex_memoryd.Bundle.Json.{member, end, number, object, array, cons, nil, bool, null}
use codex_memoryd.Bundle.Canonical.{
  canonical_json, all_written, write_entries, sort_entries, sort_insert, utf16_cmp, units_cmp,
  encode_utf16,
}
use codex_memoryd.Bundle.Canonical.Numbers.{
  canonical_number, split_first, trim_end_matches, without_points, zeros, magnitude_from, parse_i32,
  placed, or_zero, abs_value, exponent_text, scientific, with_exponent, plain_number, from_mantissa,
}
use codex_memoryd.Bundle.Canonical.Order.{swap, canonical_json-Reordered}

-- texts that need no escape
abbrev quotes : String → String
quotes s = push_str "\"" (push_str s "\"")

-- the numbers of the tests
abbrev floats : String → Option String
floats n =
    if str_eq n "-0"
    then some "-0.0"
    else if str_eq n "333333333.33333329"
    then some "333333333.3333333"
    else if str_eq n "1E30"
    then some "1e30"
    else if str_eq n "4.50"
    then some "4.5"
    else if str_eq n "2e-3"
    then some "0.002"
    else some n

test_boundaries :
    canonical_json floats quotes (
      array (
        cons (number "1e-6") (
          cons
            (number "1e-7")
            (cons (number "1e20") (cons (number "1e21") (cons (number "-0") nil))))))
    ≡ ok "[0.000001,1e-7,100000000000000000000,1e+21,0]"
unfolding canonical_json all_written canonical_number split_first trim_end_matches without_points
    zeros magnitude_from parse_i32 placed or_zero abs_value exponent_text scientific with_exponent
    plain_number from_mantissa decimal
test_boundaries = refl

test_primitives :
    canonical_json floats quotes (
      object (
        member "numbers"
          (array (
            cons
              (number "333333333.33333329")
              (cons (number "1E30") (cons (number "4.50") (cons (number "2e-3") nil)))))
          (member "literals" (array (cons null (cons (bool true) (cons (bool false) nil)))) end)))
    ≡ ok "{\"literals\":[null,true,false],\"numbers\":[333333333.3333333,1e+30,4.5,0.002]}"
unfolding canonical_json all_written canonical_number split_first trim_end_matches without_points
    zeros magnitude_from parse_i32 placed or_zero abs_value exponent_text scientific with_exponent
    plain_number from_mantissa decimal sort_entries sort_insert utf16_cmp units_cmp encode_utf16
    write_entries
test_primitives = refl

-- a surrogate pair goes before a later character of one unit
test_units : utf16_cmp "😀" "\u{e000}" ≡ Ordering.lt
unfolding utf16_cmp units_cmp encode_utf16
test_units = refl

canonical_json-Reordered_example :
    canonical_json floats quotes (object (member "b" (number "1") (member "a" null end)))
    ≡ canonical_json floats quotes (object (member "a" null (member "b" (number "1") end)))
unfolding utf16_cmp units_cmp encode_utf16
canonical_json-Reordered_example =
    canonical_json-Reordered floats quotes (member "b" (number "1") (member "a" null end))
      (member "a" null (member "b" (number "1") end))
      (swap "b" (number "1") "a" null end (λ e. ground arith))
