-- ===== src/Bundle/Json/Laws.antt =====
-- Which JSON values are within the limits of src/portable_bundle.rs.
use codex_memoryd.Prelude.{ℕ, ◌+◌, ◌≤◌, max, len, Bool, true, ◌&&◌, ◌≡◌, arith, leb}
use codex_memoryd.Bundle.Json.{
  Value, null, bool, number, text, array, object, Values, nil, cons, Members, end, member,
  max_json_depth, max_member_bytes, max_key_bytes, is_ok, validate_json_limits, validate_values,
  validate_members,
}

-- how many arrays and objects stand around the innermost value
unfoldable mutual
  pub nesting : Value → ℕ
  nesting (array vs) = nesting_values vs
  nesting (object ms) = nesting_members ms
  nesting null = 0
  nesting (bool b) = 0
  nesting (number n) = 0
  nesting (text s) = 0

  pub nesting_values : Values → ℕ
  nesting_values nil = 0
  nesting_values (cons v vs) = max (nesting v + 1) (nesting_values vs)

  pub nesting_members : Members → ℕ
  nesting_members end = 0
  nesting_members (member key v ms) = max (nesting v + 1) (nesting_members ms)

-- no text and no key is too long
unfoldable mutual
  pub is_short : Value → Bool
  is_short (text s) = leb (len s) max_member_bytes
  is_short (array vs) = are_short vs
  is_short (object ms) = are_short_members ms
  is_short null = true
  is_short (bool b) = true
  is_short (number n) = true

  pub are_short : Values → Bool
  are_short nil = true
  are_short (cons v vs) = is_short v && are_short vs

  pub are_short_members : Members → Bool
  are_short_members end = true
  are_short_members (member key v ms) =
      leb (len key) max_key_bytes && is_short v && are_short_members ms

mutual
  unfolding validate_json_limits validate_values validate_members nesting nesting_values
      nesting_members is_short are_short are_short_members

  validate_json_limits-is_ok :
      (v : Value) (d : ℕ)
      → is_ok (validate_json_limits v d) ≡ (leb (d + nesting v) max_json_depth && is_short v)
  validate_json_limits-is_ok null d = ground arith
  validate_json_limits-is_ok (bool b) d = ground arith
  validate_json_limits-is_ok (number n) d = ground arith
  validate_json_limits-is_ok (text s) d = ground arith
  validate_json_limits-is_ok (array vs) d = ground (arith, validate_values-is_ok vs d)
  validate_json_limits-is_ok (object ms) d = ground (arith, validate_members-is_ok ms d)

  validate_values-is_ok :
      (vs : Values) (d : ℕ)
      → d ≤ 32
      → is_ok (validate_values vs d) ≡ (leb (d + nesting_values vs) max_json_depth && are_short vs)
  validate_values-is_ok nil d h = ground arith
  validate_values-is_ok (cons v vs) d h =
      ground (arith, validate_json_limits-is_ok v (d + 1), validate_values-is_ok vs d h)

  validate_members-is_ok :
      (ms : Members) (d : ℕ)
      → d ≤ 32
      → is_ok (validate_members ms d)
        ≡ (leb (d + nesting_members ms) max_json_depth && are_short_members ms)
  validate_members-is_ok end d h = ground arith
  validate_members-is_ok (member key v ms) d h =
      ground (arith, validate_json_limits-is_ok v (d + 1), validate_members-is_ok ms d h)

-- A JSON value passes the check exactly if at most 32 arrays and objects stand around its innermost
-- value, no text in it is longer than 64 MiB and no key longer than 1024 bytes.
pub validate_json_limits_lem :
    (v : Value) → is_ok (validate_json_limits v 0) ≡ (leb (nesting v) max_json_depth && is_short v)
validate_json_limits_lem v = ground (arith, validate_json_limits-is_ok v 0)
