-- ===== src/Bundle/Json.antt =====
-- src/portable_bundle.rs: the limits on JSON values, and the metadata that a bundle may carry. The
-- members of an object stand in the order of its map, and a number is held as its text.
pub mod Laws
pub mod Clean
use codex_memoryd.Prelude.{
  ℕ, ◌+◌, String, len, Bool, true, false, not, ◌&&◌, ◌||◌, Option, none, some, ltb, if◌then◌else◌,
}
use codex_memoryd.Errors.{Result, ok, err, fail, bundle_limit_exceeded}
use codex_memoryd.Policy.Regex.{RegexEngine}
use codex_memoryd.Policy.Screen.{max_record_chars, is_accept, screen_content}
use codex_memoryd.Bundle.Paths.{valid_metadata_string, unsafe_metadata_key}

mutual
  pub data Value : Type 0 where
    null : Value
    bool : Bool → Value
    number : String → Value
    text : String → Value
    array : Values → Value
    object : Members → Value

  pub data Values : Type 0 where
    nil : Values
    cons : Value → Values → Values

  pub data Members : Type 0 where
    end : Members
    member : String → Value → Members → Members

abbrev pub max_json_depth : ℕ
max_json_depth = 32

abbrev pub max_member_bytes : ℕ
max_member_bytes = 67108864

abbrev pub max_key_bytes : ℕ
max_key_bytes = 1024

-- `?` between two checks
abbrev pub then_check : Result {0} Unit → Result {0} Unit → Result {0} Unit
then_check (err e) later = err e
then_check (ok _) later = later

-- the check of the depth, before the `match` on the value
abbrev pub at_depth : ℕ → Result {0} Unit → Result {0} Unit
at_depth depth checked =
    if ltb max_json_depth depth
    then fail bundle_limit_exceeded "JSON nesting limit exceeded"
    else checked

abbrev pub check_text : String → Result {0} Unit
check_text s =
    if ltb max_member_bytes (len s)
    then fail bundle_limit_exceeded "JSON string value limit exceeded"
    else ok tt

unfoldable mutual
  pub validate_json_limits : Value → ℕ → Result {0} Unit
  validate_json_limits (text s) depth = at_depth depth (check_text s)
  validate_json_limits (array vs) depth = at_depth depth (validate_values vs depth)
  validate_json_limits (object ms) depth = at_depth depth (validate_members ms depth)
  validate_json_limits null depth = at_depth depth (ok tt)
  validate_json_limits (bool b) depth = at_depth depth (ok tt)
  validate_json_limits (number n) depth = at_depth depth (ok tt)

  pub validate_values : Values → ℕ → Result {0} Unit
  validate_values nil depth = ok tt
  validate_values (cons v vs) depth =
      then_check (validate_json_limits v (depth + 1)) (validate_values vs depth)

  pub validate_members : Members → ℕ → Result {0} Unit
  validate_members end depth = ok tt
  validate_members (member key v ms) depth =
      let rest = then_check (validate_json_limits v (depth + 1)) (validate_members ms depth) in
      if ltb max_key_bytes (len key)
      then fail bundle_limit_exceeded "JSON object key limit exceeded"
      else rest

-- `sanitize_metadata_value`, where `encoded_len` is the length of what `serde_json::to_vec` writes, if
-- it writes.
abbrev pub max_metadata_bytes : ℕ
max_metadata_bytes = 65536

abbrev pub max_metadata_members : ℕ
max_metadata_members = 128

abbrev pub count_members : Members → ℕ
count_members end = 0
count_members (member key v ms) = 1 + count_members ms

abbrev pub is_ok : Result {0} Unit → Bool
is_ok (ok _) = true
is_ok (err _) = false

module _ (E : RegexEngine) (encoded_len : Value → Option ℕ) where
  -- the checks of the size and the limits
  abbrev pub is_small : Value → Bool
  is_small v = elim (encoded_len v) [
    | none ↦ false
    | some n ↦ not (ltb max_metadata_bytes n) && is_ok (validate_json_limits v 0)
  ]

  abbrev pub is_clean_text : String → Bool
  is_clean_text s = is_accept (screen_content E s max_record_chars) && valid_metadata_string s

  abbrev pub when {ℓ} : {A : Type ℓ} → Bool → Option A → Option A
  when test o = if test then o else none

  abbrev pub put_value : Option Value → Option Values → Option Values
  put_value (some v) (some vs) = some (cons v vs)
  put_value _ _ = none

  abbrev pub put_member : String → Option Value → Option Members → Option Members
  put_member key (some v) (some ms) = some (member key v ms)
  put_member key _ _ = none

  abbrev pub of_values : Option Values → Option Value
  of_values none = none
  of_values (some vs) = some (array vs)

  abbrev pub of_members : Option Members → Option Value
  of_members none = none
  of_members (some ms) = some (object ms)

  unfoldable mutual
    pub sanitize_metadata_value : Value → Option Value
    sanitize_metadata_value null = when (is_small null) (some null)
    sanitize_metadata_value (bool b) = when (is_small (bool b)) (some (bool b))
    sanitize_metadata_value (number n) = when (is_small (number n)) (some (number n))
    sanitize_metadata_value (text s) =
        when (is_small (text s)) (when (is_clean_text s) (some (text s)))
    sanitize_metadata_value (array vs) = when (is_small (array vs)) (of_values (sanitize_values vs))
    sanitize_metadata_value (object ms) = when (is_small (object ms)) (
        when (not (ltb max_metadata_members (count_members ms))) (of_members (sanitize_members ms)))

    pub sanitize_values : Values → Option Values
    sanitize_values nil = some nil
    sanitize_values (cons v vs) = put_value (sanitize_metadata_value v) (sanitize_values vs)

    pub sanitize_members : Members → Option Members
    sanitize_members end = some end
    sanitize_members (member key v ms) =
        when (not (unsafe_metadata_key key))
          (put_member key (sanitize_metadata_value v) (sanitize_members ms))
