-- ===== src/Examples/Bundles.antt =====
-- The bundles of src/portable_bundle.rs and the handles of src/ids.rs, on small inputs.
use codex_memoryd.Prelude.{
  All, ℕ, String, false, ◌&&◌, ◌≡◌, ◌≢◌, ◌⊎◌, refl, Option, none, some, List, [], ◌∷◌, leb,
  contains, to_ascii_lowercase, trim, arith,
}
use codex_memoryd.Errors.{ok}
use codex_memoryd.Ids.{memory_ref, public_handle, parse_public_handle, strip_prefix, prefix}
use codex_memoryd.Ids.Laws.{parse_public_handle-public_handle}
use codex_memoryd.Bundle.Base64.{decode_base64}
use codex_memoryd.Bundle.Base64.Laws.{encode, decode_base64-encode}
use codex_memoryd.Bundle.Paths.{
  valid_repo_path, validate_member_name, valid_metadata_string, unsafe_metadata_key,
}
use codex_memoryd.Bundle.Paths.Laws.{IsInside, IsBelow, paths-resolve}
use codex_memoryd.Bundle.Reference.{PortableRef, handle_kind, same_kind, validate}
use codex_memoryd.Bundle.Reference.Laws.{ref_key_injective}
use codex_memoryd.Bundle.Json.{
  Value, text, array, object, nil, cons, end, member, number, max_json_depth, is_ok,
  validate_json_limits, sanitize_metadata_value,
}
use codex_memoryd.Bundle.Json.Laws.{nesting, is_short, validate_json_limits_lem}
use codex_memoryd.Bundle.Json.Clean.{
  keys, texts, IsPlainKey, IsPlainText, sanitize_metadata_value-safe,
}
use codex_memoryd.Policy.Secrets.{detect_secret, detect_injection}
use codex_memoryd.Policy.Screen.{is_accept, screen_content, screen_string_value, truncate_chars}
use codex_memoryd.Examples.Gate.{literal_engine}

abbrev memory_bytes : List ℕ
memory_bytes = 109 ∷ 101 ∷ 109 ∷ 255 ∷ []

decode_base64-encode_example : decode_base64 (encode memory_bytes) ≡ ok memory_bytes
decode_base64-encode_example =
    decode_base64-encode memory_bytes (omega arith, (omega arith, (omega arith, (omega arith, tt))))
      refl

paths-resolve_example :
    ((valid_repo_path "src/lib.rs" ≡ false) ⊎ IsBelow "src/lib.rs")
    × ((validate_member_name "src/lib.rs" ≢ ok tt) ⊎ IsInside "src/lib.rs")
paths-resolve_example = paths-resolve "src/lib.rs"

-- a digest that is always the same
abbrev digits : String
digits = "0123456789abcdef0123456789abcdef"

abbrev constant_digest : String → String
constant_digest s = digits

parse_public_handle_example :
    parse_public_handle (public_handle constant_digest memory_ref "m1") ≡ some memory_ref
parse_public_handle_example =
    parse_public_handle-public_handle constant_digest (λ s. record { size = refl; hex = refl })
      memory_ref "m1"

abbrev reference : PortableRef
reference = record {
  origin_instance_id = "laptop-1";
  kind = "memory";
  id = "mr_0123456789abcdef0123456789abcdef";
}

ref_key_injective_example : reference ≡ reference
unfolding validate handle_kind same_kind parse_public_handle strip_prefix prefix
ref_key_injective_example =
    ref_key_injective reference reference (some "memory") none refl refl refl

abbrev metadata : Value
metadata =
    object
      (member "origin" (text "conclusion") (member "counts" (array (cons (number "3") nil)) end))

validate_json_limits_example :
    is_ok (validate_json_limits metadata 0)
    ≡ (leb (nesting metadata) max_json_depth && is_short metadata)
validate_json_limits_example = validate_json_limits_lem metadata

abbrev short_always : Value → Option ℕ
short_always v = some 64

sanitize_metadata_value_example :
    (metadata ≡ metadata)
    × All IsPlainKey (keys metadata)
    × All (IsPlainText literal_engine) (texts metadata)
unfolding sanitize_metadata_value validate_json_limits screen_content screen_string_value
    detect_secret detect_injection valid_metadata_string unsafe_metadata_key to_ascii_lowercase
    truncate_chars contains trim is_accept
sanitize_metadata_value_example =
    sanitize_metadata_value-safe literal_engine short_always metadata metadata refl
