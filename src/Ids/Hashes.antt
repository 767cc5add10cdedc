-- ===== src/Ids/Hashes.antt =====
-- The content and source hashes of src/ids.rs. `hex_digest` is the lowercase hexadecimal form of the
-- `sha2` crate's digest of a text, and `to_lowercase` that of `char` in Unicode's tables.
pub mod Laws
use codex_memoryd.Prelude.{
  Char, String, push_str, Bool, true, false, Option, none, some, is_whitespace, trim, if◌then◌else◌,
}

-- the loop over the characters, with `last_was_space`
unfoldable pub normalize_from : (Char → String) → String → Bool → String
normalize_from to_lowercase String.[] last_was_space = String.[]
normalize_from to_lowercase (String.◌∷◌ c s) last_was_space =
    let after_space = normalize_from to_lowercase s true in
    let after_char = normalize_from to_lowercase s false in
    if is_whitespace c
    then (if last_was_space then after_space else String.◌∷◌ " " after_space)
    else push_str (to_lowercase c) after_char

unfoldable pub normalize_for_hash : (Char → String) → String → String
unfolding normalize_from trim
normalize_for_hash to_lowercase content = normalize_from to_lowercase (trim content) false

-- `update(field)`, then `update(b"\x1f")`
abbrev pub field : String → String → String
field s rest = push_str s (push_str "\u{1f}" rest)

-- `unwrap_or("")`
abbrev pub or_empty : Option String → String
or_empty none = String.[]
or_empty (some s) = s

module _ (hex_digest : String → String) where
  unfoldable pub exact_content_hash :
      String → String → Option String → String → String → String → String
  exact_content_hash profile workspace repo_id record_type scope content = push_str "sha256:" (
      hex_digest (
        field profile
          (field workspace (field (or_empty repo_id) (field record_type (field scope content))))))

  unfoldable pub content_hash :
      (Char → String) → String → String → Option String → String → String → String → String
  content_hash to_lowercase profile workspace repo_id record_type scope content =
      push_str "sha256:" (
        hex_digest (
          field profile (
            field workspace (
              field (or_empty repo_id)
                (field record_type (field scope (normalize_for_hash to_lowercase content)))))))

  unfoldable pub source_hash : String → String → String → String → String
  source_hash profile workspace source_path raw_content =
      push_str "sha256:"
        (hex_digest (field profile (field workspace (field source_path raw_content))))
