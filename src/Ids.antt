-- ===== src/Ids.antt =====
-- src/ids.rs: the public handles of durable rows. `hex_digest` is the lowercase hexadecimal form of
-- the `sha2` crate's digest of a text.
pub mod Laws
pub mod Hashes
use codex_memoryd.Prelude.{
  ℕ, ◌==◌, String, len, push_str, Char, code, Bool, true, false, not, ◌&&◌, ◌||◌, Option, none,
  some, take_chars, trim, all_chars, leb, if◌then◌else◌,
}

pub data PublicHandleKind : Type 0 where
  memory_ref source_ref subject_ref episode_ref evidence_ref checkpoint_ref : PublicHandleKind

unfoldable pub prefix : PublicHandleKind → String
prefix memory_ref = "mr_"
prefix source_ref = "msrc_"
prefix subject_ref = "msub_"
prefix episode_ref = "mep_"
prefix evidence_ref = "mev_"
prefix checkpoint_ref = "mcp_"

-- the digest of the kind and the trimmed raw id, cut to 32 characters
unfoldable pub public_handle : (String → String) → PublicHandleKind → String → String
unfolding prefix trim
public_handle hex_digest kind raw =
    push_str (prefix kind)
      (take_chars 32 (hex_digest (push_str (prefix kind) (push_str "\u{1f}" (trim raw)))))

-- `strip_prefix`
unfoldable pub strip_prefix : String → String → Option String
strip_prefix s String.[] = some s
strip_prefix String.[] (String.◌∷◌ d t) = none
strip_prefix (String.◌∷◌ c s) (String.◌∷◌ d t) =
    let rest = strip_prefix s t in if code c == code d then rest else none

-- `is_ascii_hexdigit() && !is_ascii_uppercase()`
abbrev pub is_lower_hex : Char → Bool
is_lower_hex c =
    (leb b'0' (code c) && leb (code c) b'9') || (leb b'a' (code c) && leb (code c) b'f')

abbrev suffix_kind : PublicHandleKind → String → Option PublicHandleKind
suffix_kind kind suffix =
    if len suffix == 32 && all_chars is_lower_hex suffix then some kind else none

-- one turn of the loop over the kinds, and the turns after it
abbrev try_kind : String → PublicHandleKind → Option PublicHandleKind → Option PublicHandleKind
try_kind value kind later = elim (strip_prefix value (prefix kind)) [
  | some suffix ↦ suffix_kind kind suffix
  | none ↦ later
]

unfoldable pub parse_public_handle : String → Option PublicHandleKind
unfolding prefix strip_prefix
parse_public_handle value = try_kind value memory_ref (
    try_kind value source_ref (
      try_kind value subject_ref (
        try_kind value episode_ref
          (try_kind value evidence_ref (try_kind value checkpoint_ref none)))))
