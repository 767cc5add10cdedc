-- ===== src/Ids/Laws.antt =====
-- The handles that src/ids.rs makes are those that it accepts, by their kind.
use Prim.Native.String.append
use codex_memoryd.Prelude.{String, len, push_str, true, ◌≡◌, refl, some, take_chars, all_chars}
use codex_memoryd.Ids.{
  PublicHandleKind, memory_ref, source_ref, subject_ref, episode_ref, evidence_ref, checkpoint_ref,
  prefix, public_handle, strip_prefix, is_lower_hex, parse_public_handle,
}

-- A suffix that has the length and the alphabet of a handle.
pub record IsSuffix (s : String) : Type 0 where
  pub size : len s ≡ 32
  pub hex : all_chars is_lower_hex s ≡ true

parse-prefix :
    (kind : PublicHandleKind) (s : String)
    → IsSuffix s
    → parse_public_handle (push_str (prefix kind) s) ≡ some kind
unfolding parse_public_handle prefix strip_prefix
parse-prefix memory_ref s h =
    rw (append.cons, append.cons, append.cons, append.nil, h.size, h.hex) refl
parse-prefix source_ref s h =
    rw (append.cons, append.cons, append.cons, append.cons, append.cons, append.nil, h.size, h.hex)
      refl
parse-prefix subject_ref s h =
    rw (append.cons, append.cons, append.cons, append.cons, append.cons, append.nil, h.size, h.hex)
      refl
parse-prefix episode_ref s h =
    rw (append.cons, append.cons, append.cons, append.cons, append.nil, h.size, h.hex) refl
parse-prefix evidence_ref s h =
    rw (append.cons, append.cons, append.cons, append.cons, append.nil, h.size, h.hex) refl
parse-prefix checkpoint_ref s h =
    rw (append.cons, append.cons, append.cons, append.cons, append.nil, h.size, h.hex) refl

-- Where the first 32 characters of a digest are lowercase hexadecimal digits, as the `sha2` crate and
-- the formatting give them, every handle that is made is accepted, and gives back its kind.
pub parse_public_handle-public_handle :
    (hex_digest : String → String)
    → ((s : String) → IsSuffix (take_chars 32 (hex_digest s)))
    → (kind : PublicHandleKind) (raw : String)
    → parse_public_handle (public_handle hex_digest kind raw) ≡ some kind
unfolding public_handle
parse_public_handle-public_handle hex_digest digits kind raw = parse-prefix kind _ (digits _)
