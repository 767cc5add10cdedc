-- ===== src/Bundle/Reference.antt =====
-- `PortableRef` of src/portable_bundle.rs, and what a bundle asks of its references.
pub mod Laws
use codex_memoryd.Prelude.{
  ℕ, Char, code, String, len, push_str, Bool, true, false, not, ◌&&◌, ◌||◌, Option, none, some,
  List, [], ◌∷◌, any, length, leb, ltb, ◌==◌, str_eq, str_is_empty, all_chars, mem_str,
  if◌then◌else◌,
}
use codex_memoryd.Prelude.StrSet.{set_insert}
use codex_memoryd.Ids.{
  PublicHandleKind, memory_ref, source_ref, subject_ref, episode_ref, evidence_ref, checkpoint_ref,
  parse_public_handle,
}
use codex_memoryd.Errors.{
  Result, ok, err, fail, bundle_integrity_failed, bundle_schema_unsupported, bundle_limit_exceeded,
  bundle_duplicate_identity, bundle_missing_dependency,
}

pub record PortableRef : Type 0 where
  pub origin_instance_id : String
  pub kind : String
  pub id : String

abbrev pub max_refs : ℕ
max_refs = 256

-- `is_ascii_alphanumeric() || matches!(c, '_' | '-' | '.')`
abbrev pub is_origin_char : Char → Bool
is_origin_char c =
    let n = code c in
    (leb b'0' n && leb n b'9')
    || (leb b'A' n && leb n b'Z')
    || (leb b'a' n && leb n b'z')
    || n == b'_'
    || n == b'-'
    || n == b'.'

-- the kinds of object, by their names
unfoldable pub handle_kind : String → Option PublicHandleKind
handle_kind kind =
    if str_eq kind "memory"
    then some memory_ref
    else if str_eq kind "subject"
    then some subject_ref
    else if str_eq kind "episode"
    then some episode_ref
    else if str_eq kind "source"
    then some source_ref
    else if str_eq kind "evidence"
    then some evidence_ref
    else none

-- `==` of the kinds of handle
unfoldable pub same_kind : PublicHandleKind → PublicHandleKind → Bool
same_kind memory_ref memory_ref = true
same_kind source_ref source_ref = true
same_kind subject_ref subject_ref = true
same_kind episode_ref episode_ref = true
same_kind evidence_ref evidence_ref = true
same_kind checkpoint_ref checkpoint_ref = true
same_kind _ _ = false

abbrev is_handle_of : PublicHandleKind → String → Bool
is_handle_of kind id = elim (parse_public_handle id) [ none ↦ false | some k ↦ same_kind k kind ]

abbrev expects_other : Option String → String → Bool
expects_other none kind = false
expects_other (some expected) kind = not (str_eq expected kind)

abbrev pub bad_origin : String → Bool
bad_origin origin =
    ltb 128 (len origin) || str_is_empty origin || not (all_chars is_origin_char origin)

-- `PortableRef::validate`
unfoldable pub validate : PortableRef → Option String → Result {0} Unit
validate r expected_kind =
    if bad_origin r.origin_instance_id
    then fail bundle_integrity_failed "invalid portable origin instance"
    else if expects_other expected_kind r.kind
    then fail bundle_integrity_failed "portable reference kind does not match its member"
    else elim (handle_kind r.kind) [
      | none ↦ fail bundle_schema_unsupported "unsupported portable object kind"
      | some kind ↦
          if not (is_handle_of kind r.id)
          then fail bundle_integrity_failed "portable object id is not an opaque public handle"
          else ok tt
    ]

abbrev pub separator : String
separator = "\u{1f}"

unfoldable pub ref_key : PortableRef → String
ref_key r =
    push_str r.origin_instance_id (push_str separator (push_str r.kind (push_str separator r.id)))

-- `==` of references
unfoldable pub same_ref : PortableRef → PortableRef → Bool
same_ref a b =
    str_eq a.origin_instance_id b.origin_instance_id && str_eq a.kind b.kind && str_eq a.id b.id

-- the loop over the references, with the keys seen so far
unfoldable pub external_refs_from : List String → List PortableRef → List String → Result {0} Unit
external_refs_from present [] seen = ok tt
external_refs_from present (r ∷ more) seen =
    let rest = external_refs_from present more (set_insert (ref_key r) seen) in
    if mem_str (ref_key r) seen || mem_str (ref_key r) present
    then fail bundle_duplicate_identity
        "external references must be unique and omitted from the payload"
    else rest

unfoldable pub validate_external_refs : List PortableRef → List String → Result {0} Unit
validate_external_refs references present =
    if ltb max_refs (length references)
    then fail bundle_limit_exceeded "external-reference limit exceeded"
    else external_refs_from present references []

unfoldable pub validate_reference_present :
    PortableRef → String → List String → List PortableRef → Result {0} Unit
validate_reference_present r expected_kind present external_refs =
    elim (validate r (some expected_kind)) [
      | err e ↦ err e
      | ok _ ↦
          if not (mem_str (ref_key r) present) && not (any (same_ref r) external_refs)
          then fail bundle_missing_dependency "portable object references a missing dependency"
          else ok tt
    ]
