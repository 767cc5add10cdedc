-- ===== src/Examples/Payloads.antt =====
-- A bundle of src/portable_bundle.rs with one subject and one memory about it.
use codex_memoryd.Prelude.{
  ℕ, String, Bool, true, false, ◌≡◌, ◌≢◌, refl, Option, none, some, [], ◌∷◌, str_eq, trim,
  to_ascii_lowercase, contains, split, if◌then◌else◌, ends_with, replace_char, arith,
}
use codex_memoryd.Prelude.Int.{ℤ, pos}
use codex_memoryd.Prelude.StrSet.{set_of, set_insert}
use codex_memoryd.Errors.{Result, ok, fail, invalid_request}
use codex_memoryd.Domain.MemoryRecord.{F64, f64_one}
use codex_memoryd.Domain.Profile
use codex_memoryd.Domain.Scope
use codex_memoryd.Domain.RecordType
use codex_memoryd.Domain.Sensitivity
use codex_memoryd.Domain.Portability
use codex_memoryd.Domain.TemporalState
use codex_memoryd.Domain.SubjectKind
use codex_memoryd.Ids.{parse_public_handle, strip_prefix, prefix}
use codex_memoryd.Policy.Secrets.{detect_secret, detect_injection}
use codex_memoryd.Policy.Screen.{is_accept, screen_content, screen_string_value, truncate_chars}
use codex_memoryd.Bundle.Canonical.{canonical_json}
use codex_memoryd.Bundle.Json.{
  Value, text, object, end, validate_json_limits, sanitize_metadata_value,
}
use codex_memoryd.Bundle.Paths.{
  validate_scalar, valid_metadata_string, valid_repo_path, sanitized_scalar, screened_string,
  unsafe_metadata_key,
}
use codex_memoryd.Bundle.Reference.{
  PortableRef, handle_kind, same_kind, same_ref, ref_key, validate, external_refs_from,
  validate_external_refs, validate_reference_present,
}
use codex_memoryd.Bundle.Manifest.{
  ObjectKind, subject, episode, source, evidence, memory, as_str, schema, media_type,
  kind_for_member, bundle_media_type, format_version, Descriptor, BundleManifest, same_texts,
  validate_manifest, validate_format, validate_timestamp, validate_scalars, validate_record_id,
  validate_required, validate_paths, validate_descriptor, validate_counts,
}
use codex_memoryd.Bundle.Manifest.Laws.{IsBound, validate_manifest-IsBound}
use codex_memoryd.Bundle.Objects.{
  ObjectEnvelope, SubjectBody, MemoryBody, validate_object_scope, validate_safe_metadata,
  bounded_score,
}
use codex_memoryd.Bundle.Objects.Checks.{validate_subject}
use codex_memoryd.Bundle.Objects.Memories.{
  validate_memory_refs, validate_memory_policy, validate_memory_names, validate_memory_fields,
  validate_memory_body, validate_memory,
}
use codex_memoryd.Bundle.Payload.{
  Reader, split_inclusive, ends_line, without_last, insert_ref, insert_aliases, insert_identities,
  parse_json, read_line, validate_lines, validate_members, parse_lines,
}
use codex_memoryd.Bundle.Payload.Check.{
  validate_member_counts, total, validate_selection, validate_dependencies, validate_entries,
  validate_memories, validate_payload_objects,
}
use codex_memoryd.Bundle.Payload.Laws.{IsSound, validate_payload_objects-IsSound}
use codex_memoryd.Examples.Gate.{literal_engine}

abbrev subject_at : PortableRef
subject_at = record {
  origin_instance_id = "laptop-1";
  kind = "subject";
  id = "msub_0123456789abcdef0123456789abcdef";
}

abbrev memory_at : PortableRef
memory_at = record {
  origin_instance_id = "laptop-1";
  kind = "memory";
  id = "mr_0123456789abcdef0123456789abcdef";
}

-- a source that stays where it is
abbrev source_at : PortableRef
source_at = record {
  origin_instance_id = "laptop-1";
  kind = "source";
  id = "msrc_0123456789abcdef0123456789abcdef";
}

abbrev noon : String
noon = "2026-01-01T12:00:00Z"

abbrev user : SubjectBody
user = record {
  profile = "work";
  workspace = "api";
  subject_key = "user";
  kind = "person";
  display_name = "the user";
  created_at = noon;
  updated_at = noon;
  metadata = object end;
}

abbrev uses_pnpm : MemoryBody
uses_pnpm = record {
  profile = "work";
  workspace = "api";
  repo_id = none;
  scope = "user";
  record_type = "preference";
  content = "use pnpm";
  related_files = "src/lib.rs" ∷ [];
  tags = [];
  sensitivity = "public";
  portability = "portable";
  confidence = f64_one;
  subject_ref = some subject_at;
  episode_ref = none;
  source_refs = source_at ∷ [];
  supersedes = [];
  superseded_by = none;
  created_at = noon;
  updated_at = noon;
  observed_at = none;
  valid_from = none;
  valid_until = none;
  invalidated_at = none;
  archived = false;
  temporal_state = "current";
  trust_state = "trusted";
  trust_score = f64_one;
  historical_reason = none;
  metadata = object end;
  external_refs = source_at ∷ [];
}

abbrev envelope_of : {A : Type 0} → ObjectKind → PortableRef → A → ObjectEnvelope A
envelope_of kind r body = record {
  schema = schema kind;
  portable_ref = r;
  aliases = [];
  digest = "body";
  body = body;
}

abbrev unreadable : {A : Type 0} → Value → Result A
unreadable v = fail invalid_request "not an object"

-- JSON whose objects are the texts `s` and `m`, with the digest of a text the text
abbrev small_reader : Reader
small_reader = record {
  parse_value = λ s. ok (text s);
  raw_envelope = λ v. elim v [
    | text s ↦ ok (
        if str_eq s "s"
        then envelope_of subject subject_at (text "body")
        else envelope_of memory memory_at (text "body"))
    | _ ↦ fail invalid_request "not an object"
  ];
  subject_envelope = λ v. ok (envelope_of subject subject_at user);
  episode_envelope = unreadable;
  source_envelope = unreadable;
  evidence_envelope = unreadable;
  memory_envelope = λ v. ok (envelope_of memory memory_at uses_pnpm);
  quoted = λ s. s;
  float_text = λ n. some n;
  sha256_hex = λ s. s;
}

abbrev archive : String → String
archive path =
    if str_eq path "objects/subjects.jsonl"
    then "s\n"
    else if str_eq path "objects/memories.jsonl"
    then "m\n"
    else ""

abbrev member_of : ObjectKind → String → ℕ → Descriptor
member_of kind path n = record {
  path = path;
  media_type = media_type kind;
  digest = "digest";
  size_bytes = 2;
  object_count = n;
  required = true;
}

abbrev manifest : BundleManifest
manifest = record {
  media_type = bundle_media_type;
  format_version = format_version;
  bundle_id = "bundle-1";
  created_at = noon;
  producer = record {
    instance_id = "laptop-1";
    tool_version = "1.0";
    storage_schema_version = pos 7;
  };
  intent = record {
    source_profile = "work";
    source_workspace = "api";
    source_repo_id = none;
    target_profile = "work";
    target_workspace = none;
    target_repo_id = none;
  };
  selection = record { record_ids = memory_at.id ∷ []; include_archived = false };
  policy = record { ruleset_version = "1"; boundary_decision = "allow" };
  descriptors =
      member_of subject "objects/subjects.jsonl" 1
      ∷ member_of episode "objects/episodes.jsonl" 0
      ∷ member_of source "objects/sources.jsonl" 0
      ∷ member_of evidence "objects/evidence.jsonl" 0
      ∷ member_of memory "objects/memories.jsonl" 1
      ∷ [];
  counts = record {
    root_memories = 1;
    dependency_objects = 1;
    omitted_secret = 0;
    omitted_quarantined = 0;
    omitted_portability = 0;
    omitted_boundary = 0;
    omitted_unsafe_path = 0;
    external_references = 1;
  };
  required_features = [];
}

abbrev utc : String → Option ℤ
utc s = some (pos 0)

abbrev short : Value → Option ℕ
short v = some 2

abbrev any_score : F64 → Bool
any_score x = true

validate_manifest-IsBound_example : IsBound manifest
unfolding validate_manifest validate_format validate_timestamp validate_scalars validate_record_id
    validate_required validate_paths validate_descriptor validate_counts validate_scalar
    kind_for_member media_type same_texts set_of set_insert parse_public_handle strip_prefix prefix
    same_kind ends_with trim contains to_ascii_lowercase
validate_manifest-IsBound_example = validate_manifest-IsBound utc manifest refl

validate_payload_objects-IsSound_example :
    IsSound literal_engine short utc any_score small_reader archive manifest
unfolding validate_payload_objects canonical_json validate_member_counts total validate_selection
    validate_dependencies validate_entries validate_memories split_inclusive ends_line without_last
    insert_ref insert_aliases insert_identities parse_json read_line validate_lines validate_members
    parse_lines validate_object_scope validate_safe_metadata bounded_score validate_subject
    validate_memory_refs validate_memory_policy validate_memory_names validate_memory_fields
    validate_memory_body validate_memory handle_kind same_kind same_ref ref_key validate
    external_refs_from validate_external_refs validate_reference_present validate_timestamp
    kind_for_member schema as_str same_texts set_of set_insert parse_public_handle strip_prefix
    prefix validate_scalar valid_metadata_string valid_repo_path sanitized_scalar screened_string
    unsafe_metadata_key validate_json_limits sanitize_metadata_value is_accept screen_content
    screen_string_value truncate_chars detect_secret detect_injection Profile.parse Scope.parse
    RecordType.parse Sensitivity.parse Portability.parse TemporalState.parse SubjectKind.parse
    Sensitivity.as_str ends_with trim contains to_ascii_lowercase split replace_char
validate_payload_objects-IsSound_example =
    validate_payload_objects-IsSound literal_engine short utc any_score small_reader archive
      manifest refl

-- In other letters the sensitivity is read as blocked, and is not denied.
test_sensitivity :
    (Sensitivity.parse "SECRET_BLOCKED" ≡ some Sensitivity.secret_blocked)
    × (validate_memory_policy (record uses_pnpm { sensitivity = "SECRET_BLOCKED" }) ≡ ok tt)
    × (validate_memory_policy (record uses_pnpm { sensitivity = "secret_blocked" }) ≢ ok tt)
unfolding Sensitivity.parse Sensitivity.as_str validate_memory_policy trim to_ascii_lowercase
test_sensitivity = (refl, refl, λ e. ground arith)
