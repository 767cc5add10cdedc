-- ===== src/Bundle/Objects/Memories.antt =====
-- The checks of memories, `validate_memory_body` and the last loop of `validate_payload_objects` of
-- src/portable_bundle.rs.
use codex_memoryd.Prelude.{ℕ, String, Bool, not, ◌&&◌, Option, none, List, length, leb, str_eq}
use codex_memoryd.Prelude.Int.{ℤ}
use codex_memoryd.Errors.{
  Result, ◌>>◌, ensure, each, for_some, bundle_schema_unsupported, bundle_limit_exceeded,
  bundle_policy_denied,
}
use codex_memoryd.Domain.Profile
use codex_memoryd.Domain.Scope
use codex_memoryd.Domain.RecordType
use codex_memoryd.Domain.Sensitivity
use codex_memoryd.Domain.Portability
use codex_memoryd.Domain.TemporalState
use codex_memoryd.Domain.MemoryRecord.{F64}
use codex_memoryd.Policy.Regex.{RegexEngine}
use codex_memoryd.Policy.Screen.{max_record_chars}
use codex_memoryd.Bundle.Json.{Value}
use codex_memoryd.Bundle.Manifest.{BundleIntent, validate_timestamp}
use codex_memoryd.Bundle.Reference.{
  PortableRef, max_refs, validate, validate_external_refs, validate_reference_present,
}
use codex_memoryd.Bundle.Objects.{
  MemoryBody, max_tags, max_files, is_some, scalar, repo_path, validate_object_scope,
  validate_safe_metadata, bounded_score, screened,
}

-- the references of a memory, by the kinds expected of them
unfoldable pub validate_memory_refs : List String → MemoryBody → Result {0} Unit
validate_memory_refs present b =
    let met = λ (kind : String) (r : PortableRef).
      validate_reference_present r kind present b.external_refs in
    do
      for_some (met "subject") b.subject_ref
      for_some (met "episode") b.episode_ref
      each (met "source") b.source_refs
      each (met "memory") b.supersedes
      for_some (met "memory") b.superseded_by
      each (λ r. validate r none) b.external_refs
      validate_external_refs b.external_refs present

unfoldable pub validate_memory_policy : MemoryBody → Result {0} Unit
validate_memory_policy b =
    ensure
      (not (str_eq b.sensitivity (Sensitivity.as_str Sensitivity.secret_blocked))
        && str_eq b.trust_state "trusted")
      bundle_policy_denied "only non-secret, trusted memories are portable"

module _ (E : RegexEngine) (encoded_len : Value → Option ℕ) (utc_offset : String → Option ℤ)
    (in_unit : F64 → Bool) where
  -- the scope and the first of the names
  unfoldable pub validate_memory_names : MemoryBody → Result {0} Unit
  validate_memory_names b = do
    scalar 128 b.profile
    scalar 512 b.workspace
    for_some (scalar 512) b.repo_id
    ensure (is_some (Profile.parse b.profile)) bundle_schema_unsupported "invalid memory profile"
    ensure (is_some (Scope.parse b.scope)) bundle_schema_unsupported "invalid memory scope"
    ensure (is_some (RecordType.parse b.record_type)) bundle_schema_unsupported
        "invalid memory type"
    ensure (is_some (Sensitivity.parse b.sensitivity)) bundle_schema_unsupported
        "invalid memory sensitivity"

  -- what follows the policy
  unfoldable pub validate_memory_fields : MemoryBody → Result {0} Unit
  validate_memory_fields b = do
    ensure (is_some (Portability.parse b.portability)) bundle_schema_unsupported
        "invalid memory portability"
    ensure (is_some (TemporalState.parse b.temporal_state)) bundle_schema_unsupported
        "invalid memory temporal state"
    bounded_score in_unit "memory confidence must be a finite value between zero and one"
        b.confidence
    bounded_score in_unit "memory trust score must be a finite value between zero and one"
        b.trust_score
    scalar 128 b.trust_state
    ensure
        (leb (length b.related_files) max_files
          && leb (length b.tags) max_tags
          && leb (length b.source_refs) max_refs
          && leb (length b.supersedes) max_refs
          && leb (length b.external_refs) max_refs)
        bundle_limit_exceeded "memory reference or numeric limit exceeded"
    each (repo_path "memory contains an unsafe repository-relative path") b.related_files
    each (scalar 256) b.tags
    screened E max_record_chars b.content
    validate_timestamp utc_offset b.created_at
    validate_timestamp utc_offset b.updated_at
    for_some (validate_timestamp utc_offset) b.observed_at
    for_some (validate_timestamp utc_offset) b.valid_from
    for_some (validate_timestamp utc_offset) b.valid_until
    for_some (validate_timestamp utc_offset) b.invalidated_at

  unfoldable pub validate_memory_body : MemoryBody → Result {0} Unit
  validate_memory_body b = do
    validate_memory_names b
    validate_memory_policy b
    validate_memory_fields b

  unfoldable pub validate_memory : BundleIntent → List String → MemoryBody → Result {0} Unit
  validate_memory intent present b = do
    validate_object_scope b.profile b.workspace intent
        "memory scope does not match the bundle source intent"
    validate_memory_body b
    validate_safe_metadata E encoded_len b.metadata
    validate_memory_refs present b
