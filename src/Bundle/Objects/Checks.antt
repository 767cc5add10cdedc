-- ===== src/Bundle/Objects/Checks.antt =====
-- The checks of subjects, episodes, sources and evidence, of `validate_payload_objects` of
-- src/portable_bundle.rs.
use codex_memoryd.Prelude.{ℕ, String, Bool, Option, none, some, List, length, leb}
use codex_memoryd.Prelude.Int.{ℤ}
use codex_memoryd.Errors.{
  Result, ◌>>◌, ensure, each, for_some, bundle_schema_unsupported, bundle_limit_exceeded,
  bundle_missing_dependency,
}
use codex_memoryd.Domain.SubjectKind
use codex_memoryd.Domain.MemoryRecord.{F64}
use codex_memoryd.Policy.Regex.{RegexEngine}
use codex_memoryd.Policy.Screen.{max_record_chars}
use codex_memoryd.Bundle.Json.{Value}
use codex_memoryd.Bundle.Manifest.{BundleIntent, validate_timestamp}
use codex_memoryd.Bundle.Reference.{PortableRef, max_refs, validate, validate_external_refs}
use codex_memoryd.Bundle.Objects.{
  SubjectBody, EpisodeBody, SourceBody, EvidenceBody, is_some, scalar, repo_path, is_met,
  validate_object_scope, validate_safe_metadata, bounded_score, screened,
}

-- a reference of an evidence, of the kind that is expected
unfoldable pub validate_evidence_ref :
    List String → List PortableRef → String → String → PortableRef → Result {0} Unit
validate_evidence_ref present external_refs expected_kind message r = do
  validate r (some expected_kind)
  ensure (is_met present external_refs r) bundle_missing_dependency message

-- the references of an evidence
unfoldable pub validate_evidence_refs : List String → EvidenceBody → Result {0} Unit
validate_evidence_refs present b = do
  for_some
      (validate_evidence_ref present b.external_refs "subject"
        "evidence references a missing subject")
      b.subject_ref
  for_some
      (validate_evidence_ref present b.external_refs "source"
        "evidence references a missing source")
      b.source_ref
  ensure (leb (length b.external_refs) max_refs) bundle_limit_exceeded
      "evidence external-reference limit exceeded"
  each (λ r. validate r none) b.external_refs
  validate_external_refs b.external_refs present

module _ (E : RegexEngine) (encoded_len : Value → Option ℕ) (utc_offset : String → Option ℤ)
    (in_unit : F64 → Bool) where
  module _ (intent : BundleIntent) where
    unfoldable pub validate_subject : SubjectBody → Result {0} Unit
    validate_subject b = do
      validate_object_scope b.profile b.workspace intent
          "subject scope does not match the bundle source intent"
      scalar 128 b.profile
      scalar 512 b.workspace
      scalar 512 b.subject_key
      ensure (is_some (SubjectKind.parse b.kind)) bundle_schema_unsupported
          "unsupported subject kind"
      screened E 512 b.display_name
      validate_safe_metadata E encoded_len b.metadata
      validate_timestamp utc_offset b.created_at
      validate_timestamp utc_offset b.updated_at

    unfoldable pub validate_episode : EpisodeBody → Result {0} Unit
    validate_episode b = do
      validate_object_scope b.profile b.workspace intent
          "episode scope does not match the bundle source intent"
      scalar 128 b.profile
      scalar 512 b.workspace
      validate b.subject_ref (some "subject")
      scalar 128 b.source_kind
      scalar 512 b.source_ref
      for_some (scalar 128) b.status
      for_some (scalar 128) b.trust_level
      validate_timestamp utc_offset b.created_at
      validate_timestamp utc_offset b.updated_at
      for_some (validate_timestamp utc_offset) b.started_at
      for_some (validate_timestamp utc_offset) b.ended_at
      screened E max_record_chars b.summary
      validate_safe_metadata E encoded_len b.source_metadata
      validate_safe_metadata E encoded_len b.metadata

    unfoldable pub validate_source : SourceBody → Result {0} Unit
    validate_source b = do
      validate_object_scope b.profile b.workspace intent
          "source scope does not match the bundle source intent"
      scalar 128 b.profile
      scalar 512 b.workspace
      scalar 128 b.kind
      scalar 256 b.source_hash
      for_some (repo_path "source contains an unsafe repository-relative path") b.source_path
      validate_timestamp utc_offset b.created_at
      validate_timestamp utc_offset b.ingested_at
      validate_safe_metadata E encoded_len b.metadata

    -- the scope and the names before the references
    unfoldable pub validate_evidence_names : EvidenceBody → Result {0} Unit
    validate_evidence_names b = do
      validate_object_scope b.profile b.workspace intent
          "evidence scope does not match the bundle source intent"
      scalar 128 b.profile
      scalar 512 b.workspace
      for_some (scalar 512) b.repo_id
      for_some (scalar 512) b.subject_key
      scalar 128 b.source_kind
      scalar 256 b.source_hash
      scalar 128 b.policy_state
      scalar 128 b.trust_state
      bounded_score in_unit "evidence trust score must be a finite value between zero and one"
          b.trust_score

    unfoldable pub validate_evidence : List String → EvidenceBody → Result {0} Unit
    validate_evidence present b = do
      validate_evidence_names b
      validate_evidence_refs present b
      for_some (repo_path "evidence contains an unsafe repository-relative path") b.source_path
      screened E max_record_chars b.safe_summary
      validate_safe_metadata E encoded_len b.metadata
      validate_timestamp utc_offset b.created_at
