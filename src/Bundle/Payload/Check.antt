-- ===== src/Bundle/Payload/Check.antt =====
-- `validate_payload_objects` of src/portable_bundle.rs: the objects of a bundle against its manifest.
use codex_memoryd.Prelude.{
  ℕ, ◌+◌, String, Bool, ◌&&◌, Option, List, [], ◌∷◌, ◌++◌, length, ltb, map, ◌==◌,
}
use codex_memoryd.Prelude.Int.{ℤ}
use codex_memoryd.Prelude.StrSet.{set_of}
use codex_memoryd.Errors.{
  Result, ok, ◌>>=◌, ◌>>◌, ensure, each, bundle_integrity_failed, bundle_limit_exceeded,
}
use codex_memoryd.Domain.MemoryRecord.{F64}
use codex_memoryd.Policy.Regex.{RegexEngine}
use codex_memoryd.Bundle.Json.{Value}
use codex_memoryd.Bundle.Manifest.{
  ObjectKind, subject, episode, source, evidence, memory, BundleManifest, same_texts, usize_end,
}
use codex_memoryd.Bundle.Objects.{ObjectEnvelope, EvidenceBody, MemoryBody}
use codex_memoryd.Bundle.Objects.Checks.{
  validate_subject, validate_episode, validate_source, validate_evidence,
}
use codex_memoryd.Bundle.Objects.Memories.{validate_memory}
use codex_memoryd.Bundle.Payload.{
  Reader, Seen, nothing_seen, split_inclusive, validate_members, parse_lines,
}

unfoldable pub validate_member_counts : BundleManifest → Seen → Result {0} Unit
validate_member_counts m s =
    let n = s.member_counts in
    ensure
      (n memory == m.counts.root_memories
        && n subject + n episode + n source + n evidence == m.counts.dependency_objects
        && length m.selection.record_ids == m.counts.root_memories)
      bundle_integrity_failed "manifest object counts do not match the payload"

unfoldable pub total : List ℕ → ℕ
total [] = 0
total (n ∷ ns) = n + total ns

-- the lengths of the lists of external references, of the memories and then of the evidence
abbrev pub external_lengths :
    List (ObjectEnvelope MemoryBody) → List (ObjectEnvelope EvidenceBody) → List ℕ
external_lengths memories entries =
    map (λ e. length e.body.external_refs) memories
    ++ map (λ e. length e.body.external_refs) entries

abbrev pub ids_of : List (ObjectEnvelope MemoryBody) → List String
ids_of = map λ e. e.portable_ref.id

unfoldable pub validate_selection : BundleManifest → List String → List ℕ → Result {0} Unit
validate_selection m ids counts = do
  ensure (ltb (total counts) usize_end) bundle_limit_exceeded "external-reference count overflow"
  ensure
      (length (set_of m.selection.record_ids) == length m.selection.record_ids
        && same_texts (set_of m.selection.record_ids) (set_of ids)
        && total counts == m.counts.external_references)
      bundle_integrity_failed
      "manifest selection or external-reference counts do not match the payload"

module _ (E : RegexEngine) (encoded_len : Value → Option ℕ) (utc_offset : String → Option ℤ)
    (in_unit : F64 → Bool) (reader : Reader) (members : String → String) (m : BundleManifest) where
  abbrev pub parse_member :
      {A : Type 0}
      → (Value → Result (ObjectEnvelope A))
      → ObjectKind
      → String
      → Result (List (ObjectEnvelope A))
  parse_member read kind path = parse_lines reader read kind (split_inclusive (members path))

  abbrev pub parse_memories : Result (List (ObjectEnvelope MemoryBody))
  parse_memories = parse_member reader.memory_envelope memory "objects/memories.jsonl"

  abbrev pub parse_evidence : Result (List (ObjectEnvelope EvidenceBody))
  parse_evidence = parse_member reader.evidence_envelope evidence "objects/evidence.jsonl"

  -- the loops over the subjects, the episodes and the sources
  unfoldable pub validate_dependencies : Result {0} Unit
  validate_dependencies = do
    subjects ← parse_member reader.subject_envelope subject "objects/subjects.jsonl"
    each (λ e. validate_subject E encoded_len utc_offset in_unit m.intent e.body) subjects
    episodes ← parse_member reader.episode_envelope episode "objects/episodes.jsonl"
    each (λ e. validate_episode E encoded_len utc_offset in_unit m.intent e.body) episodes
    sources ← parse_member reader.source_envelope source "objects/sources.jsonl"
    each (λ e. validate_source E encoded_len utc_offset in_unit m.intent e.body) sources

  unfoldable pub validate_entries : Seen → Result (List (ObjectEnvelope EvidenceBody))
  validate_entries s = do
    entries ← parse_evidence
    each (λ e. validate_evidence E encoded_len utc_offset in_unit m.intent s.present e.body) entries
    ok entries

  unfoldable pub validate_memories : Seen → List (ObjectEnvelope EvidenceBody) → Result {0} Unit
  validate_memories s entries = do
    memories ← parse_memories
    validate_selection m (ids_of memories) (external_lengths memories entries)
    each (λ e. validate_memory E encoded_len utc_offset in_unit m.intent s.present e.body) memories

  unfoldable pub validate_payload_objects : Result {0} Unit
  validate_payload_objects = do
    s ← validate_members reader members m.descriptors nothing_seen
    validate_member_counts m s
    validate_dependencies
    entries ← validate_entries s
    validate_memories s entries
