-- ===== src/Bundle/Payload/Laws.antt =====
-- What holds of a payload that `validate_payload_objects` of src/portable_bundle.rs accepts.
use codex_memoryd.Prelude.{
  ℕ, String, Bool, true, ◌&&◌, ◌≡◌, ap, sym, subst, ◌∙◌, Option, List, All, All-imp, mem_str,
  str_eq, eq_iff, arith, ltb,
}
use codex_memoryd.Prelude.Int.{ℤ}
use codex_memoryd.Prelude.Distinct.{Distinct}
use codex_memoryd.Prelude.StrSet.{set_of, mem_str-set_of}
use codex_memoryd.Errors.{ok, >>-eq-ok, bind_succeeds, ensure-eq-ok, each-eq-ok, ensure}
use codex_memoryd.Domain.MemoryRecord.{F64}
use codex_memoryd.Policy.Regex.{RegexEngine}
use codex_memoryd.Bundle.Json.{Value}
use codex_memoryd.Bundle.Manifest.{BundleManifest, BundleIntent, same_texts, usize_end}
use codex_memoryd.Bundle.Manifest.Laws.{same_texts-eq}
use codex_memoryd.Bundle.Objects.{ObjectEnvelope, EvidenceBody, MemoryBody, validate_object_scope}
use codex_memoryd.Bundle.Objects.Checks.{
  validate_evidence, validate_evidence_names, validate_evidence_refs,
}
use codex_memoryd.Bundle.Objects.Memories.{
  validate_memory_body, validate_memory_names, validate_memory_policy, validate_memory,
}
use codex_memoryd.Bundle.Payload.{Reader, Seen, nothing_seen, validate_members}
use codex_memoryd.Bundle.Payload.Identities.{ReadMembers, member_keys, validate_members-Distinct}
use codex_memoryd.Bundle.Payload.Closed.{
  refs_of, evidence_refs_of, validate_evidence_refs-IsClosed, IsClosed, IsClosed-same,
  validate_memory_refs-IsClosed,
}
use codex_memoryd.Bundle.Payload.Check.{
  ids_of, external_lengths, total, validate_member_counts, validate_selection,
  validate_dependencies, validate_entries, validate_memories, validate_payload_objects,
  parse_evidence, parse_memories,
}

-- A memory that may be brought in from the scope that the bundle names.
pub record IsPortable (intent : BundleIntent) (b : MemoryBody) : Type 0 where
  pub profile : b.profile ≡ intent.source_profile
  pub workspace : b.workspace ≡ intent.source_workspace
  pub trusted : b.trust_state ≡ "trusted"

validate_object_scope-eq :
    (profile workspace : String) (intent : BundleIntent) (message : String)
    → validate_object_scope profile workspace intent message ≡ ok tt
    → (profile ≡ intent.source_profile) × (workspace ≡ intent.source_workspace)
unfolding validate_object_scope
validate_object_scope-eq profile workspace intent message h =
    let same =
      ensure-eq-ok
        (str_eq profile intent.source_profile && str_eq workspace intent.source_workspace) _ _ h in
    (
      ground (arith, eq_iff profile intent.source_profile),
      ground (arith, eq_iff workspace intent.source_workspace),
    )

and-right : (a b : Bool) → (a && b) ≡ true → b ≡ true
and-right a b h = ground arith

validate_memory_policy-trusted :
    (b : MemoryBody) → validate_memory_policy b ≡ ok tt → b.trust_state ≡ "trusted"
unfolding validate_memory_policy
validate_memory_policy-trusted b h =
    (eq_iff b.trust_state "trusted").0 (and-right _ _ (ensure-eq-ok _ _ _ h))

ok_entries : (xs ys : List (ObjectEnvelope EvidenceBody)) → ok xs ≡ ok ys → xs ≡ ys
ok_entries xs ys h = cc

module _ (E : RegexEngine) (encoded_len : Value → Option ℕ) (utc_offset : String → Option ℤ)
    (in_unit : F64 → Bool) where
  validate_memory_body-trusted :
      (b : MemoryBody)
      → validate_memory_body E encoded_len utc_offset in_unit b ≡ ok tt
      → b.trust_state ≡ "trusted"
  unfolding validate_memory_body
  validate_memory_body-trusted b h =
      let (_, rest) = >>-eq-ok (validate_memory_names E encoded_len utc_offset in_unit b) _ h in
      validate_memory_policy-trusted b (>>-eq-ok (validate_memory_policy b) _ rest).0

  validate_evidence-IsClosed :
      (intent : BundleIntent) (present : List String) (b : EvidenceBody)
      → validate_evidence E encoded_len utc_offset in_unit intent present b ≡ ok tt
      → IsClosed present b.external_refs (evidence_refs_of b)
  unfolding validate_evidence
  validate_evidence-IsClosed intent present b h =
      let (_, rest) =
        >>-eq-ok (validate_evidence_names E encoded_len utc_offset in_unit intent b) _ h in
      validate_evidence_refs-IsClosed present b
        (>>-eq-ok (validate_evidence_refs present b) _ rest).0

  validate_memory-IsPortable :
      (intent : BundleIntent) (present : List String) (b : MemoryBody)
      → validate_memory E encoded_len utc_offset in_unit intent present b ≡ ok tt
      → IsPortable intent b × IsClosed present b.external_refs (refs_of b)
  unfolding validate_memory
  validate_memory-IsPortable intent present b h =
      let (scope, h1) = >>-eq-ok (validate_object_scope b.profile b.workspace intent _) _ h in
      let (body, h2) = >>-eq-ok _ _ h1 in
      let (_, refs) = >>-eq-ok _ _ h2 in
      let (profile, workspace) = validate_object_scope-eq _ _ intent _ scope in
      (
        record {
          profile = profile;
          workspace = workspace;
          trusted = validate_memory_body-trusted b body;
        },
        validate_memory_refs-IsClosed present b refs,
      )

same_members :
    (xs ys : List String)
    → same_texts (set_of xs) (set_of ys) ≡ true
    → (k : String) → mem_str k xs ≡ mem_str k ys
same_members xs ys h k =
    sym (mem_str-set_of k xs)
    ∙ (ap (mem_str k) (same_texts-eq (set_of xs) (set_of ys) h) ∙ mem_str-set_of k ys)

middle : (a b c : Bool) → (a && b && c) ≡ true → b ≡ true
middle a b c h = ground arith

validate_selection-same :
    (m : BundleManifest) (ids : List String) (counts : List ℕ)
    → validate_selection m ids counts ≡ ok tt
    → (k : String) → mem_str k m.selection.record_ids ≡ mem_str k ids
unfolding validate_selection
validate_selection-same m ids counts h =
    let (_, fine) = >>-eq-ok (ensure (ltb (total counts) usize_end) _ _) _ h in
    same_members m.selection.record_ids ids (middle _ _ _ (ensure-eq-ok _ _ _ fine))

module _ (E : RegexEngine) (encoded_len : Value → Option ℕ) (utc_offset : String → Option ℤ)
    (in_unit : F64 → Bool) (reader : Reader) (members : String → String) (m : BundleManifest) where
  validate_entries-All :
      (s : Seen) (entries : List (ObjectEnvelope EvidenceBody))
      → validate_entries E encoded_len utc_offset in_unit reader members m s ≡ ok entries
      → (parse_evidence E encoded_len utc_offset in_unit reader members m ≡ ok entries)
        × All (λ e. IsClosed s.present e.body.external_refs (evidence_refs_of e.body)) entries
  unfolding validate_entries
  validate_entries-All s entries h =
      let (found, parsed, h1) =
        bind_succeeds (parse_evidence E encoded_len utc_offset in_unit reader members m) _ _ h in
      let (_, checked, returned) = bind_succeeds _ _ _ h1 in
      let same : found ≡ entries = ok_entries found entries returned in
      subst
        (λ es.
          (parse_evidence E encoded_len utc_offset in_unit reader members m ≡ ok es)
          × All (λ e. IsClosed s.present e.body.external_refs (evidence_refs_of e.body)) es)
        same
        (
          parsed,
          All-imp
              (λ e.
                validate_evidence-IsClosed E encoded_len utc_offset in_unit m.intent s.present
                  e.body)
              found (each-eq-ok _ _ checked),
        )

  validate_memories-All :
      (s : Seen) (entries : List (ObjectEnvelope EvidenceBody))
      → validate_memories E encoded_len utc_offset in_unit reader members m s entries ≡ ok tt
      → (memories : List (ObjectEnvelope MemoryBody)) × (parse_memories E encoded_len utc_offset
            in_unit reader members m
          ≡ ok memories)
        × ((k : String) → mem_str k m.selection.record_ids ≡ mem_str k (ids_of memories))
        × All
            (λ e.
              IsPortable m.intent e.body × IsClosed s.present e.body.external_refs (refs_of e.body))
            memories
  unfolding validate_memories
  validate_memories-All s entries h =
      let (memories, parsed, h1) =
        bind_succeeds (parse_memories E encoded_len utc_offset in_unit reader members m) _ _ h in
      let (selected, each_) =
        >>-eq-ok (validate_selection m (ids_of memories) (external_lengths memories entries)) _
          h1 in
      (
        memories,
        parsed,
        validate_selection-same m _ _ selected,
        All-imp
            (λ e.
              validate_memory-IsPortable E encoded_len utc_offset in_unit m.intent s.present e.body)
            memories (each-eq-ok _ _ each_),
      )

  -- What the payload of an accepted bundle is.
  pub record IsSound : Type 0 where
    pub objects : List (List (ObjectEnvelope Value))
    pub read : ReadMembers reader members m.descriptors objects
    pub distinct : Distinct (member_keys objects)
    pub memories : List (ObjectEnvelope MemoryBody)
    pub parsed : parse_memories E encoded_len utc_offset in_unit reader members m ≡ ok memories
    pub selected : (k : String) → mem_str k m.selection.record_ids ≡ mem_str k (ids_of memories)
    pub entries : List (ObjectEnvelope EvidenceBody)
    pub parsed_entries :
        parse_evidence E encoded_len utc_offset in_unit reader members m ≡ ok entries
    pub closed_entries :
        All
          (λ e. IsClosed (member_keys objects) e.body.external_refs (evidence_refs_of e.body))
          entries
    pub portable : All (λ e. IsPortable m.intent e.body) memories
    pub closed :
        All (λ e. IsClosed (member_keys objects) e.body.external_refs (refs_of e.body)) memories

  -- When the payload of a bundle is accepted, each line of each member has been read as an object of
  -- the member's kind, in strict order of reference; no two identities in the whole payload, of
  -- objects and of their aliases, are equal; the memories that are read have the ids that the
  -- manifest selects and no others, and each of them is trusted and of the scope that the manifest
  -- names; and each reference of a memory to a subject, an episode, a source or a memory, and of an
  -- evidence to a subject or a source, is an identity in the payload or listed as external by the
  -- object, which lists each once and none that is in the payload.
  pub validate_payload_objects-IsSound :
      validate_payload_objects E encoded_len utc_offset in_unit reader members m ≡ ok tt → IsSound
  unfolding validate_payload_objects
  validate_payload_objects-IsSound h =
      let (s, seen, h1) =
        bind_succeeds (validate_members reader members m.descriptors nothing_seen) _ _ h in
      let (_, h2) = >>-eq-ok (validate_member_counts m s) _ h1 in
      let (_, h3) =
        >>-eq-ok (validate_dependencies E encoded_len utc_offset in_unit reader members m) _ h2 in
      let (entries, found, h4) =
        bind_succeeds (validate_entries E encoded_len utc_offset in_unit reader members m s) _ _
          h3 in
      let (objects, read, distinct, same) =
        validate_members-Distinct reader members m.descriptors s seen in
      let evidence = validate_entries-All s entries found in
      let (memories, parsed, selected, fine) = validate_memories-All s entries h4 in
      record {
        objects = objects;
        read = read;
        distinct = distinct;
        memories = memories;
        parsed = parsed;
        selected = selected;
        entries = entries;
        parsed_entries = evidence.0;
        closed_entries = All-imp (λ e. IsClosed-same _ _ _ _ same) entries evidence.1;
        portable = All-imp (λ e f. f.0) memories fine;
        closed = All-imp (λ e f. IsClosed-same _ _ _ _ same f.1) memories fine;
      }
