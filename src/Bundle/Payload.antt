-- ===== src/Bundle/Payload.antt =====
-- `validate_payload_objects` of src/portable_bundle.rs. A member is the text of its lines. What serde
-- reads of a line and writes of a scalar, and the digest of a text, are parameters.
pub mod Check
pub mod Identities
pub mod Closed
pub mod Laws
use Prim.Native.Nat.{Ordering}
use Prim.Native.String.{compare}
use codex_memoryd.Prelude.{
  ℕ, suc, ◌+◌, Char, code, String, len, Bool, true, false, not, ◌&&◌, ◌||◌, Option, none, some,
  List, [], ◌∷◌, ◌++◌, is_empty, length, leb, ltb, map, ◌==◌, str_eq, str_is_empty, mem_str,
  if◌then◌else◌,
}
use codex_memoryd.Prelude.Int.{ℤ}
use codex_memoryd.Prelude.StrSet.{set_insert, set_of}
use codex_memoryd.Errors.{
  Result, ok, err, fail, ◌>>=◌, ◌>>◌, ensure, each, bundle_schema_unsupported,
  bundle_integrity_failed, bundle_limit_exceeded, bundle_duplicate_identity,
  bundle_missing_dependency,
}
use codex_memoryd.Domain.MemoryRecord.{F64}
use codex_memoryd.Policy.Regex.{RegexEngine}
use codex_memoryd.Recall.Rank.{then_with}
use codex_memoryd.Bundle.Canonical.{canonical_json}
use codex_memoryd.Bundle.Json.{Value, validate_json_limits}
use codex_memoryd.Bundle.Manifest.{
  ObjectKind, subject, episode, source, evidence, memory, as_str, schema, kind_for_member,
  object_members, Descriptor, BundleManifest, BundleManifestCounts, BundleIntent, same_texts,
}
use codex_memoryd.Bundle.Objects.{
  ObjectEnvelope, SubjectBody, EpisodeBody, SourceBody, EvidenceBody, MemoryBody,
}
use codex_memoryd.Bundle.Objects.Checks.{
  validate_subject, validate_episode, validate_source, validate_evidence,
}
use codex_memoryd.Bundle.Objects.Memories.{validate_memory}
use codex_memoryd.Bundle.Reference.{PortableRef, ref_key, validate}

-- the crates and functions that read and write JSON, and the checks of a body
pub record Reader : Type 0 where
  -- `deserialize_any` to the end of the text, which refuses a key that stands twice
  pub parse_value : String → Result Value
  -- `serde_json::from_value`
  pub raw_envelope : Value → Result (ObjectEnvelope Value)
  pub subject_envelope : Value → Result (ObjectEnvelope SubjectBody)
  pub episode_envelope : Value → Result (ObjectEnvelope EpisodeBody)
  pub source_envelope : Value → Result (ObjectEnvelope SourceBody)
  pub evidence_envelope : Value → Result (ObjectEnvelope EvidenceBody)
  pub memory_envelope : Value → Result (ObjectEnvelope MemoryBody)
  -- what `to_string` writes of a text, and of the number that a text denotes if an f64 holds it
  pub quoted : String → String
  pub float_text : String → Option String
  pub sha256_hex : String → String

abbrev pub max_aliases : ℕ
max_aliases = 16

-- put a character in front of the first line
abbrev extend_line : Char → List String → List String
extend_line c [] = String.◌∷◌ c String.[] ∷ []
extend_line c (line ∷ lines) = String.◌∷◌ c line ∷ lines

-- `split_inclusive` on the newline
unfoldable pub split_inclusive : String → List String
split_inclusive String.[] = []
split_inclusive (String.◌∷◌ c s) =
    let rest = split_inclusive s in
    if code c == 10 then String.◌∷◌ c String.[] ∷ rest else extend_line c rest

unfoldable pub ends_line : String → Bool
ends_line String.[] = false
ends_line (String.◌∷◌ c String.[]) = code c == 10
ends_line (String.◌∷◌ c (String.◌∷◌ d s)) = ends_line (String.◌∷◌ d s)

-- the line without its last character
unfoldable pub without_last : String → String
without_last String.[] = String.[]
without_last (String.◌∷◌ c String.[]) = String.[]
without_last (String.◌∷◌ c (String.◌∷◌ d s)) = String.◌∷◌ c (without_last (String.◌∷◌ d s))

-- the derived order of references
abbrev ref_cmp : PortableRef → PortableRef → Ordering
ref_cmp a b =
    then_with (compare a.origin_instance_id b.origin_instance_id)
      (then_with (compare a.kind b.kind) (compare a.id b.id))

-- `previous.is_some_and(|prior| prior >= next)`
abbrev pub is_out_of_order : Option PortableRef → PortableRef → Bool
is_out_of_order none next = false
is_out_of_order (some prior) next = elim (ref_cmp prior next) [ Ordering.lt ↦ false | _ ↦ true ]

abbrev kind_index : ObjectKind → ℕ
kind_index subject = 0
kind_index episode = 1
kind_index source = 2
kind_index evidence = 3
kind_index memory = 4

-- `*member_counts.entry(kind).or_default() += 1`
abbrev pub bump : ObjectKind → (ObjectKind → ℕ) → ObjectKind → ℕ
bump kind counts k = if kind_index k == kind_index kind then suc (counts k) else counts k

-- what the loop over the lines has seen
pub record Seen : Type 0 where
  pub refs : List String
  pub present : List String
  pub member_counts : ObjectKind → ℕ

abbrev pub nothing_seen : Seen
nothing_seen = record { refs = []; present = []; member_counts = λ k. 0 }

-- `if !refs.insert(key) { return Err(..) }`
unfoldable pub insert_ref : String → String → Seen → Result Seen
insert_ref message key s =
    if mem_str key s.refs
    then fail bundle_duplicate_identity message
    else ok (record s { refs = set_insert key s.refs })

abbrev pub put_present : String → Seen → Seen
put_present key s = record s { present = set_insert key s.present }

unfoldable pub insert_aliases : ObjectKind → List PortableRef → Seen → Result Seen
insert_aliases kind [] s = ok s
insert_aliases kind (alias ∷ aliases) s = do
  validate alias (some (as_str kind))
  s' ← insert_ref "duplicate portable alias identity" (ref_key alias) s
  insert_aliases kind aliases (put_present (ref_key alias) s')

-- the identities of an envelope, with its aliases
unfoldable pub insert_identities : ObjectKind → ObjectEnvelope Value → Seen → Result Seen
insert_identities kind e s = do
  s' ← insert_ref "duplicate portable object identity" (ref_key e.portable_ref) s
  insert_aliases kind e.aliases s'

abbrev pub identified : ObjectKind → ObjectEnvelope Value → Seen → Seen
identified kind e s = record (put_present (ref_key e.portable_ref) s) {
  member_counts = bump kind s.member_counts;
}

module _ (reader : Reader) where
  -- `parse_json`
  unfoldable pub parse_json {ℓ} : {A : Type ℓ} → (Value → Result A) → String → Result A
  parse_json read text = do
    value ← reader.parse_value text
    validate_json_limits value 0
    read value

  -- the envelope of a line, once its text and its form have been checked
  unfoldable pub read_line : ObjectKind → String → Result (ObjectEnvelope Value)
  read_line kind line = do
    ensure (ends_line line) bundle_integrity_failed
        "JSONL member must end each object with a newline"
    ensure (not (len line == 1)) bundle_integrity_failed "JSONL member contains an empty line"
    value ← parse_json (λ v. ok v) (without_last line)
    canonical ← canonical_json reader.float_text reader.quoted value
    ensure (str_eq canonical (without_last line)) bundle_integrity_failed
        "JSONL object is not RFC 8785 canonical JSON"
    e ← parse_json reader.raw_envelope (without_last line)
    ensure (str_eq e.schema (schema kind)) bundle_schema_unsupported "unsupported object schema"
    validate e.portable_ref (some (as_str kind))
    ensure (leb (length e.aliases) max_aliases) bundle_limit_exceeded "object alias limit exceeded"
    body ← canonical_json reader.float_text reader.quoted e.body
    ensure (str_eq (reader.sha256_hex body) e.digest) bundle_integrity_failed
        "object body digest does not match"
    ok e

  -- the loop over the lines of a member, with the reference before
  unfoldable pub validate_lines : ObjectKind → Option PortableRef → List String → Seen → Result Seen
  validate_lines kind previous [] s = ok s
  validate_lines kind previous (line ∷ lines) s = do
    e ← read_line kind line
    s' ← insert_identities kind e s
    ensure (not (is_out_of_order previous e.portable_ref)) bundle_integrity_failed
        "JSONL objects are not sorted by portable reference"
    validate_lines kind (some e.portable_ref) lines (identified kind e s')

  -- `parse_member`
  unfoldable pub parse_lines :
      {A : Type 0}
      → (Value → Result (ObjectEnvelope A))
      → ObjectKind
      → List String
      → Result (List (ObjectEnvelope A))
  parse_lines read kind [] = ok []
  parse_lines read kind (line ∷ lines) =
      let rest = parse_lines read kind lines in
      if leb (len line) 1 then rest else do
        e ← parse_json read (without_last line)
        ensure (str_eq e.schema (schema kind)) bundle_schema_unsupported
            "object schema does not match its member"
        es ← rest
        ok (e ∷ es)

  -- `members.get(path)`, of a map that the archive's check has filled. A path outside the fixed set,
  -- at which the source panics, is refused by `validate_manifest` before.
  module _ (members : String → String) where
    unfoldable pub validate_members : List Descriptor → Seen → Result Seen
    validate_members [] s = ok s
    validate_members (d ∷ descriptors) s = elim (kind_for_member d.path) [
      | none ↦ fail bundle_schema_unsupported "unsupported bundle member"
      | some kind ↦ do
        s' ← validate_lines kind none (split_inclusive (members d.path)) s
        validate_members descriptors s'
    ]
