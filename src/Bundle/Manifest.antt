-- ===== src/Bundle/Manifest.antt =====
-- The manifest of a bundle, and `validate_manifest`, of src/portable_bundle.rs. What the time crate
-- reads of an RFC 3339 text, the whole seconds of its offset, is a parameter.
pub mod Laws
use codex_memoryd.Prelude.{
  ℕ, ◌+◌, Char, code, String, Bool, true, false, not, ◌&&◌, ◌||◌, Option, none, some, List, [], ◌∷◌,
  any, all, map, is_empty, length, leb, ltb, ◌==◌, str_eq, all_chars, ends_with, if◌then◌else◌,
}
use codex_memoryd.Prelude.Int.{ℤ, pos, negsuc}
use codex_memoryd.Prelude.StrSet.{set_of}
use codex_memoryd.Errors.{
  Result, ok, err, fail, ◌>>=◌, ◌>>◌, ensure, each, for_some, bundle_schema_unsupported,
  bundle_integrity_failed, bundle_limit_exceeded, bundle_required_feature_unsupported,
}
use codex_memoryd.Ids.{PublicHandleKind, memory_ref, parse_public_handle}
use codex_memoryd.Bundle.Reference.{is_origin_char, same_kind}
use codex_memoryd.Bundle.Paths.{validate_scalar}

pub data ObjectKind : Type 0 where
  subject episode source evidence memory : ObjectKind

unfoldable pub as_str : ObjectKind → String
as_str subject = "subject"
as_str episode = "episode"
as_str source = "source"
as_str evidence = "evidence"
as_str memory = "memory"

unfoldable pub schema : ObjectKind → String
schema subject = "codex-memoryd.subject.v1"
schema episode = "codex-memoryd.episode.v1"
schema source = "codex-memoryd.source.v1"
schema evidence = "codex-memoryd.evidence.v1"
schema memory = "codex-memoryd.memory.v1"

unfoldable pub media_type : ObjectKind → String
media_type subject = "application/vnd.codex-memoryd.subject.v1+jsonl"
media_type episode = "application/vnd.codex-memoryd.episode.v1+jsonl"
media_type source = "application/vnd.codex-memoryd.source.v1+jsonl"
media_type evidence = "application/vnd.codex-memoryd.evidence.v1+jsonl"
media_type memory = "application/vnd.codex-memoryd.memory.v1+jsonl"

unfoldable pub kind_for_member : String → Option ObjectKind
kind_for_member path =
    if str_eq path "objects/subjects.jsonl"
    then some subject
    else if str_eq path "objects/episodes.jsonl"
    then some episode
    else if str_eq path "objects/sources.jsonl"
    then some source
    else if str_eq path "objects/evidence.jsonl"
    then some evidence
    else if str_eq path "objects/memories.jsonl"
    then some memory
    else none

abbrev pub object_members : List String
object_members =
    "objects/subjects.jsonl" ∷ "objects/episodes.jsonl" ∷ "objects/sources.jsonl"
    ∷ "objects/evidence.jsonl" ∷ "objects/memories.jsonl" ∷ []

abbrev pub bundle_media_type : String
bundle_media_type = "application/vnd.codex-memoryd.bundle.v1+json"

abbrev pub format_version : ℕ
format_version = 1

abbrev pub max_member_size : ℕ
max_member_size = 67108864

abbrev pub max_objects : ℕ
max_objects = 20000

abbrev pub max_root_memories : ℕ
max_root_memories = 5000

-- one more than the largest usize
abbrev pub usize_end : ℕ
usize_end = 18446744073709551616

pub record Producer : Type 0 where
  pub instance_id : String
  pub tool_version : String
  pub storage_schema_version : ℤ

pub record BundleIntent : Type 0 where
  pub source_profile : String
  pub source_workspace : String
  pub source_repo_id : Option String
  pub target_profile : String
  pub target_workspace : Option String
  pub target_repo_id : Option String

pub record BundleSelection : Type 0 where
  pub record_ids : List String
  pub include_archived : Bool

pub record BundlePolicy : Type 0 where
  pub ruleset_version : String
  pub boundary_decision : String

pub record Descriptor : Type 0 where
  pub path : String
  pub media_type : String
  pub digest : String
  pub size_bytes : ℕ
  pub object_count : ℕ
  pub required : Bool

pub record BundleManifestCounts : Type 0 where
  pub root_memories : ℕ
  pub dependency_objects : ℕ
  pub omitted_secret : ℕ
  pub omitted_quarantined : ℕ
  pub omitted_portability : ℕ
  pub omitted_boundary : ℕ
  pub omitted_unsafe_path : ℕ
  pub external_references : ℕ

-- without the extensions, which the check does not look at
pub record BundleManifest : Type 0 where
  pub media_type : String
  pub format_version : ℕ
  pub bundle_id : String
  pub created_at : String
  pub producer : Producer
  pub intent : BundleIntent
  pub selection : BundleSelection
  pub policy : BundlePolicy
  pub descriptors : List Descriptor
  pub counts : BundleManifestCounts
  pub required_features : List String

-- `==` of lists of texts
unfoldable pub same_texts : List String → List String → Bool
same_texts [] [] = true
same_texts [] (y ∷ ys) = false
same_texts (x ∷ xs) [] = false
same_texts (x ∷ xs) (y ∷ ys) = str_eq x y && same_texts xs ys

abbrev pub is_memory_handle : String → Bool
is_memory_handle id = elim (parse_public_handle id) [
  | none ↦ false
  | some kind ↦ same_kind kind memory_ref
]

abbrev is_negative : ℤ → Bool
is_negative (pos n) = false
is_negative (negsuc n) = true

abbrev is_zero : ℤ → Bool
is_zero (pos n) = n == 0
is_zero (negsuc n) = false

abbrev pub paths_of : BundleManifest → List String
paths_of m = map (λ d. d.path) m.descriptors

unfoldable pub validate_record_id : String → Result {0} Unit
validate_record_id id = do
  validate_scalar id "selection record id"
  ensure (is_memory_handle id) bundle_integrity_failed
      "selection contains a non-memory public handle"

unfoldable pub validate_descriptor : Descriptor → Result {0} Unit
validate_descriptor d = elim (kind_for_member d.path) [
  | none ↦ fail bundle_schema_unsupported "unsupported bundle member"
  | some kind ↦
      ensure
        (d.required
          && str_eq d.media_type (media_type kind)
          && leb d.size_bytes max_member_size
          && leb d.object_count max_objects)
        bundle_schema_unsupported "unsupported or oversized bundle descriptor"
]

-- the required data that the manifest may have
unfoldable pub validate_required : BundleManifest → Result {0} Unit
validate_required m =
    if is_negative m.producer.storage_schema_version
      || not (length m.descriptors == length object_members)
      || not (is_empty m.required_features)
    then fail
        (if not (is_empty m.required_features)
          then bundle_required_feature_unsupported
          else bundle_integrity_failed)
        "manifest contains unsupported required data"
    else ok tt

abbrev pub count_values : BundleManifestCounts → List ℕ
count_values c =
    c.root_memories ∷ c.dependency_objects ∷ c.omitted_secret ∷ c.omitted_quarantined
    ∷ c.omitted_portability ∷ c.omitted_boundary ∷ c.omitted_unsafe_path ∷ c.external_references
    ∷ []

unfoldable pub validate_counts : BundleManifestCounts → Result {0} Unit
validate_counts c = do
  ensure (ltb (c.root_memories + c.dependency_objects) usize_end) bundle_limit_exceeded
      "bundle object count overflow"
  ensure
      (leb c.root_memories max_root_memories
        && leb (c.root_memories + c.dependency_objects) max_objects
        && all (λ n. leb n max_objects) (count_values c))
      bundle_limit_exceeded "bundle object count limit exceeded"

unfoldable pub validate_scalars : BundleManifest → Result {0} Unit
validate_scalars m = do
  validate_scalar m.producer.instance_id "instance_id"
  ensure (all_chars is_origin_char m.producer.instance_id) bundle_integrity_failed
      "instance_id contains an unsafe character"
  validate_scalar m.producer.tool_version "tool_version"
  validate_scalar m.intent.source_profile "source_profile"
  validate_scalar m.intent.source_workspace "source_workspace"
  validate_scalar m.intent.target_profile "target_profile"
  for_some (λ v. validate_scalar v "source_repo_id") m.intent.source_repo_id
  for_some (λ v. validate_scalar v "target_workspace") m.intent.target_workspace
  for_some (λ v. validate_scalar v "target_repo_id") m.intent.target_repo_id
  validate_scalar m.policy.ruleset_version "ruleset_version"
  validate_scalar m.policy.boundary_decision "boundary_decision"
  each (λ feature. validate_scalar feature "required_feature") m.required_features

unfoldable pub validate_format : BundleManifest → Result {0} Unit
validate_format m =
    ensure (str_eq m.media_type bundle_media_type && m.format_version == format_version)
      bundle_schema_unsupported "unsupported portable bundle format"

unfoldable pub validate_paths : BundleManifest → Result {0} Unit
validate_paths m =
    ensure
      (same_texts (set_of (paths_of m)) (set_of object_members)
        && same_texts (paths_of m) object_members)
      bundle_integrity_failed "manifest descriptors do not match the fixed bundle member set"

module _ (utc_offset : String → Option ℤ) where
  unfoldable pub validate_timestamp : String → Result {0} Unit
  validate_timestamp value = elim (utc_offset value) [
    | none ↦ fail bundle_integrity_failed "invalid RFC3339 timestamp"
    | some seconds ↦
        ensure (is_zero seconds && ends_with value "Z") bundle_integrity_failed
          "bundle timestamps must be UTC RFC3339 values"
  ]

  unfoldable pub validate_manifest : BundleManifest → Result {0} Unit
  validate_manifest m = do
    validate_format m
    validate_timestamp m.created_at
    validate_scalars m
    each validate_record_id m.selection.record_ids
    validate_required m
    validate_paths m
    each validate_descriptor m.descriptors
    validate_counts m.counts
    ensure (leb (length m.selection.record_ids) max_root_memories) bundle_limit_exceeded
        "bundle selection limit exceeded"
