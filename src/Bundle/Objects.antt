-- ===== src/Bundle/Objects.antt =====
-- The objects of a bundle, of src/portable_bundle.rs, and what the checks of their bodies share. The
-- metadata of an object is the JSON value that serde writes of it.
pub mod Checks
pub mod Memories
use codex_memoryd.Prelude.{
  ℕ, String, Bool, true, false, not, ◌&&◌, ◌||◌, Option, none, some, List, length, leb, str_eq, any,
  mem_str,
}
use codex_memoryd.Prelude.Int.{ℤ}
use codex_memoryd.Errors.{
  Result, ok, err, ◌>>◌, ensure, each, for_some, bundle_schema_unsupported, bundle_integrity_failed,
  bundle_limit_exceeded, bundle_policy_denied, bundle_missing_dependency,
}
use codex_memoryd.Domain.Profile
use codex_memoryd.Domain.Scope
use codex_memoryd.Domain.RecordType
use codex_memoryd.Domain.Sensitivity
use codex_memoryd.Domain.Portability
use codex_memoryd.Domain.TemporalState
use codex_memoryd.Domain.SubjectKind
use codex_memoryd.Domain.MemoryRecord.{F64}
use codex_memoryd.Policy.Regex.{RegexEngine}
use codex_memoryd.Policy.Screen.{max_record_chars}
use codex_memoryd.Bundle.Json.{Value, sanitize_metadata_value}
use codex_memoryd.Bundle.Manifest.{BundleIntent, validate_timestamp}
use codex_memoryd.Bundle.Paths.{sanitized_scalar, screened_string, valid_repo_path}
use codex_memoryd.Bundle.Reference.{
  PortableRef, max_refs, same_ref, ref_key, validate, validate_external_refs,
  validate_reference_present,
}

pub record ObjectEnvelope (A : Type 0) : Type 0 where
  pub schema : String
  pub portable_ref : PortableRef
  pub aliases : List PortableRef
  pub digest : String
  pub body : A

pub record SubjectBody : Type 0 where
  pub profile : String
  pub workspace : String
  pub subject_key : String
  pub kind : String
  pub display_name : String
  pub created_at : String
  pub updated_at : String
  pub metadata : Value

pub record EpisodeBody : Type 0 where
  pub profile : String
  pub workspace : String
  pub subject_ref : PortableRef
  pub source_kind : String
  pub source_ref : String
  pub started_at : Option String
  pub ended_at : Option String
  pub status : Option String
  pub summary : String
  pub trust_level : Option String
  pub source_metadata : Value
  pub created_at : String
  pub updated_at : String
  pub metadata : Value

pub record SourceBody : Type 0 where
  pub profile : String
  pub workspace : String
  pub kind : String
  pub source_path : Option String
  pub source_hash : String
  pub created_at : String
  pub ingested_at : String
  pub metadata : Value

pub record EvidenceBody : Type 0 where
  pub profile : String
  pub workspace : String
  pub repo_id : Option String
  pub subject_key : Option String
  pub source_kind : String
  pub source_ref : Option PortableRef
  pub subject_ref : Option PortableRef
  pub source_path : Option String
  pub source_hash : String
  pub safe_summary : String
  pub policy_state : String
  pub trust_state : String
  pub trust_score : F64
  pub created_at : String
  pub metadata : Value
  pub external_refs : List PortableRef

pub record MemoryBody : Type 0 where
  pub profile : String
  pub workspace : String
  pub repo_id : Option String
  pub scope : String
  pub record_type : String
  pub content : String
  pub related_files : List String
  pub tags : List String
  pub sensitivity : String
  pub portability : String
  pub confidence : F64
  pub subject_ref : Option PortableRef
  pub episode_ref : Option PortableRef
  pub source_refs : List PortableRef
  pub supersedes : List PortableRef
  pub superseded_by : Option PortableRef
  pub created_at : String
  pub updated_at : String
  pub observed_at : Option String
  pub valid_from : Option String
  pub valid_until : Option String
  pub invalidated_at : Option String
  pub archived : Bool
  pub temporal_state : String
  pub trust_state : String
  pub trust_score : F64
  pub historical_reason : Option String
  pub metadata : Value
  pub external_refs : List PortableRef

abbrev pub max_tags : ℕ
max_tags = 128

abbrev pub max_files : ℕ
max_files = 128

-- a value that is only looked at
abbrev pub checked {ℓ} : {A : Type ℓ} → Result A → Result {0} Unit
checked (ok x) = ok tt
checked (err e) = err e

abbrev pub is_some {ℓ} : {A : Type ℓ} → Option A → Bool
is_some none = false
is_some (some x) = true

unfoldable pub validate_object_scope : String → String → BundleIntent → String → Result {0} Unit
validate_object_scope profile workspace intent message =
    ensure (str_eq profile intent.source_profile && str_eq workspace intent.source_workspace)
      bundle_integrity_failed message

-- `sanitized_scalar`, for its check
abbrev pub scalar : ℕ → String → Result {0} Unit
scalar max_len value = checked (sanitized_scalar value max_len)

abbrev pub repo_path : String → String → Result {0} Unit
repo_path message path = ensure (valid_repo_path path) bundle_integrity_failed message

-- a reference that is in the payload, or listed as external
abbrev pub is_met : List String → List PortableRef → PortableRef → Bool
is_met present external_refs r = mem_str (ref_key r) present || any (same_ref r) external_refs

unfoldable pub validate_safe_metadata : RegexEngine → (Value → Option ℕ) → Value → Result {0} Unit
validate_safe_metadata E encoded_len metadata =
    ensure (is_some (sanitize_metadata_value E encoded_len metadata)) bundle_integrity_failed
      "portable metadata contains an unsafe value"

-- `bounded_score`, for its check
unfoldable pub bounded_score : (F64 → Bool) → String → F64 → Result {0} Unit
bounded_score in_unit message score = ensure (in_unit score) bundle_integrity_failed message

abbrev pub screened : RegexEngine → ℕ → String → Result {0} Unit
screened E max_chars value = checked (screened_string E value max_chars)
