-- ===== src/Domain/MemoryRecord.antt =====
-- `MemoryRecord` of src/domain.rs. An f64 is held as its bit pattern, since the modules that use
-- this record store floats and compute nothing with them here. The `serde_json` metadata is held as
-- what the program reads of it.
use codex_memoryd.Prelude.{ℕ, String, Bool, List, Option}
use codex_memoryd.Domain.Scope.{Scope}
use codex_memoryd.Domain.RecordType.{RecordType}
use codex_memoryd.Domain.Sensitivity.{Sensitivity}
use codex_memoryd.Domain.Portability.{Portability}
use codex_memoryd.Domain.TemporalState.{TemporalState}

-- the bit pattern of an f64
abbrev pub F64 : Type 0
F64 = ℕ

abbrev pub f64_zero : F64
f64_zero = 0

abbrev pub f64_one : F64
f64_one = 0x3FF0000000000000

-- the reads of a `serde_json::Value` that the program makes
pub record Metadata : Type 0 where
  -- `get(key).and_then(as_str)`
  pub text : String → Option String
  -- `get(outer).and_then(|v| v.get(key)).and_then(as_str)`
  pub text_in : String → String → Option String
  -- `get(key).and_then(as_f64)`
  pub number : String → Option F64
  -- `get(outer).and_then(|v| v.get(key)).and_then(as_f64)`
  pub number_in : String → String → Option F64
  -- `get(outer).and_then(|v| v.get(key)).is_some_and(|v| !v.is_null())`
  pub filled_in : String → String → Bool

pub record MemoryRecord : Type 0 where
  pub id : String
  pub profile_id : String
  pub workspace_id : String
  pub repo_id : Option String
  pub subject_id : Option String
  pub episode_id : Option String
  pub scope : Scope
  pub record_type : RecordType
  pub content : String
  pub related_files : List String
  pub tags : List String
  pub sensitivity : Sensitivity
  pub portability : Portability
  pub confidence : F64
  pub source_ids : List String
  pub content_hash : String
  pub supersedes : List String
  pub created_at : String
  pub updated_at : String
  pub last_used_at : Option String
  pub archived : Bool
  pub trust_state : String
  pub trust_score : F64
  pub quarantine_reason : Option String
  pub quarantined_at : Option String
  pub promoted_at : Option String
  pub valid_from : Option String
  pub valid_until : Option String
  pub observed_at : Option String
  pub invalidated_at : Option String
  pub superseded_by : Option String
  pub historical_reason : Option String
  pub temporal_state : TemporalState
  pub metadata : Metadata
