-- ===== src/Recall/Facts.antt =====
-- src/recall.rs: the facts and citations that recall makes of a ranked record.
use codex_memoryd.Prelude.{
  ℕ, String, Bool, false, not, Option, none, some, List, [], ◌∷◌, is_empty, map, mem_str,
  if◌then◌else◌,
}
use codex_memoryd.Prelude.Int.{ℤ, nat_lt}
use codex_memoryd.Domain.Scope
use codex_memoryd.Domain.RecordType
use codex_memoryd.Domain.Sensitivity.{Sensitivity}
use codex_memoryd.Domain.MemoryRecord.{F64, MemoryRecord}
use codex_memoryd.Ids.{public_handle, memory_ref, source_ref, subject_ref, episode_ref}
use codex_memoryd.Recall.Admission.{metadata_string, ◌<|>◌}

pub record Scored : Type 0 where
  pub entry : MemoryRecord
  pub score : F64
  pub ranking_signals : List String

-- the days after which a record is stale
abbrev pub stale_days : ℕ
stale_days = 120

abbrev pub is_stale : Option ℤ → Bool
is_stale none = false
is_stale (some d) = nat_lt stale_days d

pub record RecallFreshness : Type 0 where
  pub stale : Bool
  pub age_days : Option ℤ

pub record RecallProvenance : Type 0 where
  pub profile_id : String
  pub workspace_id : String
  pub repo_id : Option String
  pub evidence_refs : List String
  pub subject_id : Option String
  pub episode_id : Option String
  pub source_risk : Option String
  pub trust_level : Option String
  pub trust_score : Option F64
  pub origin : Option String
  pub target : Option String
  pub source_kind : Option String
  pub actor : Option String
  pub write_origin : Option String
  pub session_id : Option String

pub record RecallAdmission : Type 0 where
  pub decision : String
  pub reason : String
  pub gates : List String

pub record RecallFactPolicy : Type 0 where
  pub rank : ℕ
  pub freshness : RecallFreshness
  pub provenance : RecallProvenance
  pub admission : RecallAdmission
  pub ranking_signals : List String

pub record RecallFact : Type 0 where
  pub id : String
  pub record_type : String
  pub scope : String
  pub content : String
  pub confidence : F64
  pub repo_id : Option String
  pub related_files : List String
  pub updated_at : String
  pub stale : Bool
  pub policy : RecallFactPolicy

pub record Citation : Type 0 where
  pub memory_id : String
  pub source_id : Option String
  pub source_path : Option String

risk_of_sensitivity : Sensitivity → String
risk_of_sensitivity Sensitivity.public = "low"
risk_of_sensitivity Sensitivity.personal = "medium"
risk_of_sensitivity Sensitivity.work_confidential = "high"
risk_of_sensitivity Sensitivity.secret_blocked = "blocked"

trust_of_origin : Option String → List String → String
trust_of_origin (some origin) sources =
    if mem_str origin ("conclusion" ∷ "checkpoint" ∷ "git_import" ∷ "sync_local" ∷ [])
    then "high"
    else if not (is_empty sources)
    then "medium"
    else "low"
trust_of_origin none sources = if not (is_empty sources) then "medium" else "low"

-- the source risk and the trust level
unfoldable pub recall_source_diagnostics : MemoryRecord → Option String × Option String
unfolding risk_of_sensitivity trust_of_origin metadata_string
recall_source_diagnostics r = (
  metadata_string r.metadata "source_risk" <|> some (risk_of_sensitivity r.sensitivity),
  some (trust_of_origin (r.metadata.text "origin") r.source_ids),
)

abbrev handle_of : (String → String) → Option String → Option String
handle_of f none = none
handle_of f (some s) = some (f s)

abbrev first_of_list : List String → Option String
first_of_list [] = none
first_of_list (s ∷ _) = some s

-- `hex_digest` is as in `Ids`; `days_since` is the age of an RFC 3339 timestamp in whole days by the
-- `time` crate and the clock, or none where it does not parse.
module _ (hex_digest : String → String) (days_since : String → Option ℤ) where
  unfoldable pub recall_provenance : MemoryRecord → RecallProvenance
  unfolding recall_source_diagnostics metadata_string
  recall_provenance r =
      let (source_risk, trust_level) = recall_source_diagnostics r in
      let m = r.metadata in
      record {
        profile_id = r.profile_id;
        workspace_id = r.workspace_id;
        repo_id = r.repo_id;
        evidence_refs = map (public_handle hex_digest source_ref) r.source_ids;
        subject_id = handle_of (public_handle hex_digest subject_ref) r.subject_id;
        episode_id = handle_of (public_handle hex_digest episode_ref) r.episode_id;
        source_risk = source_risk;
        trust_level = trust_level;
        trust_score = some r.trust_score;
        origin = metadata_string m "origin";
        target = metadata_string m "target";
        source_kind = m.text_in "provenance" "source_kind" <|> metadata_string m "source_kind";
        actor = m.text_in "provenance" "actor" <|> metadata_string m "actor";
        write_origin = m.text_in "provenance" "write_origin";
        session_id = m.text_in "provenance" "session_id";
      }

  unfoldable pub fact_of : Scored → ℕ → RecallFact
  unfolding recall_provenance public_handle
  fact_of e rank =
      let r = e.entry in
      let stale = is_stale (days_since r.updated_at) in
      record {
        id = public_handle hex_digest memory_ref r.id;
        record_type = RecordType.as_str r.record_type;
        scope = Scope.as_str r.scope;
        content = r.content;
        confidence = r.confidence;
        repo_id = r.repo_id;
        related_files = r.related_files;
        updated_at = r.updated_at;
        stale = stale;
        policy = record {
          rank = rank;
          freshness = record { stale = stale; age_days = days_since r.updated_at };
          provenance = recall_provenance r;
          admission = record {
            decision = "admitted";
            reason = if stale then "admitted_stale_deprioritized" else "admitted_ranked";
            gates =
                "profile_workspace" ∷ (if stale then "freshness_stale_deprioritized" ∷ [] else []);
          };
          ranking_signals = e.ranking_signals;
        };
      }

  unfoldable pub citation_of : MemoryRecord → Citation
  unfolding public_handle
  citation_of r = record {
    memory_id = public_handle hex_digest memory_ref r.id;
    source_id = handle_of (public_handle hex_digest source_ref) (first_of_list r.source_ids);
    source_path = none;
  }
