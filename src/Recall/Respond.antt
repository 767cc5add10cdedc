-- ===== src/Recall/Respond.antt =====
-- `recall` of src/recall.rs: it gathers the candidates from the store, admits, ranks and packs them,
-- and reports what it withheld. The store is a parameter, and so are the clock and the formatting
-- of times.
pub mod Laws
use codex_memoryd.Prelude.{
  ℕ, ◌+◌, String, push_str, Bool, true, false, not, Option, none, some, List, [], ◌∷◌, ◌++◌,
  is_empty, length, map, select, ltb, str_eq, str_is_empty, trim, join, decimal, if◌then◌else◌,
}
use codex_memoryd.Prelude.Int.{ℤ, pos, negsuc}
use codex_memoryd.Domain.Profile
use codex_memoryd.Domain.Scope.{Scope}
use codex_memoryd.Domain.RecordType.{RecordType}
use codex_memoryd.Domain.MemoryRecord.{MemoryRecord}
use codex_memoryd.Errors.{Result, ok, err}
use codex_memoryd.Ids.{public_handle, checkpoint_ref}
use codex_memoryd.Recall.Admission.{RecallParams, Admitted, admit, nothing_admitted}
use codex_memoryd.Recall.Facts.{Scored, RecallFact, Citation}
use codex_memoryd.Recall.Float.{Float}
use codex_memoryd.Recall.Score.{scored}
use codex_memoryd.Recall.Rank.{rank}
use codex_memoryd.Recall.Pack.{
  PackTemplate, Packed, pack_template, pack, effective_max_tokens, dedupe_ordered_signals,
}
use codex_memoryd.Recall.Withheld.{RecallWithheld, build_withheld}

pub record RecordQuery : Type 0 where
  pub profile_id : Option String
  pub workspace_id : Option String
  pub repo_id : Option String
  pub record_type : Option RecordType
  pub scope : Option Scope
  pub include_archived : Bool
  pub recency_cutoff : Option String
  pub limit : ℕ
  pub offset : ℕ

pub record RecallOmissionCounts : Type 0 where
  pub archived : ℕ
  pub secret_blocked : ℕ
  pub quarantined : ℕ

pub record Checkpoint : Type 0 where
  pub id : String
  pub session_id : Option String
  pub profile_id : String
  pub workspace_id : String
  pub repo_id : Option String
  pub summary : String
  pub changed_files : List String
  pub decisions : List String
  pub blockers : List String
  pub next_steps : List String
  pub tests_run : List String
  pub tests_not_run : List String
  pub branch : Option String
  pub commit : Option String
  pub created_at : String

-- what `recall` asks of the store; `touch_records` is in the answer, as the ids that it is given
pub record Store : Type 0 where
  pub recall_omission_counts : RecordQuery → String → Result RecallOmissionCounts
  pub query_records : RecordQuery → Result (List MemoryRecord)
  pub search_records : String → RecordQuery → Result (List MemoryRecord)
  pub recent_checkpoints : String → String → Option String → ℕ → Result (List Checkpoint)

-- what `recall` asks of the `time` crate and the clock: `days_since` as in `Facts`, the time so many
-- days ago, and the time now, both as RFC 3339
pub record Time : Type 0 where
  pub days_since : String → Option ℤ
  pub days_ago : ℕ → Option String
  pub current_rfc3339 : String

pub record RecallCheckpoint : Type 0 where
  pub id : String
  pub summary : String
  pub branch : Option String
  pub commit : Option String
  pub next_steps : List String
  pub created_at : String

pub record RecallPolicy : Type 0 where
  pub authority : String
  pub admission_gates : List String
  pub ranking_signals : List String

pub record RecallPack : Type 0 where
  pub mode : String
  pub template : String
  pub template_budget_tokens : ℕ
  pub max_tokens : ℕ
  pub used_tokens : ℕ
  pub candidate_count : ℕ
  pub admitted_count : ℕ
  pub withheld_count : ℕ
  pub truncated : Bool

pub record RecallResponse : Type 0 where
  pub summary : Option String
  pub facts : List RecallFact
  pub checkpoints : List RecallCheckpoint
  pub citations : List Citation
  pub withheld : List RecallWithheld
  pub truncated : Bool
  pub authority : String
  pub policy : RecallPolicy
  pub pack : RecallPack

-- the response, and the ids that are touched
pub record Recalled : Type 0 where
  pub response : RecallResponse
  pub touched : List String

abbrev authority : String
authority = "recall_not_authority"

-- a count of facts of a type, as one part of the summary
summary_part : List RecallFact → String → String → List String
unfolding decimal
summary_part facts record_type label =
    let n = length (select (λ f. str_eq f.record_type record_type) facts) in
    if ltb 0 n then push_str (decimal n) label ∷ [] else []

unfoldable pub build_summary : List RecallFact → Option String
unfolding summary_part decimal
build_summary facts =
    let parts =
      push_str (decimal (length facts)) " relevant memory record(s)"
      ∷ (summary_part facts "decision" " decision(s)"
          ++ (summary_part facts "gotcha" " gotcha(s)"
              ++ (summary_part facts "command" " command(s)"
                  ++ summary_part facts "preference" " preference(s)"))) in
    if is_empty facts
    then none
    else some (push_str (join ", " parts) ". Treat as contextual recall, not authority.")

unfoldable pub pack_template_signals : PackTemplate → List String
unfolding decimal
pack_template_signals t =
    push_str "pack_template:" t.mode ∷ push_str "pack_budget:" (decimal t.budget_tokens) ∷ []

abbrev is_present : Option String → Bool
is_present none = false
is_present (some _) = true

abbrev or_else : Option String → Option String → Option String
or_else none o = o
or_else (some a) o = some a

abbrev or_text : Option String → String → String
or_text none s = s
or_text (some a) s = a

-- `rfc3339_cutoff`, with the clock's part in `days_ago`
abbrev cutoff_of : (ℕ → Option String) → Option ℤ → Option String
cutoff_of days_ago none = none
cutoff_of days_ago (some (negsuc n)) = none
cutoff_of days_ago (some (pos ℕ.zero)) = none
cutoff_of days_ago (some (pos (ℕ.suc n))) = days_ago (ℕ.suc n)

module _ (f : Float) (hex_digest : String → String) (time : Time) (store : Store)
    (params : RecallParams) where
  abbrev pub filters : RecordQuery
  filters = record {
    profile_id = some (Profile.as_str params.profile);
    workspace_id = some params.workspace;
    repo_id = none;
    record_type = none;
    scope = none;
    include_archived = false;
    recency_cutoff = cutoff_of time.days_ago params.recency_days;
    limit = 200;
    offset = 0;
  }

  abbrev without_query : Bool
  without_query = str_is_empty (trim params.query)

  -- a search with no hit falls back to the recent records
  unfoldable pub candidates : Result (List MemoryRecord)
  candidates =
      if without_query
      then store.query_records filters
      else elim (store.search_records params.query filters) [
        | err e ↦ err e
        | ok hits ↦ if is_empty hits then store.query_records filters else ok hits
      ]

  abbrev pub evaluation_time : String
  evaluation_time = or_text (or_else params.as_of params.now) time.current_rfc3339

  -- the `filter_map` over the candidates, and the sort
  unfoldable pub ranked : PackTemplate → Admitted → List Scored
  ranked template a =
      rank f
        (map (scored f time.days_since params.repo params.files params.query template) a.records)

  -- the signals of the whole response
  top_level_signals : PackTemplate → Packed → List String
  unfolding pack_template_signals dedupe_ordered_signals
  top_level_signals template p = dedupe_ordered_signals (
      p.signals
      ++ ((if is_present params.repo then "repo_match" ∷ [] else [])
          ++ ((if is_empty params.files then [] else "file_match" ∷ [])
              ++ ((if without_query then [] else "query_match" ∷ [])
                  ++ push_str "pack_mode:" params.pack_mode ∷ pack_template_signals template))))

  checkpoint_view : Checkpoint → RecallCheckpoint
  unfolding public_handle
  checkpoint_view cp = record {
    id = public_handle hex_digest checkpoint_ref cp.id;
    summary = cp.summary;
    branch = cp.branch;
    commit = cp.commit;
    next_steps = cp.next_steps;
    created_at = cp.created_at;
  }

  unfoldable pub respond :
      PackTemplate → RecallOmissionCounts → List MemoryRecord → List Checkpoint → Recalled
  unfolding checkpoint_view top_level_signals build_summary
  respond template omissions pool checkpoints =
      let a = admit params evaluation_time pool nothing_admitted in
      let entries = ranked template a in
      let budget = effective_max_tokens params.max_tokens template in
      let p = pack hex_digest time.days_since budget entries in
      record {
        response = record {
          summary = build_summary p.facts;
          facts = p.facts;
          checkpoints = map checkpoint_view checkpoints;
          citations = p.citations;
          withheld =
              build_withheld omissions.archived omissions.secret_blocked omissions.quarantined
                a.type_filtered p.pack_withheld a.withheld;
          truncated = p.truncated;
          authority = authority;
          policy = record {
            authority = authority;
            admission_gates = "profile_workspace" ∷ [];
            ranking_signals = top_level_signals template p;
          };
          pack = record {
            mode = params.pack_mode;
            template = template.mode;
            template_budget_tokens = template.budget_tokens;
            max_tokens = budget;
            used_tokens = p.used_tokens;
            candidate_count = length entries;
            admitted_count = length p.facts;
            withheld_count = p.pack_withheld;
            truncated = p.truncated;
          };
        };
        touched = p.touched;
      }

  unfoldable pub recall : Result Recalled
  recall = elim (pack_template params.pack_mode) [
    | err e ↦ err e
    | ok template ↦ elim (store.recall_omission_counts filters params.query) [
      | err e ↦ err e
      | ok omissions ↦ elim candidates [
        | err e ↦ err e
        | ok pool ↦
            elim (store.recent_checkpoints (Profile.as_str params.profile) params.workspace
              params.repo 5) [
                | err e ↦ err e
                | ok checkpoints ↦ ok (respond template omissions pool checkpoints)
              ]
      ]
    ]
  ]
