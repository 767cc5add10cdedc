-- ===== src/Examples/Recalls.antt =====
-- The recall of src/recall.rs, on small inputs.
use codex_memoryd.Prelude.{
  inr, ◌+◌, String, Bool, ◌≡◌, refl, true, false, none, some, Option, List, [], ◌∷◌, arith, eq_iff,
  map, length, take, select, trim, str_lt, ◌⊎◌, ◌&&◌, leb, code, str_is_empty, split_whitespace,
}
use codex_memoryd.Prelude.Int.{ℤ}
use codex_memoryd.Domain.Profile
use codex_memoryd.Domain.Scope
use codex_memoryd.Domain.RecordType
use codex_memoryd.Domain.Sensitivity
use codex_memoryd.Domain.Portability
use codex_memoryd.Domain.TemporalState
use codex_memoryd.Domain.MemoryRecord.{MemoryRecord, Metadata, f64_one}
use codex_memoryd.Recall.Admission.{
  RecallParams, RecallDenyReason, recall_deny_reason, admit, nothing_admitted, risk_reason,
  policy_state, names, metadata_string, after, at_or_before,
}
use codex_memoryd.Recall.Admission.Laws.{
  IsSafe, default_admits_iff, as_of_admits_iff, admit_accounts, passes, total, is_mistyped,
  is_denied, count_of,
}
use codex_memoryd.Recall.Facts.{Scored}
use codex_memoryd.Recall.Pack.{pack}
use codex_memoryd.Recall.Pack.Laws.{IsPacking, pack-IsPacking}
use codex_memoryd.Errors.{ok}
use codex_memoryd.Policy.Regex.{Unicode}
use codex_memoryd.Store.Search.{Sqlite, passes_filters, search_records, search_fts, fts_match_query}
use codex_memoryd.Recall.Search.{SearchParams, match_of, page_of, search}
use codex_memoryd.Recall.Search.Laws.{follow, matches_of, answer, follow-search}

abbrev pub no_metadata : Metadata
no_metadata = record {
  text = λ k. none;
  text_in = λ o k. none;
  number = λ k. none;
  number_in = λ o k. none;
  filled_in = λ o k. false;
}

abbrev pub record_at : String → String → MemoryRecord
record_at id time = record {
  id = id;
  profile_id = "personal";
  workspace_id = "w1";
  repo_id = none;
  subject_id = none;
  episode_id = none;
  scope = Scope.workspace;
  record_type = RecordType.decision;
  content = "use sqlite for the store";
  related_files = [];
  tags = [];
  sensitivity = Sensitivity.personal;
  portability = Portability.profile_only;
  confidence = f64_one;
  source_ids = [];
  content_hash = "h1";
  supersedes = [];
  created_at = time;
  updated_at = time;
  last_used_at = none;
  archived = false;
  trust_state = "trusted";
  trust_score = f64_one;
  quarantine_reason = none;
  quarantined_at = none;
  promoted_at = none;
  valid_from = some "2025-01-01";
  valid_until = some "2026-01-01";
  observed_at = none;
  invalidated_at = none;
  superseded_by = none;
  historical_reason = none;
  temporal_state = TemporalState.current;
  metadata = no_metadata;
}

abbrev pub sample : MemoryRecord
sample = record_at "m1" "2025-01-01"

abbrev pub params_of : Option String → Bool → RecallParams
params_of time history = record {
  profile = Profile.personal;
  workspace = "w1";
  repo = none;
  query = "sqlite";
  files = [];
  max_tokens = 1000;
  pack_mode = "default";
  recency_days = none;
  now = some "2025-06-01";
  include_types = [];
  exclude_types = [];
  as_of = time;
  include_history = history;
}

sample-IsSafe : (w : Bool) → IsSafe sample w
unfolding risk_reason policy_state names metadata_string
sample-IsSafe w = record {
  trusted = λ e. ground (arith, eq_iff "trusted" "quarantined");
  not_quarantined = refl;
  not_blocked = refl;
  not_superseded = inr refl;
  low_risk = refl;
}

default_admits_example : recall_deny_reason sample (params_of none false) "2025-06-01" ≡ none
unfolding after at_or_before trim str_lt
default_admits_example =
    (default_admits_iff sample (params_of none false) "2025-06-01" refl refl).1
      (sample-IsSafe true, record { state = refl; begun = refl; unexpired = refl; valid = refl })

-- asked in 2027, as of 2025
as_of_admits_example :
    recall_deny_reason sample (params_of (some "2025-06-01") false) "2027-01-01" ≡ none
unfolding after at_or_before trim str_lt
as_of_admits_example =
    (as_of_admits_iff sample (params_of (some "2025-06-01") false) "2027-01-01" "2025-06-01" refl
        refl).1
      (sample-IsSafe false, record { begun = refl; known = refl; unexpired = refl; valid = refl })

abbrev pub samples : List MemoryRecord
samples = sample ∷ record_at "m2" "2025-02-01" ∷ record_at "m3" "2025-03-01" ∷ []

-- one record of a type that is left out, one that is no longer valid, and one that is kept
abbrev mixed : List MemoryRecord
mixed =
    record sample { record_type = RecordType.command }
    ∷ record sample { id = "m4"; invalidated_at = some "2025-02-01" }
    ∷ sample
    ∷ []

abbrev no_commands : RecallParams
no_commands = record (params_of none false) { exclude_types = RecordType.command ∷ [] }

admit_accounts_example :
    let a = admit no_commands "2025-06-01" mixed nothing_admitted in
    (a.records ≡ select (passes no_commands "2025-06-01") mixed)
    × (length a.records + a.type_filtered + total a.withheld ≡ 3)
    × (a.type_filtered ≡ length (select (is_mistyped no_commands "2025-06-01") mixed))
    × ((reason : RecallDenyReason)
        → count_of reason a.withheld
          ≡ length (select (is_denied no_commands "2025-06-01" reason) mixed))
admit_accounts_example = admit_accounts no_commands "2025-06-01" mixed

abbrev scored : List Scored
scored = map (λ r. record { entry = r; score = f64_one; ranking_signals = "repo" ∷ [] }) samples

abbrev digest : String → String
digest s = s

abbrev unknown_age : String → Option ℤ
unknown_age s = none

-- a budget that the second record exceeds
pack-IsPacking_example : IsPacking digest unknown_age 10 scored (pack digest unknown_age 10 scored)
pack-IsPacking_example = pack-IsPacking digest unknown_age 10 scored

abbrev database : Sqlite
database = record {
  fts_enabled = true;
  fts_rows = λ expression. ok samples;
  like_rows = λ pattern. ok samples;
  latest_rows = ok samples;
}

abbrev ascii_letters : Unicode
ascii_letters = record { is_alphanumeric = λ c. leb b'a' (code c) && leb (code c) b'z' }

abbrev looking_for : String → SearchParams
looking_for query = record {
  profile = Profile.personal;
  workspace = none;
  repo_id = none;
  query = query;
  scope = none;
  record_type = some RecordType.decision;
  include_archived = false;
  limit = 2;
  offset = 0;
}

-- two pages of at most two records
follow-search_example :
    ((str_is_empty (trim "") ≡ true)
      × (follow digest ascii_letters database (looking_for "") 4 0
          ≡ ok (map (match_of digest) samples)))
    ⊎ ((str_is_empty (trim "") ≡ false)
        × (matches_of (answer digest ascii_letters database (looking_for "") 0)
            ≡ matches_of (answer digest ascii_letters database (looking_for "") 0)))
unfolding passes_filters Profile.as_str RecordType.as_str Sensitivity.as_str
follow-search_example =
    follow-search digest ascii_letters database (looking_for "") samples refl 4 0 (ground arith)
      (ground arith)

-- With text, the cursor of the first page leads to the first page again.
test_repeats :
    answer digest ascii_letters database (looking_for "sqlite") 2
    ≡ ok (record { matches = map (match_of digest) (take 2 samples); next_cursor = some 4 })
unfolding passes_filters search search_records search_fts fts_match_query page_of trim
    split_whitespace Profile.as_str RecordType.as_str Sensitivity.as_str
test_repeats = refl
