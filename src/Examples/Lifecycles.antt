-- ===== src/Examples/Lifecycles.antt =====
-- The lifecycle of procedures in src/store.rs, on a table of two rows.
use codex_memoryd.Prelude.{◌≡◌, refl, none, some, List, [], ◌∷◌, String}
use codex_memoryd.Domain.MemoryRecord.{f64_one}
use codex_memoryd.Store.Procedures.{Procedure, Table, get_procedure}
use codex_memoryd.Store.Procedures.Lifecycle.{
  Request, retire, supersede, counter_evidence, validate, Pointwise, Evolves, run_all,
  run_all-Evolves,
}
use codex_memoryd.Store.Procedures.Repeated.{
  counter_evidence_times, Settled, counter_evidence_times_lem,
}

abbrev pub procedure : String → Procedure
procedure id = record {
  id = id;
  profile_id = "work";
  workspace_id = "w1";
  subject_id = none;
  repo_id = none;
  name = "release";
  activation_query = "how to release";
  steps = "tag, then push";
  guardrails = "";
  termination_condition = "";
  source_episode_ids = [];
  confidence = f64_one;
  state = "active";
  created_at = "2025-01-01";
  retired_at = none;
  version = 1;
  first_seen = none;
  last_validated = none;
  superseded_by = none;
  counter_evidence_count = 0;
  negative_examples = [];
  metadata = "{}";
}

abbrev table : Table
table = procedure "p1" ∷ procedure "p2" ∷ []

abbrev requests : List (String × Request)
requests =
    ("2025-02-01", counter_evidence "p1" 1)
    ∷ ("2025-03-01", supersede "p1" "p2")
    ∷ ("2025-04-01", validate "p2")
    ∷ ("2025-05-01", retire "p2")
    ∷ []

run_all-Evolves_example : Pointwise (Evolves "work" "w1") table (run_all "work" "w1" requests table)
run_all-Evolves_example = run_all-Evolves "work" "w1" requests table

counter_evidence_times_example :
    (q : Procedure) × (get_procedure "work" "w1" "p1"
        (counter_evidence_times "work" "w1" "2025-02-01" "p1" 2 2 table)
      ≡ some q)
    × Settled "work" "w1" "2025-02-01" 2 2 (procedure "p1") q
unfolding get_procedure
counter_evidence_times_example =
    counter_evidence_times_lem "work" "w1" "2025-02-01" 1 "p1" 2 table (procedure "p1") refl refl
