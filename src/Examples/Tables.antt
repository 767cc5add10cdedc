-- ===== src/Examples/Tables.antt =====
-- The changes of memory records and the expansion along relations of src/store.rs, on small tables.
use codex_memoryd.Prelude.{
  String, ◌≡◌, refl, arith, str_eq, All, if◌then◌else◌, none, some, List, [], ◌∷◌,
}
use codex_memoryd.Store.Mutations.{Row, Table}
use codex_memoryd.Store.Mutations.Rows.{HasKey}
use codex_memoryd.Store.Mutations.Commands.{
  Command, touch, archive, delete, promote, supersede, invalidate, execute_all, view, meaning_all,
}
use codex_memoryd.Store.Mutations.Refinement.{execute_all-meaning_all}
use codex_memoryd.Prelude.Distinct.{Distinct}
use codex_memoryd.Domain.MemoryRecord.{f64_one}
use codex_memoryd.Store.Relations.{Relation, RelationExpansion, relation_expanded_subjects}
use codex_memoryd.Store.Relations.Laws.{IsFound, subjects, relation_expanded_subjects-IsFound}
use codex_memoryd.Examples.Recalls.{record_at}

abbrev row_of : String → Row
row_of id = record { entry = record_at id "2025-01-01"; active_memory_mutation_sequence = 0 }

abbrev table : Table
table = record { rows = row_of "m1" ∷ row_of "m2" ∷ row_of "m3" ∷ []; sequence = 4 }

-- one of each, with an id that is not there
abbrev commands : List Command
commands =
    touch "2025-02-01" ("m1" ∷ [])
    ∷ archive "personal" (some "w1") "2025-02-02" ("m1" ∷ "m9" ∷ [])
    ∷ promote "personal" none "2025-02-03" ("m2" ∷ [])
    ∷ supersede "personal" "w1" "m2" "m3" "newer" "2025-02-04"
    ∷ invalidate "personal" "w1" "m3" "wrong" "2025-02-05"
    ∷ delete "personal" (some "w1") ("m1" ∷ [])
    ∷ []

execute_all_example :
    HasKey (execute_all commands table).rows
    × (view (execute_all commands table) ≡ meaning_all commands (view table))
execute_all_example = execute_all-meaning_all commands table (refl, (refl, (refl, tt)))

abbrev relation_to : String → String → String → Relation
relation_to id from to = record {
  id = id;
  profile_id = "personal";
  workspace_id = "w1";
  from_subject_id = from;
  relation_type = "uses";
  to_subject_id = to;
  confidence = f64_one;
  state = "active";
  source_episode_ids = "e1" ∷ [];
  source_evidence = none;
  created_at = "2025-01-01";
  retired_at = none;
  metadata = "{}";
}

-- `s1` leads to `s2` and `s3`, and `s2` back to `s1`
abbrev small_graph : String → List Relation
small_graph s =
    if str_eq s "s1"
    then relation_to "r1" "s1" "s2" ∷ relation_to "r2" "s1" "s3" ∷ []
    else if str_eq s "s2"
    then relation_to "r3" "s2" "s1" ∷ []
    else []

relation_expanded_subjects_example :
    (es : List RelationExpansion) × (relation_expanded_subjects small_graph 5 100 ("s1" ∷ [])
      ≡ some es)
    × (All (IsFound small_graph 5 ("s1" ∷ [])) es × Distinct (subjects es))
relation_expanded_subjects_example =
    relation_expanded_subjects-IsFound small_graph 5 ("s1" ∷ []) 2 (λ s. ground arith) 100
      (omega arith)
