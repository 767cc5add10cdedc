-- ===== src/Store/Procedures.antt =====
-- src/store.rs: the lifecycle of procedures. The table is the list of its rows, and a statement is
-- the change that it makes to them; the connection always answers. The counts and versions, i64 in
-- the source, are natural numbers that start at 0 and 1 and are only ever counted up.
pub mod Lifecycle
pub mod Outcomes
pub mod Repeated
use codex_memoryd.Prelude.{
  ℕ, ◌+◌, String, Bool, true, false, not, ◌&&◌, ◌||◌, Option, none, some, List, [], ◌∷◌, any, find,
  leb, ltb, str_eq, mem_str, if◌then◌else◌,
}
use codex_memoryd.Domain.MemoryRecord.{F64}

-- `metadata` is the JSON text
pub record Procedure : Type 0 where
  pub id : String
  pub profile_id : String
  pub workspace_id : String
  pub subject_id : Option String
  pub repo_id : Option String
  pub name : String
  pub activation_query : String
  pub steps : String
  pub guardrails : String
  pub termination_condition : String
  pub source_episode_ids : List String
  pub confidence : F64
  pub state : String
  pub created_at : String
  pub retired_at : Option String
  pub version : ℕ
  pub first_seen : Option String
  pub last_validated : Option String
  pub superseded_by : Option String
  pub counter_evidence_count : ℕ
  pub negative_examples : List String
  pub metadata : String

abbrev pub Table : Type 0
Table = List Procedure

-- `UPDATE procedures SET .. WHERE ..`
unfoldable pub update : (Procedure → Bool) → (Procedure → Procedure) → Table → Table
update test change [] = []
update test change (p ∷ rows) = (if test p then change p else p) ∷ update test change rows

abbrev pub no_time : Option String → Bool
no_time none = true
no_time (some _) = false

-- the condition of `query_procedures` where retired procedures are not asked for
unfoldable pub in_default_recall : Procedure → Bool
in_default_recall p =
    not (mem_str p.state ("retired" ∷ "superseded" ∷ "quarantined" ∷ [])) && no_time p.retired_at

abbrev pub retired : String → Procedure → Procedure
retired now p = record p { state = "retired"; retired_at = some now }

abbrev pub superseded : String → String → Procedure → Procedure
superseded now new_id p = record p {
  state = "superseded";
  retired_at = some now;
  superseded_by = some new_id;
}

abbrev pub succeeding : String → ℕ → Procedure → Procedure
succeeding now old_version p = record p { version = old_version + 1; last_validated = some now }

abbrev pub counted : Procedure → Procedure
counted p = record p { counter_evidence_count = p.counter_evidence_count + 1 }

abbrev pub quarantined : String → Procedure → Procedure
quarantined now p = record p { state = "quarantined"; retired_at = some now }

abbrev pub over_threshold : ℕ → Procedure → Bool
over_threshold threshold p =
    leb threshold p.counter_evidence_count && not (mem_str p.state ("retired" ∷ "superseded" ∷ []))

abbrev pub validated : String → Procedure → Procedure
validated now p = record p { last_validated = some now }

module _ (profile_id workspace_id : String) where
  -- `WHERE profile_id = ?1 AND workspace_id = ?2 AND id = ?3`
  abbrev pub keyed_by : String → Procedure → Bool
  keyed_by id p =
      str_eq p.profile_id profile_id && str_eq p.workspace_id workspace_id && str_eq p.id id

  unfoldable pub get_procedure : String → Table → Option Procedure
  get_procedure id rows = find (keyed_by id) rows

  module _ (now : String) where
    unfoldable pub retire_procedure : String → Table → Table × Option Procedure
    retire_procedure id rows =
        let rows' =
          update (λ p. keyed_by id p && not (str_eq p.state "retired")) (retired now) rows in
        (rows', get_procedure id rows')

    unfoldable pub supersede_procedure : String → String → Table → Table × Option Procedure
    supersede_procedure old_id new_id rows = elim (get_procedure old_id rows) [
      | none ↦ (rows, none)
      | some old ↦
          let marked = update (keyed_by old_id) (superseded now new_id) rows in
          let rows' = update (keyed_by new_id) (succeeding now old.version) marked in
          (rows', get_procedure new_id rows')
    ]

    unfoldable pub record_procedure_counter_evidence : String → ℕ → Table → Table × Option Procedure
    record_procedure_counter_evidence id quarantine_threshold rows =
        let counted_rows = update (keyed_by id) counted rows in
        let rows' =
          update (λ p. keyed_by id p && over_threshold quarantine_threshold p) (quarantined now)
            counted_rows in
        if any (keyed_by id) rows then (rows', get_procedure id rows') else (rows, none)

    unfoldable pub validate_procedure : String → Table → Table × Option Procedure
    validate_procedure id rows =
        let rows' = update (keyed_by id) (validated now) rows in (rows', get_procedure id rows')
