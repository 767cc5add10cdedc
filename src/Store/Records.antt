-- ===== src/Store/Records.antt =====
-- src/store.rs: quarantine, archive and deletion of memory records. The table is the list of its
-- rows, and a transaction is the change that it makes to them; the connection always answers, and
-- `now` is the time that the operation reads from the clock.
pub mod Quarantine
pub mod Recalled
use codex_memoryd.Prelude.{
  String, Bool, true, false, not, ◌&&◌, Option, none, some, List, [], ◌∷◌, ◌++◌, any, select,
  str_eq, if◌then◌else◌,
}
use codex_memoryd.Domain.MemoryRecord.{MemoryRecord, f64_zero}

abbrev pub Records : Type 0
Records = List MemoryRecord

-- `UPDATE memory_records SET .. WHERE ..`
unfoldable pub update_records :
    (MemoryRecord → Bool) → (MemoryRecord → MemoryRecord) → Records → Records
update_records test change [] = []
update_records test change (r ∷ rows) =
    (if test r then change r else r) ∷ update_records test change rows

-- the table with the ids changed and the ids not found
pub record Outcome : Type 0 where
  pub rows : Records
  pub changed : List String
  pub not_found : List String

abbrev pub begun : Records → Outcome
begun rows = record { rows = rows; changed = []; not_found = [] }

abbrev pub quarantined : String → String → MemoryRecord → MemoryRecord
quarantined reason now r = record r {
  trust_state = "quarantined";
  trust_score = f64_zero;
  quarantine_reason = some reason;
  quarantined_at = some now;
  promoted_at = none;
  updated_at = now;
}

abbrev pub to_quarantine : String → MemoryRecord → Bool
to_quarantine id r = str_eq r.id id && not (str_eq r.trust_state "quarantined")

module _ (profile_id : String) (workspace_id : Option String) where
  abbrev pub in_scope : MemoryRecord → Bool
  in_scope r = elim workspace_id [
    | some ws ↦ str_eq r.profile_id profile_id && str_eq r.workspace_id ws
    | none ↦ str_eq r.profile_id profile_id
  ]

  unfoldable pub scoped_record_exists : String → Records → Bool
  scoped_record_exists id rows = any (λ r. str_eq r.id id && in_scope r) rows

  module _ (reason now : String) where
    -- one turn of the loop
    unfoldable pub quarantine_one : String → Outcome → Outcome
    quarantine_one id o =
        if not (scoped_record_exists id o.rows)
        then record o { not_found = o.not_found ++ id ∷ [] }
        else record o {
          rows = update_records (to_quarantine id) (quarantined reason now) o.rows;
          changed = if any (to_quarantine id) o.rows then o.changed ++ id ∷ [] else o.changed;
        }

    unfoldable pub quarantine_from : List String → Outcome → Outcome
    quarantine_from [] o = o
    quarantine_from (id ∷ more) o = quarantine_from more (quarantine_one id o)

    unfoldable pub quarantine_records : List String → Records → Outcome
    unfolding quarantine_from
    quarantine_records ids_to_quarantine rows = quarantine_from ids_to_quarantine (begun rows)
