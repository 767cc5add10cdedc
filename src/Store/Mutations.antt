-- ===== src/Store/Mutations.antt =====
-- src/store.rs: the changes of memory records by id, and the counter that orders them for the
-- schedulers. The table is the list of its rows with the value of the counter, a transaction is the
-- change that it makes to them, and the connection always answers. `now` is the time that the
-- operation is given or reads from the clock. The sequence, an i64 that is only counted up, is a
-- natural number.
pub mod Rows
pub mod Steps
pub mod Batches
pub mod Promotions
pub mod Commands
pub mod Supersession
pub mod Refinement
use codex_memoryd.Prelude.{
  ℕ, ◌+◌, String, Bool, true, false, not, ◌&&◌, Option, none, some, List, [], ◌∷◌, ◌++◌, any, find,
  select, is_empty, str_eq, mem_str, if◌then◌else◌,
}
use codex_memoryd.Domain.MemoryRecord.{MemoryRecord, f64_one}
use codex_memoryd.Domain.TemporalState
use codex_memoryd.Store.Records.{in_scope}

pub record Row : Type 0 where
  pub entry : MemoryRecord
  pub active_memory_mutation_sequence : ℕ

abbrev pub Rows : Type 0
Rows = List Row

pub record Table : Type 0 where
  pub rows : Rows
  pub sequence : ℕ

-- the rows with the ids changed and the ids not found
pub record Batch : Type 0 where
  pub rows : Rows
  pub changed : List String
  pub not_found : List String

abbrev pub has_id : String → Row → Bool
has_id id row = str_eq row.entry.id id

-- `UPDATE memory_records SET .. WHERE id = ? AND ..`
unfoldable pub update_rows : String → (Row → Bool) → (Row → Row) → Rows → Rows
update_rows id test change [] = []
update_rows id test change (row ∷ rows) =
    (if has_id id row && test row then change row else row) ∷ update_rows id test change rows

-- `SELECT .. FROM memory_records WHERE id = ?`
abbrev pub get_record : String → Rows → Option Row
get_record id rows = find (has_id id) rows

-- `COALESCE(a, b)`
abbrev pub coalesce : Option String → String → Option String
coalesce none b = some b
coalesce (some a) b = some a

abbrev pub change_entry : (MemoryRecord → MemoryRecord) → Row → Row
change_entry change row = record row { entry = change row.entry }

abbrev pub always : Row → Bool
always row = true

abbrev pub is_active : Row → Bool
is_active row = not row.entry.archived

abbrev pub is_quarantined : Row → Bool
is_quarantined row = str_eq row.entry.trust_state "quarantined"

abbrev pub touched : String → Row → Row
touched now = change_entry (λ r. record r { last_used_at = some now })

abbrev pub archived : String → Row → Row
archived now = change_entry (λ r. record r { archived = true; updated_at = now })

abbrev pub promoted : String → ℕ → Row → Row
promoted now sequence row = record {
  entry = record row.entry {
    trust_state = "trusted";
    trust_score = f64_one;
    quarantine_reason = none;
    promoted_at = some now;
    updated_at = now;
  };
  active_memory_mutation_sequence = sequence;
}

abbrev pub superseded : String → String → String → ℕ → Row → Row
superseded new_id reason now sequence row = record {
  entry = record row.entry {
    temporal_state = TemporalState.superseded;
    superseded_by = some new_id;
    valid_until = coalesce row.entry.valid_until now;
    historical_reason = some reason;
    updated_at = now;
  };
  active_memory_mutation_sequence = sequence;
}

abbrev pub superseding : List String → String → ℕ → Row → Row
superseding supersedes now sequence row = record {
  entry = record row.entry { supersedes = supersedes; updated_at = now };
  active_memory_mutation_sequence = sequence;
}

abbrev pub invalidated : String → String → ℕ → Row → Row
invalidated reason now sequence row = record {
  entry = record row.entry {
    temporal_state = TemporalState.invalidated;
    invalidated_at = some now;
    valid_until = coalesce row.entry.valid_until now;
    historical_reason = some reason;
    updated_at = now;
  };
  active_memory_mutation_sequence = sequence;
}

unfoldable pub touch_from : String → List String → Rows → Rows
touch_from now [] rows = rows
touch_from now (id ∷ more) rows = touch_from now more (update_rows id always (touched now) rows)

unfoldable pub touch_records : String → List String → Rows → Rows
touch_records now ids_to_touch rows =
    if is_empty ids_to_touch then rows else touch_from now ids_to_touch rows

-- the promotion in progress; the sequence is taken for the first id that is found
pub record Promotion : Type 0 where
  pub rows : Rows
  pub sequence : ℕ
  pub mutation_sequence : Option ℕ
  pub promoted_ids : List String
  pub not_found : List String

-- `next_active_memory_mutation_sequence`, where none was taken yet: the sequence to use
abbrev pub sequence_of : Option ℕ → ℕ → ℕ
sequence_of none counter = counter + 1
sequence_of (some taken) counter = taken

-- and the counter after that
abbrev pub counter_of : Option ℕ → ℕ → ℕ
counter_of none counter = counter + 1
counter_of (some taken) counter = counter

module _ (profile_id : String) (workspace_id : Option String) where
  abbrev pub scoped : Row → Bool
  scoped row = in_scope profile_id workspace_id row.entry

  -- `scoped_record_exists`
  abbrev pub row_exists : String → Rows → Bool
  row_exists id rows = any (λ row. has_id id row && scoped row) rows

  unfoldable pub archive_one : String → String → Batch → Batch
  archive_one now id b =
      if not (row_exists id b.rows)
      then record b { not_found = b.not_found ++ id ∷ [] }
      else record b {
        rows = update_rows id is_active (archived now) b.rows;
        changed =
            if any (λ row. has_id id row && is_active row) b.rows
            then b.changed ++ id ∷ []
            else b.changed;
      }

  unfoldable pub archive_from : String → List String → Batch → Batch
  archive_from now [] b = b
  archive_from now (id ∷ more) b = archive_from now more (archive_one now id b)

  unfoldable pub archive_records : String → List String → Rows → Batch
  archive_records now ids_to_archive rows =
      archive_from now ids_to_archive (record { rows = rows; changed = []; not_found = [] })

  unfoldable pub delete_one : String → Batch → Batch
  delete_one id b =
      if not (row_exists id b.rows)
      then record b { not_found = b.not_found ++ id ∷ [] }
      else record b {
        rows = select (λ row. not (has_id id row)) b.rows;
        changed = b.changed ++ id ∷ [];
      }

  unfoldable pub delete_from : List String → Batch → Batch
  delete_from [] b = b
  delete_from (id ∷ more) b = delete_from more (delete_one id b)

  unfoldable pub delete_records : List String → Rows → Batch
  delete_records ids_to_delete rows =
      delete_from ids_to_delete (record { rows = rows; changed = []; not_found = [] })

  unfoldable pub promote_one : String → String → Promotion → Promotion
  promote_one now id p =
      let sequence = sequence_of p.mutation_sequence p.sequence in
      let hit = any (λ row. has_id id row && is_quarantined row) p.rows in
      if not (row_exists id p.rows)
      then record p { not_found = p.not_found ++ id ∷ [] }
      else record {
        rows = update_rows id is_quarantined (promoted now sequence) p.rows;
        sequence = counter_of p.mutation_sequence p.sequence;
        mutation_sequence = some sequence;
        promoted_ids = if hit then p.promoted_ids ++ id ∷ [] else p.promoted_ids;
        not_found = if hit then p.not_found else p.not_found ++ id ∷ [];
      }

  unfoldable pub promote_from : String → List String → Promotion → Promotion
  promote_from now [] p = p
  promote_from now (id ∷ more) p = promote_from now more (promote_one now id p)

  unfoldable pub promote_quarantined_records : String → List String → Table → Promotion
  promote_quarantined_records now ids_to_promote t = promote_from now ids_to_promote (record {
    rows = t.rows;
    sequence = t.sequence;
    mutation_sequence = none;
    promoted_ids = [];
    not_found = [];
  })

-- `SELECT supersedes .. WHERE profile_id = ? AND workspace_id = ? AND id = ?`; the row exists
abbrev pub supersedes_of : Option Row → List String
supersedes_of none = []
supersedes_of (some row) = row.entry.supersedes

module _ (profile_id workspace_id : String) where
  abbrev pub within : Row → Bool
  within row = scoped profile_id (some workspace_id) row

  abbrev pub both_exist : String → String → Rows → Bool
  both_exist old_id new_id rows =
      row_exists profile_id (some workspace_id) old_id rows
      && row_exists profile_id (some workspace_id) new_id rows

  -- the second update, for the ids that the new row has superseded so far
  unfoldable pub list_superseded : String → String → String → ℕ → List String → Rows → Rows
  list_superseded old_id new_id now sequence supersedes rows =
      if mem_str old_id supersedes
      then rows
      else update_rows new_id within (superseding (supersedes ++ old_id ∷ []) now sequence) rows

  -- the rows after both updates
  unfoldable pub superseded_rows : String → String → String → String → ℕ → Rows → Rows
  superseded_rows old_id new_id reason now sequence rows =
      let first = update_rows old_id within (superseded new_id reason now sequence) rows in
      list_superseded old_id new_id now sequence
        (supersedes_of (find (λ row. has_id new_id row && within row) first)) first

  unfoldable pub supersede_record : String → String → String → String → Table → Table × Option Row
  supersede_record old_id new_id reason now t =
      let sequence = t.sequence + 1 in
      let rows = superseded_rows old_id new_id reason now sequence t.rows in
      if not (both_exist old_id new_id t.rows)
      then (t, none)
      else (record { rows = rows; sequence = sequence }, get_record old_id rows)

  unfoldable pub invalidate_record : String → String → String → Table → Table × Option Row
  invalidate_record id reason now t =
      let sequence = t.sequence + 1 in
      let rows = update_rows id within (invalidated reason now sequence) t.rows in
      if not (row_exists profile_id (some workspace_id) id t.rows)
      then (t, none)
      else (record { rows = rows; sequence = sequence }, get_record id rows)
