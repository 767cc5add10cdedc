-- ===== src/Store/Mutations/Commands.antt =====
-- The operations of src/store.rs that change memory records by id, as commands: what each does to
-- the table, and what it means for a memory that is a map from ids to rows and a counter.
use codex_memoryd.Prelude.{
  ℕ, ◌+◌, String, Bool, ◌&&◌, Option, List, [], ◌∷◌, ◌++◌, any, mem_str, if◌then◌else◌,
}
use codex_memoryd.Store.Mutations.{
  Row, Table, has_id, get_record, is_active, is_quarantined, touched, archived, promoted,
  superseded, superseding, invalidated, supersedes_of, within, touch_records, archive_records,
  delete_records, promote_quarantined_records, supersede_record, invalidate_record,
}
use codex_memoryd.Store.Mutations.Rows.{amend, remove, holds}
use codex_memoryd.Store.Mutations.Steps.{inside, in_steps}
use codex_memoryd.Store.Mutations.Batches.{has_listed_id, in_deletion}

-- each with the arguments of the operation, its profile, workspace and time first
pub data Command : Type 0 where
  touch : String → List String → Command
  archive : String → Option String → String → List String → Command
  delete : String → Option String → List String → Command
  promote : String → Option String → String → List String → Command
  supersede : String → String → String → String → String → String → Command
  invalidate : String → String → String → String → String → Command

unfoldable pub execute : Command → Table → Table
execute (touch now ids) t = record t { rows = touch_records now ids t.rows }
execute (archive p w now ids) t = record t { rows = (archive_records p w now ids t.rows).rows }
execute (delete p w ids) t = record t { rows = (delete_records p w ids t.rows).rows }
execute (promote p w now ids) t =
    let done = promote_quarantined_records p w now ids t in
    record { rows = done.rows; sequence = done.sequence }
execute (supersede p w old_id new_id reason now) t =
    (supersede_record p w old_id new_id reason now t).0
execute (invalidate p w id reason now) t = (invalidate_record p w id reason now t).0

unfoldable pub execute_all : List Command → Table → Table
execute_all [] t = t
execute_all (c ∷ cs) t = execute_all cs (execute c t)

-- the abstract memory
pub record Memory : Type 0 where
  pub row : String → Option Row
  pub sequence : ℕ

-- the memory that a table stands for
abbrev pub view : Table → Memory
view t = record { row = λ id. get_record id t.rows; sequence = t.sequence }

module _ (profile_id workspace_id : String) where
  abbrev pub row_within : String → Row → Bool
  row_within id row = has_id id row && within profile_id workspace_id row

  -- the new row lists the old id, unless it did
  abbrev pub listed : String → String → String → ℕ → List String → Option Row → Option Row
  listed old_id new_id now sequence supersedes o =
      if mem_str old_id supersedes
      then o
      else amend (row_within new_id) (superseding (supersedes ++ old_id ∷ []) now sequence) o

  module _ (m : Memory) where
    abbrev pub is_within : String → Bool
    is_within id = holds (within profile_id workspace_id) (m.row id)

    abbrev pub supersede_first : String → String → String → String → ℕ → String → Option Row
    supersede_first old_id new_id reason now sequence id =
        amend (row_within old_id) (superseded new_id reason now sequence) (m.row id)

    -- the old row is superseded, and the new row lists it
    abbrev pub supersede_both : String → String → String → String → ℕ → String → Option Row
    supersede_both old_id new_id reason now sequence id =
        listed old_id new_id now sequence
          (supersedes_of (supersede_first old_id new_id reason now sequence new_id))
          (supersede_first old_id new_id reason now sequence id)

-- What a command means: every row in its scope that it names is changed, once and at once.
unfoldable pub meaning : Command → Memory → Memory
meaning (touch now ids) m = record m {
  row = λ id. amend (has_listed_id ids) (touched now) (m.row id);
}
meaning (archive p w now ids) m = record m {
  row = λ id. amend (in_steps p w is_active ids) (archived now) (m.row id);
}
meaning (delete p w ids) m = record m { row = λ id. remove (in_deletion p w ids) (m.row id) }
meaning (promote p w now ids) m = record {
  row = λ id. amend (in_steps p w is_quarantined ids) (promoted now (m.sequence + 1)) (m.row id);
  sequence = if any (λ id. holds (inside p w) (m.row id)) ids then m.sequence + 1 else m.sequence;
}
meaning (supersede p w old_id new_id reason now) m =
    if is_within p w m old_id && is_within p w m new_id
    then record {
      row = supersede_both p w m old_id new_id reason now (m.sequence + 1);
      sequence = m.sequence + 1;
    }
    else m
meaning (invalidate p w id reason now) m =
    if is_within p w m id
    then record {
      row = λ a. amend (row_within p w id) (invalidated reason now (m.sequence + 1)) (m.row a);
      sequence = m.sequence + 1;
    }
    else m

unfoldable pub meaning_all : List Command → Memory → Memory
meaning_all [] m = m
meaning_all (c ∷ cs) m = meaning_all cs (meaning c m)
