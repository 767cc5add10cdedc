-- ===== src/Store/Mutations/Refinement.antt =====
-- The operations of src/store.rs on its table of memory records implement a memory that is a map
-- from ids to rows.
use std.Path.{fun_ext}
use codex_memoryd.Prelude.{
  ◌+◌, String, true, ◌&&◌, ◌≡◌, refl, sym, ap, subst, ◌∙◌, inl, inr, some, List, [], ◌∷◌, arith,
  Bool-cases,
}
use codex_memoryd.Prelude.Distinct.{Distinct}
use codex_memoryd.Store.Mutations.{
  Table, update_rows, get_record, invalidated, within, row_exists, both_exist, superseded_rows,
  supersede_record, invalidate_record,
}
use codex_memoryd.Store.Mutations.Rows.{HasKey, amend, ids-update_rows, get_record-update_rows}
use codex_memoryd.Store.Mutations.Batches.{
  get_record-touch_records, HasKey-touch_records, get_record-archive_records,
  HasKey-archive_records, get_record-delete_records, HasKey-delete_records,
}
use codex_memoryd.Store.Mutations.Promotions.{
  get_record-promote_quarantined_records, HasKey-promote_quarantined_records,
  sequence-promote_quarantined_records,
}
use codex_memoryd.Store.Mutations.Supersession.{
  row_exists-is_within, HasKey-superseded_rows, get_record-superseded_rows,
}
use codex_memoryd.Store.Mutations.Commands.{
  Command, touch, archive, delete, promote, supersede, invalidate, execute, execute_all, Memory,
  view, row_within, is_within, supersede_both, meaning, meaning_all,
}

Memory-ext :
    (m n : Memory) → ((id : String) → m.row id ≡ n.row id) → m.sequence ≡ n.sequence → m ≡ n
Memory-ext m n r s = λ i. record { row = fun_ext r i; sequence = s i }

-- A command that does what it means, and keeps the key.
abbrev Implements : Command → Table → Type 0
Implements c t = HasKey (execute c t).rows × (view (execute c t) ≡ meaning c (view t))

Implements-by :
    (c : Command) (t u : Table) (m : Memory)
    → execute c t ≡ u
    → meaning c (view t) ≡ m
    → HasKey u.rows
    → view u ≡ m
    → Implements c t
Implements-by c t u m e f k v = (subst (λ x. HasKey x.rows) (sym e) k, ap view e ∙ v ∙ sym f)

module _ (p w new_id reason now : String) (t : Table) (k : HasKey t.rows) where
  Implements-supersede : (old_id : String) → Implements (supersede p w old_id new_id reason now) t
  unfolding execute meaning supersede_record
  Implements-supersede old_id =
      let e = row_exists-is_within p w old_id t k in
      let e' = row_exists-is_within p w new_id t k in
      let tests : (both_exist p w old_id new_id t.rows
          ≡ (is_within p w (view t) old_id && is_within p w (view t) new_id)) =
        rw (e, e') refl in
      let c = supersede p w old_id new_id reason now in
      elim (Bool-cases (both_exist p w old_id new_id t.rows)) [
        | inl both ↦
            let here : is_within p w (view t) new_id ≡ true = ground arith in
            let u : Table = record {
              rows = superseded_rows p w old_id new_id reason now (t.sequence + 1) t.rows;
              sequence = t.sequence + 1;
            } in
            let m : Memory = record {
              row = supersede_both p w (view t) old_id new_id reason now (t.sequence + 1);
              sequence = t.sequence + 1;
            } in
            Implements-by c t u m (rw (both, execute, supersede_record) refl)
              (rw (sym tests ∙ both) refl)
              (HasKey-superseded_rows p w old_id new_id reason now (t.sequence + 1) t.rows k)
              (Memory-ext _ _
                (get_record-superseded_rows p w old_id new_id reason now (t.sequence + 1) t k here)
                refl)
        | inr absent ↦
            Implements-by c t t (view t) (rw (absent, execute, supersede_record) refl)
              (rw (sym tests ∙ absent) refl) k refl
      ]

  Implements-invalidate : (id : String) → Implements (invalidate p w id reason now) t
  unfolding execute meaning invalidate_record
  Implements-invalidate id =
      let change = invalidated reason now (t.sequence + 1) in
      let e = row_exists-is_within p w id t k in
      let c = invalidate p w id reason now in
      elim (Bool-cases (row_exists p (some w) id t.rows)) [
        | inl here ↦
            let u : Table = record {
              rows = update_rows id (within p w) change t.rows;
              sequence = t.sequence + 1;
            } in
            let m : Memory = record {
              row = λ a. amend (row_within p w id) change (get_record a t.rows);
              sequence = t.sequence + 1;
            } in
            Implements-by c t u m (rw (here, execute, invalidate_record) refl)
              (rw (sym e ∙ here) refl)
              (subst Distinct (sym (ids-update_rows id (within p w) change (λ row. refl) t.rows)) k)
              (Memory-ext _ _
                (λ a. get_record-update_rows id (within p w) change (λ row. refl) a t.rows) refl)
        | inr absent ↦
            Implements-by c t t (view t) (rw (absent, execute, invalidate_record) refl)
              (rw (sym e ∙ absent) refl) k refl
      ]

execute-Implements : (c : Command) (t : Table) → HasKey t.rows → Implements c t
unfolding execute meaning
execute-Implements (touch now ids) t k = (
  HasKey-touch_records now ids t.rows k,
  Memory-ext _ _ (λ a. get_record-touch_records now a ids t.rows) refl,
)
execute-Implements (archive p w now ids) t k = (
  HasKey-archive_records p w now ids t.rows k,
  Memory-ext _ _ (λ a. get_record-archive_records p w now a ids t.rows k) refl,
)
execute-Implements (delete p w ids) t k = (
  HasKey-delete_records p w ids t.rows k,
  Memory-ext _ _ (λ a. get_record-delete_records p w a ids t.rows k) refl,
)
execute-Implements (promote p w now ids) t k = (
  HasKey-promote_quarantined_records p w now ids t k,
  Memory-ext _ _ (λ a. get_record-promote_quarantined_records p w now a ids t k)
      (sequence-promote_quarantined_records p w now ids t k),
)
execute-Implements (supersede p w old_id new_id reason now) t k =
    Implements-supersede p w new_id reason now t k old_id
execute-Implements (invalidate p w id reason now) t k =
    Implements-invalidate p w "" reason now t k id

-- Over a table whose ids are distinct, any sequence of touches, archivings, deletions, promotions,
-- supersessions and invalidations does what it means to a memory that is a map from ids to rows and a
-- counter, where every named row in scope is changed once and at once, and the ids stay distinct.
pub execute_all-meaning_all :
    (cs : List Command) (t : Table)
    → HasKey t.rows
    → HasKey (execute_all cs t).rows × (view (execute_all cs t) ≡ meaning_all cs (view t))
unfolding execute_all meaning_all
execute_all-meaning_all [] t k = (k, refl)
execute_all-meaning_all (c ∷ cs) t k =
    let one = execute-Implements c t k in
    let rest = execute_all-meaning_all cs (execute c t) one.0 in
    (rest.0, rest.1 ∙ ap (meaning_all cs) one.1)
