-- ===== src/Store/Mutations/Supersession.antt =====
-- What `supersede_record` of src/store.rs does to the row of an id.
use codex_memoryd.Prelude.{
  ℕ, String, true, not, ◌≡◌, refl, ap, ◌∙◌, inl, inr, Option, none, some, List, [], ◌∷◌, ◌++◌, find,
  mem_str, arith, Bool-cases,
}
use codex_memoryd.Store.Mutations.{
  Row, Rows, Table, update_rows, get_record, superseded, superseding, supersedes_of, within,
  row_exists, superseded_rows, list_superseded,
}
use codex_memoryd.Store.Mutations.Rows.{
  HasKey, amend, remove, holds, ids-update_rows, get_record-update_rows, any-get_record,
  find-get_record,
}
use codex_memoryd.Store.Mutations.Commands.{
  view, row_within, listed, is_within, supersede_first, supersede_both,
}

module _ (p w : String) where
  pub row_exists-is_within :
      (id : String) (t : Table)
      → HasKey t.rows
      → row_exists p (some w) id t.rows ≡ is_within p w (view t) id
  row_exists-is_within id t k = any-get_record id (within p w) t.rows k

  module _ (old_id new_id now : String) (s : ℕ) (supersedes : List String) where
    HasKey-list_superseded :
        (rows : Rows)
        → HasKey rows
        → HasKey (list_superseded p w old_id new_id now s supersedes rows)
    unfolding list_superseded
    HasKey-list_superseded rows k = elim (Bool-cases (mem_str old_id supersedes)) [
      | inl known ↦ rw known k
      | inr fresh ↦
          rw
            (
              fresh,
              ids-update_rows new_id (within p w) (superseding (supersedes ++ old_id ∷ []) now s)
                  (λ row. refl) rows,
            )
            k
    ]

    get_record-list_superseded :
        (a : String) (rows : Rows)
        → get_record a (list_superseded p w old_id new_id now s supersedes rows)
          ≡ listed p w old_id new_id now s supersedes (get_record a rows)
    unfolding list_superseded
    get_record-list_superseded a rows = elim (Bool-cases (mem_str old_id supersedes)) [
      | inl known ↦ rw known refl
      | inr fresh ↦ rw fresh (
          get_record-update_rows new_id (within p w) (superseding (supersedes ++ old_id ∷ []) now s)
            (λ row. refl) a rows)
    ]

  module _ (old_id new_id reason now : String) (s : ℕ) where
    abbrev first_rows : Rows → Rows
    first_rows rows = update_rows old_id (within p w) (superseded new_id reason now s) rows

    HasKey-first_rows : (rows : Rows) → HasKey rows → HasKey (first_rows rows)
    HasKey-first_rows rows k =
        rw (ids-update_rows old_id (within p w) (superseded new_id reason now s) (λ row. refl) rows)
          k

    pub HasKey-superseded_rows :
        (rows : Rows) → HasKey rows → HasKey (superseded_rows p w old_id new_id reason now s rows)
    unfolding superseded_rows
    HasKey-superseded_rows rows k =
        HasKey-list_superseded old_id new_id now s _ (first_rows rows) (HasKey-first_rows rows k)

    abbrev first_row : Option Row → Option Row
    first_row o = amend (row_within p w old_id) (superseded new_id reason now s) o

    supersedes_of-first_row :
        (o : Option Row)
        → holds (within p w) o ≡ true
        → supersedes_of (remove (λ row. not (within p w row)) (first_row o))
          ≡ supersedes_of (first_row o)
    supersedes_of-first_row none h = refl
    supersedes_of-first_row (some row) h = ground arith

    -- the read between the two updates
    supersedes_of-find :
        (t : Table)
        → HasKey t.rows
        → is_within p w (view t) new_id ≡ true
        → supersedes_of (find (row_within p w new_id) (first_rows t.rows))
          ≡ supersedes_of (supersede_first p w (view t) old_id new_id reason now s new_id)
    supersedes_of-find t k h =
        ap supersedes_of
          (find-get_record new_id (within p w) (first_rows t.rows) (HasKey-first_rows t.rows k))
        ∙ ap (λ o. supersedes_of (remove (λ row. not (within p w row)) o))
            (get_record-update_rows old_id (within p w) (superseded new_id reason now s)
              (λ row. refl) new_id t.rows)
        ∙ supersedes_of-first_row (get_record new_id t.rows) h

    pub get_record-superseded_rows :
        (t : Table)
        → HasKey t.rows
        → is_within p w (view t) new_id ≡ true
        → (id : String)
        → get_record id (superseded_rows p w old_id new_id reason now s t.rows)
          ≡ supersede_both p w (view t) old_id new_id reason now s id
    unfolding superseded_rows
    get_record-superseded_rows t k h id =
        get_record-list_superseded old_id new_id now s _ id (first_rows t.rows)
        ∙ ap (listed p w old_id new_id now s _) (
            get_record-update_rows old_id (within p w) (superseded new_id reason now s)
              (λ row. refl) id t.rows)
        ∙ ap
            (λ supersedes.
              listed p w old_id new_id now s supersedes
                (supersede_first p w (view t) old_id new_id reason now s id))
            (supersedes_of-find t k h)
