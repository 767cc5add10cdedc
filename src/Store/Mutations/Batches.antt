-- ===== src/Store/Mutations/Batches.antt =====
-- What the operations of src/store.rs on a list of ids do to the row of an id: `touch_records`,
-- `archive_records`, `delete_records` and `promote_quarantined_records`.
use codex_memoryd.Prelude.{
  String, Bool, not, ◌&&◌, ◌≡◌, refl, sym, ap, subst, ◌∙◌, inl, inr, Option, none, some, List, [],
  ◌∷◌, mem_str, eq_iff, arith, Bool-cases, Option-cases,
}
use codex_memoryd.Store.Mutations.{
  Row, Rows, Batch, has_id, get_record, always, is_active, touched, archived, touch_from,
  touch_records, archive_one, archive_from, archive_records, delete_one, delete_from,
  delete_records,
}
use codex_memoryd.Store.Mutations.Rows.{
  HasKey, amend, remove, ids-update_rows, get_record-update_rows, get_record-select, HasKey-select,
}
use codex_memoryd.Store.Mutations.Steps.{
  exists, inside, in_steps, exists-row, step_rows, steps_rows, get_record-steps_rows,
  HasKey-steps_rows,
}

abbrev pub has_listed_id : List String → Row → Bool
has_listed_id more row = mem_str row.entry.id more

module _ (now : String) where
  amend-touched :
      (id : String) (more : List String) (o : Option Row)
      → amend
          (has_listed_id more)
          (touched now)
          (amend (λ row. has_id id row && always row) (touched now) o)
        ≡ amend (has_listed_id (id ∷ more)) (touched now) o
  amend-touched id more none = refl
  amend-touched id more (some row) = ground (arith, eq_iff row.entry.id id, eq_iff id row.entry.id)

  get_record-touch_from :
      (a : String) (more : List String) (rows : Rows)
      → get_record a (touch_from now more rows)
        ≡ amend (has_listed_id more) (touched now) (get_record a rows)
  unfolding touch_from
  get_record-touch_from a [] rows = ground (arith, Option-cases (get_record a rows))
  get_record-touch_from a (id ∷ more) rows =
      get_record-touch_from a more _
      ∙ ap (amend (has_listed_id more) (touched now))
          (get_record-update_rows id always (touched now) (λ row. refl) a rows)
      ∙ amend-touched id more (get_record a rows)

  HasKey-touch_from :
      (more : List String) (rows : Rows) → HasKey rows → HasKey (touch_from now more rows)
  unfolding touch_from
  HasKey-touch_from [] rows k = k
  HasKey-touch_from (id ∷ more) rows k =
      HasKey-touch_from more _ (rw (ids-update_rows id always (touched now) (λ row. refl) rows) k)

  touch_records-from :
      (more : List String) (rows : Rows) → touch_records now more rows ≡ touch_from now more rows
  unfolding touch_records touch_from
  touch_records-from [] rows = refl
  touch_records-from (id ∷ more) rows = refl

  pub get_record-touch_records :
      (a : String) (more : List String) (rows : Rows)
      → get_record a (touch_records now more rows)
        ≡ amend (has_listed_id more) (touched now) (get_record a rows)
  get_record-touch_records a more rows =
      rw (touch_records-from more rows) (get_record-touch_from a more rows)

  pub HasKey-touch_records :
      (more : List String) (rows : Rows) → HasKey rows → HasKey (touch_records now more rows)
  HasKey-touch_records more rows k =
      rw (touch_records-from more rows) (HasKey-touch_from more rows k)

module _ (profile_id : String) (workspace_id : Option String) where
  module _ (now : String) where
    abbrev archive_steps : List String → Rows → Rows
    archive_steps more rows =
        steps_rows profile_id workspace_id is_active (archived now) (λ row. refl) (λ row. refl) more
          rows

    rows-archive_one :
        (id : String) (b : Batch)
        → (archive_one profile_id workspace_id now id b).rows
          ≡ step_rows profile_id workspace_id is_active
              (archived now)
              (λ row. refl)
              (λ row. refl)
              id
              b.rows
    unfolding archive_one step_rows
    rows-archive_one id b = elim (Bool-cases (exists profile_id workspace_id id b.rows)) [
      | inl found ↦ rw found refl
      | inr gone ↦ rw gone refl
    ]

    rows-archive_from :
        (more : List String) (b : Batch)
        → (archive_from profile_id workspace_id now more b).rows ≡ archive_steps more b.rows
    unfolding archive_from steps_rows
    rows-archive_from [] b = refl
    rows-archive_from (id ∷ more) b =
        rows-archive_from more _ ∙ ap (archive_steps more) (rows-archive_one id b)

    pub get_record-archive_records :
        (a : String) (more : List String) (rows : Rows)
        → HasKey rows
        → get_record a (archive_records profile_id workspace_id now more rows).rows
          ≡ amend
              (in_steps profile_id workspace_id is_active more)
              (archived now)
              (get_record a rows)
    unfolding archive_records
    get_record-archive_records a more rows k =
        ap (get_record a) (rows-archive_from more _)
        ∙ get_record-steps_rows profile_id workspace_id is_active (archived now) (λ row. refl)
            (λ row. refl) a more rows k

    pub HasKey-archive_records :
        (more : List String) (rows : Rows)
        → HasKey rows
        → HasKey (archive_records profile_id workspace_id now more rows).rows
    unfolding archive_records
    HasKey-archive_records more rows k = subst HasKey (sym (rows-archive_from more _)) (
        HasKey-steps_rows profile_id workspace_id is_active (archived now) (λ row. refl)
          (λ row. refl) more rows k)

  abbrev pub in_deletion : List String → Row → Bool
  in_deletion more row = mem_str row.entry.id more && inside profile_id workspace_id row

  get_record-delete_one :
      (a id : String) (b : Batch)
      → HasKey b.rows
      → get_record a (delete_one profile_id workspace_id id b).rows
        ≡ remove (λ row. has_id id row && inside profile_id workspace_id row) (get_record a b.rows)
  unfolding delete_one
  get_record-delete_one a id b k =
      let gone = get_record-select a id b.rows in
      elim (Option-cases (get_record a b.rows)) [
        | inl none_here ↦ ground arith
        | inr (row, here) ↦ elim (Bool-cases (has_id id row)) [
          | inl own ↦
              let same = exists-row profile_id workspace_id a id b.rows row k here own in
              ground arith
          | inr other ↦ ground arith
        ]
      ]

  HasKey-delete_one :
      (id : String) (b : Batch)
      → HasKey b.rows
      → HasKey (delete_one profile_id workspace_id id b).rows
  unfolding delete_one
  HasKey-delete_one id b k = elim (Bool-cases (exists profile_id workspace_id id b.rows)) [
    | inl found ↦ rw found (HasKey-select (λ row. not (has_id id row)) b.rows k)
    | inr gone ↦ rw gone k
  ]

  remove-remove :
      (id : String) (more : List String) (o : Option Row)
      → remove
          (in_deletion more)
          (remove (λ row. has_id id row && inside profile_id workspace_id row) o)
        ≡ remove (in_deletion (id ∷ more)) o
  remove-remove id more none = refl
  remove-remove id more (some row) = ground (arith, eq_iff row.entry.id id, eq_iff id row.entry.id)

  get_record-delete_from :
      (a : String) (more : List String) (b : Batch)
      → HasKey b.rows
      → get_record a (delete_from profile_id workspace_id more b).rows
        ≡ remove (in_deletion more) (get_record a b.rows)
  unfolding delete_from
  get_record-delete_from a [] b k = ground (arith, Option-cases (get_record a b.rows))
  get_record-delete_from a (id ∷ more) b k =
      get_record-delete_from a more _ (HasKey-delete_one id b k)
      ∙ ap (remove (in_deletion more)) (get_record-delete_one a id b k)
      ∙ remove-remove id more (get_record a b.rows)

  HasKey-delete_from :
      (more : List String) (b : Batch)
      → HasKey b.rows
      → HasKey (delete_from profile_id workspace_id more b).rows
  unfolding delete_from
  HasKey-delete_from [] b k = k
  HasKey-delete_from (id ∷ more) b k = HasKey-delete_from more _ (HasKey-delete_one id b k)

  pub get_record-delete_records :
      (a : String) (more : List String) (rows : Rows)
      → HasKey rows
      → get_record a (delete_records profile_id workspace_id more rows).rows
        ≡ remove (in_deletion more) (get_record a rows)
  unfolding delete_records
  get_record-delete_records a more rows k = get_record-delete_from a more _ k

  pub HasKey-delete_records :
      (more : List String) (rows : Rows)
      → HasKey rows
      → HasKey (delete_records profile_id workspace_id more rows).rows
  unfolding delete_records
  HasKey-delete_records more rows k = HasKey-delete_from more _ k
