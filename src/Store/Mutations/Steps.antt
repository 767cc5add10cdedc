-- ===== src/Store/Mutations/Steps.antt =====
-- One turn of the loops over ids of src/store.rs, and the loops as a whole: what they do to the row
-- of an id.
use codex_memoryd.Prelude.{
  String, Bool, true, false, ◌&&◌, ◌≡◌, refl, sym, ap, subst, ◌∙◌, inl, inr, Option, none, some,
  List, [], ◌∷◌, mem_str, eq_iff, arith, Bool-cases, Option-cases, if◌then◌else◌,
}
use codex_memoryd.Store.Mutations.{Row, Rows, has_id, update_rows, get_record, scoped, row_exists}
use codex_memoryd.Store.Mutations.Rows.{
  HasKey, ids, amend, holds, ids-update_rows, get_record-update_rows, any-get_record,
}

pub get_record-has_id :
    (a : String) (rows : Rows) (row : Row) → get_record a rows ≡ some row → has_id a row ≡ true
get_record-has_id a [] row h = absurd (cc)
get_record-has_id a (x ∷ rows) row h = elim (Bool-cases (has_id a x)) [
  | inl hit ↦ ground arith
  | inr missed ↦ get_record-has_id a rows row (ground arith)
]

-- The row of an id has that id, so its row and the row of its own id are the same.
pub get_record-own :
    (a id : String) (rows : Rows) (row : Row)
    → get_record a rows ≡ some row
    → has_id id row ≡ true
    → get_record id rows ≡ some row
get_record-own a id rows row h own =
    let e : a ≡ id =
      sym ((eq_iff row.entry.id a).0 (get_record-has_id a rows row h))
      ∙ (eq_iff row.entry.id id).0 own in
    subst (λ x. get_record x rows ≡ some row) e h

module _ (profile_id : String) (workspace_id : Option String) where
  abbrev pub exists : String → Rows → Bool
  exists id rows = row_exists profile_id workspace_id id rows

  abbrev pub inside : Row → Bool
  inside row = scoped profile_id workspace_id row

  abbrev pub in_step : (Row → Bool) → String → Row → Bool
  in_step guard id row = has_id id row && (inside row && guard row)

  abbrev pub in_steps : (Row → Bool) → List String → Row → Bool
  in_steps guard more row = mem_str row.entry.id more && (inside row && guard row)

  -- Among the rows with a key, the test that an id exists in scope is a test of its row.
  pub exists-row :
      (a id : String) (rows : Rows) (row : Row)
      → HasKey rows
      → get_record a rows ≡ some row
      → has_id id row ≡ true
      → exists id rows ≡ inside row
  exists-row a id rows row k h own =
      any-get_record id inside rows k ∙ ap (holds inside) (get_record-own a id rows row h own)

  module _ (guard : Row → Bool) (change : Row → Row)
      (keeps : (row : Row) → (change row).entry.id ≡ row.entry.id)
      (once : (row : Row) → guard (change row) ≡ false) where
    unfoldable pub step_rows : String → Rows → Rows
    step_rows id rows = if exists id rows then update_rows id guard change rows else rows

    unfoldable pub steps_rows : List String → Rows → Rows
    steps_rows [] rows = rows
    steps_rows (id ∷ more) rows = steps_rows more (step_rows id rows)

    ids-step_rows : (id : String) (rows : Rows) → ids (step_rows id rows) ≡ ids rows
    unfolding step_rows
    ids-step_rows id rows = elim (Bool-cases (exists id rows)) [
      | inl found ↦ rw found (ids-update_rows id guard change keeps rows)
      | inr gone ↦ rw gone refl
    ]

    pub HasKey-step_rows : (id : String) (rows : Rows) → HasKey rows → HasKey (step_rows id rows)
    HasKey-step_rows id rows k = rw (ids-step_rows id rows) k

    pub get_record-step_rows :
        (a id : String) (rows : Rows)
        → HasKey rows
        → get_record a (step_rows id rows) ≡ amend (in_step guard id) change (get_record a rows)
    unfolding step_rows
    get_record-step_rows a id rows k =
        let updated = get_record-update_rows id guard change keeps a rows in
        elim (Option-cases (get_record a rows)) [
          | inl gone ↦ ground (arith)
          | inr (row, here) ↦ elim (Bool-cases (has_id id row)) [
            | inl own ↦ let same = exists-row a id rows row k here own in ground arith
            | inr other ↦ ground arith
          ]
        ]

    amend-steps :
        (id : String) (more : List String) (o : Option Row)
        → amend (in_steps guard more) change (amend (in_step guard id) change o)
          ≡ amend (in_steps guard (id ∷ more)) change o
    amend-steps id more none = refl
    amend-steps id more (some row) =
        ground (arith, once row, eq_iff row.entry.id id, eq_iff id row.entry.id)

    -- The loop changes the rows in scope that have one of the ids and pass the guard, once.
    pub get_record-steps_rows :
        (a : String) (more : List String) (rows : Rows)
        → HasKey rows
        → get_record a (steps_rows more rows)
          ≡ amend (in_steps guard more) change (get_record a rows)
    unfolding steps_rows
    get_record-steps_rows a [] rows k = ground (arith, Option-cases (get_record a rows))
    get_record-steps_rows a (id ∷ more) rows k =
        get_record-steps_rows a more (step_rows id rows) (HasKey-step_rows id rows k)
        ∙ ap (amend (in_steps guard more) change) (get_record-step_rows a id rows k)
        ∙ amend-steps id more (get_record a rows)

    pub HasKey-steps_rows :
        (more : List String) (rows : Rows) → HasKey rows → HasKey (steps_rows more rows)
    unfolding steps_rows
    HasKey-steps_rows [] rows k = k
    HasKey-steps_rows (id ∷ more) rows k =
        HasKey-steps_rows more (step_rows id rows) (HasKey-step_rows id rows k)
