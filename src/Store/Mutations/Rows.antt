-- ===== src/Store/Mutations/Rows.antt =====
-- What an update, a deletion and a search by id do to the table of src/store.rs, read as a map from
-- ids to rows. The ids are distinct, since `id` is the primary key.
use codex_memoryd.Prelude.{
  String, Bool, false, not, ◌&&◌, ◌≡◌, refl, sym, ◌∙◌, inl, inr, Option, none, some, List, [], ◌∷◌,
  any, find, select, mem_str, eq_iff, arith, map, Bool-cases, if◌then◌else◌,
}
use codex_memoryd.Prelude.Distinct.{Distinct}
use codex_memoryd.Store.Mutations.{Row, Rows, has_id, update_rows, get_record}

abbrev pub ids : Rows → List String
ids rows = map (λ row. row.entry.id) rows

-- the rows are those of a table with the primary key `id`
abbrev pub HasKey : Rows → Type 0
HasKey rows = Distinct (ids rows)

-- the change of the row, if there is one and it passes the test
abbrev pub amend : (Row → Bool) → (Row → Row) → Option Row → Option Row
amend test change none = none
amend test change (some row) = some (if test row then change row else row)

-- the removal of the row, if it passes the test
abbrev pub remove : (Row → Bool) → Option Row → Option Row
remove test none = none
remove test (some row) = if test row then none else some row

abbrev pub holds : (Row → Bool) → Option Row → Bool
holds test none = false
holds test (some row) = test row

module _ (id : String) (test : Row → Bool) (change : Row → Row)
    (keeps : (row : Row) → (change row).entry.id ≡ row.entry.id) where
  pub ids-update_rows : (rows : Rows) → ids (update_rows id test change rows) ≡ ids rows
  unfolding update_rows
  ids-update_rows [] = refl
  ids-update_rows (row ∷ rows) = elim (Bool-cases (has_id id row && test row)) [
    | inl hit ↦ rw (hit, keeps row, ids-update_rows rows) refl
    | inr missed ↦ rw (missed, ids-update_rows rows) refl
  ]

  pub get_record-update_rows :
      (a : String) (rows : Rows)
      → get_record a (update_rows id test change rows)
        ≡ amend (λ row. has_id id row && test row) change (get_record a rows)
  unfolding update_rows
  get_record-update_rows a [] = refl
  get_record-update_rows a (row ∷ rows) = ground (arith, keeps row, get_record-update_rows a rows)

get_record-absent :
    (a : String) (rows : Rows) → mem_str a (ids rows) ≡ false → get_record a rows ≡ none
get_record-absent a [] h = refl
get_record-absent a (row ∷ rows) h = ground (arith, get_record-absent a rows)

any-absent :
    (a : String) (test : Row → Bool) (rows : Rows)
    → mem_str a (ids rows) ≡ false
    → any (λ row. has_id a row && test row) rows ≡ false
any-absent a test [] h = refl
any-absent a test (row ∷ rows) h = ground (arith, any-absent a test rows)

-- With a key, a search for an id under a condition looks at the one row with the id.
pub any-get_record :
    (a : String) (test : Row → Bool) (rows : Rows)
    → HasKey rows
    → any (λ row. has_id a row && test row) rows ≡ holds test (get_record a rows)
any-get_record a test [] k = refl
any-get_record a test (row ∷ rows) k = elim (Bool-cases (has_id a row)) [
  | inl hit ↦ ground (arith, any-absent a test rows, eq_iff row.entry.id a)
  | inr missed ↦ rw missed (any-get_record a test rows k.1)
]

find-absent :
    (a : String) (test : Row → Bool) (rows : Rows)
    → mem_str a (ids rows) ≡ false
    → find (λ row. has_id a row && test row) rows ≡ none
find-absent a test [] h = refl
find-absent a test (row ∷ rows) h = ground (arith, find-absent a test rows)

pub find-get_record :
    (a : String) (test : Row → Bool) (rows : Rows)
    → HasKey rows
    → find (λ row. has_id a row && test row) rows
      ≡ remove (λ row. not (test row)) (get_record a rows)
find-get_record a test [] k = refl
find-get_record a test (row ∷ rows) k = elim (Bool-cases (has_id a row)) [
  | inl hit ↦ ground (arith, find-absent a test rows, eq_iff row.entry.id a)
  | inr missed ↦ rw missed (find-get_record a test rows k.1)
]

get_record-deleted :
    (id : String) (rows : Rows) → get_record id (select (λ row. not (has_id id row)) rows) ≡ none
get_record-deleted id [] = refl
get_record-deleted id (row ∷ rows) = ground (arith, get_record-deleted id rows)

pub get_record-select :
    (a id : String) (rows : Rows)
    → get_record a (select (λ row. not (has_id id row)) rows)
      ≡ remove (λ row. has_id id row) (get_record a rows)
get_record-select a id [] = refl
get_record-select a id (row ∷ rows) = elim (Bool-cases (has_id id row)) [
  | inl hit ↦ elim (Bool-cases (has_id a row)) [
    | inl same ↦
        let e : id ≡ a = sym ((eq_iff row.entry.id id).0 hit) ∙ (eq_iff row.entry.id a).0 same in
        rw (hit, same) (rw (sym e, hit) (get_record-deleted id rows))
    | inr other ↦ rw (hit, other) (get_record-select a id rows)
  ]
  | inr kept ↦ ground (arith, get_record-select a id rows)
]

mem_str-select :
    (a : String) (test : Row → Bool) (rows : Rows)
    → mem_str a (ids rows) ≡ false
    → mem_str a (ids (select test rows)) ≡ false
mem_str-select a test [] h = refl
mem_str-select a test (row ∷ rows) h = ground (arith, mem_str-select a test rows)

pub HasKey-select : (test : Row → Bool) (rows : Rows) → HasKey rows → HasKey (select test rows)
HasKey-select test [] k = tt
HasKey-select test (row ∷ rows) k = elim (Bool-cases (test row)) [
  | inl kept ↦ rw kept (mem_str-select row.entry.id test rows k.0, HasKey-select test rows k.1)
  | inr gone ↦ rw gone (HasKey-select test rows k.1)
]
