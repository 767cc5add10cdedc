-- ===== src/Store/Records/Quarantine.antt =====
-- What `quarantine_records` of src/store.rs leaves in the table.
use codex_memoryd.Prelude.{
  String, Bool, false, not, ◌&&◌, ◌||◌, ◌≡◌, ◌⊎◌, inl, inr, refl, sym, Option, List, [], ◌∷◌, ◌++◌,
  select, str_eq, mem_str, eq_iff, arith, All, Bool-cases, if◌then◌else◌,
}
use mathlib.Core.List.{append_assoc, append-nil}
use codex_memoryd.Domain.MemoryRecord.{MemoryRecord}
use codex_memoryd.Store.Records.{
  Records, Outcome, begun, update_records, in_scope, scoped_record_exists, quarantined,
  to_quarantine, quarantine_one, quarantine_from, quarantine_records,
}

module _ (profile_id : String) (workspace_id : Option String) (reason now : String) where
  abbrev pub exists : String → Records → Bool
  exists id rows = scoped_record_exists profile_id workspace_id id rows

  -- The row is out of scope, or has an id that is not listed, or is quarantined.
  unfoldable pub HeldRow : List String → MemoryRecord → Type 0
  HeldRow ids r =
      ((in_scope profile_id workspace_id r && mem_str r.id ids) ≡ false)
      ⊎ (r.trust_state ≡ "quarantined")

  abbrev pub Held : List String → Records → Type 0
  Held ids rows = All (HeldRow ids) rows

  HeldRow-missed :
      (id : String) (ids : List String) (r : MemoryRecord)
      → to_quarantine id r ≡ false
      → HeldRow ids r
      → HeldRow (id ∷ ids) r
  unfolding HeldRow
  HeldRow-missed id ids r m h =
      ground (arith, eq_iff r.trust_state "quarantined", eq_iff id r.id, eq_iff r.id id)

  HeldRow-absent :
      (id : String) (ids : List String) (r : MemoryRecord)
      → (str_eq r.id id && in_scope profile_id workspace_id r) ≡ false
      → HeldRow ids r
      → HeldRow (id ∷ ids) r
  unfolding HeldRow
  HeldRow-absent id ids r m h = ground (arith, eq_iff id r.id, eq_iff r.id id)

  HeldRow-members :
      (ids other : List String) (r : MemoryRecord)
      → mem_str r.id ids ≡ mem_str r.id other
      → HeldRow ids r
      → HeldRow other r
  unfolding HeldRow
  HeldRow-members ids other r m h = ground arith

  HeldRow-nothing : (r : MemoryRecord) → HeldRow [] r
  unfolding HeldRow
  HeldRow-nothing r = ground arith

  HeldRow-hit : (ids : List String) (r : MemoryRecord) → HeldRow ids (quarantined reason now r)
  unfolding HeldRow
  HeldRow-hit ids r = inr refl

  exists-update :
      (a id : String) (rows : Records)
      → exists a (update_records (to_quarantine id) (quarantined reason now) rows) ≡ exists a rows
  unfolding scoped_record_exists update_records
  exists-update a id [] = refl
  exists-update a id (r ∷ rows) = elim (Bool-cases (to_quarantine id r)) [
    | inl hit ↦ rw (hit, exists-update a id rows) refl
    | inr missed ↦ rw (missed, exists-update a id rows) refl
  ]

  exists-one :
      (a id : String) (o : Outcome)
      → exists a (quarantine_one profile_id workspace_id reason now id o).rows ≡ exists a o.rows
  unfolding quarantine_one
  exists-one a id o = elim (Bool-cases (exists id o.rows)) [
    | inl found ↦ rw found (exists-update a id o.rows)
    | inr gone ↦ rw gone refl
  ]

  Held-update :
      (id : String) (ids : List String) (rows : Records)
      → Held ids rows
      → Held (id ∷ ids) (update_records (to_quarantine id) (quarantined reason now) rows)
  unfolding update_records
  Held-update id ids [] h = tt
  Held-update id ids (r ∷ rows) h = elim (Bool-cases (to_quarantine id r)) [
    | inl hit ↦ rw hit (HeldRow-hit (id ∷ ids) r, Held-update id ids rows h.1)
    | inr missed ↦ rw missed (HeldRow-missed id ids r missed h.0, Held-update id ids rows h.1)
  ]

  Held-absent :
      (id : String) (ids : List String) (rows : Records)
      → exists id rows ≡ false
      → Held ids rows
      → Held (id ∷ ids) rows
  unfolding scoped_record_exists
  Held-absent id ids [] e h = tt
  Held-absent id ids (r ∷ rows) e h =
      (HeldRow-absent id ids r (ground arith) h.0, Held-absent id ids rows (ground arith) h.1)

  Held-one :
      (id : String) (ids : List String) (o : Outcome)
      → Held ids o.rows
      → Held (id ∷ ids) (quarantine_one profile_id workspace_id reason now id o).rows
  unfolding quarantine_one
  Held-one id ids o h = elim (Bool-cases (exists id o.rows)) [
    | inl found ↦ rw found (Held-update id ids o.rows h)
    | inr gone ↦ rw gone (Held-absent id ids o.rows gone h)
  ]

  -- the ids handled, the last one first
  handled : List String → List String → List String
  handled [] ids = ids
  handled (id ∷ more) ids = handled more (id ∷ ids)

  Held-from :
      (more ids : List String) (o : Outcome)
      → Held ids o.rows
      → Held (handled more ids) (quarantine_from profile_id workspace_id reason now more o).rows
  unfolding quarantine_from handled
  Held-from [] ids o h = h
  Held-from (id ∷ more) ids o h = Held-from more (id ∷ ids) _ (Held-one id ids o h)

  mem_str-handled :
      (a : String) (more ids : List String)
      → mem_str a (handled more ids) ≡ (mem_str a more || mem_str a ids)
  unfolding handled
  mem_str-handled a [] ids = refl
  mem_str-handled a (id ∷ more) ids = ground (arith, mem_str-handled a more (id ∷ ids))

  Held-members :
      (ids other : List String)
      → ((a : String) → mem_str a ids ≡ mem_str a other)
      → (rows : Records) → Held ids rows
      → Held other rows
  Held-members ids other m [] h = tt
  Held-members ids other m (r ∷ rows) h =
      (HeldRow-members ids other r (m r.id) h.0, Held-members ids other m rows h.1)

  Held-nothing : (rows : Records) → Held [] rows
  Held-nothing [] = tt
  Held-nothing (r ∷ rows) = (HeldRow-nothing r, Held-nothing rows)

  not_found-one :
      (id : String) (o : Outcome)
      → (quarantine_one profile_id workspace_id reason now id o).not_found
        ≡ o.not_found ++ (if exists id o.rows then [] else id ∷ [])
  unfolding quarantine_one
  not_found-one id o = elim (Bool-cases (exists id o.rows)) [
    | inl found ↦ rw found (sym (append-nil o.not_found))
    | inr gone ↦ rw gone refl
  ]

  abbrev pub missing : Records → List String → List String
  missing rows ids = select (λ id. not (exists id rows)) ids

  missing_same :
      (rows rows' : Records)
      → ((a : String) → exists a rows' ≡ exists a rows)
      → (ids : List String) → missing rows' ids ≡ missing rows ids
  missing_same rows rows' h [] = refl
  missing_same rows rows' h (id ∷ ids) = rw (h id, missing_same rows rows' h ids) refl

  one_missing :
      (xs rest : List String) (id : String) (found : Bool)
      → (xs ++ (if found then [] else id ∷ [])) ++ rest
        ≡ xs ++ (if not found then id ∷ rest else rest)
  one_missing xs rest id found = ground (arith, append_assoc xs (id ∷ []) rest, append-nil xs)

  not_found-from :
      (ids : List String) (o : Outcome)
      → (quarantine_from profile_id workspace_id reason now ids o).not_found
        ≡ o.not_found ++ missing o.rows ids
  unfolding quarantine_from
  not_found-from [] o = sym (append-nil o.not_found)
  not_found-from (id ∷ more) o =
      let o' = quarantine_one profile_id workspace_id reason now id o in
      let same = missing_same o.rows o'.rows (λ a. exists-one a id o) more in
      rw (not_found-from more o', same, not_found-one id o)
        (one_missing o.not_found (missing o.rows more) id (exists id o.rows))

  -- Once done, every row that is in the scope and has a listed id is quarantined, whatever the
  -- order of the ids and however often each is listed, and the ids answered as not found are
  -- exactly the listed ones, in their order, with no row in the scope.
  pub quarantine_records_lem :
      (ids : List String) (rows : Records)
      → let o = quarantine_records profile_id workspace_id reason now ids rows in
        Held ids o.rows × (o.not_found ≡ missing rows ids)
  unfolding quarantine_records
  quarantine_records_lem ids rows = (
    Held-members _ ids (λ a. rw (mem_str-handled a ids []) (ground arith)) _
        (Held-from ids [] (begun rows) (Held-nothing rows)),
    not_found-from ids (begun rows),
  )
