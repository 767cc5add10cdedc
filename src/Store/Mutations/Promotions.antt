-- ===== src/Store/Mutations/Promotions.antt =====
-- What `promote_quarantined_records` of src/store.rs does to the row of an id and to the counter.
use codex_memoryd.Prelude.{
  ℕ, ◌+◌, String, Bool, true, false, ◌≡◌, refl, sym, ap, subst, ◌∙◌, inl, inr, Option, some, List,
  [], ◌∷◌, ◌++◌, any, Bool-cases, if◌then◌else◌,
}
use codex_memoryd.Store.Mutations.{
  Rows, Table, Promotion, get_record, is_quarantined, promoted, sequence_of, counter_of,
  promote_one, promote_from, promote_quarantined_records,
}
use codex_memoryd.Store.Mutations.Rows.{HasKey, amend, holds, any-get_record}
use codex_memoryd.Store.Mutations.Steps.{
  exists, inside, in_steps, step_rows, steps_rows, get_record-steps_rows, HasKey-steps_rows,
  HasKey-step_rows,
}

-- the sequence that the promotion uses, whether it has taken it or not
abbrev to_use : Promotion → ℕ
to_use p = sequence_of p.mutation_sequence p.sequence

-- the counter after the sequence is taken
abbrev after_use : Promotion → ℕ
after_use p = counter_of p.mutation_sequence p.sequence

module _ (profile_id : String) (workspace_id : Option String) (now : String) where
  module _ (s : ℕ) where
    abbrev promote_step : String → Rows → Rows
    promote_step id rows =
        step_rows profile_id workspace_id is_quarantined (promoted now s) (λ row. refl)
          (λ row. refl) id rows

    abbrev promote_steps : List String → Rows → Rows
    promote_steps more rows =
        steps_rows profile_id workspace_id is_quarantined (promoted now s) (λ row. refl)
          (λ row. refl) more rows

    rows-promote_one :
        (id : String) (p : Promotion)
        → to_use p ≡ s
        → (promote_one profile_id workspace_id now id p).rows ≡ promote_step id p.rows
    unfolding promote_one step_rows
    rows-promote_one id p u = elim (Bool-cases (exists profile_id workspace_id id p.rows)) [
      | inl found ↦ rw (found, u) refl
      | inr gone ↦ rw gone refl
    ]

    to_use-promote_one :
        (id : String) (p : Promotion)
        → to_use p ≡ s
        → to_use (promote_one profile_id workspace_id now id p) ≡ s
    unfolding promote_one
    to_use-promote_one id p u = elim (Bool-cases (exists profile_id workspace_id id p.rows)) [
      | inl found ↦ rw found u
      | inr gone ↦ rw gone u
    ]

    rows-promote_from :
        (more : List String) (p : Promotion)
        → to_use p ≡ s
        → (promote_from profile_id workspace_id now more p).rows ≡ promote_steps more p.rows
    unfolding promote_from steps_rows
    rows-promote_from [] p u = refl
    rows-promote_from (id ∷ more) p u =
        rows-promote_from more _ (to_use-promote_one id p u)
        ∙ ap (promote_steps more) (rows-promote_one id p u)

    HasKey-promote_one :
        (id : String) (p : Promotion)
        → to_use p ≡ s
        → HasKey p.rows
        → HasKey (promote_one profile_id workspace_id now id p).rows
    HasKey-promote_one id p u k = rw (rows-promote_one id p u) (
        HasKey-step_rows profile_id workspace_id is_quarantined (promoted now s) (λ row. refl)
          (λ row. refl) id p.rows k)

  abbrev pub is_inside : Rows → String → Bool
  is_inside rows id = holds (inside profile_id workspace_id) (get_record id rows)

  taken-promote_one :
      (s : ℕ) (id : String) (p : Promotion)
      → p.mutation_sequence ≡ some s
      → let q = promote_one profile_id workspace_id now id p in
        (q.mutation_sequence ≡ some s) × (q.sequence ≡ p.sequence)
  unfolding promote_one
  taken-promote_one s id p m = elim (Bool-cases (exists profile_id workspace_id id p.rows)) [
    | inl found ↦ rw (found, m) (refl, refl)
    | inr gone ↦ rw gone (m, refl)
  ]

  -- once taken, the sequence is not taken again
  sequence-taken :
      (s : ℕ) (more : List String) (p : Promotion)
      → p.mutation_sequence ≡ some s
      → (promote_from profile_id workspace_id now more p).sequence ≡ p.sequence
  unfolding promote_from
  sequence-taken s [] p m = refl
  sequence-taken s (id ∷ more) p m =
      let one = taken-promote_one s id p m in sequence-taken s more _ one.0 ∙ one.1

  promote_one-found :
      (id : String) (p : Promotion)
      → exists profile_id workspace_id id p.rows ≡ true
      → let q = promote_one profile_id workspace_id now id p in
        (q.mutation_sequence ≡ some (to_use p)) × (q.sequence ≡ after_use p)
  unfolding promote_one
  promote_one-found id p found = rw found (refl, refl)

  promote_one-gone :
      (id : String) (p : Promotion)
      → exists profile_id workspace_id id p.rows ≡ false
      → promote_one profile_id workspace_id now id p
        ≡ record p { not_found = p.not_found ++ id ∷ [] }
  unfolding promote_one
  promote_one-gone id p gone = rw gone refl

  sequence-promote_from :
      (more : List String) (p : Promotion)
      → HasKey p.rows
      → (promote_from profile_id workspace_id now more p).sequence
        ≡ (if any (is_inside p.rows) more then after_use p else p.sequence)
  unfolding promote_from
  sequence-promote_from [] p k = refl
  sequence-promote_from (id ∷ more) p k =
      let same = any-get_record id (inside profile_id workspace_id) p.rows k in
      elim (Bool-cases (exists profile_id workspace_id id p.rows)) [
        | inl found ↦
            let one = promote_one-found id p found in
            let here : is_inside p.rows id ≡ true = sym same ∙ found in
            rw here (sequence-taken (to_use p) more _ one.0 ∙ one.1)
        | inr gone ↦
            let absent : is_inside p.rows id ≡ false = sym same ∙ gone in
            rw absent (
              ap (λ q. (promote_from profile_id workspace_id now more q).sequence)
                (promote_one-gone id p gone)
              ∙ sequence-promote_from more _ k)
      ]

  pub get_record-promote_quarantined_records :
      (a : String) (more : List String) (t : Table)
      → HasKey t.rows
      → get_record a (promote_quarantined_records profile_id workspace_id now more t).rows
        ≡ amend
            (in_steps profile_id workspace_id is_quarantined more)
            (promoted now (t.sequence + 1))
            (get_record a t.rows)
  unfolding promote_quarantined_records
  get_record-promote_quarantined_records a more t k =
      ap (get_record a) (rows-promote_from (t.sequence + 1) more _ refl)
      ∙ get_record-steps_rows profile_id workspace_id is_quarantined (promoted now (t.sequence + 1))
          (λ row. refl) (λ row. refl) a more t.rows k

  pub HasKey-promote_quarantined_records :
      (more : List String) (t : Table)
      → HasKey t.rows
      → HasKey (promote_quarantined_records profile_id workspace_id now more t).rows
  unfolding promote_quarantined_records
  HasKey-promote_quarantined_records more t k =
      subst HasKey (sym (rows-promote_from (t.sequence + 1) more _ refl)) (
        HasKey-steps_rows profile_id workspace_id is_quarantined (promoted now (t.sequence + 1))
          (λ row. refl) (λ row. refl) more t.rows k)

  -- the counter is counted up once, if any of the ids is in scope
  pub sequence-promote_quarantined_records :
      (more : List String) (t : Table)
      → HasKey t.rows
      → (promote_quarantined_records profile_id workspace_id now more t).sequence
        ≡ (if any (is_inside t.rows) more then t.sequence + 1 else t.sequence)
  unfolding promote_quarantined_records
  sequence-promote_quarantined_records more t k = sequence-promote_from more _ k
