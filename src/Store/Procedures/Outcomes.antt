-- ===== src/Store/Procedures/Outcomes.antt =====
-- What each operation on a procedure in src/store.rs does and answers, on every branch.
use codex_memoryd.Prelude.{
  ℕ, String, Bool, true, false, not, ◌&&◌, ◌≡◌, ◌⊎◌, inl, inr, refl, Option, none, some, [], ◌∷◌,
  arith, find, any, str_eq, eq_iff, Bool-cases, Option-cases, if◌then◌else◌,
}
use codex_memoryd.Store.Procedures.{
  Procedure, Table, update, in_default_recall, keyed_by, get_procedure, retired, retire_procedure,
  counted, quarantined, over_threshold, record_procedure_counter_evidence,
}

abbrev pub changed_by :
    (Procedure → Bool) → (Procedure → Procedure) → Option Procedure → Option Procedure
changed_by test change none = none
changed_by test change (some p) = some (if test p then change p else p)

abbrev pub judged : String → ℕ → Procedure → Procedure
judged now threshold p = if over_threshold threshold p then quarantined now p else p

-- A search by a key that the update keeps finds the row as updated.
find-update :
    (key test : Procedure → Bool) (change : Procedure → Procedure)
    → ((p : Procedure) → key (change p) ≡ key p)
    → (rows : Table) → find key (update test change rows) ≡ changed_by test change (find key rows)
unfolding update
find-update key test change keeps [] = refl
find-update key test change keeps (p ∷ rows) = elim (Bool-cases (key p)) [
  | inl here ↦ elim (Bool-cases (test p)) [
    | inl hit ↦ rw (here, hit, keeps p, here) refl
    | inr missed ↦ rw (here, missed, here) refl
  ]
  | inr elsewhere ↦ elim (Bool-cases (test p)) [
    | inl hit ↦ rw (elsewhere, hit, keeps p, elsewhere) (find-update key test change keeps rows)
    | inr missed ↦ rw (elsewhere, missed, elsewhere) (find-update key test change keeps rows)
  ]
]

find-key :
    (key : Procedure → Bool) (rows : Table) (p : Procedure) → find key rows ≡ some p → key p ≡ true
find-key key [] p h = cc
find-key key (q ∷ rows) p h = elim (Bool-cases (key q)) [
  | inl here ↦ ground arith
  | inr elsewhere ↦ find-key key rows p (ground arith)
]

module _ (profile_id workspace_id now : String) where
  -- Retiring a procedure that is not there changes nothing and answers none. One that is there is
  -- then retired, out of the default recall, and answered; only a procedure retired before keeps
  -- its time of retirement.
  pub retire_procedure_lem :
      (id : String) (rows : Table)
      → let (rows', answer) = retire_procedure profile_id workspace_id now id rows in
        ((get_procedure profile_id workspace_id id rows ≡ none) × (answer ≡ none))
        ⊎ ((p q : Procedure) × (get_procedure profile_id workspace_id id rows ≡ some p)
            × (get_procedure profile_id workspace_id id rows' ≡ some q)
            × (answer ≡ some q)
            × (q.state ≡ "retired")
            × (in_default_recall q ≡ false)
            × ((q ≡ p) ⊎ (q.retired_at ≡ some now)))
  unfolding retire_procedure get_procedure in_default_recall
  retire_procedure_lem id rows =
      let key = keyed_by profile_id workspace_id id in
      let u =
        find-update key (λ p. key p && not (str_eq p.state "retired")) (retired now) (λ x. refl)
          rows in
      elim (Option-cases (find key rows)) [
        | inl e ↦ inl (e, rw (u, e) refl)
        | inr (p, e) ↦
            let k = find-key key rows p e in
            elim (Bool-cases (str_eq p.state "retired")) [
              | inl was ↦
                  let named = eq_iff p.state "retired" in
                  let out : in_default_recall p ≡ false = ground (arith, named) in
                  inr (
                    p,
                    p,
                    e,
                    rw (u, e, k, was) refl,
                    rw (u, e, k, was) refl,
                    ground (arith, named),
                    out,
                    inl refl,
                  )
              | inr new ↦ inr (
                p,
                retired now p,
                e,
                rw (u, e, k, new) refl,
                rw (u, e, k, new) refl,
                refl,
                refl,
                inr refl,
              )
            ]
      ]

  any-find :
      (key : Procedure → Bool) (rows : Table) (p : Procedure)
      → find key rows ≡ some p
      → any key rows ≡ true
  any-find key [] p h = cc
  any-find key (q ∷ rows) p h = elim (Bool-cases (key q)) [
    | inl here ↦ rw here refl
    | inr elsewhere ↦ rw elsewhere (any-find key rows p (ground arith))
  ]

  any-find-none :
      (key : Procedure → Bool) (rows : Table) → find key rows ≡ none → any key rows ≡ false
  any-find-none key [] h = refl
  any-find-none key (q ∷ rows) h = elim (Bool-cases (key q)) [
    | inl here ↦ absurd (ground arith)
    | inr elsewhere ↦ rw elsewhere (any-find-none key rows (ground arith))
  ]

  -- Counter-evidence against a procedure that is not there changes nothing and answers none.
  -- Otherwise the answer is the procedure with its count one higher, quarantined at this time if
  -- that count has reached the threshold and it is neither retired nor superseded, and with nothing
  -- else changed; the table then holds what is answered.
  pub counter_evidence_lem :
      (id : String) (threshold : ℕ) (rows : Table)
      → let result =
          record_procedure_counter_evidence profile_id workspace_id now id threshold rows in
        ((get_procedure profile_id workspace_id id rows ≡ none) × (result ≡ (rows, none)))
        ⊎ ((p : Procedure) × (get_procedure profile_id workspace_id id rows ≡ some p)
            × (get_procedure profile_id workspace_id id result.0 ≡ result.1)
            × (result.1 ≡ some (judged now threshold (counted p))))
  unfolding record_procedure_counter_evidence get_procedure
  counter_evidence_lem id threshold rows =
      let key = keyed_by profile_id workspace_id id in
      let rows1 = update key counted rows in
      let first = find-update key key counted (λ x. refl) rows in
      let second =
        find-update key (λ p. key p && over_threshold threshold p) (quarantined now) (λ x. refl)
          rows1 in
      elim (Option-cases (find key rows)) [
        | inl e ↦
            let a = any-find-none key rows e in
            inl (e, rw (a, record_procedure_counter_evidence) refl)
        | inr (p, e) ↦
            let a = any-find key rows p e in
            let k = find-key key rows p e in
            inr (
              p,
              e,
              rw (a, record_procedure_counter_evidence) refl,
              rw (a, record_procedure_counter_evidence, second, first, e, k, k) refl,
            )
      ]
