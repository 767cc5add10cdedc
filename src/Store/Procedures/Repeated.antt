-- ===== src/Store/Procedures/Repeated.antt =====
-- What repeated operations on a procedure in src/store.rs come to.
use codex_memoryd.Prelude.{
  ℕ, zero, suc, ◌+◌, ◌<◌, String, true, false, not, ◌&&◌, ◌≡◌, ◌⊎◌, inl, inr, refl, ap, sym, ◌∙◌,
  some, [], ◌∷◌, arith, str_eq, mem_str, Bool-cases,
}
use codex_memoryd.Store.Procedures.{
  Procedure, Table, update, keyed_by, get_procedure, retired, retire_procedure, counted,
  over_threshold, record_procedure_counter_evidence,
}
use codex_memoryd.Store.Procedures.Outcomes.{changed_by, judged, counter_evidence_lem}

module _ (profile_id workspace_id now : String) where
  -- the same counter-evidence `n` times
  abbrev pub counter_evidence_times : String → ℕ → ℕ → Table → Table
  counter_evidence_times id threshold zero rows = rows
  counter_evidence_times id threshold (suc n) rows =
      counter_evidence_times id threshold n
        (record_procedure_counter_evidence profile_id workspace_id now id threshold rows).0

  abbrev pub Live : Procedure → Type 0
  Live p = mem_str p.state ("retired" ∷ "superseded" ∷ []) ≡ false

  abbrev pub Settled : ℕ → ℕ → Procedure → Procedure → Type 0
  Settled threshold n p q =
      Live q
      × (q.counter_evidence_count ≡ p.counter_evidence_count + n)
      × ((q.state ≡ "quarantined") ⊎ (q.counter_evidence_count < threshold))

  Settled-judged :
      (threshold : ℕ) (p : Procedure)
      → Live p
      → Settled threshold 1 p (judged now threshold (counted p))
  Settled-judged threshold p live = elim (Bool-cases (over_threshold threshold (counted p))) [
    | inl over ↦ rw over (refl, refl, inl refl)
    | inr under ↦ rw under (live, refl, inr (ground arith))
  ]

  one_more :
      (id : String) (threshold : ℕ) (rows : Table) (p : Procedure)
      → get_procedure profile_id workspace_id id rows ≡ some p
      → get_procedure profile_id workspace_id id
          (record_procedure_counter_evidence profile_id workspace_id now id threshold rows).0
        ≡ some (judged now threshold (counted p))
  one_more id threshold rows p e =
      elim (counter_evidence_lem profile_id workspace_id now id threshold rows) [
        | inl (gone, _) ↦ absurd (cc (gone, e))
        | inr (r, f, g, h) ↦
            let same : some r ≡ some p = sym f ∙ e in
            g ∙ h ∙ ap (changed_by (λ x. true) (λ x. judged now threshold (counted x))) same
      ]

  -- Counter-evidence enough quarantines: a procedure that is neither retired nor superseded has,
  -- after one or more counter-evidences with the same threshold, that many more in its count, and
  -- is quarantined unless the count is still below the threshold.
  pub counter_evidence_times_lem :
      (n : ℕ) (id : String) (threshold : ℕ) (rows : Table) (p : Procedure)
      → get_procedure profile_id workspace_id id rows ≡ some p
      → Live p
      → (q : Procedure) × (get_procedure profile_id workspace_id id
            (counter_evidence_times id threshold (suc n) rows)
          ≡ some q)
        × Settled threshold (suc n) p q
  counter_evidence_times_lem zero id threshold rows p e live =
      (_, one_more id threshold rows p e, Settled-judged threshold p live)
  counter_evidence_times_lem (suc n) id threshold rows p e live =
      let first = Settled-judged threshold p live in
      let (q, f, s) =
        counter_evidence_times_lem n id threshold _ _ (one_more id threshold rows p e) first.0 in
      (q, f, (s.0, omega (arith, s.1, first.1), s.2))

  -- Retiring a procedure again, at whatever time, changes nothing.
  pub retire_twice :
      (later id : String) (rows : Table)
      → let once = (retire_procedure profile_id workspace_id now id rows).0 in
        (retire_procedure profile_id workspace_id later id once).0 ≡ once
  unfolding retire_procedure update
  retire_twice later id [] = refl
  retire_twice later id (p ∷ rows) =
      let key = keyed_by profile_id workspace_id id in
      let done : (key p && not (str_eq "retired" "retired")) ≡ false = ground arith in
      elim (Bool-cases (key p && not (str_eq p.state "retired"))) [
        | inl hit ↦ rw (hit, done) (ap (λ l. retired now p ∷ l) (retire_twice later id rows))
        | inr missed ↦ rw (missed, missed) (ap (λ l. p ∷ l) (retire_twice later id rows))
      ]
