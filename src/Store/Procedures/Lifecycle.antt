-- ===== src/Store/Procedures/Lifecycle.antt =====
-- What the lifecycle of procedures in src/store.rs keeps, whatever is asked of it.
use codex_memoryd.Prelude.{
  ℕ, ◌≤◌, String, Bool, true, false, ◌≡◌, ◌⊎◌, inl, inr, refl, Option, List, [], ◌∷◌, arith, any,
  eq_iff, Bool-cases, Option-cases, subst,
}
use codex_memoryd.Store.Procedures.{
  Procedure, Table, update, no_time, in_default_recall, keyed_by, get_procedure, retire_procedure,
  supersede_procedure, record_procedure_counter_evidence, validate_procedure,
}

-- a request of the service
pub data Request : Type 0 where
  retire : String → Request
  supersede : String → String → Request
  counter_evidence : String → ℕ → Request
  validate : String → Request

-- rows in pairs, in the same places
abbrev pub Pointwise : (Procedure → Procedure → Type 0) → Table → Table → Type 0
Pointwise R [] [] = Unit
Pointwise R (p ∷ ps) (q ∷ qs) = R p q × Pointwise R ps qs
Pointwise R _ _ = ⊥

module _ (profile_id workspace_id : String) where
  abbrev pub run : String → Request → Table → Table × Option Procedure
  run now (retire id) = retire_procedure profile_id workspace_id now id
  run now (supersede old_id new_id) = supersede_procedure profile_id workspace_id now old_id new_id
  run now (counter_evidence id threshold) =
      record_procedure_counter_evidence profile_id workspace_id now id threshold
  run now (validate id) = validate_procedure profile_id workspace_id now id

  -- requests one after the other, each with its time
  abbrev pub run_all : List (String × Request) → Table → Table
  run_all [] rows = rows
  run_all ((now, request) ∷ more) rows = run_all more (run now request rows).0

  -- A row of another scope stays as it is.
  abbrev pub Scoped : Procedure → Procedure → Type 0
  Scoped p q =
      (q ≡ p)
      ⊎ ((p.profile_id ≡ profile_id)
          × (p.workspace_id ≡ workspace_id)
          × (q.profile_id ≡ profile_id)
          × (q.workspace_id ≡ workspace_id))

  -- What may become of a row.
  pub record Evolves (p q : Procedure) : Type 0 where
    pub same_id : q.id ≡ p.id
    pub same_steps : q.steps ≡ p.steps
    pub same_query : q.activation_query ≡ p.activation_query
    pub counts : p.counter_evidence_count ≤ q.counter_evidence_count
    pub closed : (no_time p.retired_at ≡ true) ⊎ (no_time q.retired_at ≡ false)
    pub hidden : (in_default_recall p ≡ true) ⊎ (in_default_recall q ≡ false)
    pub scoped : Scoped p q

  Evolves-refl : (p : Procedure) → Evolves p p
  Evolves-refl p = record {
    same_id = refl;
    same_steps = refl;
    same_query = refl;
    counts = omega arith;
    closed = ground arith;
    hidden = ground arith;
    scoped = inl refl;
  }

  Evolves-trans : (p q r : Procedure) → Evolves p q → Evolves q r → Evolves p r
  Evolves-trans p q r h k = record {
    same_id = cc;
    same_steps = cc;
    same_query = cc;
    counts = ground arith;
    closed = ground arith;
    hidden = ground arith;
    scoped = elim h.scoped [
      | inl e ↦ subst (λ x. Scoped x r) e k.scoped
      | inr (a, b, c, d) ↦ elim k.scoped [
        | inl e ↦ inr (a, b, cc, cc)
        | inr (_, _, x, y) ↦ inr (a, b, x, y)
      ]
    ];
  }

  Pointwise-refl : (rows : Table) → Pointwise Evolves rows rows
  Pointwise-refl [] = tt
  Pointwise-refl (p ∷ rows) = (Evolves-refl p, Pointwise-refl rows)

  Pointwise-trans :
      (ps qs rs : Table)
      → Pointwise Evolves ps qs
      → Pointwise Evolves qs rs
      → Pointwise Evolves ps rs
  Pointwise-trans [] [] [] h k = tt
  Pointwise-trans [] [] (r ∷ rs) h k = elim k [ ]
  Pointwise-trans [] (q ∷ qs) rs h k = elim h [ ]
  Pointwise-trans (p ∷ ps) [] rs h k = elim h [ ]
  Pointwise-trans (p ∷ ps) (q ∷ qs) [] h k = elim k [ ]
  Pointwise-trans (p ∷ ps) (q ∷ qs) (r ∷ rs) h k =
      (Evolves-trans p q r h.0 k.0, Pointwise-trans ps qs rs h.1 k.1)

  Pointwise-update :
      (test : Procedure → Bool) (change : Procedure → Procedure)
      → ((p : Procedure) → test p ≡ true → Evolves p (change p))
      → (rows : Table) → Pointwise Evolves rows (update test change rows)
  unfolding update
  Pointwise-update test change h [] = tt
  Pointwise-update test change h (p ∷ rows) = elim (Bool-cases (test p)) [
    | inl yes_ ↦ rw yes_ (h p yes_, Pointwise-update test change h rows)
    | inr no_ ↦ rw no_ (Evolves-refl p, Pointwise-update test change h rows)
  ]

  Scoped-keyed_by :
      (id : String) (p q : Procedure)
      → keyed_by profile_id workspace_id id p ≡ true
      → q.profile_id ≡ p.profile_id
      → q.workspace_id ≡ p.workspace_id
      → Scoped p q
  Scoped-keyed_by id p q h a b =
      inr (ground (arith, eq_iff p.profile_id profile_id, eq_iff p.workspace_id workspace_id))

  -- a change that closes a row, or that leaves its state and its closing alone
  Evolves-change :
      (id : String) (p q : Procedure)
      → keyed_by profile_id workspace_id id p ≡ true
      → q.id ≡ p.id
      → q.steps ≡ p.steps
      → q.activation_query ≡ p.activation_query
      → q.profile_id ≡ p.profile_id
      → q.workspace_id ≡ p.workspace_id
      → p.counter_evidence_count ≤ q.counter_evidence_count
      → (no_time q.retired_at ≡ false)
        ⊎ ((q.retired_at ≡ p.retired_at) × (in_default_recall q ≡ in_default_recall p))
      → Evolves p q
  unfolding in_default_recall
  Evolves-change id p q h a b c d e n k = record {
    same_id = a;
    same_steps = b;
    same_query = c;
    counts = n;
    closed = ground arith;
    hidden = ground arith;
    scoped = Scoped-keyed_by id p q h d e;
  }

  Evolves-run :
      (now : String) (request : Request) (rows : Table)
      → Pointwise Evolves rows (run now request rows).0
  unfolding retire_procedure supersede_procedure record_procedure_counter_evidence
      validate_procedure in_default_recall
  Evolves-run now (retire id) rows =
      Pointwise-update _ _
        (λ p h.
          Evolves-change id p _ (ground arith) refl refl refl refl refl (omega arith) (inl refl))
        rows
  Evolves-run now (validate id) rows =
      Pointwise-update _ _
        (λ p h. Evolves-change id p _ h refl refl refl refl refl (omega arith) (inr (refl, refl)))
        rows
  Evolves-run now (supersede old_id new_id) rows =
      elim (Option-cases (get_procedure profile_id workspace_id old_id rows)) [
        | inl e ↦ rw (e, supersede_procedure) (Pointwise-refl rows)
        | inr (old, e) ↦
            rw (e, supersede_procedure)
              (Pointwise-trans rows _ _
                (Pointwise-update _ _
                  (λ p h.
                    Evolves-change old_id p _ h refl refl refl refl refl (omega arith) (inl refl))
                  rows)
                (Pointwise-update _ _
                  (λ p h.
                    Evolves-change new_id p _ h refl refl refl refl refl (omega arith)
                      (inr (refl, refl)))
                  _))
      ]
  Evolves-run now (counter_evidence id threshold) rows =
      elim (Bool-cases (any (keyed_by profile_id workspace_id id) rows)) [
        | inl found ↦
            rw (found, record_procedure_counter_evidence)
              (Pointwise-trans rows _ _
                (Pointwise-update _ _
                  (λ p h.
                    Evolves-change id p _ h refl refl refl refl refl (omega arith)
                      (inr (refl, refl)))
                  rows)
                (Pointwise-update _ _
                  (λ p h.
                    Evolves-change id p _ (ground arith) refl refl refl refl refl (omega arith)
                      (inl refl))
                  _))
        | inr absent ↦ rw (absent, record_procedure_counter_evidence) (Pointwise-refl rows)
      ]

  -- Whatever the requests and their times, the rows stay in their places with their ids, queries
  -- and steps; a row that left the default recall never comes back into it, a time of retirement
  -- is never cleared, counter-evidence never decreases, and rows of other scopes do not change.
  pub run_all-Evolves :
      (requests : List (String × Request)) (rows : Table)
      → Pointwise Evolves rows (run_all requests rows)
  run_all-Evolves [] rows = Pointwise-refl rows
  run_all-Evolves ((now, request) ∷ more) rows =
      Pointwise-trans rows _ _ (Evolves-run now request rows) (run_all-Evolves more _)
