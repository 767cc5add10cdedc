-- ===== src/Store/Relations/Laws.antt =====
-- The expansion along relations of src/store.rs ends, and what it finds is reached.
use codex_memoryd.Prelude.{
  ℕ, zero, suc, ◌+◌, ◌-◌, ◌≤◌, ◌<◌, String, true, false, ◌||◌, ◌≡◌, ◌⊎◌, inl, inr, refl, ap, subst,
  ◌∙◌, some, List, [], ◌∷◌, ◌++◌, map, length, length-append, leb, mem_str, eq_refl, All, arith,
  Bool-cases,
}
use codex_memoryd.Prelude.Distinct.{Distinct, mem_str-append, Distinct-append}
use codex_memoryd.Prelude.StrSet.{set_of, mem_str-set_insert, mem_str-set_of}
use codex_memoryd.Store.Relations.{
  Relation, RelationExpansion, Traversal, max_expansions, clamped_depth, seed, expanded,
  follow_relation, follow_relations, visit, traverse, relation_expanded_subjects,
}
use codex_memoryd.Store.Relations.Turns.{turns, turns-follow_relations}

-- The relation is one of the rows.
abbrev pub Among : Relation → List Relation → Type 0
Among r [] = ⊥
Among r (x ∷ xs) = (r ≡ x) ⊎ Among r xs

abbrev pub subjects : List RelationExpansion → List String
subjects es = map (λ e. e.subject_id) es

All-snoc :
    {A : Type 0} (P : A → Type 0) (xs : List A) (x : A) → All P xs → P x → All P (xs ++ x ∷ [])
All-snoc P [] x h p = (p, tt)
All-snoc P (y ∷ ys) x h p = (h.0, All-snoc P ys x h.1 p)

List-cases : {A : Type 0} (xs : List A) → (xs ≡ []) ⊎ ((x : A) × (rest : List A) × (xs ≡ x ∷ rest))
List-cases [] = inl refl
List-cases (x ∷ xs) = inr (x, xs, refl)

length-seeds : (xs : List String) → length (map seed xs) ≡ length xs
length-seeds [] = refl
length-seeds (x ∷ xs) = ap suc (length-seeds xs)

subjects-snoc :
    (es : List RelationExpansion) (e : RelationExpansion)
    → subjects (es ++ e ∷ []) ≡ subjects es ++ e.subject_id ∷ []
subjects-snoc [] e = refl
subjects-snoc (x ∷ xs) e = ap (λ l. x.subject_id ∷ l) (subjects-snoc xs e)

module _ (relations_from : String → List Relation) (max_depth : ℕ) (seeds : List String) where
  -- The relations with these ids lead from a seed to the subject, one after the other.
  pub data Reached : List String → String → Type 0 where
    start : (s : String) → mem_str s seeds ≡ true → Reached [] s
    step :
        (via : List String) (s : String) (r : Relation)
        → Reached via s
        → Among r (relations_from s)
        → Reached (via ++ r.id ∷ []) r.to_subject_id

  -- an entry of the queue
  pub record IsQueued (e : RelationExpansion) : Type 0 where
    pub reached : Reached e.via_relation_ids e.subject_id
    pub steps : length e.via_relation_ids ≡ e.depth

  -- an expansion, which is no seed
  pub record IsFound (e : RelationExpansion) : Type 0 where
    pub reached : Reached e.via_relation_ids e.subject_id
    pub steps : length e.via_relation_ids ≡ e.depth
    pub positive : 1 ≤ e.depth
    pub bounded : e.depth ≤ clamped_depth max_depth
    pub not_seed : mem_str e.subject_id seeds ≡ false

  record Inv (t : Traversal) : Type 0 where
    queued : All IsQueued t.queue
    found : All IsFound t.expansions
    distinct : Distinct (subjects t.expansions)
    seen : (a : String) → mem_str a t.seen ≡ (mem_str a seeds || mem_str a (subjects t.expansions))

  expanded-IsFound :
      (item : RelationExpansion) (r : Relation)
      → IsQueued item
      → Among r (relations_from item.subject_id)
      → item.depth < clamped_depth max_depth
      → mem_str r.to_subject_id seeds ≡ false
      → IsFound (expanded item r)
  unfolding expanded
  expanded-IsFound item r q among deep fresh = record {
    reached = step item.via_relation_ids item.subject_id r q.reached among;
    steps = omega (arith, length-append item.via_relation_ids (r.id ∷ []), q.steps);
    positive = omega arith;
    bounded = omega arith;
    not_seed = fresh;
  }

  follow_relation-Inv :
      (item : RelationExpansion) (r : Relation) (t : Traversal)
      → IsQueued item
      → Among r (relations_from item.subject_id)
      → item.depth < clamped_depth max_depth
      → Inv t
      → Inv (follow_relation item r t)
  unfolding follow_relation expanded
  follow_relation-Inv item r t q among deep i = elim (Bool-cases (mem_str r.to_subject_id t.seen)) [
    | inl known ↦ rw known i
    | inr fresh ↦
        let no_seed : mem_str r.to_subject_id seeds ≡ false =
          ground (arith, i.seen r.to_subject_id) in
        let unused : mem_str r.to_subject_id (subjects t.expansions) ≡ false =
          ground (arith, i.seen r.to_subject_id) in
        let f = expanded-IsFound item r q among deep no_seed in
        let names = subjects-snoc t.expansions (expanded item r) in
        rw fresh (record {
          queued =
              All-snoc IsQueued t.queue (expanded item r) i.queued
                (record { reached = f.reached; steps = f.steps });
          found = All-snoc IsFound t.expansions (expanded item r) i.found f;
          distinct =
              rw names (Distinct-append (subjects t.expansions) r.to_subject_id i.distinct unused);
          seen = λ a. rw names (
              ground (
                arith,
                mem_str-set_insert a r.to_subject_id t.seen,
                mem_str-append a r.to_subject_id (subjects t.expansions),
                i.seen a,
              ));
        })
  ]

  follow_relations-Inv :
      (item : RelationExpansion) (rs : List Relation) (t : Traversal)
      → IsQueued item
      → ((x : Relation) → Among x rs → Among x (relations_from item.subject_id))
      → item.depth < clamped_depth max_depth
      → Inv t
      → Inv (follow_relations item rs t)
  unfolding follow_relations
  follow_relations-Inv item [] t q sub deep i = i
  follow_relations-Inv item (r ∷ rs) t q sub deep i =
      follow_relations-Inv item rs (follow_relation item r t) q (λ x h. sub x (inr h)) deep
        (follow_relation-Inv item r t q (sub r (inl refl)) deep i)

  abbrev visited : RelationExpansion → Traversal → Traversal
  visited item t = visit relations_from max_depth item t

  visit-Inv :
      (item : RelationExpansion) (t : Traversal) → IsQueued item → Inv t → Inv (visited item t)
  unfolding visit
  visit-Inv item t q i =
      elim (Bool-cases
        (leb (clamped_depth max_depth) item.depth || leb max_expansions (length t.expansions))) [
          | inl skip ↦ rw skip i
          | inr go ↦ rw go (
              follow_relations-Inv item (relations_from item.subject_id) t q (λ x h. h)
                (ground arith) i)
        ]

  traverse-done :
      (fuel : ℕ) (t : Traversal)
      → t.queue ≡ []
      → traverse relations_from max_depth (suc fuel) t ≡ some t.expansions
  unfolding traverse
  traverse-done fuel t e = rw e refl

  traverse-next :
      (fuel : ℕ) (item : RelationExpansion) (rest : List RelationExpansion) (t : Traversal)
      → t.queue ≡ item ∷ rest
      → traverse relations_from max_depth (suc fuel) t
        ≡ traverse relations_from max_depth fuel (visited item (record t { queue = rest }))
  unfolding traverse
  traverse-next fuel item rest t e = rw e refl

  IsQueued-seeds :
      (xs : List String)
      → ((s : String) → mem_str s xs ≡ true → mem_str s seeds ≡ true)
      → All IsQueued (map seed xs)
  IsQueued-seeds [] h = tt
  IsQueued-seeds (x ∷ xs) h = (
    record { reached = start x (h x (ground (arith, eq_refl x))); steps = refl },
    IsQueued-seeds xs (λ s m. h s (ground arith)),
  )

  abbrev begun : Traversal
  begun = record { seen = set_of seeds; queue = map seed seeds; expansions = [] }

  begun-Inv : Inv begun
  begun-Inv = record {
    queued = IsQueued-seeds seeds (λ s m. m);
    found = tt;
    distinct = tt;
    seen = λ a. ground (arith, mem_str-set_of a seeds);
  }

  module _ (rows : ℕ) (bound : (s : String) → length (relations_from s) ≤ rows) where
    turns-visit :
        (item : RelationExpansion) (t : Traversal) → turns rows (visited item t) ≡ turns rows t
    unfolding visit
    turns-visit item t =
        elim (Bool-cases
          (leb (clamped_depth max_depth) item.depth || leb max_expansions (length t.expansions))) [
            | inl skip ↦ rw skip refl
            | inr go ↦
                let few : length t.expansions < 64 = ground arith in
                rw go (
                  turns-follow_relations rows item (relations_from item.subject_id) t
                    (omega (arith, bound item.subject_id)))
          ]

    traverse-ends :
        (fuel : ℕ) (t : Traversal)
        → turns rows t < fuel
        → Inv t
        → (es : List RelationExpansion) × (traverse relations_from max_depth fuel t ≡ some es)
          × (All IsFound es × Distinct (subjects es))
    traverse-ends zero t h i = absurd (omega arith)
    traverse-ends (suc fuel) t h i = elim (List-cases t.queue) [
      | inl done ↦ (t.expansions, traverse-done fuel t done, (i.found, i.distinct))
      | inr (item, rest, e) ↦
          let queued = subst (All IsQueued) e i.queued in
          let t' : Traversal = record t { queue = rest } in
          let i' : Inv t' = record {
            queued = queued.1;
            found = i.found;
            distinct = i.distinct;
            seen = i.seen;
          } in
          let shorter : turns rows t ≡ suc (turns rows t') =
            ap (λ q. length q + ((max_expansions + rows) - length t.expansions)) e ∙ omega arith in
          let (es, runs, good) =
            traverse-ends fuel (visited item t') (omega (arith, turns-visit item t'))
              (visit-Inv item t' queued.0 i') in
          (es, traverse-next fuel item rest t e ∙ runs, good)
    ]

    -- Where no subject has more than `rows` active relations, the traversal ends, within as many turns
    -- as there are seeds, 64 and `rows`. Each expansion that it returns is reached from a seed by the
    -- relations that it names, one after the other, as many as its depth, which lies between 1 and the
    -- clamped limit; and no subject is returned twice, and no seed at all.
    pub relation_expanded_subjects-IsFound :
        (fuel : ℕ)
        → length seeds + (max_expansions + rows) < fuel
        → (es : List RelationExpansion) × (relation_expanded_subjects relations_from max_depth fuel
              seeds
            ≡ some es)
          × (All IsFound es × Distinct (subjects es))
    unfolding relation_expanded_subjects
    relation_expanded_subjects-IsFound fuel h =
        traverse-ends fuel begun (omega (arith, length-seeds seeds)) begun-Inv
