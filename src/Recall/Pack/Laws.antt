-- ===== src/Recall/Pack/Laws.antt =====
-- What the packing of src/recall.rs keeps within its limits, and what it reports.
use codex_memoryd.Prelude.{
  ℕ, suc, ◌+◌, ◌-◌, ◌≤◌, ◌<◌, String, true, false, not, ◌&&◌, ◌≡◌, ◌≢◌, ◌⊎◌, inl, inr, refl, sym,
  ap, ◌∙◌, Option, List, [], ◌∷◌, ◌++◌, is_empty, length, length-append, map, arith, ltb, leb,
  Bool-cases,
}
use mathlib.Core.List.{append_assoc}
use codex_memoryd.Prelude.Int.{ℤ}
use codex_memoryd.Recall.Facts.{Scored, RecallFact, fact_of}
use codex_memoryd.Recall.Pack.{
  Packed, estimate_tokens, push_entry, pack_from, settle, pack, nothing_packed,
}

abbrev pub cost : Scored → ℕ
cost e = estimate_tokens e.entry.content

abbrev pub sum_cost : List Scored → ℕ
sum_cost [] = 0
sum_cost (e ∷ es) = cost e + sum_cost es

abbrev pub ids : List Scored → List String
ids es = map (λ e. e.entry.id) es

sum_cost-append : (xs : List Scored) (e : Scored) → sum_cost (xs ++ e ∷ []) ≡ sum_cost xs + cost e
sum_cost-append [] e = omega arith
sum_cost-append (x ∷ xs) e = omega (arith, sum_cost-append xs e)

ids-append : (xs : List Scored) (e : Scored) → ids (xs ++ e ∷ []) ≡ ids xs ++ e.entry.id ∷ []
ids-append [] e = refl
ids-append (x ∷ xs) e = ap (λ l. x.entry.id ∷ l) (ids-append xs e)

abbrev pub next_cost : List Scored → ℕ
next_cost [] = 0
next_cost (e ∷ _) = cost e

length_of_is_empty : (fs : List RecallFact) → is_empty fs ≡ true → length fs ≡ 0
length_of_is_empty [] h = refl
length_of_is_empty (f ∷ fs) h = absurd (cc)

module _ (hex_digest : String → String) (days_since : String → Option ℤ) where
  -- the facts of the entries, ranked from `k`
  abbrev pub facts_from : ℕ → List Scored → List RecallFact
  facts_from k [] = []
  facts_from k (e ∷ es) = fact_of hex_digest days_since e k ∷ facts_from (k + 1) es

  facts_from-append :
      (k : ℕ) (xs : List Scored) (e : Scored)
      → facts_from k (xs ++ e ∷ [])
        ≡ facts_from k xs ++ fact_of hex_digest days_since e (k + length xs) ∷ []
  facts_from-append k [] e = ap (λ j. fact_of hex_digest days_since e j ∷ []) (omega arith)
  facts_from-append k (x ∷ xs) e =
      let j : (k + 1) + length xs ≡ k + suc (length xs) = omega arith in
      ap (λ l. fact_of hex_digest days_since x k ∷ l)
        (facts_from-append (k + 1) xs e
          ∙ ap (λ i. facts_from (k + 1) xs ++ fact_of hex_digest days_since e i ∷ []) j)

  length-facts_from : (k : ℕ) (xs : List Scored) → length (facts_from k xs) ≡ length xs
  length-facts_from k [] = refl
  length-facts_from k (x ∷ xs) = ap suc (length-facts_from (k + 1) xs)

  -- `p` holds the entries `done`, all of them within the budget unless there is only one.
  record Holds (budget : ℕ) (done : List Scored) (p : Packed) : Type 0 where
    facts : p.facts ≡ facts_from 1 done
    touched : p.touched ≡ ids done
    used : p.used_tokens ≡ sum_cost done
    budgeted : (sum_cost done ≤ budget) ⊎ (length done ≤ 1)
    untouched : (p.truncated ≡ false) × (p.pack_withheld ≡ 0)

  length-held :
      {budget : ℕ} {done : List Scored} {p : Packed}
      → Holds budget done p
      → length p.facts ≡ length done
  length-held {done} h = rw h.facts (length-facts_from 1 done)

  push_entry-Holds :
      (budget : ℕ) (done : List Scored) (e : Scored) (p : Packed)
      → Holds budget done p
      → (ltb budget (p.used_tokens + cost e) && not (is_empty p.facts)) ≡ false
      → Holds budget (done ++ e ∷ []) (push_entry hex_digest days_since e p)
  unfolding push_entry
  push_entry-Holds budget done e p h fits = record {
    facts =
        rw (h.facts, facts_from-append, length-facts_from)
          (ap (λ i. facts_from 1 done ++ fact_of hex_digest days_since e i ∷ []) (omega arith));
    touched = rw (h.touched, ids-append);
    used = omega (arith, sum_cost-append done e, h.used);
    budgeted = elim (Bool-cases (is_empty p.facts)) [
      | inl first ↦ inr (
          omega
            (arith, length-append done (e ∷ []), length_of_is_empty p.facts first, length-held h))
      | inr more ↦
          let within : p.used_tokens + cost e ≤ budget = ground arith in
          inl (omega (arith, sum_cost-append done e, h.used))
    ];
    untouched = h.untouched;
  }

  nonempty_of_split :
      {scored : List Scored} (done : List Scored)
      → done ++ [] ≡ scored
      → (scored ≡ []) ⊎ (1 ≤ length done)
  nonempty_of_split [] s = inl (sym s)
  nonempty_of_split (x ∷ xs) s = inr (omega arith)

  nonempty_of_facts : (fs : List RecallFact) → is_empty fs ≡ false → 1 ≤ length fs
  nonempty_of_facts [] h = absurd (cc)
  nonempty_of_facts (f ∷ fs) h = omega arith

  -- The entries that were admitted are the first ones, and the packing stopped for a reason.
  pub record IsPacking (budget : ℕ) (scored : List Scored) (p : Packed) : Type 0 where
    pub done : List Scored
    pub rest : List Scored
    pub split : done ++ rest ≡ scored
    pub facts : p.facts ≡ facts_from 1 done
    pub touched : p.touched ≡ ids done
    pub used : p.used_tokens ≡ sum_cost done
    pub budgeted : (sum_cost done ≤ budget) ⊎ (length done ≤ 1)
    pub capped : length done ≤ 40
    pub stopped : (rest ≡ []) ⊎ (length done ≡ 40) ⊎ (budget < sum_cost done + next_cost rest)
    pub withheld : (p.pack_withheld ≡ 0) ⊎ (p.pack_withheld ≡ length scored - length done)
    pub nonempty : (scored ≡ []) ⊎ (1 ≤ length done)
    pub untruncated : (p.truncated ≡ false) ⊎ (rest ≢ []) ⊎ (length done ≡ 40)

  pack_from-IsPacking :
      (budget : ℕ) (scored es done : List Scored) (p : Packed)
      → Holds budget done p
      → length done < 40
      → done ++ es ≡ scored
      → IsPacking budget scored (pack_from hex_digest days_since (length scored) budget es p)
  unfolding pack_from
  pack_from-IsPacking budget scored [] done p h room s = record {
    done = done;
    rest = [];
    split = s;
    facts = h.facts;
    touched = h.touched;
    used = h.used;
    budgeted = h.budgeted;
    capped = omega arith;
    stopped = inl refl;
    withheld = inl h.untouched.1;
    nonempty = nonempty_of_split done s;
    untruncated = inl (h.untouched.0);
  }
  pack_from-IsPacking budget scored (e ∷ es) done p h room s =
      let p' = push_entry hex_digest days_since e p in
      elim (Bool-cases (ltb budget (p.used_tokens + cost e) && not (is_empty p.facts))) [
        | inl over ↦
            let filled : is_empty p.facts ≡ false = ground arith in
            let beyond : budget < p.used_tokens + cost e = ground arith in
            rw over (record {
              done = done;
              rest = e ∷ es;
              split = s;
              facts = h.facts;
              touched = h.touched;
              used = h.used;
              budgeted = h.budgeted;
              capped = omega arith;
              stopped = inr (inr (omega (arith, h.used)));
              withheld = inl h.untouched.1;
              nonempty = inr (omega (arith, nonempty_of_facts p.facts filled, length-held h));
              untruncated = inr (inl (λ q. cc));
            })
        | inr fits ↦
            let done' = done ++ e ∷ [] in
            let h' = push_entry-Holds budget done e p h fits in
            let s' = append_assoc done (e ∷ []) es ∙ s in
            let longer = length-append done (e ∷ []) in
            elim (Bool-cases (leb 40 (length p'.facts))) [
              | inl full ↦
                  let is_40 : length done' ≡ 40 = ground (arith, length-held h') in
                  rw (fits, full)
                    (record {
                      done = done';
                      rest = es;
                      split = s';
                      facts = h'.facts;
                      touched = h'.touched;
                      used = h'.used;
                      budgeted = h'.budgeted;
                      capped = omega arith;
                      stopped = inr (inl is_40);
                      withheld = inr (rw (length-held h'));
                      nonempty = inr (omega arith);
                      untruncated = inr (inr is_40);
                    })
              | inr more ↦
                  let room' : length done' < 40 = ground (arith, length-held h') in
                  rw (fits, more) (pack_from-IsPacking budget scored es done' p' h' room' s')
            ]
      ]

  length-split :
      {budget : ℕ} {scored : List Scored} {p : Packed} (k : IsPacking budget scored p)
      → (length p.facts ≡ length k.done) × (length k.done + length k.rest ≡ length scored)
  length-split k = (
    rw k.facts (length-facts_from 1 k.done),
    sym (length-append k.done k.rest) ∙ ap length k.split,
  )

  rest_of_fewer :
      (done rest scored : List Scored)
      → length done + length rest ≡ length scored
      → length done < length scored
      → rest ≢ []
  rest_of_fewer done [] scored e h = absurd (omega arith)
  rest_of_fewer done (r ∷ rest) scored e h = λ q. cc

  settle-IsPacking :
      (budget : ℕ) (scored : List Scored) (p : Packed)
      → IsPacking budget scored p
      → IsPacking budget scored (settle hex_digest days_since (length scored) p)
  unfolding settle
  settle-IsPacking budget scored p k = elim (Bool-cases (ltb (length p.facts) (length scored))) [
    | inl fewer ↦
        let (lf, ls) = length-split k in
        let less : length k.done < length scored = ground arith in
        rw fewer (record {
          done = k.done;
          rest = k.rest;
          split = k.split;
          facts = k.facts;
          touched = k.touched;
          used = k.used;
          budgeted = k.budgeted;
          capped = k.capped;
          stopped = k.stopped;
          withheld = inr (ground arith);
          nonempty = k.nonempty;
          untruncated = inr (inl (rest_of_fewer k.done k.rest scored ls less));
        })
    | inr all ↦ rw all k
  ]

  settle_accounts :
      (budget : ℕ) (scored : List Scored) (p : Packed)
      → IsPacking budget scored p
      → let q = settle hex_digest days_since (length scored) p in
        (length q.facts + q.pack_withheld ≡ length scored)
        × ((q.truncated ≡ true) ⊎ (length scored ≤ length q.facts))
  unfolding settle
  settle_accounts budget scored p k =
      let (lf, ls) = length-split k in let w = k.withheld in (ground arith, ground arith)

  packed : (budget : ℕ) (scored : List Scored) → Packed
  packed budget scored =
      pack_from hex_digest days_since (length scored) budget scored nothing_packed

  packed-IsPacking :
      (budget : ℕ) (scored : List Scored) → IsPacking budget scored (packed budget scored)
  unfolding packed
  packed-IsPacking budget scored =
      pack_from-IsPacking budget scored scored [] nothing_packed
        (record {
          facts = refl;
          touched = refl;
          used = refl;
          budgeted = inr (omega arith);
          untouched = (refl, refl);
        })
        (omega arith) refl

  -- The packing admits a first part of the ranked records, in their order and ranked from 1, at most
  -- 40 of them and at least one if there is any; their estimated tokens are what it reports, and
  -- exceed the budget only where the first record alone does. It stops only at the end, at 40, or
  -- where the next record would exceed the budget.
  pub pack-IsPacking :
      (budget : ℕ) (scored : List Scored)
      → IsPacking budget scored (pack hex_digest days_since budget scored)
  unfolding pack packed
  pack-IsPacking budget scored =
      settle-IsPacking budget scored (packed budget scored) (packed-IsPacking budget scored)

  -- What is not admitted is counted as withheld, and is reported as a truncation.
  pub pack_accounts :
      (budget : ℕ) (scored : List Scored)
      → let p = pack hex_digest days_since budget scored in
        (length p.facts + p.pack_withheld ≡ length scored)
        × ((p.truncated ≡ true) ⊎ (length scored ≤ length p.facts))
  unfolding pack packed
  pack_accounts budget scored =
      settle_accounts budget scored (packed budget scored) (packed-IsPacking budget scored)
