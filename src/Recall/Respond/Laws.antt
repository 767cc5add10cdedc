-- ===== src/Recall/Respond/Laws.antt =====
-- What `recall` of src/recall.rs answers where the store answers: it accounts for every candidate,
-- and its facts are of admitted candidates only.
use codex_memoryd.Prelude.{
  ℕ, ◌+◌, String, true, ◌≡◌, ◌⊎◌, inl, inr, refl, sym, ap, ◌∙◌, subst, none, List, [], ◌∷◌, ◌++◌,
  length, map, select, All, arith, Bool-cases,
}
use codex_memoryd.Domain.Profile
use codex_memoryd.Domain.MemoryRecord.{MemoryRecord}
use codex_memoryd.Errors.{ok}
use codex_memoryd.Recall.Admission.{
  RecallParams, recall_deny_reason, type_allowed, admit, nothing_admitted,
}
use codex_memoryd.Recall.Admission.Laws.{passes, admit_accounts}
use codex_memoryd.Recall.Facts.{Scored, RecallFact, fact_of}
use codex_memoryd.Recall.Float.{Float}
use codex_memoryd.Recall.Score.{scored}
use codex_memoryd.Recall.Rank.Laws.{All-rank, length-rank}
use codex_memoryd.Recall.Pack.{PackTemplate, pack_template, pack, effective_max_tokens}
use codex_memoryd.Recall.Pack.Laws.{facts_from, pack-IsPacking, pack_accounts}
use codex_memoryd.Recall.Withheld.{sum_counts, build_withheld_accounts}
use codex_memoryd.Recall.Respond.{
  RecallOmissionCounts, Checkpoint, Store, Time, Recalled, filters, candidates, evaluation_time,
  ranked, respond, recall,
}

-- The record is one of the list.
abbrev pub In : MemoryRecord → List MemoryRecord → Type 0
In r [] = ⊥
In r (x ∷ xs) = (r ≡ x) ⊎ In r xs

length-map : {A B : Type 0} (g : A → B) (xs : List A) → length (map g xs) ≡ length xs
length-map g [] = refl
length-map g (x ∷ xs) = ap ℕ.suc (length-map g xs)

All-first : {A : Type 0} (P : A → Type 0) (xs ys : List A) → All P (xs ++ ys) → All P xs
All-first P [] ys h = tt
All-first P (x ∷ xs) ys h = (h.0, All-first P xs ys h.1)

module _ (f : Float) (hex_digest : String → String) (time : Time) (store : Store)
    (params : RecallParams) where
  abbrev pub now_of : String
  now_of = evaluation_time f hex_digest time store params

  -- The entry is a candidate of the pool, is not denied, and has an allowed type.
  unfoldable pub IsAdmissible : List MemoryRecord → Scored → Type 0
  IsAdmissible pool e =
      In e.entry pool
      × ((recall_deny_reason e.entry params now_of ≡ none)
          × (type_allowed e.entry.record_type params.include_types params.exclude_types ≡ true))

  -- The fact presents an admissible entry, at some rank.
  abbrev pub IsFact : List MemoryRecord → RecallFact → Type 0
  IsFact pool fact =
      (e : Scored) × (k : ℕ) × (fact ≡ fact_of hex_digest time.days_since e k) × IsAdmissible pool e

  IsFact-facts_from :
      (pool : List MemoryRecord) (k : ℕ) (es : List Scored)
      → All (IsAdmissible pool) es
      → All (IsFact pool) (facts_from hex_digest time.days_since k es)
  IsFact-facts_from pool k [] h = tt
  IsFact-facts_from pool k (e ∷ es) h = ((e, k, refl, h.0), IsFact-facts_from pool (k + 1) es h.1)

  module _ (template : PackTemplate) where
    abbrev entry_of : MemoryRecord → Scored
    entry_of r = scored f time.days_since params.repo params.files params.query template r

    IsAdmissible-later :
        (x : MemoryRecord) (pool : List MemoryRecord) (es : List Scored)
        → All (IsAdmissible pool) es
        → All (IsAdmissible (x ∷ pool)) es
    unfolding IsAdmissible
    IsAdmissible-later x pool [] h = tt
    IsAdmissible-later x pool (e ∷ es) h = ((inr h.0.0, h.0.1), IsAdmissible-later x pool es h.1)

    IsAdmissible-entry_of :
        (r : MemoryRecord) (pool : List MemoryRecord)
        → passes params now_of r ≡ true
        → IsAdmissible (r ∷ pool) (entry_of r)
    unfolding IsAdmissible
    IsAdmissible-entry_of r pool h = (inl refl, (ground arith, ground arith))

    IsAdmissible-select :
        (pool : List MemoryRecord)
        → All (IsAdmissible pool) (map entry_of (select (passes params now_of) pool))
    IsAdmissible-select [] = tt
    IsAdmissible-select (r ∷ rs) =
        let rest = IsAdmissible-later r rs _ (IsAdmissible-select rs) in
        elim (Bool-cases (passes params now_of r)) [
          | inl kept ↦ rw kept (IsAdmissible-entry_of r rs kept, rest)
          | inr denied ↦ rw denied rest
        ]

    abbrev entries_of : List MemoryRecord → List Scored
    entries_of pool =
        ranked f hex_digest time store params template (admit params now_of pool nothing_admitted)

    IsAdmissible-ranked : (pool : List MemoryRecord) → All (IsAdmissible pool) (entries_of pool)
    unfolding ranked
    IsAdmissible-ranked pool =
        All-rank f (IsAdmissible pool) _
          (rw ((admit_accounts params now_of pool).0) (IsAdmissible-select pool))

    length-ranked :
        (pool : List MemoryRecord)
        → length (entries_of pool) ≡ length (admit params now_of pool nothing_admitted).records
    unfolding ranked
    length-ranked pool = length-rank f _ ∙ length-map entry_of _

    module _ (omissions : RecallOmissionCounts) (pool : List MemoryRecord)
        (checkpoints : List Checkpoint) where
      abbrev answer_of : Recalled
      answer_of = respond f hex_digest time store params template omissions pool checkpoints

      IsFact-respond : All (IsFact pool) answer_of.response.facts
      unfolding respond
      IsFact-respond =
          let k =
            pack-IsPacking hex_digest time.days_since
              (effective_max_tokens params.max_tokens template) (entries_of pool) in
          let ps : All (IsAdmissible pool) k.done =
            All-first (IsAdmissible pool) k.done k.rest
              (subst (All (IsAdmissible pool)) (sym k.split) (IsAdmissible-ranked pool)) in
          rw k.facts (IsFact-facts_from pool 1 k.done ps)

      respond_accounts :
          length answer_of.response.facts + sum_counts answer_of.response.withheld
          ≡ length pool + (omissions.archived + omissions.secret_blocked + omissions.quarantined)
      unfolding respond
      respond_accounts =
          let a = admit params now_of pool nothing_admitted in
          let p =
            pack hex_digest time.days_since (effective_max_tokens params.max_tokens template)
              (entries_of pool) in
          let packed =
            pack_accounts hex_digest time.days_since
              (effective_max_tokens params.max_tokens template) (entries_of pool) in
          let withheld =
            build_withheld_accounts omissions.archived omissions.secret_blocked
              omissions.quarantined a.type_filtered p.pack_withheld a.withheld in
          omega
            (arith, packed.0, withheld.0, length-ranked pool, (admit_accounts params now_of pool).1)

      module _ (known : pack_template params.pack_mode ≡ ok template)
          (counted : store.recall_omission_counts
              (filters f hex_digest time store params)
              params.query
            ≡ ok omissions)
          (found : candidates f hex_digest time store params ≡ ok pool)
          (resumed : store.recent_checkpoints
              (Profile.as_str params.profile)
              params.workspace
              params.repo
              5
            ≡ ok checkpoints) where
        recall-respond : recall f hex_digest time store params ≡ ok answer_of
        unfolding recall
        recall-respond = rw (known, counted, found, resumed, recall) refl

        -- Where the mode is known and the store answers, `recall` answers, and every candidate that
        -- the store found or left out is either a fact of the answer or counted in what it says was
        -- withheld.
        pub recall_accounts :
            (answer : Recalled) × (recall f hex_digest time store params ≡ ok answer)
            × (length answer.response.facts + sum_counts answer.response.withheld
                ≡ length pool
                  + (omissions.archived + omissions.secret_blocked + omissions.quarantined))
        recall_accounts = (answer_of, recall-respond, respond_accounts)

        -- Where the mode is known and the store answers, `recall` answers, and each of its facts
        -- presents a candidate that the store found, that no admission rule denies at the time of the
        -- evaluation, and whose type the request allows.
        pub recall-IsFact :
            (answer : Recalled) × (recall f hex_digest time store params ≡ ok answer)
            × All (IsFact pool) answer.response.facts
        recall-IsFact = (answer_of, recall-respond, IsFact-respond)
