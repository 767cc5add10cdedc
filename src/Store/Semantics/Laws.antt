-- ===== src/Store/Semantics/Laws.antt =====
-- The writes of subject aliases and relations keep what the tables hold, and one row for each key.
use codex_memoryd.Prelude.{
  String, Bool, true, false, ◌≡◌, refl, ◌∙◌, inl, inr, none, some, List, [], ◌∷◌, ◌++◌, any, find,
  str_eq, eq_iff, eq_refl, arith, Bool-cases, Option-cases,
}
use codex_memoryd.Errors.{Result, ok, err}
use codex_memoryd.Store.Relations.{Relation}
use codex_memoryd.Store.Semantics.{
  SubjectAlias, Tables, is_live, relates, alias_keyed, collides, get_subject_alias,
  get_active_relation, insert_alias, insert_or_get_subject_alias, insert_relation,
  insert_or_get_relation,
}

find-append :
    {A : Type 0} (p : A → Bool) (xs ys : List A)
    → find p (xs ++ ys) ≡ elim (find p xs) [ some x ↦ some x | none ↦ find p ys ]
find-append p [] ys = refl
find-append p (x ∷ xs) ys = elim (Bool-cases (p x)) [
  | inl here ↦ rw here refl
  | inr there ↦ rw there (find-append p xs ys)
]

find-append-some :
    {A : Type 0} (p : A → Bool) (xs ys : List A) (x : A)
    → find p xs ≡ some x
    → find p (xs ++ ys) ≡ some x
find-append-some p xs ys x h = find-append p xs ys ∙ rw h refl

-- Every row that a key has, it keeps.
pub record Keeps (t u : Tables) : Type 0 where
  pub alias :
      (profile_id workspace_id alias_key : String) (row : SubjectAlias)
      → get_subject_alias t profile_id workspace_id alias_key ≡ some row
      → get_subject_alias u profile_id workspace_id alias_key ≡ some row
  pub relation :
      (profile_id workspace_id from_subject_id relation_type to_subject_id : String)
      (row : Relation)
      → get_active_relation t profile_id workspace_id from_subject_id relation_type to_subject_id
        ≡ some row
      → get_active_relation u profile_id workspace_id from_subject_id relation_type to_subject_id
        ≡ some row

pub Keeps-refl : (t : Tables) → Keeps t t
Keeps-refl t = record { alias = λ p w k row h. h; relation = λ p w f r s row h. h }

pub Keeps-trans : {t u v : Tables} → Keeps t u → Keeps u v → Keeps t v
Keeps-trans h k = record {
  alias = λ p w a row e. k.alias p w a row (h.alias p w a row e);
  relation = λ p w f r s row e. k.relation p w f r s row (h.relation p w f r s row e);
}

Keeps-alias : (t : Tables) (a : SubjectAlias) → Keeps t (record t { aliases = t.aliases ++ a ∷ [] })
unfolding get_subject_alias get_active_relation
Keeps-alias t a = record {
  alias = λ p w k row h. find-append-some (alias_keyed p w k) t.aliases (a ∷ []) row h;
  relation = λ p w f r s row h. h;
}

Keeps-relation :
    (t : Tables) (r : Relation) → Keeps t (record t { relations = t.relations ++ r ∷ [] })
unfolding get_subject_alias get_active_relation
Keeps-relation t r = record {
  alias = λ p w k row h. h;
  relation = λ p w f k s row h. find-append-some (relates p w f k s) t.relations (r ∷ []) row h;
}

-- The alias that a write answers with is found by its key, with the subject asked for.
abbrev pub IsNamed : Tables → SubjectAlias → Type 0
IsNamed t a =
    (row : SubjectAlias) × (get_subject_alias t a.profile_id a.workspace_id a.alias_key ≡ some row)
    × (row.subject_id ≡ a.subject_id)

abbrev pub IsRelated : Tables → Relation → Type 0
IsRelated t r =
    (row : Relation) × (get_active_relation t r.profile_id r.workspace_id r.from_subject_id
        r.relation_type r.to_subject_id
      ≡ some row)

-- the outcome of a write: what it keeps, and what holds if it succeeded
abbrev pub Writes : {A : Type 0} → (Tables → Type 0) → Tables → Tables × Result A → Type 0
Writes P t (u, ok _) = Keeps t u × P u
Writes P t (u, err _) = Keeps t u

IsNamed-self :
    (t : Tables) (a : SubjectAlias)
    → get_subject_alias t a.profile_id a.workspace_id a.alias_key ≡ none
    → IsNamed (record t { aliases = t.aliases ++ a ∷ [] }) a
unfolding get_subject_alias
IsNamed-self t a h =
    let p = alias_keyed a.profile_id a.workspace_id a.alias_key in
    (
      a,
      find-append p t.aliases (a ∷ [])
          ∙ rw (h, eq_refl a.profile_id, eq_refl a.workspace_id, eq_refl a.alias_key) refl,
      refl,
    )

IsRelated-self :
    (t : Tables) (r : Relation)
    → is_live r ≡ true
    → get_active_relation t r.profile_id r.workspace_id r.from_subject_id r.relation_type
        r.to_subject_id
      ≡ none
    → IsRelated (record t { relations = t.relations ++ r ∷ [] }) r
unfolding get_active_relation
IsRelated-self t r active h =
    let p = relates r.profile_id r.workspace_id r.from_subject_id r.relation_type r.to_subject_id in
    (
      r,
      find-append p t.relations (r ∷ [])
          ∙ rw
              (
                h,
                eq_refl r.profile_id,
                eq_refl r.workspace_id,
                eq_refl r.from_subject_id,
                eq_refl r.relation_type,
                eq_refl r.to_subject_id,
                active,
              )
              refl,
    )

module _ (subject_exists : String → String → String → Bool) (key_refusal : String) where
  insert_alias-Writes :
      (t : Tables) (a : SubjectAlias)
      → Writes (λ u. IsNamed u a) t (insert_alias subject_exists key_refusal t a)
  unfolding insert_alias
  insert_alias-Writes t a =
      elim (Option-cases (get_subject_alias t a.profile_id a.workspace_id a.alias_key)) [
        | inl free ↦ elim (Bool-cases (any (λ row. str_eq row.id a.id) t.aliases)) [
          | inl taken ↦ rw (free, insert_alias, taken) (Keeps-refl t)
          | inr fresh ↦ rw (free, insert_alias, fresh) (Keeps-alias t a, IsNamed-self t a free)
        ]
        | inr (row, found) ↦ elim (Bool-cases (str_eq row.subject_id a.subject_id)) [
          | inl same ↦
              rw (found, insert_alias, same)
                (Keeps-refl t, (row, found, (eq_iff row.subject_id a.subject_id).0 same))
          | inr other ↦ rw (found, insert_alias, other) (Keeps-refl t)
        ]
      ]

  pub insert_or_get_subject_alias-Writes :
      (t : Tables) (a : SubjectAlias)
      → Writes (λ u. IsNamed u a) t (insert_or_get_subject_alias subject_exists key_refusal t a)
  unfolding insert_or_get_subject_alias
  insert_or_get_subject_alias-Writes t a = ground (arith, insert_alias-Writes t a, Keeps-refl t)

  unblocked :
      (r : Relation) (rows : List Relation)
      → is_live r ≡ true
      → any (collides subject_exists key_refusal r) rows ≡ false
      → find
          (relates r.profile_id r.workspace_id r.from_subject_id r.relation_type r.to_subject_id)
          rows
        ≡ none
  unblocked r [] active free = refl
  unblocked r (row ∷ rows) active free = ground (arith, unblocked r rows active)

  insert_relation-Writes :
      (t : Tables) (r : Relation)
      → is_live r ≡ true
      → Writes (λ u. IsRelated u r) t (insert_relation subject_exists key_refusal t r)
  unfolding insert_relation get_active_relation
  insert_relation-Writes t r active =
      elim (Bool-cases (any (collides subject_exists key_refusal r) t.relations)) [
        | inl taken ↦
            elim (Option-cases (
              get_active_relation t r.profile_id r.workspace_id r.from_subject_id r.relation_type
                r.to_subject_id)) [
                  | inl hidden ↦ rw (taken, hidden) (Keeps-refl t)
                  | inr (row, found) ↦ rw (taken, found) (Keeps-refl t, (row, found))
                ]
        | inr free ↦
            rw free
              (Keeps-relation t r, IsRelated-self t r active (unblocked r t.relations active free))
      ]

  pub insert_or_get_relation-Writes :
      (t : Tables) (r : Relation)
      → is_live r ≡ true
      → Writes (λ u. IsRelated u r) t (insert_or_get_relation subject_exists key_refusal t r)
  unfolding insert_or_get_relation
  insert_or_get_relation-Writes t r active =
      ground (arith, insert_relation-Writes t r active, Keeps-refl t)
