-- ===== src/Store/Semantics/Invariant.antt =====
-- The invariant of the tables of subject aliases and relations: one subject for each alias, one
-- active row for each relation, and ends that are subjects of the row's scope.
use codex_memoryd.Prelude.{
  String, Bool, true, false, ◌&&◌, ◌||◌, ◌≡◌, refl, inl, inr, none, List, [], ◌∷◌, ◌++◌, any, find,
  All, str_eq, eq_iff, arith, Bool-cases, Option-cases,
}
use codex_memoryd.Store.Relations.{Relation}
use codex_memoryd.Store.Semantics.{
  SubjectAlias, Tables, is_live, relates, alias_keyed, collides, get_subject_alias,
  get_active_relation, insert_alias, insert_or_get_subject_alias, insert_relation,
  insert_or_get_relation,
}

abbrev same_key : SubjectAlias → SubjectAlias → Bool
same_key a = alias_keyed a.profile_id a.workspace_id a.alias_key

abbrev same_edge : Relation → Relation → Bool
same_edge r = relates r.profile_id r.workspace_id r.from_subject_id r.relation_type r.to_subject_id

abbrev pub UniqueKeys : List SubjectAlias → Type 0
UniqueKeys [] = Unit
UniqueKeys (a ∷ rows) = (any (same_key a) rows ≡ false) × UniqueKeys rows

abbrev pub UniqueEdges : List Relation → Type 0
UniqueEdges [] = Unit
UniqueEdges (r ∷ rows) = (is_live r ≡ true → any (same_edge r) rows ≡ false) × UniqueEdges rows

any-snoc :
    {A : Type 0} (p : A → Bool) (xs : List A) (x : A) → any p (xs ++ x ∷ []) ≡ (any p xs || p x)
any-snoc p [] x = ground arith
any-snoc p (y ∷ xs) x = ground (arith, any-snoc p xs x)

All-snoc :
    {A : Type 0} (P : A → Type 0) (xs : List A) (x : A) → All P xs → P x → All P (xs ++ x ∷ [])
All-snoc P [] x h p = (p, tt)
All-snoc P (y ∷ xs) x h p = (h.0, All-snoc P xs x h.1 p)

any-find : {A : Type 0} (p : A → Bool) (xs : List A) → find p xs ≡ none → any p xs ≡ false
any-find p [] h = refl
any-find p (x ∷ xs) h = ground (arith, any-find p xs)

same_key_comm : (a b : SubjectAlias) → same_key b a ≡ false → same_key a b ≡ false
same_key_comm a b h = ground (
  arith,
  eq_iff a.profile_id b.profile_id,
  eq_iff b.profile_id a.profile_id,
  eq_iff a.workspace_id b.workspace_id,
  eq_iff b.workspace_id a.workspace_id,
  eq_iff a.alias_key b.alias_key,
  eq_iff b.alias_key a.alias_key,
)

UniqueKeys-snoc :
    (rows : List SubjectAlias) (a : SubjectAlias)
    → UniqueKeys rows
    → any (same_key a) rows ≡ false
    → UniqueKeys (rows ++ a ∷ [])
UniqueKeys-snoc [] a u free = (refl, tt)
UniqueKeys-snoc (row ∷ rows) a u free = (
  ground (arith, any-snoc (same_key row) rows a, same_key_comm row a),
  UniqueKeys-snoc rows a u.1 (ground arith),
)

same_edge_comm : (r s : Relation) → is_live r ≡ true → same_edge s r ≡ false → same_edge r s ≡ false
same_edge_comm r s active h = ground (
  arith,
  eq_iff r.profile_id s.profile_id,
  eq_iff s.profile_id r.profile_id,
  eq_iff r.workspace_id s.workspace_id,
  eq_iff s.workspace_id r.workspace_id,
  eq_iff r.from_subject_id s.from_subject_id,
  eq_iff s.from_subject_id r.from_subject_id,
  eq_iff r.relation_type s.relation_type,
  eq_iff s.relation_type r.relation_type,
  eq_iff r.to_subject_id s.to_subject_id,
  eq_iff s.to_subject_id r.to_subject_id,
)

UniqueEdges-snoc :
    (rows : List Relation) (r : Relation)
    → UniqueEdges rows
    → (is_live r ≡ true → any (same_edge r) rows ≡ false)
    → UniqueEdges (rows ++ r ∷ [])
UniqueEdges-snoc [] r u free = (λ _. refl, tt)
UniqueEdges-snoc (row ∷ rows) r u free = (
  λ active.
      ground
        (arith, any-snoc (same_edge row) rows r, u.0 active, same_edge_comm row r active, free),
  UniqueEdges-snoc rows r u.1 (λ active. ground (arith, free active)),
)

module _ (subject_exists : String → String → String → Bool) (key_refusal : String) where
  abbrev pub IsInScope : SubjectAlias → Type 0
  IsInScope a = subject_exists a.profile_id a.workspace_id a.subject_id ≡ true

  abbrev pub JoinsScope : Relation → Type 0
  JoinsScope r =
      (subject_exists r.profile_id r.workspace_id r.from_subject_id ≡ true)
      × (subject_exists r.profile_id r.workspace_id r.to_subject_id ≡ true)

  pub record IsSound (t : Tables) : Type 0 where
    pub keys : UniqueKeys t.aliases
    pub edges : UniqueEdges t.relations
    pub named : All IsInScope t.aliases
    pub joined : All JoinsScope t.relations

  insert_alias-IsSound :
      (t : Tables) (a : SubjectAlias)
      → IsSound t
      → IsInScope a
      → IsSound (insert_alias subject_exists key_refusal t a).0
  unfolding insert_alias get_subject_alias
  insert_alias-IsSound t a s h = ground (
    arith,
    any-find (same_key a) t.aliases,
    UniqueKeys-snoc t.aliases a,
    All-snoc IsInScope t.aliases a,
  )

  pub insert_or_get_subject_alias-IsSound :
      (t : Tables) (a : SubjectAlias)
      → IsSound t
      → IsSound (insert_or_get_subject_alias subject_exists key_refusal t a).0
  unfolding insert_or_get_subject_alias
  insert_or_get_subject_alias-IsSound t a s = ground (arith, insert_alias-IsSound t a s)

  clear_of :
      (same_id active same rest : Bool)
      → ((same_id || (active && same)) || rest) ≡ false
      → active ≡ true
      → (same ≡ false) × (rest ≡ false)
  clear_of same_id active same rest h on = ground arith

  unblocked :
      (r : Relation) (rows : List Relation)
      → any (collides subject_exists key_refusal r) rows ≡ false
      → is_live r ≡ true
      → any (same_edge r) rows ≡ false
  unblocked r [] free active = refl
  unblocked r (row ∷ rows) free active =
      let (clear, rest) =
        clear_of (str_eq row.id r.id) (is_live r) (same_edge r row)
          (any (collides subject_exists key_refusal r) rows) free active in
      rw clear (unblocked r rows rest active)

  insert_relation-IsSound :
      (t : Tables) (r : Relation)
      → IsSound t
      → JoinsScope r
      → IsSound (insert_relation subject_exists key_refusal t r).0
  unfolding insert_relation
  insert_relation-IsSound t r s h =
      elim (Bool-cases (any (collides subject_exists key_refusal r) t.relations)) [
        | inl taken ↦
            elim (Option-cases (
              get_active_relation t r.profile_id r.workspace_id r.from_subject_id r.relation_type
                r.to_subject_id)) [
                  | inl hidden ↦ rw (taken, hidden) s
                  | inr (row, found) ↦ rw (taken, found) s
                ]
        | inr free ↦ rw free (record {
          keys = s.keys;
          edges = UniqueEdges-snoc t.relations r s.edges (unblocked r t.relations free);
          named = s.named;
          joined = All-snoc JoinsScope t.relations r s.joined h;
        })
      ]

  pub insert_or_get_relation-IsSound :
      (t : Tables) (r : Relation)
      → IsSound t
      → IsSound (insert_or_get_relation subject_exists key_refusal t r).0
  unfolding insert_or_get_relation
  insert_or_get_relation-IsSound t r s = ground (arith, insert_relation-IsSound t r s)
