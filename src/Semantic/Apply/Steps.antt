-- ===== src/Semantic/Apply/Steps.antt =====
-- What the entries of an import of src/semantic_import.rs leave in the tables.
use codex_memoryd.Prelude.{
  String, Bool, true, false, ◌≡◌, ◌⊎◌, refl, ap, subst, inl, inr, List, [], ◌∷◌, All, str_eq,
  Bool-cases, if◌then◌else◌,
}
use codex_memoryd.Errors.{Error, Result, ok, err}
use codex_memoryd.Store.Relations.{Relation}
use codex_memoryd.Store.Semantics.{SubjectAlias, Tables, Stored, inserted, existing, is_live}
use codex_memoryd.Store.Semantics.Laws.{
  Keeps, Keeps-refl, Keeps-trans, IsNamed, IsRelated, Writes, insert_or_get_subject_alias-Writes,
  insert_or_get_relation-Writes,
}
use codex_memoryd.Semantic.{
  SemanticImportReport, SemanticImportReportEntry, EntryValue, alias_row, relation_row, alias_input,
  alias_conflict, relation_input,
}
use codex_memoryd.Semantic.Apply.{
  Progress, then_on, alias_stored, relation_stored, apply_alias, apply_relation, apply_entry,
  apply_entries,
}

-- the relations that are to be written are active
abbrev pub IsOpen : EntryValue → Type 0
IsOpen (relation_row r) = is_live r ≡ true
IsOpen (alias_row a) = Unit
IsOpen (alias_input a) = Unit
IsOpen (alias_conflict a s) = Unit
IsOpen (relation_input r) = Unit

abbrev pub HasAlias : Tables → EntryValue → Type 0
HasAlias t (alias_row a) = IsNamed t a
HasAlias t _ = Unit

abbrev pub HasRelation : Tables → EntryValue → Type 0
HasRelation t (relation_row r) = IsRelated t r
HasRelation t _ = Unit

-- The tables hold the row of the entry.
abbrev pub Has : Tables → SemanticImportReportEntry → Type 0
Has t e =
    if str_eq e.kind "alias"
    then HasAlias t e.value
    else if str_eq e.kind "relation"
    then HasRelation t e.value
    else Unit

abbrev Applies : (Tables → Type 0) → Tables → Progress → Type 0
Applies P t (u, ok _) = Keeps t u × P u
Applies P t (u, err _) = Keeps t u

alias_stored-Applies :
    (P : Tables → Type 0) (t : Tables) (report : SemanticImportReport)
    (o : Tables × Result (Stored SubjectAlias))
    → Writes P t o
    → Applies P t (alias_stored report o)
alias_stored-Applies P t report (u, ok (inserted a)) h = h
alias_stored-Applies P t report (u, ok (existing a)) h = h
alias_stored-Applies P t report (u, err e) h = h

relation_stored-Applies :
    (P : Tables → Type 0) (t : Tables) (report : SemanticImportReport)
    (o : Tables × Result (Stored Relation))
    → Writes P t o
    → Applies P t (relation_stored report o)
relation_stored-Applies P t report (u, ok (inserted r)) h = h
relation_stored-Applies P t report (u, ok (existing r)) h = h
relation_stored-Applies P t report (u, err e) h = h

module _ (subject_exists : String → String → String → Bool)
    (key_refusal json_refusal : String) where
  apply_alias-Applies :
      (t : Tables) (v : EntryValue) (report : SemanticImportReport)
      → Applies
          (λ u. HasAlias u v)
          t
          (apply_alias subject_exists key_refusal json_refusal t v report)
  unfolding apply_alias
  apply_alias-Applies t (alias_row a) report =
      alias_stored-Applies (λ u. IsNamed u a) t report _
        (insert_or_get_subject_alias-Writes subject_exists key_refusal t a)
  apply_alias-Applies t (relation_row r) report = Keeps-refl t
  apply_alias-Applies t (alias_input a) report = Keeps-refl t
  apply_alias-Applies t (alias_conflict a s) report = Keeps-refl t
  apply_alias-Applies t (relation_input r) report = Keeps-refl t

  apply_relation-Applies :
      (t : Tables) (v : EntryValue) (report : SemanticImportReport)
      → IsOpen v
      → Applies
          (λ u. HasRelation u v)
          t
          (apply_relation subject_exists key_refusal json_refusal t v report)
  unfolding apply_relation
  apply_relation-Applies t (relation_row r) report active =
      relation_stored-Applies (λ u. IsRelated u r) t report _
        (insert_or_get_relation-Writes subject_exists key_refusal t r active)
  apply_relation-Applies t (alias_row a) report _ = Keeps-refl t
  apply_relation-Applies t (alias_input a) report _ = Keeps-refl t
  apply_relation-Applies t (alias_conflict a s) report _ = Keeps-refl t
  apply_relation-Applies t (relation_input r) report _ = Keeps-refl t

  apply_entry-Applies :
      (t : Tables) (e : SemanticImportReportEntry) (report : SemanticImportReport)
      → IsOpen e.value
      → Applies (λ u. Has u e) t (apply_entry subject_exists key_refusal json_refusal t e report)
  unfolding apply_entry
  apply_entry-Applies t e report open_ = elim (Bool-cases (str_eq e.kind "alias")) [
    | inl is_alias ↦ rw is_alias (apply_alias-Applies t e.value report)
    | inr other ↦ elim (Bool-cases (str_eq e.kind "relation")) [
      | inl is_relation ↦ rw (other, is_relation) (apply_relation-Applies t e.value report open_)
      | inr none_ ↦ rw (other, none_) (Keeps-refl t, tt)
    ]
  ]

abbrev succeeds : Progress → Bool
succeeds (u, ok r) = true
succeeds (u, err e) = false

pub err-ne-ok :
    (t u : Tables) (e : Error) (r : SemanticImportReport)
    → ¬ (◌≡◌ {A = Progress} (t, err e) (u, ok r))
err-ne-ok t u e r h = let wrong : false ≡ true = ap succeeds h in cc

pub Progress-cases :
    (o : Progress)
    → ((u : Tables) × (r : SemanticImportReport) × (o ≡ (u, ok r)))
      ⊎ ((u : Tables) × (e : Error) × (o ≡ (u, err e)))
Progress-cases (u, ok r) = inl (u, r, refl)
Progress-cases (u, err e) = inr (u, e, refl)

HasAlias-Keeps : (t u : Tables) (v : EntryValue) → Keeps t u → HasAlias t v → HasAlias u v
HasAlias-Keeps t u (alias_row a) k (row, found, same) =
    (row, k.alias a.profile_id a.workspace_id a.alias_key row found, same)
HasAlias-Keeps t u (relation_row r) k h = tt
HasAlias-Keeps t u (alias_input a) k h = tt
HasAlias-Keeps t u (alias_conflict a s) k h = tt
HasAlias-Keeps t u (relation_input r) k h = tt

HasRelation-Keeps : (t u : Tables) (v : EntryValue) → Keeps t u → HasRelation t v → HasRelation u v
HasRelation-Keeps t u (relation_row r) k (row, found) = (
  row,
  k.relation r.profile_id r.workspace_id r.from_subject_id r.relation_type r.to_subject_id row
      found,
)
HasRelation-Keeps t u (alias_row a) k h = tt
HasRelation-Keeps t u (alias_input a) k h = tt
HasRelation-Keeps t u (alias_conflict a s) k h = tt
HasRelation-Keeps t u (relation_input r) k h = tt

Has-Keeps : (t u : Tables) (e : SemanticImportReportEntry) → Keeps t u → Has t e → Has u e
Has-Keeps t u e k h = elim (Bool-cases (str_eq e.kind "alias")) [
  | inl is_alias ↦ rw is_alias (HasAlias-Keeps t u e.value k (rw is_alias at h))
  | inr other ↦ elim (Bool-cases (str_eq e.kind "relation")) [
    | inl is_relation ↦
        rw (other, is_relation) (HasRelation-Keeps t u e.value k (rw (other, is_relation) at h))
    | inr none_ ↦ rw (other, none_) tt
  ]
]

module _ (subject_exists : String → String → String → Bool)
    (key_refusal json_refusal : String) where
  pub apply_entries-Has :
      (t : Tables) (entries : List SemanticImportReportEntry) (report : SemanticImportReport)
      (u : Tables) (r : SemanticImportReport)
      → All (λ e. IsOpen e.value) entries
      → apply_entries subject_exists key_refusal json_refusal t entries report ≡ (u, ok r)
      → Keeps t u × All (Has u) entries
  unfolding apply_entries
  apply_entries-Has t [] report u r open_ h = (subst (Keeps t) (ap (λ o. o.0) h) (Keeps-refl t), tt)
  apply_entries-Has t (e ∷ entries) report u r open_ h =
      let o = apply_entry subject_exists key_refusal json_refusal t e report in
      let next = λ (v : Tables) (q : SemanticImportReport).
        apply_entries subject_exists key_refusal json_refusal v entries q in
      let step = apply_entry-Applies subject_exists key_refusal json_refusal t e report open_.0 in
      elim (Progress-cases o) [
        | inl (v, q, went) ↦
            let (kept, has) = subst (Applies (λ w. Has w e) t) went step in
            let (kept', rest) =
              apply_entries-Has v entries q u r open_.1
                (subst (λ w. then_on w next ≡ (u, ok r)) went h) in
            (Keeps-trans kept kept', (Has-Keeps v u e kept' has, rest))
        | inr (v, x, failed) ↦
            absurd (err-ne-ok v u x r (subst (λ w. then_on w next ≡ (u, ok r)) failed h))
      ]
