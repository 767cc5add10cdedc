-- ===== src/Store/Semantics.antt =====
-- src/store.rs: the tables of subject aliases and of relations, with what reads and writes them. The
-- scope test of subjects is a parameter, and so is the text of SQLite's refusal of a second row with
-- one primary key; the connection always answers.
pub mod Laws
pub mod Invariant
use codex_memoryd.Prelude.{
  String, Bool, true, false, not, ◌&&◌, ◌||◌, Option, none, some, List, [], ◌∷◌, ◌++◌, all, any,
  find, is_empty, mem_str, push_str, str_eq, str_is_empty, trim, if◌then◌else◌,
}
use codex_memoryd.Errors.{
  Result, ok, err, fail, invalid_request, profile_boundary_denied, storage_unavailable,
}
use codex_memoryd.Store.Relations.{Relation}

-- `metadata` is the JSON text
pub record SubjectAlias : Type 0 where
  pub id : String
  pub profile_id : String
  pub workspace_id : String
  pub subject_id : String
  pub alias_key : String
  pub source_evidence : String
  pub created_at : String
  pub metadata : String

-- the rows of both tables, in the order of their insertion
pub record Tables : Type 0 where
  pub aliases : List SubjectAlias
  pub relations : List Relation

abbrev pub blank : String → Bool
blank s = str_is_empty (trim s)

abbrev pub is_none {ℓ} : {A : Type ℓ} → Option A → Bool
is_none none = true
is_none (some x) = false

abbrev pub alias_keyed : String → String → String → SubjectAlias → Bool
alias_keyed profile_id workspace_id alias_key a =
    str_eq a.profile_id profile_id
    && str_eq a.workspace_id workspace_id
    && str_eq a.alias_key alias_key

unfoldable pub get_subject_alias : Tables → String → String → String → Option SubjectAlias
get_subject_alias t profile_id workspace_id alias_key =
    find (alias_keyed profile_id workspace_id alias_key) t.aliases

-- `retired_at IS NULL AND state != 'retired'`
abbrev pub is_live : Relation → Bool
is_live r = is_none r.retired_at && not (str_eq r.state "retired")

abbrev pub relates : String → String → String → String → String → Relation → Bool
relates profile_id workspace_id from_subject_id relation_type to_subject_id r =
    str_eq r.profile_id profile_id
    && str_eq r.workspace_id workspace_id
    && str_eq r.from_subject_id from_subject_id
    && str_eq r.relation_type relation_type
    && str_eq r.to_subject_id to_subject_id
    && is_live r

unfoldable pub get_active_relation :
    Tables → String → String → String → String → String → Option Relation
get_active_relation t profile_id workspace_id from_subject_id relation_type to_subject_id =
    find (relates profile_id workspace_id from_subject_id relation_type to_subject_id) t.relations

abbrev pub relation_types : List String
relation_types =
    "uses" ∷ "owns" ∷ "prefers" ∷ "works_on" ∷ "depends_on" ∷ "supersedes" ∷ "blocked_by" ∷ []

abbrev pub is_blank_or_none : Option String → Bool
is_blank_or_none none = true
is_blank_or_none (some s) = blank s

unfoldable pub validate_relation : Relation → Result {0} Unit
validate_relation r =
    if blank r.from_subject_id || blank r.to_subject_id
    then fail invalid_request "relation endpoints are required"
    else if blank r.relation_type
    then fail invalid_request "relation_type is required"
    else if not (mem_str r.relation_type relation_types)
    then fail invalid_request (push_str "unknown relation_type '" (push_str r.relation_type "'"))
    else if not (mem_str r.state ("candidate" ∷ "active" ∷ "retired" ∷ []))
    then fail invalid_request (push_str "unknown relation state '" (push_str r.state "'"))
    else if is_empty r.source_episode_ids
        || all blank r.source_episode_ids
        || is_blank_or_none r.source_evidence
    then fail invalid_request
        "relation evidence is required via source_episode_ids and source_evidence"
    else ok tt

-- What a write answers with: the row, and whether it was inserted.
pub data Stored (A : Type 0) : Type 0 where
  inserted : A → Stored A
  existing : A → Stored A

module _ (subject_exists : String → String → String → Bool) (key_refusal : String) where
  -- `INSERT .. ON CONFLICT(profile_id, workspace_id, alias_key) DO NOTHING`
  unfoldable pub insert_alias : Tables → SubjectAlias → Tables × Result (Stored SubjectAlias)
  insert_alias t a = elim (get_subject_alias t a.profile_id a.workspace_id a.alias_key) [
    | some row ↦ if str_eq row.subject_id a.subject_id then (t, ok (existing row)) else (
      t,
      fail profile_boundary_denied "subject alias already resolves to a different scoped subject",
    )
    | none ↦
        if any (λ row. str_eq row.id a.id) t.aliases
        then (t, fail storage_unavailable key_refusal)
        else (record t { aliases = t.aliases ++ a ∷ [] }, ok (inserted a))
  ]

  unfoldable pub insert_or_get_subject_alias :
      Tables → SubjectAlias → Tables × Result (Stored SubjectAlias)
  insert_or_get_subject_alias t a =
      if blank a.alias_key
      then (t, fail invalid_request "subject alias_key is required")
      else if blank a.source_evidence
      then (t, fail invalid_request "subject alias source_evidence is required")
      else if not (subject_exists a.profile_id a.workspace_id a.subject_id)
      then (
        t,
        fail profile_boundary_denied
            "subject alias endpoint is outside the profile/workspace scope",
      )
      else insert_alias t a

  -- a row that the primary key or the index of active relations keeps out
  abbrev pub collides : Relation → Relation → Bool
  collides r row =
      str_eq row.id r.id
      || (is_live r
          && relates r.profile_id r.workspace_id r.from_subject_id r.relation_type r.to_subject_id
              row)

  -- `INSERT OR IGNORE`, and the row in the way
  unfoldable pub insert_relation : Tables → Relation → Tables × Result (Stored Relation)
  insert_relation t r =
      if not (any (collides r) t.relations)
      then (record t { relations = t.relations ++ r ∷ [] }, ok (inserted r))
      else elim (get_active_relation t r.profile_id r.workspace_id r.from_subject_id r.relation_type
          r.to_subject_id) [
            | some row ↦ (t, ok (existing row))
            | none ↦ (t, fail storage_unavailable "relation conflict without visible row")
          ]

  unfoldable pub insert_or_get_relation : Tables → Relation → Tables × Result (Stored Relation)
  insert_or_get_relation t r = elim (validate_relation r) [
    | err e ↦ (t, err e)
    | ok _ ↦
        if not (subject_exists r.profile_id r.workspace_id r.from_subject_id)
          || not (subject_exists r.profile_id r.workspace_id r.to_subject_id)
        then (
          t,
          fail profile_boundary_denied
              "relation endpoints must both be inside the same profile/workspace scope",
        )
        else insert_relation t r
  ]
