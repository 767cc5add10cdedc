-- ===== src/Semantic/Apply/Invariant.antt =====
-- An import of src/semantic_import.rs, also one that fails on the way, keeps the tables sound.
use codex_memoryd.Prelude.{String, Bool, inl, inr, List, [], ◌∷◌, str_eq, Bool-cases}
use codex_memoryd.Domain.MemoryRecord.{F64}
use codex_memoryd.Errors.{Result, ok, err}
use codex_memoryd.Store.Relations.{Relation}
use codex_memoryd.Store.Semantics.{SubjectAlias, Tables, Stored, inserted, existing}
use codex_memoryd.Store.Semantics.Invariant.{
  IsSound, insert_or_get_subject_alias-IsSound, insert_or_get_relation-IsSound,
}
use codex_memoryd.Semantic.{
  SemanticImportRequest, SemanticImportReport, SemanticImportReportEntry, EntryValue, alias_row,
  relation_row, alias_input, alias_conflict, relation_input, Supply, preview_semantic_import,
}
use codex_memoryd.Semantic.Apply.{
  Progress, then_on, alias_stored, relation_stored, apply_alias, apply_relation, apply_entry,
  apply_entries, apply_previewed, apply_semantic_import,
}

module _ (P : Tables → Type 0) where
  alias_stored-tables :
      (report : SemanticImportReport) (o : Tables × Result (Stored SubjectAlias))
      → P o.0
      → P (alias_stored report o).0
  alias_stored-tables report (u, ok (inserted a)) h = h
  alias_stored-tables report (u, ok (existing a)) h = h
  alias_stored-tables report (u, err e) h = h

  relation_stored-tables :
      (report : SemanticImportReport) (o : Tables × Result (Stored Relation))
      → P o.0
      → P (relation_stored report o).0
  relation_stored-tables report (u, ok (inserted r)) h = h
  relation_stored-tables report (u, ok (existing r)) h = h
  relation_stored-tables report (u, err e) h = h

  then_on-tables :
      (o : Progress) (next : Tables → SemanticImportReport → Progress)
      → P o.0
      → ((u : Tables) (r : SemanticImportReport) → P u → P (next u r).0)
      → P (then_on o next).0
  then_on-tables (u, ok r) next h step = step u r h
  then_on-tables (u, err e) next h step = h

module _ (subject_exists : String → String → String → Bool)
    (key_refusal json_refusal : String) where
  abbrev Sound : Tables → Type 0
  Sound t = IsSound subject_exists key_refusal t

  apply_alias-IsSound :
      (t : Tables) (v : EntryValue) (report : SemanticImportReport)
      → Sound t
      → Sound (apply_alias subject_exists key_refusal json_refusal t v report).0
  unfolding apply_alias
  apply_alias-IsSound t (alias_row a) report s =
      alias_stored-tables Sound report _
        (insert_or_get_subject_alias-IsSound subject_exists key_refusal t a s)
  apply_alias-IsSound t (relation_row r) report s = s
  apply_alias-IsSound t (alias_input a) report s = s
  apply_alias-IsSound t (alias_conflict a x) report s = s
  apply_alias-IsSound t (relation_input r) report s = s

  apply_relation-IsSound :
      (t : Tables) (v : EntryValue) (report : SemanticImportReport)
      → Sound t
      → Sound (apply_relation subject_exists key_refusal json_refusal t v report).0
  unfolding apply_relation
  apply_relation-IsSound t (relation_row r) report s =
      relation_stored-tables Sound report _
        (insert_or_get_relation-IsSound subject_exists key_refusal t r s)
  apply_relation-IsSound t (alias_row a) report s = s
  apply_relation-IsSound t (alias_input a) report s = s
  apply_relation-IsSound t (alias_conflict a x) report s = s
  apply_relation-IsSound t (relation_input r) report s = s

  apply_entry-IsSound :
      (t : Tables) (e : SemanticImportReportEntry) (report : SemanticImportReport)
      → Sound t
      → Sound (apply_entry subject_exists key_refusal json_refusal t e report).0
  unfolding apply_entry
  apply_entry-IsSound t e report s = elim (Bool-cases (str_eq e.kind "alias")) [
    | inl is_alias ↦ rw is_alias (apply_alias-IsSound t e.value report s)
    | inr other ↦ elim (Bool-cases (str_eq e.kind "relation")) [
      | inl is_relation ↦ rw (other, is_relation) (apply_relation-IsSound t e.value report s)
      | inr none_ ↦ rw (other, none_) s
    ]
  ]

  apply_entries-IsSound :
      (t : Tables) (entries : List SemanticImportReportEntry) (report : SemanticImportReport)
      → Sound t
      → Sound (apply_entries subject_exists key_refusal json_refusal t entries report).0
  unfolding apply_entries
  apply_entries-IsSound t [] report s = s
  apply_entries-IsSound t (e ∷ entries) report s =
      then_on-tables Sound _ _ (apply_entry-IsSound t e report s)
        (λ u r sound. apply_entries-IsSound u entries r sound)

  apply_previewed-IsSound :
      (t : Tables) (request : SemanticImportRequest) (preview : Result SemanticImportReport)
      → Sound t
      → Sound (apply_previewed subject_exists key_refusal json_refusal t request preview).0
  unfolding apply_previewed
  apply_previewed-IsSound t request (err e) s = s
  apply_previewed-IsSound t request (ok preview) s =
      then_on-tables Sound _ _ (apply_entries-IsSound t preview.would_apply _ s)
        (λ u r sound. sound)

  -- Whether an import succeeds or fails on the way, it leaves sound tables sound: one subject for each
  -- alias of a scope, one active row for each relation of a scope, and ends that are subjects of the
  -- row's scope.
  pub apply_semantic_import-IsSound :
      (in_unit : F64 → Bool) (supply : Supply) (t : Tables) (request : SemanticImportRequest)
      → IsSound subject_exists key_refusal t
      → IsSound subject_exists key_refusal
          (apply_semantic_import subject_exists key_refusal json_refusal in_unit supply t request).0
  unfolding apply_semantic_import
  apply_semantic_import-IsSound in_unit supply t request s =
      apply_previewed-IsSound t request
        (preview_semantic_import subject_exists in_unit supply request t) s
