-- ===== src/Semantic/Apply.antt =====
-- `apply_semantic_import` of src/semantic_import.rs. There is no transaction around the rows, so the
-- tables are answered with in both cases.
pub mod Steps
pub mod Laws
pub mod Invariant
use codex_memoryd.Prelude.{String, Bool, List, [], ◌∷◌, str_eq, if◌then◌else◌}
use codex_memoryd.Errors.{Result, ok, err, fail, invalid_request}
use codex_memoryd.Domain.MemoryRecord.{F64}
use codex_memoryd.Store.Relations.{Relation}
use codex_memoryd.Store.Semantics.{
  SubjectAlias, Tables, Stored, inserted, existing, insert_or_get_subject_alias,
  insert_or_get_relation,
}
use codex_memoryd.Semantic.{
  SemanticImportRequest, SemanticImportReport, SemanticImportReportEntry, EntryValue, alias_row,
  relation_row, Supply, empty_report, refresh_counts, report_entry_for_alias,
  report_entry_for_relation, add_applied, add_already_present, preview_semantic_import,
}

-- a report is the state that the loop carries, and an error ends it
abbrev pub Progress : Type 0
Progress = Tables × Result SemanticImportReport

abbrev pub then_on : Progress → (Tables → SemanticImportReport → Progress) → Progress
then_on (t, ok report) next = next t report
then_on (t, err e) next = (t, err e)

abbrev pub alias_stored : SemanticImportReport → Tables × Result (Stored SubjectAlias) → Progress
alias_stored report (t, ok (inserted a)) =
    (t, ok (add_applied (report_entry_for_alias a "applied") report))
alias_stored report (t, ok (existing a)) =
    (t, ok (add_already_present (report_entry_for_alias a "already_present") report))
alias_stored report (t, err e) = (t, err e)

abbrev pub relation_stored : SemanticImportReport → Tables × Result (Stored Relation) → Progress
relation_stored report (t, ok (inserted r)) =
    (t, ok (add_applied (report_entry_for_relation r "applied") report))
relation_stored report (t, ok (existing r)) =
    (t, ok (add_already_present (report_entry_for_relation r "already_present") report))
relation_stored report (t, err e) = (t, err e)

module _ (subject_exists : String → String → String → Bool)
    (key_refusal json_refusal : String) where
  unfoldable pub apply_alias : Tables → EntryValue → SemanticImportReport → Progress
  apply_alias t (alias_row a) report =
      alias_stored report (insert_or_get_subject_alias subject_exists key_refusal t a)
  apply_alias t _ report = (t, fail invalid_request json_refusal)

  unfoldable pub apply_relation : Tables → EntryValue → SemanticImportReport → Progress
  apply_relation t (relation_row r) report =
      relation_stored report (insert_or_get_relation subject_exists key_refusal t r)
  apply_relation t _ report = (t, fail invalid_request json_refusal)

  unfoldable pub apply_entry : Tables → SemanticImportReportEntry → SemanticImportReport → Progress
  unfolding apply_alias apply_relation
  apply_entry t e report =
      if str_eq e.kind "alias"
      then apply_alias t e.value report
      else if str_eq e.kind "relation"
      then apply_relation t e.value report
      else (t, ok report)

  unfoldable pub apply_entries :
      Tables → List SemanticImportReportEntry → SemanticImportReport → Progress
  apply_entries t [] report = (t, ok report)
  apply_entries t (e ∷ entries) report =
      then_on (apply_entry t e report) (λ t' report'. apply_entries t' entries report')

  -- what the preview leads to
  unfoldable pub apply_previewed :
      Tables → SemanticImportRequest → Result SemanticImportReport → Progress
  apply_previewed t request (err e) = (t, err e)
  apply_previewed t request (ok preview) =
      let report = record (empty_report request) {
        already_present = preview.already_present;
        rejected = preview.rejected;
      } in
      then_on (apply_entries t preview.would_apply report) λ t' r. (t', ok (refresh_counts r))

  unfoldable pub apply_semantic_import :
      (F64 → Bool) → Supply → Tables → SemanticImportRequest → Progress
  apply_semantic_import in_unit supply t request =
      apply_previewed t request (preview_semantic_import subject_exists in_unit supply request t)
