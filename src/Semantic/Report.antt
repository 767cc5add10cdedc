-- ===== src/Semantic/Report.antt =====
-- The requests and the reports of src/semantic_import.rs.
use codex_memoryd.Prelude.{
  ℕ, String, Option, none, some, List, [], ◌∷◌, ◌++◌, length, select, push_str, str_eq,
  if◌then◌else◌,
}
use codex_memoryd.Domain.MemoryRecord.{F64}
use codex_memoryd.Store.Relations.{Relation}
use codex_memoryd.Store.Semantics.{SubjectAlias, blank}

pub record SemanticAliasInput : Type 0 where
  pub subject_id : String
  pub alias_key : String
  pub source_evidence : String

pub record SemanticRelationInput : Type 0 where
  pub from_subject_id : String
  pub relation_type : String
  pub to_subject_id : String
  pub confidence : F64
  pub source_episode_ids : List String
  pub source_evidence : Option String

pub record SemanticImportRequest : Type 0 where
  pub profile_id : String
  pub workspace_id : String
  pub aliases : List SemanticAliasInput
  pub relations : List SemanticRelationInput

-- what the JSON of an entry is made of; a row reads back as itself
pub data EntryValue : Type 0 where
  alias_row : SubjectAlias → EntryValue
  relation_row : Relation → EntryValue
  alias_input : SemanticAliasInput → EntryValue
  -- with the subject that the alias names already
  alias_conflict : SemanticAliasInput → String → EntryValue
  relation_input : SemanticRelationInput → EntryValue

pub record SemanticImportReportEntry : Type 0 where
  pub kind : String
  pub key : String
  pub status : String
  pub reason : Option String
  pub value : EntryValue

pub record SemanticImportCounts : Type 0 where
  pub would_apply : ℕ
  pub applied_aliases : ℕ
  pub applied_relations : ℕ
  pub already_present : ℕ
  pub rejected : ℕ

pub record SemanticImportReport : Type 0 where
  pub profile_id : String
  pub workspace_id : String
  pub would_apply : List SemanticImportReportEntry
  pub applied : List SemanticImportReportEntry
  pub already_present : List SemanticImportReportEntry
  pub rejected : List SemanticImportReportEntry
  pub counts : SemanticImportCounts

abbrev pub empty_report : SemanticImportRequest → SemanticImportReport
empty_report request = record {
  profile_id = request.profile_id;
  workspace_id = request.workspace_id;
  would_apply = [];
  applied = [];
  already_present = [];
  rejected = [];
  counts = record {
    would_apply = 0;
    applied_aliases = 0;
    applied_relations = 0;
    already_present = 0;
    rejected = 0;
  };
}

abbrev of_kind : String → List SemanticImportReportEntry → ℕ
of_kind kind entries = length (select (λ e. str_eq e.kind kind) entries)

abbrev pub refresh_counts : SemanticImportReport → SemanticImportReport
refresh_counts report = record report {
  counts = record {
    would_apply = length report.would_apply;
    applied_aliases = of_kind "alias" report.applied;
    applied_relations = of_kind "relation" report.applied;
    already_present = length report.already_present;
    rejected = length report.rejected;
  };
}

abbrev pub report_entry :
    String → String → String → Option String → EntryValue → SemanticImportReportEntry
report_entry kind key status reason value = record {
  kind = kind;
  key = key;
  status = status;
  reason = reason;
  value = value;
}

abbrev pub relation_key : String → String → String → String
relation_key from_subject_id relation_type to_subject_id =
    push_str from_subject_id (push_str ":" (push_str relation_type (push_str ":" to_subject_id)))

abbrev pub report_entry_for_alias : SubjectAlias → String → SemanticImportReportEntry
report_entry_for_alias a status = report_entry "alias" a.alias_key status none (alias_row a)

abbrev pub report_entry_for_relation : Relation → String → SemanticImportReportEntry
report_entry_for_relation r status =
    report_entry "relation" (relation_key r.from_subject_id r.relation_type r.to_subject_id) status
      none (relation_row r)

abbrev pub add_would_apply : SemanticImportReportEntry → SemanticImportReport → SemanticImportReport
add_would_apply e report = record report { would_apply = report.would_apply ++ e ∷ [] }

abbrev pub add_already_present :
    SemanticImportReportEntry → SemanticImportReport → SemanticImportReport
add_already_present e report = record report { already_present = report.already_present ++ e ∷ [] }

abbrev pub add_applied : SemanticImportReportEntry → SemanticImportReport → SemanticImportReport
add_applied e report = record report { applied = report.applied ++ e ∷ [] }

abbrev pub add_rejected : SemanticImportReportEntry → SemanticImportReport → SemanticImportReport
add_rejected e report = record report { rejected = report.rejected ++ e ∷ [] }

abbrev pub push_rejected_alias :
    SemanticAliasInput → String → SemanticImportReport → SemanticImportReport
push_rejected_alias a reason report =
    let key = if blank a.alias_key then a.subject_id else a.alias_key in
    add_rejected (report_entry "alias" key "rejected" (some reason) (alias_input a)) report

abbrev pub push_rejected_relation :
    SemanticRelationInput → String → SemanticImportReport → SemanticImportReport
push_rejected_relation r reason report =
    let key = relation_key r.from_subject_id r.relation_type r.to_subject_id in
    add_rejected (report_entry "relation" key "rejected" (some reason) (relation_input r)) report

-- one rejection for each reason
unfoldable pub push_rejections :
    (String → SemanticImportReport → SemanticImportReport)
    → List String
    → SemanticImportReport
    → SemanticImportReport
push_rejections push [] report = report
push_rejections push (reason ∷ reasons) report = push_rejections push reasons (push reason report)
