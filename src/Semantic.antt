-- ===== src/Semantic.antt =====
-- src/semantic_import.rs: what a preview finds of each item of a request. The ids and times of the
-- rows are parameters, by the place of the item in the request, and so is the test that a confidence
-- is a finite number from 0 to 1.
mod Report
pub mod Apply
pub mod Laws
pub use Report.*
unfoldable pub use Report.{push_rejections}
use codex_memoryd.Prelude.{
  ℕ, zero, suc, ◌+◌, String, Bool, true, false, not, ◌&&◌, ◌||◌, Option, none, some, List, [], ◌∷◌,
  ◌++◌, all, any, is_empty, length, map, select, mem_str, push_str, str_eq, str_is_empty, trim,
  if◌then◌else◌,
}
use codex_memoryd.Errors.{Result, ok, err, fail, invalid_request}
use codex_memoryd.Domain.MemoryRecord.{F64}
use codex_memoryd.Store.Relations.{Relation}
use codex_memoryd.Store.Semantics.{
  SubjectAlias, Tables, blank, is_blank_or_none, relation_types, get_subject_alias,
  get_active_relation,
}

-- a reason, where the test holds
abbrev pub reason_if : Bool → String → List String
reason_if test reason = if test then reason ∷ [] else []

abbrev pub alias_problems : SemanticAliasInput → List String
alias_problems a =
    reason_if (blank a.subject_id) "missing_alias_subject"
    ++ (reason_if (blank a.alias_key) "missing_alias_key"
        ++ reason_if (blank a.source_evidence) "missing_alias_evidence")

abbrev type_problems : String → List String
type_problems relation_type =
    if str_is_empty relation_type
    then "missing_relation_type" ∷ []
    else reason_if (not (mem_str relation_type relation_types)) "unknown_relation_type"

-- the trimmed ids that are not empty
abbrev pub episode_ids : List String → List String
episode_ids ids = select (λ id. not (str_is_empty id)) (map trim ids)

abbrev pub evidence_text : Option String → Option String
evidence_text none = none
evidence_text (some s) = if str_is_empty (trim s) then none else some (trim s)

abbrev pub import_origin : String
import_origin = "{\"origin\":\"semantic_import\"}"

unfoldable pub validate_request_shape : SemanticImportRequest → Result {0} Unit
validate_request_shape request =
    if blank request.profile_id
    then fail invalid_request "missing_profile"
    else if blank request.workspace_id
    then fail invalid_request "missing_workspace"
    else if is_empty request.aliases && is_empty request.relations
    then fail invalid_request "missing_items"
    else ok tt

pub record Supply : Type 0 where
  pub alias_id : ℕ → String
  pub alias_time : ℕ → String
  pub relation_id : ℕ → String
  pub relation_time : ℕ → String

module _ (subject_exists : String → String → String → Bool) (in_unit : F64 → Bool) (supply : Supply)
    (request : SemanticImportRequest) where
  abbrev pub relation_problems : SemanticRelationInput → List String
  relation_problems r =
      reason_if (blank r.from_subject_id) "missing_relation_from_subject"
      ++ (reason_if (blank r.to_subject_id) "missing_relation_to_subject"
          ++ (type_problems (trim r.relation_type)
              ++ (reason_if (not (in_unit r.confidence)) "invalid_relation_confidence"
                  ++ (reason_if (is_empty r.source_episode_ids || all blank r.source_episode_ids)
                        "missing_relation_episode_evidence"
                      ++ reason_if (is_blank_or_none r.source_evidence)
                          "missing_relation_source_evidence"))))

  abbrev pub alias_candidate : ℕ → SemanticAliasInput → SubjectAlias
  alias_candidate n a = record {
    id = supply.alias_id n;
    profile_id = request.profile_id;
    workspace_id = request.workspace_id;
    subject_id = trim a.subject_id;
    alias_key = trim a.alias_key;
    source_evidence = trim a.source_evidence;
    created_at = supply.alias_time n;
    metadata = import_origin;
  }

  abbrev pub relation_candidate : ℕ → SemanticRelationInput → Relation
  relation_candidate n r = record {
    id = supply.relation_id n;
    profile_id = request.profile_id;
    workspace_id = request.workspace_id;
    from_subject_id = trim r.from_subject_id;
    relation_type = trim r.relation_type;
    to_subject_id = trim r.to_subject_id;
    confidence = r.confidence;
    state = "active";
    source_episode_ids = episode_ids r.source_episode_ids;
    source_evidence = evidence_text r.source_evidence;
    created_at = supply.relation_time n;
    retired_at = none;
    metadata = import_origin;
  }

  -- an alias whose subject is in scope, against the row that its key has
  unfoldable pub settle_alias :
      Option SubjectAlias → ℕ → SemanticAliasInput → SemanticImportReport → SemanticImportReport
  settle_alias (some row) n a report =
      if str_eq row.subject_id (trim a.subject_id)
      then add_already_present (report_entry_for_alias row "already_present") report
      else add_rejected
          (report_entry "alias" (trim a.alias_key) "rejected" (some "alias_conflict")
            (alias_conflict a row.subject_id))
          report
  settle_alias none n a report =
      add_would_apply (report_entry_for_alias (alias_candidate n a) "would_apply") report

  unfoldable pub settle_relation :
      Option Relation → ℕ → SemanticRelationInput → SemanticImportReport → SemanticImportReport
  settle_relation (some row) n r report =
      add_already_present (report_entry_for_relation row "already_present") report
  settle_relation none n r report =
      add_would_apply (report_entry_for_relation (relation_candidate n r) "would_apply") report

  module _ (t : Tables) where
    unfoldable pub validate_alias :
        ℕ → SemanticAliasInput → SemanticImportReport → SemanticImportReport
    unfolding settle_alias push_rejections
    validate_alias n a report =
        let problems = alias_problems a in
        if not (is_empty problems)
        then push_rejections (push_rejected_alias a) problems report
        else if not (subject_exists request.profile_id request.workspace_id (trim a.subject_id))
        then push_rejected_alias a "alias_subject_out_of_scope" report
        else settle_alias
            (get_subject_alias t request.profile_id request.workspace_id (trim a.alias_key)) n a
            report

    unfoldable pub validate_aliases :
        ℕ → List SemanticAliasInput → SemanticImportReport → SemanticImportReport
    validate_aliases n [] report = report
    validate_aliases n (a ∷ aliases) report =
        validate_aliases (suc n) aliases (validate_alias n a report)

    unfoldable pub validate_relation_input :
        ℕ → SemanticRelationInput → SemanticImportReport → SemanticImportReport
    unfolding settle_relation push_rejections
    validate_relation_input n r report =
        let problems = relation_problems r in
        let in_scope = subject_exists request.profile_id request.workspace_id in
        if not (is_empty problems)
        then push_rejections (push_rejected_relation r) problems report
        else if not (in_scope (trim r.from_subject_id)) || not (in_scope (trim r.to_subject_id))
        then push_rejected_relation r "relation_endpoint_out_of_scope" report
        else settle_relation
            (get_active_relation t request.profile_id request.workspace_id (trim r.from_subject_id)
              (trim r.relation_type) (trim r.to_subject_id))
            n r report

    unfoldable pub validate_relations :
        ℕ → List SemanticRelationInput → SemanticImportReport → SemanticImportReport
    validate_relations n [] report = report
    validate_relations n (r ∷ relations) report =
        validate_relations (suc n) relations (validate_relation_input n r report)

    unfoldable pub preview_semantic_import : Result SemanticImportReport
    preview_semantic_import = elim (validate_request_shape request) [
      | err e ↦ err e
      | ok _ ↦ ok (
          refresh_counts (
            validate_relations 0 request.relations
              (validate_aliases 0 request.aliases (empty_report request))))
    ]
