-- ===== src/Semantic/Laws.antt =====
-- What a preview of src/semantic_import.rs would apply: the candidates of the items that have no
-- problem, that are in scope, and that the tables do not hold.
use codex_memoryd.Prelude.{
  ℕ, suc, String, Bool, ◌&&◌, ◌≡◌, refl, sym, ap, ◌∙◌, inl, inr, Option, none, some, List, [], ◌∷◌,
  ◌++◌, is_empty, str_eq, trim, Bool-cases, if◌then◌else◌,
}
use mathlib.Core.List.{append-nil, append_assoc}
use codex_memoryd.Domain.MemoryRecord.{F64}
use codex_memoryd.Errors.{Error, ok, err}
use codex_memoryd.Store.Relations.{Relation}
use codex_memoryd.Store.Semantics.{
  SubjectAlias, Tables, is_none, get_subject_alias, get_active_relation,
}
use codex_memoryd.Semantic.{
  SemanticAliasInput, SemanticRelationInput, SemanticImportRequest, SemanticImportReport,
  SemanticImportReportEntry, Supply, push_rejections, push_rejected_alias, push_rejected_relation,
  alias_problems, relation_problems, alias_candidate, relation_candidate, report_entry_for_alias,
  report_entry_for_relation, settle_alias, settle_relation, validate_alias, validate_aliases,
  validate_relation_input, validate_relations, empty_report, refresh_counts, validate_request_shape,
  preview_semantic_import,
}

would_apply-push_rejections :
    (push : String → SemanticImportReport → SemanticImportReport)
    → ((s : String) (r : SemanticImportReport) → (push s r).would_apply ≡ r.would_apply)
    → (reasons : List String) (report : SemanticImportReport)
    → (push_rejections push reasons report).would_apply ≡ report.would_apply
unfolding push_rejections
would_apply-push_rejections push keep [] report = refl
would_apply-push_rejections push keep (s ∷ reasons) report =
    would_apply-push_rejections push keep reasons (push s report) ∙ keep s report

module _ (subject_exists : String → String → String → Bool) (in_unit : F64 → Bool) (supply : Supply)
    (request : SemanticImportRequest) (t : Tables) where
  abbrev in_scope : String → Bool
  in_scope = subject_exists request.profile_id request.workspace_id

  abbrev row_of_alias : SemanticAliasInput → Option SubjectAlias
  row_of_alias a = get_subject_alias t request.profile_id request.workspace_id (trim a.alias_key)

  abbrev pub alias_new : ℕ → SemanticAliasInput → List SemanticImportReportEntry
  alias_new n a =
      if is_empty (alias_problems a) && (in_scope (trim a.subject_id) && is_none (row_of_alias a))
      then report_entry_for_alias (alias_candidate subject_exists in_unit supply request n a)
          "would_apply"
        ∷ []
      else []

  abbrev pub aliases_new : ℕ → List SemanticAliasInput → List SemanticImportReportEntry
  aliases_new n [] = []
  aliases_new n (a ∷ aliases) = alias_new n a ++ aliases_new (suc n) aliases

  abbrev pub relation_new : ℕ → SemanticRelationInput → List SemanticImportReportEntry
  relation_new n r =
      if is_empty (relation_problems subject_exists in_unit supply request r)
        && ((in_scope (trim r.from_subject_id) && in_scope (trim r.to_subject_id))
            && is_none (
                get_active_relation t request.profile_id request.workspace_id
                  (trim r.from_subject_id) (trim r.relation_type) (trim r.to_subject_id)))
      then report_entry_for_relation (relation_candidate subject_exists in_unit supply request n r)
          "would_apply"
        ∷ []
      else []

  abbrev pub relations_new : ℕ → List SemanticRelationInput → List SemanticImportReportEntry
  relations_new n [] = []
  relations_new n (r ∷ relations) = relation_new n r ++ relations_new (suc n) relations

  would_apply-settle_alias :
      (row : Option SubjectAlias) (n : ℕ) (a : SemanticAliasInput) (report : SemanticImportReport)
      → (settle_alias subject_exists in_unit supply request row n a report).would_apply
        ≡ report.would_apply
          ++ (if is_none row
              then report_entry_for_alias
                  (alias_candidate subject_exists in_unit supply request n a)
                  "would_apply"
                ∷ []
              else [])
  unfolding settle_alias
  would_apply-settle_alias none n a report = refl
  would_apply-settle_alias (some row) n a report =
      elim (Bool-cases (str_eq row.subject_id (trim a.subject_id))) [
        | inl same ↦ rw same (sym (append-nil _))
        | inr other ↦ rw other (sym (append-nil _))
      ]

  would_apply-settle_relation :
      (row : Option Relation) (n : ℕ) (r : SemanticRelationInput) (report : SemanticImportReport)
      → (settle_relation subject_exists in_unit supply request row n r report).would_apply
        ≡ report.would_apply
          ++ (if is_none row
              then report_entry_for_relation
                  (relation_candidate subject_exists in_unit supply request n r)
                  "would_apply"
                ∷ []
              else [])
  unfolding settle_relation
  would_apply-settle_relation none n r report = refl
  would_apply-settle_relation (some row) n r report = sym (append-nil _)

  would_apply-validate_alias :
      (n : ℕ) (a : SemanticAliasInput) (report : SemanticImportReport)
      → (validate_alias subject_exists in_unit supply request t n a report).would_apply
        ≡ report.would_apply ++ alias_new n a
  unfolding validate_alias
  would_apply-validate_alias n a report = elim (Bool-cases (is_empty (alias_problems a))) [
    | inr wrong ↦ rw wrong (
        would_apply-push_rejections (push_rejected_alias a) (λ s r. refl) (alias_problems a) report
        ∙ sym (append-nil _))
    | inl right ↦ elim (Bool-cases (in_scope (trim a.subject_id))) [
      | inr outside ↦ rw (right, outside) (sym (append-nil _))
      | inl inside ↦ rw (right, inside) (would_apply-settle_alias (row_of_alias a) n a report)
    ]
  ]

  would_apply-validate_relation_input :
      (n : ℕ) (r : SemanticRelationInput) (report : SemanticImportReport)
      → (validate_relation_input subject_exists in_unit supply request t n r report).would_apply
        ≡ report.would_apply ++ relation_new n r
  unfolding validate_relation_input
  would_apply-validate_relation_input n r report =
      let problems = relation_problems subject_exists in_unit supply request r in
      elim (Bool-cases (is_empty problems)) [
        | inr wrong ↦ rw wrong (
            would_apply-push_rejections (push_rejected_relation r) (λ s q. refl) problems report
            ∙ sym (append-nil _))
        | inl right ↦ elim (Bool-cases (in_scope (trim r.from_subject_id))) [
          | inr outside ↦ rw (right, outside) (sym (append-nil _))
          | inl inside ↦ elim (Bool-cases (in_scope (trim r.to_subject_id))) [
            | inr outside ↦ rw (right, inside, outside) (sym (append-nil _))
            | inl both ↦
                rw (right, inside, both)
                  (would_apply-settle_relation
                    (get_active_relation t request.profile_id request.workspace_id
                      (trim r.from_subject_id) (trim r.relation_type) (trim r.to_subject_id))
                    n r report)
          ]
        ]
      ]

  would_apply-validate_aliases :
      (n : ℕ) (aliases : List SemanticAliasInput) (report : SemanticImportReport)
      → (validate_aliases subject_exists in_unit supply request t n aliases report).would_apply
        ≡ report.would_apply ++ aliases_new n aliases
  unfolding validate_aliases
  would_apply-validate_aliases n [] report = sym (append-nil _)
  would_apply-validate_aliases n (a ∷ aliases) report =
      would_apply-validate_aliases (suc n) aliases
        (validate_alias subject_exists in_unit supply request t n a report)
      ∙ ap (λ xs. xs ++ aliases_new (suc n) aliases) (would_apply-validate_alias n a report)
      ∙ append_assoc report.would_apply (alias_new n a) (aliases_new (suc n) aliases)

  would_apply-validate_relations :
      (n : ℕ) (relations : List SemanticRelationInput) (report : SemanticImportReport)
      → (validate_relations subject_exists in_unit supply request t n relations report).would_apply
        ≡ report.would_apply ++ relations_new n relations
  unfolding validate_relations
  would_apply-validate_relations n [] report = sym (append-nil _)
  would_apply-validate_relations n (r ∷ relations) report =
      would_apply-validate_relations (suc n) relations
        (validate_relation_input subject_exists in_unit supply request t n r report)
      ∙ ap (λ xs. xs ++ relations_new (suc n) relations)
          (would_apply-validate_relation_input n r report)
      ∙ append_assoc report.would_apply (relation_new n r) (relations_new (suc n) relations)

  -- the report of the loops of a preview
  abbrev pub previewed : SemanticImportReport
  previewed = validate_relations subject_exists in_unit supply request t 0 request.relations (
      validate_aliases subject_exists in_unit supply request t 0 request.aliases
        (empty_report request))

  pub would_apply-previewed :
      previewed.would_apply ≡ aliases_new 0 request.aliases ++ relations_new 0 request.relations
  would_apply-previewed =
      would_apply-validate_relations 0 request.relations _
      ∙ ap (λ xs. xs ++ relations_new 0 request.relations)
          (would_apply-validate_aliases 0 request.aliases (empty_report request))

  -- A preview fails by the shape of the request, and by nothing else.
  pub preview_of_shape :
      validate_request_shape request ≡ ok tt
      → preview_semantic_import subject_exists in_unit supply request t
        ≡ ok (refresh_counts previewed)
  unfolding preview_semantic_import
  preview_of_shape h = rw (h, preview_semantic_import) refl

  pub preview_of_misfit :
      (e : Error)
      → validate_request_shape request ≡ err e
      → preview_semantic_import subject_exists in_unit supply request t ≡ err e
  unfolding preview_semantic_import
  preview_of_misfit e h = rw (h, preview_semantic_import) refl
