-- ===== src/Examples/Imports.antt =====
-- The imports of src/semantic_import.rs and the activation of src/activation.rs, on small inputs.
use codex_memoryd.Prelude.{
  ℕ, ◌*◌, ◌/◌, String, Bool, true, false, ◌≡◌, ◌↔◌, refl, Option, none, some, [], ◌∷◌, any,
  is_empty, push_str, decimal, arith, mem_str, trim, length,
}
use codex_memoryd.Domain.MemoryRecord.{F64, f64_one}
use codex_memoryd.Errors.{ok, err, fail, profile_boundary_denied}
use codex_memoryd.Recall.Float.{Float}
use codex_memoryd.Store.Procedures.{Procedure}
use codex_memoryd.Store.Semantics.{
  Tables, insert_or_get_subject_alias, insert_or_get_relation, insert_alias, insert_relation,
  validate_relation, get_subject_alias, get_active_relation,
}
use codex_memoryd.Store.Semantics.Invariant.{IsSound}
use codex_memoryd.Semantic.{
  SemanticImportRequest, SemanticImportReport, Supply, preview_semantic_import,
  validate_request_shape, validate_alias, validate_aliases, validate_relation_input,
  validate_relations, settle_alias, settle_relation, push_rejections, empty_report,
}
use codex_memoryd.Semantic.Apply.{
  Progress, apply_semantic_import, apply_previewed, apply_entries, apply_entry, apply_alias,
  apply_relation,
}
use codex_memoryd.Semantic.Apply.Laws.{apply_semantic_import_twice}
use codex_memoryd.Semantic.Apply.Invariant.{apply_semantic_import-IsSound}
use codex_memoryd.Activation.{
  token_set, cue_tokens, ge, jaccard, coverage, negative_match_from, evaluate_with,
}
use codex_memoryd.Activation.Laws.{IsOrdered, resembles, evaluate_with_iff}
use codex_memoryd.Examples.Answers.{hundredths_only}
use codex_memoryd.Examples.Lifecycles.{procedure}

abbrev known : String → String → String → Bool
known profile_id workspace_id id = mem_str id ("s1" ∷ "s2" ∷ [])

abbrev any_number : F64 → Bool
any_number c = true

abbrev numbered : String → Supply
numbered prefix = record {
  alias_id = λ n. push_str prefix (decimal n);
  alias_time = λ n. "2025-06-01";
  relation_id = λ n. push_str prefix (push_str "r" (decimal n));
  relation_time = λ n. "2025-06-01";
}

abbrev request : SemanticImportRequest
request = record {
  profile_id = "work";
  workspace_id = "w1";
  aliases =
      record { subject_id = "s1"; alias_key = " memoryd "; source_evidence = "said so" }
      ∷ record { subject_id = "s3"; alias_key = "other"; source_evidence = "said so" }
      ∷ [];
  relations =
      record {
        from_subject_id = "s1";
        relation_type = "uses";
        to_subject_id = "s2";
        confidence = f64_one;
        source_episode_ids = "e1" ∷ [];
        source_evidence = some "seen";
      }
      ∷ [];
}

-- two aliases with one key
abbrev divided : SemanticImportRequest
divided = record request {
  aliases =
      record { subject_id = "s1"; alias_key = "memoryd"; source_evidence = "said so" }
      ∷ record { subject_id = "s2"; alias_key = "memoryd"; source_evidence = "said so" }
      ∷ [];
  relations = [];
}

abbrev no_rows : Tables
no_rows = record { aliases = []; relations = [] }

abbrev import : String → Tables → SemanticImportRequest → Progress
import prefix = apply_semantic_import known "sqlite" "json" any_number (numbered prefix)

abbrev applied_of : Progress → Option ℕ
applied_of (t, ok report) = some (length report.applied)
applied_of (t, err e) = none

test_applied : applied_of (import "a" no_rows request) ≡ some 2
unfolding apply_semantic_import apply_previewed apply_entries apply_entry preview_semantic_import
    validate_request_shape validate_aliases validate_relations validate_alias
    validate_relation_input insert_or_get_subject_alias insert_or_get_relation insert_alias
    insert_relation validate_relation get_subject_alias get_active_relation trim decimal
test_applied = refl

-- The preview of a request that names two subjects by one key rejects nothing, and its import writes
-- the first alias before it fails.
test_divided :
    (apply_semantic_import known "sqlite" "json" any_number (numbered "a") no_rows divided).1
    ≡ fail profile_boundary_denied "subject alias already resolves to a different scoped subject"
unfolding apply_semantic_import apply_previewed apply_entries apply_entry preview_semantic_import
    validate_request_shape validate_aliases validate_relations validate_alias
    validate_relation_input insert_or_get_subject_alias insert_or_get_relation insert_alias
    insert_relation validate_relation get_subject_alias get_active_relation trim decimal apply_alias
    settle_alias push_rejections
test_divided = refl

test_divided_writes : length (import "a" no_rows divided).0.aliases ≡ 1
unfolding apply_semantic_import apply_previewed apply_entries apply_entry preview_semantic_import
    validate_request_shape validate_aliases validate_relations validate_alias
    validate_relation_input insert_or_get_subject_alias insert_or_get_relation insert_alias
    insert_relation validate_relation get_subject_alias get_active_relation trim decimal apply_alias
    settle_alias push_rejections
test_divided_writes = refl

abbrev first_tables : Tables
first_tables = (import "a" no_rows request).0

apply_semantic_import-IsSound_example : IsSound known "sqlite" (import "a" no_rows request).0
apply_semantic_import-IsSound_example =
    apply_semantic_import-IsSound known "sqlite" "json" any_number (numbered "a") no_rows request
      (record { keys = tt; edges = tt; named = tt; joined = tt })

abbrev first_report : SemanticImportReport
first_report = elim (import "a" no_rows request).1 [ ok r ↦ r | err e ↦ empty_report request ]

apply_semantic_import_twice_example :
    (again : SemanticImportReport) × (import "b" first_tables request ≡ (first_tables, ok again))
    × (again.applied ≡ [])
unfolding apply_semantic_import apply_previewed apply_entries apply_entry preview_semantic_import
    validate_request_shape validate_aliases validate_relations validate_alias
    validate_relation_input insert_or_get_subject_alias insert_or_get_relation insert_alias
    insert_relation validate_relation get_subject_alias get_active_relation trim decimal apply_alias
    apply_relation settle_alias settle_relation push_rejections
apply_semantic_import_twice_example =
    apply_semantic_import_twice known "sqlite" "json" any_number (numbered "a") (numbered "b")
      request no_rows first_tables first_report refl

abbrev dividing : Float
dividing = record hundredths_only { div = λ a b. (a * 100) / b }

dividing-IsOrdered : IsOrdered dividing (λ a. true)
dividing-IsOrdered = record {
  zero_is_number = refl;
  quotient_is_number = λ m n h. refl;
  above = λ a b bound h k l. ground arith;
  not_above = λ a b bound h k l. ground arith;
}

abbrev cautious : Procedure
cautious = record (procedure "p1") { negative_examples = "release notes only" ∷ [] }

evaluate_with_example :
    ((evaluate_with dividing cautious "how should we release" 34 50).activate ≡ true) ↔ (
      (is_empty (token_set "how should we release") ≡ false)
      × (any
            (resembles dividing
              (λ a. true)
              dividing-IsOrdered
              50
              (token_set "how should we release"))
            cautious.negative_examples
          ≡ false)
      × (ge dividing
            (coverage dividing (token_set "how should we release") (cue_tokens cautious))
            34
          ≡ true))
evaluate_with_example =
    evaluate_with_iff dividing (λ a. true) dividing-IsOrdered cautious "how should we release" 34 50
      refl

test_activates : (evaluate_with dividing cautious "how should we release" 34 50).activate ≡ true
unfolding evaluate_with token_set cue_tokens negative_match_from jaccard coverage
test_activates = refl
