-- ===== src/Consolidation/Types.antt =====
-- src/consolidation/types.rs: the contract types and their validation. A validation error is its
-- message, `Option String` for `Result<(), String>` with `none` for `Ok(())`.
use codex_memoryd.Prelude.{
  ℕ, ◌*◌, String, Bool, false, not, ◌||◌, Option, none, some, List, [], ◌∷◌, is_empty, length, ltb,
  ◌==◌, str_eq, str_is_empty, trim, if◌then◌else◌,
}

abbrev pub consolidation_contract_version : String
consolidation_contract_version = "consolidation.v1"

abbrev pub max_items : ℕ
max_items = 10000

abbrev pub max_bytes : ℕ
max_bytes = 4 * 1024 * 1024

pub data ConsolidationMode : Type 0 where
  off preview automatic : ConsolidationMode

pub data ConsolidationOperation : Type 0 where
  adopt_statement adopt_inference reinforce supersede no_change defer reject :
      ConsolidationOperation

pub ConsolidationOperation-discrete : Discrete ConsolidationOperation
ConsolidationOperation-discrete = hlevel

pub record ConsolidationBudget : Type 0 where
  pub max_candidates : ℕ
  pub max_source_records : ℕ
  pub max_provider_calls : ℕ
  pub max_input_bytes : ℕ
  pub max_output_bytes : ℕ

abbrev bad_item_limit : ℕ → Bool
bad_item_limit value = value == 0 || ltb max_items value

unfoldable pub validate_budget : ConsolidationBudget → Option String
validate_budget b =
    if bad_item_limit b.max_candidates
      || bad_item_limit b.max_source_records
      || bad_item_limit b.max_provider_calls
    then some "budget item limits must be finite and within bounds"
    else if b.max_input_bytes == 0
        || b.max_output_bytes == 0
        || ltb max_bytes b.max_input_bytes
        || ltb max_bytes b.max_output_bytes
    then some "budget byte limits are invalid"
    else none

pub record ConsolidationPolicy : Type 0 where
  pub version : String  -- consolidation_contract_version
  pub mode : ConsolidationMode
  pub scopes : List String
  pub claim_classes : List String
  pub source_classes : List String
  pub operations : List ConsolidationOperation
  pub budget : ConsolidationBudget
  pub retention_days : ℕ
  pub semantic_validation : Bool
  pub legacy_metadata : Option String  -- the JSON text; nothing in the crate's policy reads it

unfoldable pub validate_policy : ConsolidationPolicy → Option String
unfolding validate_budget
validate_policy p =
    if not (str_eq p.version consolidation_contract_version)
    then some "unsupported consolidation contract version"
    else if is_empty p.scopes || ltb max_items (length p.scopes)
    then some "policy scopes must be bounded and non-empty"
    else if p.retention_days == 0
    then some "retention_days must be positive"
    else validate_budget p.budget

pub record ConsolidationCandidate : Type 0 where
  pub candidate_id : String
  pub output_digest : String
  pub claim : String
  pub claim_class : String
  pub subject : String
  pub inferred : Bool
  pub source_ids : List String
  pub supporting_spans : List String
  pub supersedes : List String
  pub temporal_state : Option String
  pub valid_until : Option String
  pub historical_reason : Option String

unfoldable pub validate_candidate : ConsolidationCandidate → Option String
validate_candidate c =
    if str_is_empty c.candidate_id || str_is_empty c.output_digest || str_is_empty c.claim
    then some "candidate identity and claim are required"
    else if is_empty c.source_ids
        || ltb max_items (length c.source_ids)
        || ltb max_items (length c.supporting_spans)
        || ltb max_items (length c.supersedes)
    then some "candidate evidence is missing or unbounded"
    else none

pub record ConsolidationSourceCursor : Type 0 where
  pub since : Option String
  pub until : Option String
  pub explicit_since : Bool

pub record ConsolidationBatch : Type 0 where
  pub version : String  -- consolidation_contract_version
  pub batch_id : String
  pub policy_digest : String
  pub profile : String
  pub workspace : String
  pub repo_id : Option String
  pub scope : String
  pub source_cursor : ConsolidationSourceCursor
  pub snapshot_digest : String
  pub candidates : List ConsolidationCandidate

-- the loop over the candidates, which returns the first error
unfoldable pub validate_candidates : List ConsolidationCandidate → Option String
unfolding validate_candidate
validate_candidates [] = none
validate_candidates (c ∷ more) = elim (validate_candidate c) [
  | some e ↦ some e
  | none ↦ validate_candidates more
]

abbrev pub blank_when_present : Option String → Bool
blank_when_present none = false
blank_when_present (some r) = str_is_empty (trim r)

unfoldable pub validate_batch : ConsolidationBatch → Option String
unfolding validate_candidates
validate_batch b =
    if not (str_eq b.version consolidation_contract_version)
      || str_is_empty b.batch_id
      || str_is_empty b.policy_digest
      || str_is_empty b.snapshot_digest
    then some "batch identity or contract version is invalid"
    else if blank_when_present b.repo_id
    then some "batch repository scope must be non-empty when present"
    else if is_empty b.candidates || ltb max_items (length b.candidates)
    then some "batch candidates must be bounded and non-empty"
    else validate_candidates b.candidates

pub record ConsolidationDecision : Type 0 where
  pub candidate_id : String
  pub output_digest : String
  pub operation : ConsolidationOperation
  pub reason : String
  pub distinct_evidence_roots : List String
  pub supersedes : List String
  pub validator : Option String
