-- ===== src/Consolidation/Batch.antt =====
-- What `ConsolidationBatch::validate` and the other validations of src/consolidation/types.rs accept.
use codex_memoryd.Prelude.{
  ℕ, ◌≤◌, ◌<◌, false, ◌≡◌, refl, ◌↔◌, none, List, [], ◌∷◌, length, str_is_empty, arith, All, eq_iff,
}
use codex_memoryd.Consolidation.Types.{
  consolidation_contract_version, max_items, max_bytes, ConsolidationBudget, validate_budget,
  ConsolidationPolicy, validate_policy, ConsolidationCandidate, validate_candidate,
  ConsolidationBatch, validate_batch, validate_candidates, blank_when_present,
}

abbrev Within : ℕ → ℕ → Type 0
Within limit n = (0 < n) × (n ≤ limit)

-- A budget is accepted exactly when every limit is positive and within its bound.
pub validate_budget_iff :
    (b : ConsolidationBudget)
    → (validate_budget b ≡ none) ↔ (
        Within max_items b.max_candidates
        × Within max_items b.max_source_records
        × Within max_items b.max_provider_calls
        × Within max_bytes b.max_input_bytes
        × Within max_bytes b.max_output_bytes)
unfolding validate_budget
validate_budget_iff b = ground arith

-- A policy is accepted exactly when it has the current contract version, between 1 and 10,000
-- scopes, a positive retention, and a budget whose every limit is positive and within its bound.
pub validate_policy_iff :
    (p : ConsolidationPolicy)
    → (validate_policy p ≡ none) ↔ (
        (p.version ≡ consolidation_contract_version)
        × Within max_items (length p.scopes)
        × (0 < p.retention_days)
        × (Within max_items p.budget.max_candidates
            × Within max_items p.budget.max_source_records
            × Within max_items p.budget.max_provider_calls
            × Within max_bytes p.budget.max_input_bytes
            × Within max_bytes p.budget.max_output_bytes))
unfolding validate_policy
validate_policy_iff p =
    grind (arith, eq_iff p.version consolidation_contract_version, validate_budget_iff p.budget)

validate_candidates_iff :
    (cs : List ConsolidationCandidate)
    → (validate_candidates cs ≡ none) ↔ All (λ c. validate_candidate c ≡ none) cs
unfolding validate_candidates
validate_candidates_iff [] = (λ _. tt, λ _. refl)
validate_candidates_iff (c ∷ cs) = ground (arith, validate_candidates_iff cs)

-- A batch is accepted exactly when its version and identities are there, its repository is not
-- blank, and it holds between 1 and 10,000 candidates, each of them accepted.
pub validate_batch_iff :
    (b : ConsolidationBatch)
    → (validate_batch b ≡ none) ↔ (
        (b.version ≡ consolidation_contract_version)
        × (str_is_empty b.batch_id ≡ false)
        × (str_is_empty b.policy_digest ≡ false)
        × (str_is_empty b.snapshot_digest ≡ false)
        × (blank_when_present b.repo_id ≡ false)
        × Within max_items (length b.candidates)
        × All (λ c. validate_candidate c ≡ none) b.candidates)
unfolding validate_batch
validate_batch_iff b =
    ground
      (arith, eq_iff b.version consolidation_contract_version, validate_candidates_iff b.candidates)
