-- ===== src/Recall/Withheld.antt =====
-- `build_withheld` of src/recall.rs: the report of what was not recalled.
use codex_memoryd.Prelude.{
  ℕ, ◌+◌, ◌<◌, String, ◌≡◌, List, [], ◌∷◌, ◌++◌, arith, ltb, All, if◌then◌else◌,
}
use codex_memoryd.Recall.Admission.{RecallPolicyWithheldCounts}
use codex_memoryd.Recall.Admission.Laws.{total}

pub record RecallWithheld : Type 0 where
  pub reason : String
  pub count : ℕ
  pub gates : List String

-- one `if n > 0 { withheld.push(..) }`
unfoldable pub report : String → ℕ → List String → List RecallWithheld
report reason n gates =
    if ltb 0 n then record { reason = reason; count = n; gates = gates } ∷ [] else []

unfoldable pub build_withheld : ℕ → ℕ → ℕ → ℕ → ℕ → RecallPolicyWithheldCounts → List RecallWithheld
build_withheld archived secret_blocked quarantined type_filtered pack_withheld policy =
    report "archived" archived ("active_records" ∷ [])
    ++ (report "secret_blocked" secret_blocked ("secret_blocked" ∷ [])
        ++ (report "quarantined" quarantined ("trust_state" ∷ "promotion_required" ∷ [])
            ++ (report "type_filtered" type_filtered ("include_exclude_types" ∷ [])
                ++ (report "policy_quarantined" policy.quarantined_
                      ("admission_policy" ∷ "quarantine" ∷ [])
                    ++ (report "policy_high_risk" policy.high_risk_
                          ("admission_policy" ∷ "source_risk" ∷ [])
                        ++ (report "policy_unsafe" policy.unsafe_record
                              ("admission_policy" ∷ "unsafe" ∷ [])
                            ++ (report "policy_superseded" policy.superseded_
                                  ("admission_policy" ∷ "supersession" ∷ [])
                                ++ (report "temporal_historical" policy.temporal_historical_
                                      ("temporal_state" ∷ "valid_time" ∷ [])
                                    ++ (report "temporal_planned" policy.temporal_planned_
                                          ("temporal_state" ∷ "valid_from" ∷ [])
                                        ++ report "pack_truncated" pack_withheld
                                            ("max_tokens" ∷ "result_limit" ∷ []))))))))))

abbrev pub sum_counts : List RecallWithheld → ℕ
sum_counts [] = 0
sum_counts (w ∷ ws) = w.count + sum_counts ws

abbrev Positive : List RecallWithheld → Type 0
Positive ws = All (λ w. 0 < w.count) ws

PositiveSum : ℕ → List RecallWithheld → Type 0
PositiveSum n ws = (sum_counts ws ≡ n) × All (λ w. 0 < w.count) ws

report_alone :
    (reason : String) (n : ℕ) (gates : List String) → PositiveSum n (report reason n gates)
unfolding report PositiveSum
report_alone reason n gates = ground arith

report_then :
    (reason : String) (n : ℕ) (gates : List String) (k : ℕ) (ws : List RecallWithheld)
    → PositiveSum k ws
    → PositiveSum (n + k) (report reason n gates ++ ws)
unfolding report PositiveSum
report_then reason n gates k ws h = ground arith

build_withheld_sums :
    (archived secret_blocked quarantined type_filtered pack_withheld : ℕ)
    (policy : RecallPolicyWithheldCounts)
    → PositiveSum
        (archived
          + (secret_blocked
              + (quarantined
                  + (type_filtered
                      + (policy.quarantined_
                          + (policy.high_risk_
                              + (policy.unsafe_record
                                  + (policy.superseded_
                                      + (policy.temporal_historical_
                                          + (policy.temporal_planned_ + pack_withheld))))))))))
        (build_withheld archived secret_blocked quarantined type_filtered pack_withheld policy)
unfolding build_withheld
build_withheld_sums a s q t p policy = report_then "archived" a _ _ _ (
    report_then "secret_blocked" s _ _ _ (
      report_then "quarantined" q _ _ _ (
        report_then "type_filtered" t _ _ _ (
          report_then "policy_quarantined" policy.quarantined_ _ _ _ (
            report_then "policy_high_risk" policy.high_risk_ _ _ _ (
              report_then "policy_unsafe" policy.unsafe_record _ _ _ (
                report_then "policy_superseded" policy.superseded_ _ _ _ (
                  report_then "temporal_historical" policy.temporal_historical_ _ _ _ (
                    report_then "temporal_planned" policy.temporal_planned_ _ _ _
                      (report_alone "pack_truncated" p _))))))))))

-- The report accounts for every omission: its counts add up to all that was archived, blocked,
-- quarantined, filtered by type, denied by policy or time, or left out by the packing, and no entry
-- has the count 0.
pub build_withheld_accounts :
    (archived secret_blocked quarantined type_filtered pack_withheld : ℕ)
    (policy : RecallPolicyWithheldCounts)
    → let ws =
        build_withheld archived secret_blocked quarantined type_filtered pack_withheld policy in
      (sum_counts ws
        ≡ archived + secret_blocked + quarantined + type_filtered + pack_withheld + total policy)
      × All (λ w. 0 < w.count) ws
unfolding PositiveSum
build_withheld_accounts a s q t p policy =
    let sums = build_withheld_sums a s q t p policy in (omega (arith, sums.0), sums.1)
