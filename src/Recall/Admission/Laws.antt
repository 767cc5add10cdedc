-- ===== src/Recall/Admission/Laws.antt =====
-- When src/recall.rs admits a record, in each of its three temporal modes, and what the admission
-- of a list of candidates keeps and counts.
use codex_memoryd.Prelude.{
  ℕ, ◌+◌, String, Bool, true, false, not, ◌≡◌, ◌≢◌, ◌⊎◌, sym, ◌∙◌, ◌↔◌, none, some, List, [], ◌∷◌,
  ◌++◌, select, length, length-append, arith, eq_iff, Option-cases, inl, inr, if◌then◌else◌,
}
use mathlib.Core.List.{append_assoc, append-nil}
use codex_memoryd.Domain.TemporalState.{current}
use codex_memoryd.Domain.MemoryRecord.{MemoryRecord}
use codex_memoryd.Recall.Admission.{
  RecallDenyReason, quarantined, high_risk, unsafe, superseded, temporal_historical,
  temporal_planned, RecallParams, RecallPolicyWithheldCounts, Admitted, names, policy_state,
  risk_reason, policy_recall_deny_reason, current_temporal_deny_reason, as_of_temporal_deny_reason,
  recall_deny_reason, after, at_or_before, type_allowed, increment, admit_one, admit,
  nothing_admitted,
}

-- Nothing in the record's trust state or metadata withholds it.
pub record IsSafe (r : MemoryRecord) (withhold_superseded : Bool) : Type 0 where
  pub trusted : r.trust_state ≢ "quarantined"
  pub not_quarantined : names (policy_state r) ("quarantined" ∷ "quarantine" ∷ []) ≡ false
  pub not_blocked :
      names (policy_state r) ("unsafe" ∷ "rejected" ∷ "reject" ∷ "blocked" ∷ []) ≡ false
  pub not_superseded :
      (withhold_superseded ≡ false) ⊎ (names (policy_state r) ("superseded" ∷ []) ≡ false)
  pub low_risk : risk_reason r ≡ none

-- The record is current, and its validity spans the time.
pub record IsCurrentAt (r : MemoryRecord) (now : String) : Type 0 where
  pub state : r.temporal_state ≡ current
  pub begun : after r.valid_from now ≡ false
  pub unexpired : at_or_before r.valid_until now ≡ false
  pub valid : at_or_before r.invalidated_at now ≡ false

-- The record was known and valid at the time, whatever its state is now.
pub record WasValidAt (r : MemoryRecord) (time : String) : Type 0 where
  pub begun : after r.valid_from time ≡ false
  pub known : after r.observed_at time ≡ false
  pub unexpired : at_or_before r.valid_until time ≡ false
  pub valid : at_or_before r.invalidated_at time ≡ false

policy_iff : (r : MemoryRecord) (w : Bool) → (policy_recall_deny_reason r w ≡ none) ↔ IsSafe r w
unfolding policy_recall_deny_reason
policy_iff r w = (
  λ h. record {
    trusted = λ e. ground (arith, eq_iff r.trust_state "quarantined");
    not_quarantined = ground arith;
    not_blocked = ground arith;
    not_superseded = ground arith;
    low_risk = ground arith;
  },
  λ s. ground (arith, eq_iff r.trust_state "quarantined"),
)

current_iff :
    (r : MemoryRecord) (now : String)
    → (current_temporal_deny_reason r now ≡ none) ↔ IsCurrentAt r now
unfolding current_temporal_deny_reason
current_iff r now = ground arith

as_of_iff :
    (r : MemoryRecord) (time : String)
    → (as_of_temporal_deny_reason r time ≡ none) ↔ WasValidAt r time
unfolding as_of_temporal_deny_reason
as_of_iff r time = ground arith

module _ (r : MemoryRecord) (p : RecallParams) (now : String) where
  -- Without a time and without history, a record is admitted exactly when nothing withholds it, not
  -- even that it was superseded, and it is current and valid now.
  pub default_admits_iff :
      p.as_of ≡ none
      → p.include_history ≡ false
      → (recall_deny_reason r p now ≡ none) ↔ (IsSafe r true × IsCurrentAt r now)
  unfolding recall_deny_reason
  default_admits_iff a h = ground (arith, policy_iff r true, current_iff r now)

  -- As of a time, a record is admitted exactly when nothing but its supersession withholds it, and
  -- it was known and valid then; the present time does not matter.
  pub as_of_admits_iff :
      (time : String)
      → p.as_of ≡ some time
      → p.include_history ≡ false
      → (recall_deny_reason r p now ≡ none) ↔ (IsSafe r false × WasValidAt r time)
  unfolding recall_deny_reason
  as_of_admits_iff time a h = ground (arith, policy_iff r false, as_of_iff r time)

  -- With history, time withholds nothing: quarantine, blocking and risk still do.
  pub history_admits_iff :
      p.include_history ≡ true → (recall_deny_reason r p now ≡ none) ↔ IsSafe r false
  unfolding recall_deny_reason
  history_admits_iff h = ground (arith, policy_iff r false)

abbrev pub passes : RecallParams → String → MemoryRecord → Bool
passes p now r = elim (recall_deny_reason r p now) [
  | some _ ↦ false
  | none ↦ type_allowed r.record_type p.include_types p.exclude_types
]

abbrev pub total : RecallPolicyWithheldCounts → ℕ
total c =
    c.quarantined_ + c.high_risk_ + c.unsafe_record + c.superseded_ + c.temporal_historical_
    + c.temporal_planned_

total-increment :
    (c : RecallPolicyWithheldCounts) (reason : RecallDenyReason)
    → total (increment c reason) ≡ total c + 1
unfolding increment
total-increment c reason = ground arith

records-admit_one :
    (p : RecallParams) (now : String) (r : MemoryRecord) (rs : List MemoryRecord) (a : Admitted)
    → (admit_one p now r a).records ++ select (passes p now) rs
      ≡ a.records ++ select (passes p now) (r ∷ rs)
unfolding admit_one
records-admit_one p now r rs a =
    ground (arith, append_assoc a.records (r ∷ []) (select (passes p now) rs))

records-admit :
    (p : RecallParams) (now : String) (rs : List MemoryRecord) (a : Admitted)
    → (admit p now rs a).records ≡ a.records ++ select (passes p now) rs
unfolding admit
records-admit p now [] a = sym (append-nil a.records)
records-admit p now (r ∷ rs) a =
    records-admit p now rs (admit_one p now r a) ∙ records-admit_one p now r rs a

abbrev seen : Admitted → ℕ
seen a = length a.records + a.type_filtered + total a.withheld

total-admit_one :
    (p : RecallParams) (now : String) (r : MemoryRecord) (a : Admitted)
    → seen (admit_one p now r a) ≡ seen a + 1
unfolding admit_one
total-admit_one p now r a = elim (Option-cases (recall_deny_reason r p now)) [
  | inl e ↦ rw (e, admit_one) (ground (arith, length-append a.records (r ∷ [])))
  | inr (reason, e) ↦ rw (e, admit_one) (omega (arith, total-increment a.withheld reason))
]

total-admit :
    (p : RecallParams) (now : String) (rs : List MemoryRecord) (a : Admitted)
    → let b = admit p now rs a in
      length b.records + b.type_filtered + total b.withheld
      ≡ length a.records + a.type_filtered + total a.withheld + length rs
unfolding admit
total-admit p now [] a = omega arith
total-admit p now (r ∷ rs) a =
    omega (arith, total-admit p now rs (admit_one p now r a), total-admit_one p now r a)

abbrev pub same_reason : RecallDenyReason → RecallDenyReason → Bool
same_reason quarantined quarantined = true
same_reason high_risk high_risk = true
same_reason unsafe unsafe = true
same_reason superseded superseded = true
same_reason temporal_historical temporal_historical = true
same_reason temporal_planned temporal_planned = true
same_reason _ _ = false

-- the count that a report names after a reason
abbrev pub count_of : RecallDenyReason → RecallPolicyWithheldCounts → ℕ
count_of quarantined c = c.quarantined_
count_of high_risk c = c.high_risk_
count_of unsafe c = c.unsafe_record
count_of superseded c = c.superseded_
count_of temporal_historical c = c.temporal_historical_
count_of temporal_planned c = c.temporal_planned_

-- a record denied for a reason
abbrev pub is_denied : RecallParams → String → RecallDenyReason → MemoryRecord → Bool
is_denied p now reason r = elim (recall_deny_reason r p now) [
  | some found ↦ same_reason reason found
  | none ↦ false
]

-- a record of a type that is not asked for, which nothing denies
abbrev pub is_mistyped : RecallParams → String → MemoryRecord → Bool
is_mistyped p now r = elim (recall_deny_reason r p now) [
  | some _ ↦ false
  | none ↦ not (type_allowed r.record_type p.include_types p.exclude_types)
]

count_of-increment :
    (reason found : RecallDenyReason) (c : RecallPolicyWithheldCounts)
    → count_of reason (increment c found)
      ≡ count_of reason c + (if same_reason reason found then 1 else 0)
unfolding increment
count_of-increment reason found c = ground arith

count_of-admit :
    (p : RecallParams) (now : String) (reason : RecallDenyReason) (rs : List MemoryRecord)
    (a : Admitted)
    → count_of reason (admit p now rs a).withheld
      ≡ count_of reason a.withheld + length (select (is_denied p now reason) rs)
unfolding admit admit_one
count_of-admit p now reason [] a = omega arith
count_of-admit p now reason (r ∷ rs) a =
    let rest = count_of-admit p now reason rs (admit_one p now r a) in
    elim (Option-cases (recall_deny_reason r p now)) [
      | inl e ↦ ground (arith, rest)
      | inr (found, e) ↦ ground (arith, rest, count_of-increment reason found a.withheld)
    ]

type_filtered-admit :
    (p : RecallParams) (now : String) (rs : List MemoryRecord) (a : Admitted)
    → (admit p now rs a).type_filtered ≡ a.type_filtered + length (select (is_mistyped p now) rs)
unfolding admit admit_one
type_filtered-admit p now [] a = omega arith
type_filtered-admit p now (r ∷ rs) a =
    let rest = type_filtered-admit p now rs (admit_one p now r a) in ground (arith, rest)

none_before :
    (reason : RecallDenyReason) (n : ℕ) → count_of reason nothing_admitted.withheld + n ≡ n
none_before reason n = ground arith

-- The records kept are exactly the candidates that are not denied and whose type is allowed, in
-- their order. The count of each of the six reasons is the number of the candidates that are denied
-- for it, the count of those filtered by type is the number of the candidates that nothing denies
-- and whose type is not allowed, and all these together are the candidates.
pub admit_accounts :
    (p : RecallParams) (now : String) (candidates : List MemoryRecord)
    → let a = admit p now candidates nothing_admitted in
      (a.records ≡ select (passes p now) candidates)
      × (length a.records + a.type_filtered + total a.withheld ≡ length candidates)
      × (a.type_filtered ≡ length (select (is_mistyped p now) candidates))
      × ((reason : RecallDenyReason)
          → count_of reason a.withheld ≡ length (select (is_denied p now reason) candidates))
admit_accounts p now candidates = (
  records-admit p now candidates nothing_admitted,
  omega (arith, total-admit p now candidates nothing_admitted),
  omega (arith, type_filtered-admit p now candidates nothing_admitted),
  λ reason. count_of-admit p now reason candidates nothing_admitted ∙ none_before reason _,
)
