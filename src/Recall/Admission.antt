-- ===== src/Recall/Admission.antt =====
-- src/recall.rs: which candidate records may be recalled, by policy, by time and by type.
pub mod Laws
use codex_memoryd.Prelude.{
  ℕ, ◌+◌, String, Bool, true, false, not, ◌&&◌, ◌||◌, Option, none, some, List, [], ◌∷◌, ◌++◌, any,
  is_empty, str_eq, str_lt, mem_str, trim, to_ascii_lowercase, replace_char, if◌then◌else◌,
}
use codex_memoryd.Prelude.Int.{ℤ}
use codex_memoryd.Domain.Profile.{Profile}
use codex_memoryd.Domain.RecordType.{RecordType}
use codex_memoryd.Domain.TemporalState.{TemporalState}
use codex_memoryd.Domain.MemoryRecord.{MemoryRecord, Metadata}

pub data RecallDenyReason : Type 0 where
  quarantined high_risk unsafe superseded temporal_historical temporal_planned : RecallDenyReason

-- `repo` is the `repo_id` of the repository identity, which is all that is read of it
pub record RecallParams : Type 0 where
  pub profile : Profile
  pub workspace : String
  pub repo : Option String
  pub query : String
  pub files : List String
  pub max_tokens : ℕ
  pub pack_mode : String
  pub include_types : List RecordType
  pub exclude_types : List RecordType
  pub recency_days : Option ℤ
  pub now : Option String
  pub as_of : Option String
  pub include_history : Bool

abbrev pub is_some : Option String → Bool
is_some none = false
is_some (some _) = true

-- `timestamp.trim() > cutoff`, on a timestamp that is there
unfoldable pub after : Option String → String → Bool
unfolding str_lt trim
after none cutoff = false
after (some timestamp) cutoff = str_lt cutoff (trim timestamp)

unfoldable pub at_or_before : Option String → String → Bool
unfolding str_lt trim
at_or_before none cutoff = false
at_or_before (some timestamp) cutoff = not (str_lt cutoff (trim timestamp))

unfoldable pub metadata_string : Metadata → String → Option String
metadata_string metadata key = metadata.text key

unfoldable pub normalized_policy_value : String → String
unfolding trim to_ascii_lowercase replace_char
normalized_policy_value value = replace_char "-" "_" (to_ascii_lowercase (trim value))

-- `or_else`
infixr 30 ◌<|>◌
abbrev pub ◌<|>◌ : Option String → Option String → Option String
none <|> o = o
some a <|> o = some a

abbrev pub normalized : Option String → Option String
normalized none = none
normalized (some value) = some (normalized_policy_value value)

-- the first state that the metadata names, normalised
unfoldable pub policy_state : MemoryRecord → Option String
unfolding metadata_string normalized_policy_value
policy_state record_ =
    let m = record_.metadata in
    normalized (
      metadata_string m "state"
      <|> metadata_string m "candidate_state"
      <|> metadata_string m "policy_outcome"
      <|> metadata_string m "admission")

abbrev risky_names : List String
risky_names = "high" ∷ "unsafe" ∷ "blocked" ∷ []

unfoldable pub names : Option String → List String → Bool
names none values = false
names (some value) values = mem_str value values

-- a high source risk, on a record that was never promoted
unfoldable pub risk_reason : MemoryRecord → Option RecallDenyReason
unfolding metadata_string normalized_policy_value names
risk_reason record_ =
    if names (normalized (metadata_string record_.metadata "source_risk")) risky_names
      && not (is_some record_.promoted_at)
    then some high_risk
    else none

-- the `match` on the state
reason_of_state : Option String → Bool → Option RecallDenyReason → Option RecallDenyReason
reason_of_state state withhold_superseded otherwise =
    if names state ("quarantined" ∷ "quarantine" ∷ [])
    then some quarantined
    else if names state ("unsafe" ∷ "rejected" ∷ "reject" ∷ "blocked" ∷ [])
    then some unsafe
    else if names state ("superseded" ∷ []) && withhold_superseded
    then some superseded
    else otherwise

unfoldable pub policy_recall_deny_reason : MemoryRecord → Bool → Option RecallDenyReason
unfolding reason_of_state
policy_recall_deny_reason record_ withhold_superseded =
    if str_eq record_.trust_state "quarantined"
    then some quarantined
    else reason_of_state (policy_state record_) withhold_superseded (risk_reason record_)

abbrev pub is_planned : TemporalState → Bool
is_planned TemporalState.planned = true
is_planned _ = false

abbrev pub is_current : TemporalState → Bool
is_current TemporalState.current = true
is_current _ = false

unfoldable pub current_temporal_deny_reason : MemoryRecord → String → Option RecallDenyReason
current_temporal_deny_reason record_ now =
    if is_planned record_.temporal_state || after record_.valid_from now
    then some temporal_planned
    else if not (is_current record_.temporal_state)
        || at_or_before record_.valid_until now
        || at_or_before record_.invalidated_at now
    then some temporal_historical
    else none

unfoldable pub as_of_temporal_deny_reason : MemoryRecord → String → Option RecallDenyReason
as_of_temporal_deny_reason record_ as_of =
    if after record_.valid_from as_of || after record_.observed_at as_of
    then some temporal_planned
    else if at_or_before record_.valid_until as_of || at_or_before record_.invalidated_at as_of
    then some temporal_historical
    else none

-- the temporal checks, by the mode of the request
temporal_reason : MemoryRecord → RecallParams → String → Option RecallDenyReason
temporal_reason record_ params evaluation_time =
    if params.include_history then none else elim params.as_of [
      | some as_of ↦ as_of_temporal_deny_reason record_ as_of
      | none ↦ current_temporal_deny_reason record_ evaluation_time
    ]

unfoldable pub recall_deny_reason : MemoryRecord → RecallParams → String → Option RecallDenyReason
unfolding temporal_reason
recall_deny_reason record_ params evaluation_time =
    let default_current_mode = not (is_some params.as_of) && not params.include_history in
    elim (policy_recall_deny_reason record_ default_current_mode) [
      | some reason ↦ some reason
      | none ↦ temporal_reason record_ params evaluation_time
    ]

abbrev pub same_type : RecordType → RecordType → Bool
same_type RecordType.preference RecordType.preference = true
same_type RecordType.repo_convention RecordType.repo_convention = true
same_type RecordType.command RecordType.command = true
same_type RecordType.decision RecordType.decision = true
same_type RecordType.gotcha RecordType.gotcha = true
same_type RecordType.landmark RecordType.landmark = true
same_type RecordType.task_checkpoint RecordType.task_checkpoint = true
same_type RecordType.identity RecordType.identity = true
same_type RecordType.workflow_pattern RecordType.workflow_pattern = true
same_type RecordType.other RecordType.other = true
same_type _ _ = false

-- `contains(&t)`
abbrev pub mem_type : RecordType → List RecordType → Bool
mem_type t ts = any (same_type t) ts

unfoldable pub type_allowed : RecordType → List RecordType → List RecordType → Bool
type_allowed t include exclude =
    if mem_type t exclude
    then false
    else if not (is_empty include) && not (mem_type t include)
    then false
    else true

pub record RecallPolicyWithheldCounts : Type 0 where
  pub quarantined_ : ℕ
  pub high_risk_ : ℕ
  pub unsafe_record : ℕ
  pub superseded_ : ℕ
  pub temporal_historical_ : ℕ
  pub temporal_planned_ : ℕ

abbrev pub no_counts : RecallPolicyWithheldCounts
no_counts = record {
  quarantined_ = 0;
  high_risk_ = 0;
  unsafe_record = 0;
  superseded_ = 0;
  temporal_historical_ = 0;
  temporal_planned_ = 0;
}

unfoldable pub increment :
    RecallPolicyWithheldCounts → RecallDenyReason → RecallPolicyWithheldCounts
increment c quarantined = record c { quarantined_ = c.quarantined_ + 1 }
increment c high_risk = record c { high_risk_ = c.high_risk_ + 1 }
increment c unsafe = record c { unsafe_record = c.unsafe_record + 1 }
increment c superseded = record c { superseded_ = c.superseded_ + 1 }
increment c temporal_historical = record c { temporal_historical_ = c.temporal_historical_ + 1 }
increment c temporal_planned = record c { temporal_planned_ = c.temporal_planned_ + 1 }

pub record Admitted : Type 0 where
  pub records : List MemoryRecord
  pub type_filtered : ℕ
  pub withheld : RecallPolicyWithheldCounts

abbrev pub nothing_admitted : Admitted
nothing_admitted = record { records = []; type_filtered = 0; withheld = no_counts }

-- the `filter_map` over the candidates in `recall`, with the counts that it mutates
admit_one : RecallParams → String → MemoryRecord → Admitted → Admitted
admit_one params now r a = elim (recall_deny_reason r params now) [
  | some reason ↦ record a { withheld = increment a.withheld reason }
  | none ↦
      if type_allowed r.record_type params.include_types params.exclude_types
      then record a { records = a.records ++ r ∷ [] }
      else record a { type_filtered = a.type_filtered + 1 }
]

unfoldable pub admit : RecallParams → String → List MemoryRecord → Admitted → Admitted
unfolding admit_one
admit params now [] a = a
admit params now (r ∷ rs) a = admit params now rs (admit_one params now r a)
