-- ===== src/Recall/Pack.antt =====
-- src/recall.rs: the packing of ranked records within the token budget.
pub mod Laws
pub mod Signals
use codex_memoryd.Prelude.{
  ℕ, ◌+◌, ◌-◌, ◌/◌, max, min, String, count, Bool, true, false, not, ◌&&◌, ◌||◌, Option, none, some,
  List, [], ◌∷◌, ◌++◌, is_empty, length, map, find, ltb, leb, ◌==◌, str_eq, mem_str, push_str,
  if◌then◌else◌,
}
use codex_memoryd.Prelude.Int.{ℤ, nat_lt}
use codex_memoryd.Prelude.StrSet.{set_insert}
use codex_memoryd.Domain.Scope
use codex_memoryd.Domain.RecordType
use codex_memoryd.Domain.Sensitivity
use codex_memoryd.Domain.Sensitivity.{Sensitivity}
use codex_memoryd.Domain.MemoryRecord.{F64, Metadata, MemoryRecord}
use codex_memoryd.Errors.{Result, ok, fail, invalid_request}
use codex_memoryd.Ids.{public_handle, memory_ref, source_ref, subject_ref, episode_ref}
use codex_memoryd.Recall.Admission.{metadata_string, ◌<|>◌}
use codex_memoryd.Recall.Facts.{Scored, RecallFact, Citation, fact_of, citation_of}

unfoldable pub estimate_tokens : String → ℕ
estimate_tokens text = max (count text / 4) 1

pub record PackTemplate : Type 0 where
  pub mode : String
  pub budget_tokens : ℕ

abbrev template : String → ℕ → PackTemplate
template m b = record { mode = m; budget_tokens = b }

abbrev pub pack_templates : List PackTemplate
pack_templates =
    template "default" 1200
    ∷ template "debugging" 1000
    ∷ template "onboarding" 1400
    ∷ template "planning" 1300
    ∷ template "active_task" 900
    ∷ template "review" 1100
    ∷ template "personal_context" 900
    ∷ []

abbrev pack_mode_list : String
pack_mode_list =
    "default, debugging, onboarding, planning, active_task, review, or personal_context"

unfoldable pub pack_template : String → Result PackTemplate
pack_template mode = elim (find (λ t. str_eq t.mode mode) pack_templates) [
  | some t ↦ ok t
  | none ↦
      fail invalid_request
        (push_str "unknown pack_mode '" (push_str mode (push_str "'; use " pack_mode_list)))
]

-- the loop of `dedupe_ordered_signals`, with the `seen` set and the signals kept
dedupe_from : List String → List String → List String → List String
unfolding set_insert
dedupe_from seen deduped [] = deduped
dedupe_from seen deduped (signal ∷ more) =
    if mem_str signal seen
    then dedupe_from seen deduped more
    else dedupe_from (set_insert signal seen) (deduped ++ signal ∷ []) more

unfoldable pub dedupe_ordered_signals : List String → List String
unfolding dedupe_from
dedupe_ordered_signals signals = dedupe_from [] [] signals

-- `score > 0.0` on the bit pattern: neither a zero, nor negative, nor NaN
abbrev pub f64_positive : F64 → Bool
f64_positive b = ltb 0 b && leb b 0x7FF0000000000000

-- What the packing gathers.
pub record Packed : Type 0 where
  pub facts : List RecallFact
  pub citations : List Citation
  pub touched : List String
  pub used_tokens : ℕ
  pub truncated : Bool
  pub pack_withheld : ℕ
  pub signals : List String

abbrev pub nothing_packed : Packed
nothing_packed = record {
  facts = [];
  citations = [];
  touched = [];
  used_tokens = 0;
  truncated = false;
  pack_withheld = 0;
  signals = [];
}

-- `hex_digest` and `days_since` are as in `Facts`.
module _ (hex_digest : String → String) (days_since : String → Option ℤ) where
  -- one turn of the loop that admits its entry
  unfoldable pub push_entry : Scored → Packed → Packed
  push_entry e p = record p {
    facts = p.facts ++ fact_of hex_digest days_since e (length p.facts + 1) ∷ [];
    citations = p.citations ++ citation_of hex_digest days_since e.entry ∷ [];
    touched = p.touched ++ e.entry.id ∷ [];
    used_tokens = p.used_tokens + estimate_tokens e.entry.content;
    signals = p.signals ++ e.ranking_signals;
  }

  -- the loop, where `all_scored` is the number of all ranked records
  unfoldable pub pack_from : ℕ → ℕ → List Scored → Packed → Packed
  pack_from all_scored budget [] p = p
  pack_from all_scored budget (e ∷ es) p =
      let p' = push_entry e p in
      let rest = pack_from all_scored budget es p' in
      if ltb budget (p.used_tokens + estimate_tokens e.entry.content) && not (is_empty p.facts)
      then record p { truncated = true }
      else if leb 40 (length p'.facts)
      then record p' {
        truncated = p'.truncated || f64_positive e.score;
        pack_withheld = all_scored - length p'.facts;
      }
      else rest

  -- what `recall` settles after the loop
  unfoldable pub settle : ℕ → Packed → Packed
  settle all_scored p =
      if ltb (length p.facts) all_scored
      then record p {
        truncated = true;
        pack_withheld =
            if p.pack_withheld == 0 then all_scored - length p.facts else p.pack_withheld;
      }
      else p

  unfoldable pub pack : ℕ → List Scored → Packed
  unfolding pack_from settle
  pack budget scored =
      settle (length scored) (pack_from (length scored) budget scored nothing_packed)

-- `params.max_tokens.min(template.budget_tokens)`
abbrev pub effective_max_tokens : ℕ → PackTemplate → ℕ
effective_max_tokens max_tokens t = min max_tokens t.budget_tokens
