-- ===== src/Examples/Answers.antt =====
-- The whole of `recall` of src/recall.rs, over a small store, and a fusion of two rankings.
use Prim.Native.Nat.{compare}
use mathlib.Core.List.{Perm}
use codex_memoryd.Prelude.{
  ℕ, ◌+◌, ◌*◌, ◌/◌, String, ◌≡◌, refl, false, none, some, List, [], length, ltb, arith, map, All,
  any, mem_str, ◌∷◌, trim,
}
use codex_memoryd.Prelude.Distinct.{Distinct}
use codex_memoryd.Prelude.Int.{ℤ, pos, negsuc}
use codex_memoryd.Domain.MemoryRecord.{f64_one}
use codex_memoryd.Errors.{ok}
use codex_memoryd.Recall.Facts.{Scored}
use codex_memoryd.Recall.Float.{Float}
use codex_memoryd.Recall.Pack.{PackTemplate, pack_template}
use codex_memoryd.Recall.Rank.{rank}
use codex_memoryd.Recall.Rank.Laws.{InOrder, rank-InOrder}
use codex_memoryd.Recall.Withheld.{sum_counts}
use codex_memoryd.Recall.Respond.{RecallOmissionCounts, Store, Time, Recalled, candidates, recall}
use codex_memoryd.Recall.Respond.Laws.{IsFact, recall_accounts, recall-IsFact}
use codex_memoryd.Retrieval.Fusion.{reciprocal_rank_fusion}
use codex_memoryd.Retrieval.Fusion.Laws.{reciprocal_rank_fusion_lem}
use codex_memoryd.Examples.Recalls.{samples, params_of}

abbrev size_of : ℤ → ℕ
size_of (pos n) = n
size_of (negsuc n) = 0

-- numbers of hundredths
abbrev pub hundredths_only : Float
hundredths_only = record {
  hundredths = size_of;
  of_usize = λ n. n * 100;
  add = λ a b. a + b;
  mul = λ a b. (a * b) / 100;
  div = λ a b. a;
  lt = ltb;
  partial_cmp = λ a b. some (compare a b);
}

abbrev scored_samples : List Scored
scored_samples = map (λ r. record { entry = r; score = f64_one; ranking_signals = [] }) samples

rank-InOrder_example :
    InOrder hundredths_only (rank hundredths_only scored_samples)
    × Perm (rank hundredths_only scored_samples) scored_samples
rank-InOrder_example = rank-InOrder hundredths_only (λ a b. ground arith) scored_samples

abbrev omissions : RecallOmissionCounts
omissions = record { archived = 2; secret_blocked = 0; quarantined = 1 }

abbrev small_store : Store
small_store = record {
  recall_omission_counts = λ q s. ok omissions;
  query_records = λ q. ok samples;
  search_records = λ s q. ok samples;
  recent_checkpoints = λ p w r n. ok [];
}

abbrev no_clock : Time
no_clock = record { days_since = λ s. none; days_ago = λ n. none; current_rfc3339 = "2025-06-01" }

abbrev same_text : String → String
same_text s = s

abbrev default_template : PackTemplate
default_template = record { mode = "default"; budget_tokens = 1200 }

recall_accounts_example :
    (answer : Recalled) × (recall hundredths_only same_text no_clock small_store
        (params_of none false)
      ≡ ok answer)
    × (length answer.response.facts + sum_counts answer.response.withheld ≡ 3 + (2 + 0 + 1))
unfolding pack_template candidates trim
recall_accounts_example =
    recall_accounts hundredths_only same_text no_clock small_store (params_of none false)
      default_template omissions samples [] refl refl refl refl

recall-IsFact_example :
    (answer : Recalled) × (recall hundredths_only same_text no_clock small_store
        (params_of none false)
      ≡ ok answer)
    × All
        (IsFact hundredths_only same_text no_clock small_store (params_of none false) samples)
        answer.response.facts
unfolding pack_template candidates trim
recall-IsFact_example =
    recall-IsFact hundredths_only same_text no_clock small_store (params_of none false)
      default_template omissions samples [] refl refl refl refl

abbrev lexical_and_vector : List (List String)
lexical_and_vector = ("lexical" ∷ "shared" ∷ []) ∷ ("vector" ∷ "shared" ∷ "vector" ∷ []) ∷ []

reciprocal_rank_fusion_example :
    ((a : String)
      → mem_str a (reciprocal_rank_fusion hundredths_only lexical_and_vector 60)
        ≡ any (mem_str a) lexical_and_vector)
    × Distinct (reciprocal_rank_fusion hundredths_only lexical_and_vector 60)
reciprocal_rank_fusion_example = reciprocal_rank_fusion_lem hundredths_only lexical_and_vector 60
