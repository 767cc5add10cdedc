-- ===== src/Recall/Pack/Signals.antt =====
-- `dedupe_ordered_signals` of src/recall.rs keeps every signal, once, in the order of first use.
use codex_memoryd.Prelude.{
  String, ◌||◌, ◌≡◌, refl, List, [], ◌∷◌, ◌++◌, arith, mem_str, eq_iff, sym, ◌∙◌, Bool-cases, inl,
  inr, str_eq,
}
use codex_memoryd.Prelude.Distinct.{Distinct, mem_str-append, push_new, push_new-Distinct}
use codex_memoryd.Prelude.StrSet.{set_insert, mem_str-set_insert}
use codex_memoryd.Prelude.StrOrder.{SameMembers}
use codex_memoryd.Recall.Pack.{dedupe_ordered_signals, dedupe_from}

-- pushing each signal that is not there yet
abbrev pub push_all : List String → List String → List String
push_all kept [] = kept
push_all kept (s ∷ more) = push_all (push_new kept s) more

SameMembers-insert :
    (seen kept : List String) (s : String)
    → SameMembers seen kept
    → SameMembers (set_insert s seen) (kept ++ s ∷ [])
SameMembers-insert seen kept s h a =
    ground (arith, mem_str-set_insert a s seen, mem_str-append a s kept, h a)

dedupe_from_lem :
    (seen kept more : List String)
    → SameMembers seen kept
    → dedupe_from seen kept more ≡ push_all kept more
unfolding dedupe_from
dedupe_from_lem seen kept [] h = refl
dedupe_from_lem seen kept (s ∷ more) h = elim (Bool-cases (mem_str s seen)) [
  | inl old ↦ rw (old, ← h s, old) (dedupe_from_lem seen kept more h)
  | inr new ↦
      rw (new, sym (h s) ∙ new)
        (dedupe_from_lem (set_insert s seen) (kept ++ s ∷ []) more
          (SameMembers-insert seen kept s h))
]

push_all-Distinct : (kept more : List String) → Distinct kept → Distinct (push_all kept more)
push_all-Distinct kept [] d = d
push_all-Distinct kept (s ∷ more) d =
    push_all-Distinct (push_new kept s) more (push_new-Distinct kept s d)

mem_str-push_new :
    (a : String) (kept : List String) (s : String)
    → mem_str a (push_new kept s) ≡ mem_str a kept || str_eq s a
mem_str-push_new a kept s = ground (arith, mem_str-append a s kept, eq_iff s a)

mem_str-push_all :
    (a : String) (kept more : List String)
    → mem_str a (push_all kept more) ≡ mem_str a kept || mem_str a more
mem_str-push_all a kept [] = ground arith
mem_str-push_all a kept (s ∷ more) =
    ground (arith, mem_str-push_all a (push_new kept s) more, mem_str-push_new a kept s)

-- The signals that are kept are the signals given, each once, in the order of their first use: they
-- are distinct, have the same members, and are what pushing each signal not yet there gives.
pub dedupe_ordered_signals_lem :
    (signals : List String)
    → (dedupe_ordered_signals signals ≡ push_all [] signals)
      × Distinct (dedupe_ordered_signals signals)
      × ((a : String) → mem_str a (dedupe_ordered_signals signals) ≡ mem_str a signals)
unfolding dedupe_ordered_signals
dedupe_ordered_signals_lem signals = (
  dedupe_from_lem [] [] signals (λ a. refl),
  rw (dedupe_from_lem [] [] signals (λ a. refl)) (push_all-Distinct [] signals tt),
  λ a. rw (dedupe_from_lem [] [] signals (λ a. refl)) (mem_str-push_all a [] signals),
)
