-- ===== src/Recall/Boost.antt =====
-- src/recall.rs: what a pack mode adds to the score of a record. Each mode's `match` on the record
-- type is a function `<mode>_type`.
use codex_memoryd.Prelude.{String, Bool, [], ◌∷◌, ℕ, str_eq, if◌then◌else◌}
use codex_memoryd.Prelude.Int.{ℤ, pos, negsuc}
use codex_memoryd.Domain.RecordType.{RecordType}
use codex_memoryd.Domain.MemoryRecord.{F64, MemoryRecord}
use codex_memoryd.Recall.Float.{Float}
use codex_memoryd.Recall.Terms.{
  mentions, debugging_content_terms, onboarding_content_terms, planning_content_terms,
  active_task_content_terms, review_content_terms, personal_context_content_terms,
}

-- in hundredths
pack_layer : RecordType → ℤ
pack_layer RecordType.task_checkpoint = pos 300
pack_layer RecordType.decision = pos 200
pack_layer RecordType.preference = pos 200
pack_layer RecordType.repo_convention = pos 200
pack_layer RecordType.workflow_pattern = pos 200
pack_layer RecordType.identity = pos 200
pack_layer RecordType.gotcha = pos 120
pack_layer RecordType.command = pos 120
pack_layer RecordType.landmark = pos 80
pack_layer RecordType.other = negsuc 99

debugging_type : RecordType → ℕ
debugging_type RecordType.gotcha = 300
debugging_type RecordType.task_checkpoint = 150
debugging_type RecordType.command = 100
debugging_type RecordType.workflow_pattern = 75
debugging_type _ = 0

planning_type : RecordType → ℕ
planning_type RecordType.task_checkpoint = 220
planning_type RecordType.decision = 200
planning_type RecordType.repo_convention = 180
planning_type RecordType.workflow_pattern = 170
planning_type RecordType.command = 90
planning_type _ = 0

onboarding_type : RecordType → ℕ
onboarding_type RecordType.repo_convention = 200
onboarding_type RecordType.decision = 170
onboarding_type RecordType.workflow_pattern = 150
onboarding_type RecordType.task_checkpoint = 130
onboarding_type RecordType.preference = 110
onboarding_type _ = 0

active_task_type : RecordType → ℕ
active_task_type RecordType.task_checkpoint = 250
active_task_type RecordType.decision = 140
active_task_type RecordType.command = 120
active_task_type RecordType.workflow_pattern = 100
active_task_type _ = 0

review_type : RecordType → ℕ
review_type RecordType.gotcha = 220
review_type RecordType.decision = 180
review_type RecordType.task_checkpoint = 160
review_type RecordType.command = 130
review_type RecordType.repo_convention = 100
review_type _ = 0

personal_context_type : RecordType → ℕ
personal_context_type RecordType.identity = 300
personal_context_type RecordType.preference = 260
personal_context_type RecordType.workflow_pattern = 170
personal_context_type RecordType.repo_convention = 120
personal_context_type RecordType.decision = 80
personal_context_type _ = 0

module _ (f : Float) where
  abbrev lit : ℕ → F64
  lit n = f.hundredths (pos n)

  -- `if test { boost += amount }`
  abbrev add_if : Bool → ℕ → F64 → F64
  add_if test amount boost = if test then f.add boost (lit amount) else boost

  unfoldable pub pack_layer_boost : MemoryRecord → F64
  unfolding pack_layer
  pack_layer_boost r = f.hundredths (pack_layer r.record_type)

  debugging_boost : MemoryRecord → F64
  unfolding debugging_type mentions
  debugging_boost r =
      let base = lit (debugging_type r.record_type) in
      let boost = add_if (mentions r debugging_content_terms) 75 base in boost

  planning_boost : MemoryRecord → F64
  unfolding planning_type mentions
  planning_boost r =
      let base = lit (planning_type r.record_type) in
      let boost = add_if (mentions r planning_content_terms) 100 base in
      let boost1 = add_if (mentions r ("open question" ∷ "open questions" ∷ [])) 50 boost in
      let boost2 = add_if (mentions r ("next step" ∷ "next steps" ∷ [])) 50 boost1 in
      add_if (mentions r ("blocker" ∷ "blockers" ∷ [])) 25 boost2

  onboarding_boost : MemoryRecord → F64
  unfolding onboarding_type mentions
  onboarding_boost r =
      let base = lit (onboarding_type r.record_type) in
      let boost = add_if (mentions r onboarding_content_terms) 100 base in
      let boost1 = add_if (mentions r ("current state" ∷ "current-state" ∷ [])) 50 boost in
      add_if (mentions r ("first run" ∷ "first-run" ∷ [])) 25 boost1

  active_task_boost : MemoryRecord → F64
  unfolding active_task_type mentions pack_layer_boost
  active_task_boost r =
      let base = f.add (pack_layer_boost r) (lit (active_task_type r.record_type)) in
      let boost = add_if (mentions r active_task_content_terms) 100 base in
      let boost1 = add_if (mentions r ("blocked" ∷ "blocker" ∷ [])) 50 boost in
      add_if (mentions r ("next step" ∷ "next steps" ∷ [])) 50 boost1

  review_boost : MemoryRecord → F64
  unfolding review_type mentions pack_layer_boost
  review_boost r =
      let base = f.add (pack_layer_boost r) (lit (review_type r.record_type)) in
      let boost = add_if (mentions r review_content_terms) 100 base in
      let boost1 = add_if (mentions r ("test" ∷ "verification" ∷ [])) 50 boost in
      add_if (mentions r ("risk" ∷ "rollback" ∷ [])) 50 boost1

  personal_context_boost : MemoryRecord → F64
  unfolding personal_context_type mentions
  personal_context_boost r =
      let base = lit (personal_context_type r.record_type) in
      let boost = add_if (mentions r personal_context_content_terms) 100 base in
      add_if (mentions r ("prefer" ∷ "preference" ∷ [])) 50 boost

  -- the `match` on the mode
  unfoldable pub pack_mode_boost : MemoryRecord → String → F64
  unfolding debugging_boost planning_boost onboarding_boost active_task_boost review_boost
      personal_context_boost
  pack_mode_boost r mode =
      if str_eq mode "debugging"
      then debugging_boost r
      else if str_eq mode "planning"
      then planning_boost r
      else if str_eq mode "onboarding"
      then onboarding_boost r
      else if str_eq mode "active_task"
      then active_task_boost r
      else if str_eq mode "review"
      then review_boost r
      else if str_eq mode "personal_context"
      then personal_context_boost r
      else lit 0
