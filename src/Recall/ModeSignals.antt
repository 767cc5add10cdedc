-- ===== src/Recall/ModeSignals.antt =====
-- src/recall.rs: the signals by which a pack mode tells why it ranked a record.
use codex_memoryd.Prelude.{String, Bool, List, [], ◌∷◌, ◌++◌, str_eq, if◌then◌else◌}
use codex_memoryd.Domain.RecordType.{RecordType}
use codex_memoryd.Domain.MemoryRecord.{MemoryRecord}
use codex_memoryd.Recall.Terms.{
  mentions, pack_layer_signal, debugging_content_terms, onboarding_content_terms,
  planning_content_terms, active_task_content_terms, review_content_terms,
  personal_context_content_terms,
}

-- `if test { signals.push(signal) }`
abbrev pub push_if : Bool → String → List String
push_if test signal = if test then signal ∷ [] else []

debugging_type_signals : RecordType → List String
debugging_type_signals RecordType.gotcha = "debugging_gotcha" ∷ []
debugging_type_signals RecordType.task_checkpoint = "debugging_checkpoint" ∷ []
debugging_type_signals RecordType.command = "debugging_command" ∷ []
debugging_type_signals RecordType.workflow_pattern = "debugging_workflow_pattern" ∷ []
debugging_type_signals _ = []

planning_type_signals : RecordType → List String
planning_type_signals RecordType.task_checkpoint = "planning_checkpoint" ∷ []
planning_type_signals RecordType.decision = "planning_decision" ∷ []
planning_type_signals RecordType.repo_convention = "planning_repo_convention" ∷ []
planning_type_signals RecordType.workflow_pattern = "planning_workflow_pattern" ∷ []
planning_type_signals RecordType.command = "planning_command" ∷ []
planning_type_signals _ = []

onboarding_type_signals : RecordType → List String
onboarding_type_signals RecordType.repo_convention = "onboarding_repo_convention" ∷ []
onboarding_type_signals RecordType.decision = "onboarding_decision" ∷ []
onboarding_type_signals RecordType.workflow_pattern = "onboarding_workflow_pattern" ∷ []
onboarding_type_signals RecordType.task_checkpoint = "onboarding_checkpoint" ∷ []
onboarding_type_signals RecordType.preference = "onboarding_preference" ∷ []
onboarding_type_signals _ = []

active_task_type_signals : RecordType → List String
active_task_type_signals RecordType.task_checkpoint = "active_task_checkpoint" ∷ []
active_task_type_signals RecordType.decision = "active_task_decision" ∷ []
active_task_type_signals RecordType.command = "active_task_command" ∷ []
active_task_type_signals RecordType.workflow_pattern = "active_task_workflow_pattern" ∷ []
active_task_type_signals RecordType.gotcha = "active_task_gotcha" ∷ []
active_task_type_signals _ = []

review_type_signals : RecordType → List String
review_type_signals RecordType.gotcha = "review_gotcha" ∷ []
review_type_signals RecordType.decision = "review_decision" ∷ []
review_type_signals RecordType.task_checkpoint = "review_checkpoint" ∷ []
review_type_signals RecordType.command = "review_command" ∷ []
review_type_signals RecordType.repo_convention = "review_repo_convention" ∷ []
review_type_signals _ = []

personal_context_type_signals : RecordType → List String
personal_context_type_signals RecordType.identity = "personal_context_identity" ∷ []
personal_context_type_signals RecordType.preference = "personal_context_preference" ∷ []
personal_context_type_signals RecordType.workflow_pattern = "personal_context_workflow_pattern" ∷ []
personal_context_type_signals RecordType.repo_convention = "personal_context_repo_convention" ∷ []
personal_context_type_signals RecordType.decision = "personal_context_decision" ∷ []
personal_context_type_signals _ = []

debugging_signals : MemoryRecord → List String
unfolding debugging_type_signals mentions
debugging_signals r =
    "pack_mode:debugging" ∷ []
    ++ (debugging_type_signals r.record_type
        ++ push_if (mentions r debugging_content_terms) "debugging_terms")

planning_signals : MemoryRecord → List String
unfolding planning_type_signals mentions
planning_signals r =
    "pack_mode:planning" ∷ []
    ++ (planning_type_signals r.record_type
        ++ (push_if (mentions r planning_content_terms) "planning_terms"
            ++ (push_if (mentions r ("open question" ∷ "open questions" ∷ []))
                  "planning_open_question"
                ++ (push_if (mentions r ("next step" ∷ "next steps" ∷ [])) "planning_next_step"
                    ++ push_if (mentions r ("blocker" ∷ "blockers" ∷ [])) "planning_blocker"))))

onboarding_signals : MemoryRecord → List String
unfolding onboarding_type_signals mentions
onboarding_signals r =
    "pack_mode:onboarding" ∷ []
    ++ (onboarding_type_signals r.record_type
        ++ (push_if (mentions r onboarding_content_terms) "onboarding_terms"
            ++ (push_if (mentions r ("current state" ∷ "current-state" ∷ []))
                  "onboarding_current_state"
                ++ (push_if (mentions r ("first run" ∷ "first-run" ∷ [])) "onboarding_first_run"
                    ++ push_if (mentions r ("architecture" ∷ [])) "onboarding_architecture"))))

active_task_signals : MemoryRecord → List String
unfolding active_task_type_signals mentions pack_layer_signal
active_task_signals r =
    "pack_mode:active_task" ∷ []
    ++ (pack_layer_signal r.record_type ∷ []
        ++ (active_task_type_signals r.record_type
            ++ (push_if (mentions r active_task_content_terms) "active_task_terms"
                ++ (push_if (mentions r ("blocked" ∷ "blocker" ∷ [])) "active_task_blocker"
                    ++ push_if (mentions r ("next step" ∷ "next steps" ∷ []))
                        "active_task_next_step"))))

review_signals : MemoryRecord → List String
unfolding review_type_signals mentions pack_layer_signal
review_signals r =
    "pack_mode:review" ∷ []
    ++ (pack_layer_signal r.record_type ∷ []
        ++ (review_type_signals r.record_type
            ++ (push_if (mentions r review_content_terms) "review_terms"
                ++ (push_if (mentions r ("test" ∷ "verification" ∷ [])) "review_verification"
                    ++ push_if (mentions r ("risk" ∷ "rollback" ∷ [])) "review_risk"))))

personal_context_signals : MemoryRecord → List String
unfolding personal_context_type_signals mentions
personal_context_signals r =
    "pack_mode:personal_context" ∷ []
    ++ (personal_context_type_signals r.record_type
        ++ (push_if (mentions r personal_context_content_terms) "personal_context_terms"
            ++ push_if (mentions r ("prefer" ∷ "preference" ∷ []))
                "personal_context_preference_terms"))

-- the `match` on the mode
unfoldable pub pack_mode_signals : MemoryRecord → String → List String
unfolding debugging_signals planning_signals onboarding_signals active_task_signals review_signals
    personal_context_signals
pack_mode_signals r mode =
    if str_eq mode "debugging"
    then debugging_signals r
    else if str_eq mode "planning"
    then planning_signals r
    else if str_eq mode "onboarding"
    then onboarding_signals r
    else if str_eq mode "active_task"
    then active_task_signals r
    else if str_eq mode "review"
    then review_signals r
    else if str_eq mode "personal_context"
    then personal_context_signals r
    else "pack_mode:default" ∷ []
