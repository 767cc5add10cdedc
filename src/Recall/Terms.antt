-- ===== src/Recall/Terms.antt =====
-- src/recall.rs: the terms that a pack mode looks for in a record's content, and the record's layer.
use codex_memoryd.Prelude.{String, Bool, List, [], ◌∷◌, contains_any, to_ascii_lowercase}
use codex_memoryd.Domain.RecordType.{RecordType}
use codex_memoryd.Domain.MemoryRecord.{MemoryRecord}

abbrev pub debugging_content_terms : List String
debugging_content_terms =
    "debug" ∷ "failure" ∷ "failed" ∷ "error" ∷ "rollback" ∷ "recover" ∷ "gotcha" ∷ []

abbrev pub onboarding_content_terms : List String
onboarding_content_terms =
    "onboarding" ∷ "convention" ∷ "setup" ∷ "first-run" ∷ "first run" ∷ "architecture"
    ∷ "current state" ∷ "current-state" ∷ []

abbrev pub planning_content_terms : List String
planning_content_terms =
    "plan" ∷ "planning" ∷ "next step" ∷ "next steps" ∷ "todo" ∷ "todos" ∷ "blocker" ∷ "blockers"
    ∷ "milestone" ∷ "milestones" ∷ "scope" ∷ "question" ∷ "questions" ∷ "open question"
    ∷ "open questions" ∷ []

abbrev pub active_task_content_terms : List String
active_task_content_terms =
    "active task" ∷ "current task" ∷ "in progress" ∷ "next step" ∷ "next steps" ∷ "blocker"
    ∷ "blocked" ∷ "todo" ∷ "handoff" ∷ "status" ∷ []

abbrev pub review_content_terms : List String
review_content_terms =
    "review" ∷ "pr" ∷ "pull request" ∷ "diff" ∷ "tests" ∷ "verification" ∷ "regression" ∷ "risk"
    ∷ "rollback" ∷ "evidence" ∷ []

abbrev pub personal_context_content_terms : List String
personal_context_content_terms =
    "preference" ∷ "prefer" ∷ "personal" ∷ "default" ∷ "workflow" ∷ "working style"
    ∷ "operating preference" ∷ "remember" ∷ []

-- Does the lowered content of the record hold one of the terms?
unfoldable pub mentions : MemoryRecord → List String → Bool
mentions r terms = contains_any (to_ascii_lowercase r.content) terms

unfoldable pub pack_layer_signal : RecordType → String
pack_layer_signal RecordType.task_checkpoint = "pack_layer:cards"
pack_layer_signal RecordType.decision = "pack_layer:observations"
pack_layer_signal RecordType.preference = "pack_layer:observations"
pack_layer_signal RecordType.repo_convention = "pack_layer:observations"
pack_layer_signal RecordType.workflow_pattern = "pack_layer:observations"
pack_layer_signal RecordType.identity = "pack_layer:observations"
pack_layer_signal RecordType.gotcha = "pack_layer:experiences"
pack_layer_signal RecordType.command = "pack_layer:experiences"
pack_layer_signal RecordType.landmark = "pack_layer:procedures"
pack_layer_signal RecordType.other = "pack_layer:evidence_excerpts"
