-- ===== src/Policy/Classify.antt =====
-- src/policy.rs: the heuristic classification of a candidate chunk.
pub mod Files
pub mod Laws
use codex_memoryd.Prelude.{
  ℕ, ◌-◌, String, Bool, true, false, ◌||◌, ◌&&◌, not, Option, none, some, List, [], ◌∷◌, ◌++◌,
  contains, contains_any, starts_with, to_ascii_lowercase, trim_start, lines, is_empty, mem_str,
  max, min, if◌then◌else◌,
}
use codex_memoryd.Domain.Profile
use codex_memoryd.Domain.Profile.{Profile}
use codex_memoryd.Domain.Scope
use codex_memoryd.Domain.Scope.{Scope}
use codex_memoryd.Domain.RecordType
use codex_memoryd.Domain.RecordType.{RecordType}
use codex_memoryd.Domain.Sensitivity
use codex_memoryd.Domain.Sensitivity.{Sensitivity}
use codex_memoryd.Domain.Portability
use codex_memoryd.Domain.Portability.{Portability}
use codex_memoryd.Policy.Regex.{RegexEngine, Unicode}
use Files.{extract_related_files}

pub record Classification : Type 0 where
  pub record_type : RecordType
  pub scope : Scope
  pub sensitivity : Sensitivity
  pub portability : Portability
  pub confidence : ℕ  -- the f64 in hundredths
  pub related_files : List String
  pub tags : List String

unfoldable pub classify_type : String → String → String → RecordType
unfolding contains trim_start
classify_type lower first_line content =
    if contains_any first_line ("checkpoint" ∷ "resume" ∷ [])
      || (contains lower "next steps" && contains lower "changed files")
    then RecordType.task_checkpoint
    else if contains first_line "decision"
        || contains_any lower ("we decided" ∷ "decided to" ∷ "chose to" ∷ "will use" ∷ [])
    then RecordType.decision
    else if contains first_line "gotcha"
        || contains_any lower ("watch out" ∷ "be careful" ∷ "don't " ∷ "do not " ∷ "pitfall" ∷ [])
    then RecordType.gotcha
    else if contains first_line "convention"
        || contains_any lower ("always use" ∷ "follow the" ∷ "style guide" ∷ [])
    then RecordType.repo_convention
    else if contains first_line "preference"
        || contains_any lower ("prefers" ∷ "prefer " ∷ "likes to" ∷ [])
    then RecordType.preference
    else if contains first_line "command"
        || contains_any lower ("run `" ∷ "$ " ∷ "cargo " ∷ "npm " ∷ "just " ∷ [])
    then RecordType.command
    else if contains first_line "workflow" || contains lower "workflow pattern"
    then RecordType.workflow_pattern
    else if contains first_line "identity"
        || contains_any lower ("i am " ∷ "my name is" ∷ "works as" ∷ [])
    then RecordType.identity
    else if contains first_line "landmark" || contains_any lower ("entry point" ∷ "located in" ∷ [])
    then RecordType.landmark
    else if starts_with (trim_start content) "$"
    then RecordType.command
    else RecordType.other

-- the `match` on the type, where no file is named
scope_of_type : RecordType → Bool → Scope
scope_of_type RecordType.preference repo_present = Scope.user
scope_of_type RecordType.identity repo_present = Scope.user
scope_of_type RecordType.task_checkpoint repo_present =
    if repo_present then Scope.repo else Scope.session
scope_of_type _ repo_present = if repo_present then Scope.repo else Scope.workspace

unfoldable pub classify_scope : RecordType → Bool → Bool → Scope
unfolding scope_of_type
classify_scope record_type repo_present has_files =
    if has_files then Scope.file else scope_of_type record_type repo_present

unfoldable pub classify_sensitivity : Profile → Sensitivity
classify_sensitivity Profile.work = Sensitivity.work_confidential
classify_sensitivity Profile.personal = Sensitivity.personal
classify_sensitivity Profile.oss = Sensitivity.public
classify_sensitivity Profile.homelab = Sensitivity.public

-- the `match` on the profile, where the sensitivity is not `work_confidential`
portability_of_profile : Profile → RecordType → Portability
portability_of_profile Profile.personal RecordType.preference = Portability.portable
portability_of_profile Profile.personal RecordType.identity = Portability.portable
portability_of_profile Profile.personal _ = Portability.profile_only
portability_of_profile Profile.oss _ = Portability.portable
portability_of_profile Profile.homelab _ = Portability.portable
portability_of_profile Profile.work _ = Portability.profile_only

unfoldable pub classify_portability : Profile → RecordType → Sensitivity → Portability
unfolding portability_of_profile
classify_portability profile record_type Sensitivity.work_confidential = Portability.profile_only
classify_portability profile record_type _ = portability_of_profile profile record_type

base_confidence : RecordType → ℕ
base_confidence RecordType.decision = 85
base_confidence RecordType.command = 85
base_confidence RecordType.repo_convention = 80
base_confidence RecordType.gotcha = 80
base_confidence RecordType.preference = 75
base_confidence RecordType.identity = 75
base_confidence RecordType.task_checkpoint = 70
base_confidence RecordType.workflow_pattern = 65
base_confidence RecordType.landmark = 65
base_confidence RecordType.other = 50

hedged : String → Bool
unfolding to_ascii_lowercase contains
hedged content =
    contains_any (to_ascii_lowercase content)
      ("maybe" ∷ "might" ∷ "possibly" ∷ "not sure" ∷ "i think" ∷ [])

-- In hundredths: every base is at least 50, so the subtraction of 20 is exact.
unfoldable pub classify_confidence : RecordType → String → ℕ
unfolding base_confidence hedged
classify_confidence record_type content =
    let base = base_confidence record_type in
    max 10 (min 99 (if hedged content then base - 20 else base))

abbrev keyword_tags : List (String × String)
keyword_tags =
    ("rust", "rust")
    ∷ ("cargo", "rust")
    ∷ ("python", "python")
    ∷ ("docker", "docker")
    ∷ ("sqlite", "sqlite")
    ∷ ("axum", "axum")
    ∷ ("test", "testing")
    ∷ ("git", "git")
    ∷ []

-- the loop of `extract_tags` over the keywords, on the tags so far
push_tags : String → List (String × String) → List String → List String
push_tags lower [] tags = tags
push_tags lower ((needle, tag) ∷ more) tags =
    push_tags lower more
      (if contains lower needle && not (mem_str tag tags) then tags ++ tag ∷ [] else tags)

unfoldable pub extract_tags : String → RecordType → List String
unfolding push_tags contains RecordType.as_str
extract_tags lower record_type = push_tags lower keyword_tags (RecordType.as_str record_type ∷ [])

abbrev first_or_empty : List String → String
first_or_empty [] = ""
first_or_empty (l ∷ _) = l

module _ (E : RegexEngine) (U : Unicode) where
  unfoldable pub classify_as : String → Profile → Bool → RecordType → Classification
  unfolding classify_scope classify_sensitivity classify_portability classify_confidence
      extract_tags
  classify_as content profile repo_present record_type =
      let lower = to_ascii_lowercase content in
      let files = extract_related_files E U content in
      let sensitivity = classify_sensitivity profile in
      record {
        record_type = record_type;
        scope = classify_scope record_type repo_present (not (is_empty files));
        sensitivity = sensitivity;
        portability = classify_portability profile record_type sensitivity;
        confidence = classify_confidence record_type content;
        related_files = files;
        tags = extract_tags lower record_type;
      }

  unfoldable pub classify : String → Profile → Bool → Classification
  unfolding classify_as classify_type lines to_ascii_lowercase
  classify content profile repo_present =
      let lower = to_ascii_lowercase content in
      let first_line = to_ascii_lowercase (first_or_empty (lines content)) in
      classify_as content profile repo_present (classify_type lower first_line content)
