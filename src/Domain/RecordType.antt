-- ===== src/Domain/RecordType.antt =====
-- `RecordType` of src/domain.rs, and its wire form.
use codex_memoryd.Prelude.{
  String, ◌≡◌, refl, ◌↔◌, Option, none, some, keyed, str_eq, trim, to_ascii_lowercase,
  if◌then◌else◌,
}

pub data RecordType : Type 0 where
  preference repo_convention command decision gotcha landmark task_checkpoint identity
        workflow_pattern other :
      RecordType

pub RecordType-discrete : Discrete RecordType
RecordType-discrete = hlevel

unfoldable pub as_str : RecordType → String
as_str preference = "preference"
as_str repo_convention = "repo_convention"
as_str command = "command"
as_str decision = "decision"
as_str gotcha = "gotcha"
as_str landmark = "landmark"
as_str task_checkpoint = "task_checkpoint"
as_str identity = "identity"
as_str workflow_pattern = "workflow_pattern"
as_str other = "other"

-- the `match` of `parse`, on the trimmed and lowered text
parse_normal : String → Option RecordType
parse_normal s =
    if str_eq s "preference"
    then some preference
    else if str_eq s "repo_convention"
    then some repo_convention
    else if str_eq s "command"
    then some command
    else if str_eq s "decision"
    then some decision
    else if str_eq s "gotcha"
    then some gotcha
    else if str_eq s "landmark"
    then some landmark
    else if str_eq s "task_checkpoint"
    then some task_checkpoint
    else if str_eq s "identity"
    then some identity
    else if str_eq s "workflow_pattern"
    then some workflow_pattern
    else if str_eq s "other"
    then some other
    else none

unfoldable pub parse : String → Option RecordType
unfolding parse_normal
parse value = parse_normal (to_ascii_lowercase (trim value))

as_str_of_parse_normal : (s : String) (x : RecordType) → parse_normal s ≡ some x → s ≡ as_str x
unfolding parse_normal as_str
as_str_of_parse_normal s x = keyed as_str s preference _ x (
    keyed as_str s repo_convention _ x (
      keyed as_str s command _ x (
        keyed as_str s decision _ x (
          keyed as_str s gotcha _ x (
            keyed as_str s landmark _ x (
              keyed as_str s task_checkpoint _ x (
                keyed as_str s identity _ x
                  (keyed as_str s workflow_pattern _ x (keyed as_str s other _ x (λ h. cc))))))))))

parse_normal-as_str : (x : RecordType) → parse_normal (as_str x) ≡ some x
unfolding parse_normal as_str
parse_normal-as_str preference = refl
parse_normal-as_str repo_convention = refl
parse_normal-as_str command = refl
parse_normal-as_str decision = refl
parse_normal-as_str gotcha = refl
parse_normal-as_str landmark = refl
parse_normal-as_str task_checkpoint = refl
parse_normal-as_str identity = refl
parse_normal-as_str workflow_pattern = refl
parse_normal-as_str other = refl

-- `parse` accepts a text as `x` exactly when the text, trimmed and lowered, is the wire form of `x`.
pub parse_iff :
    (value : String) (x : RecordType)
    → (parse value ≡ some x) ↔ (to_ascii_lowercase (trim value) ≡ as_str x)
unfolding parse
parse_iff value x = (as_str_of_parse_normal _ x, λ h. rw h (parse_normal-as_str x))

-- The wire form of every value parses back to it.
pub parse-as_str : (x : RecordType) → parse (as_str x) ≡ some x
unfolding parse as_str trim to_ascii_lowercase
parse-as_str preference = refl
parse-as_str repo_convention = refl
parse-as_str command = refl
parse-as_str decision = refl
parse-as_str gotcha = refl
parse-as_str landmark = refl
parse-as_str task_checkpoint = refl
parse-as_str identity = refl
parse-as_str workflow_pattern = refl
parse-as_str other = refl
