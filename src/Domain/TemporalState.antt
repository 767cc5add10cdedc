-- ===== src/Domain/TemporalState.antt =====
-- `TemporalState` of src/domain.rs, whose `parse` also takes three aliases.
use codex_memoryd.Prelude.{
  String, ◌≡◌, refl, ◌||◌, Option, none, some, str_eq, trim, to_ascii_lowercase, replace_char,
  if◌then◌else◌,
}

pub data TemporalState : Type 0 where
  planned current completed superseded invalidated historical : TemporalState

pub TemporalState-discrete : Discrete TemporalState
TemporalState-discrete = hlevel

unfoldable pub as_str : TemporalState → String
as_str planned = "planned"
as_str current = "current"
as_str completed = "completed"
as_str superseded = "superseded"
as_str invalidated = "invalidated"
as_str historical = "historical"

-- the `match` of `parse`, on the normalised text
parse_normal : String → Option TemporalState
parse_normal s =
    if str_eq s "planned"
    then some planned
    else if str_eq s "current" || str_eq s "active"
    then some current
    else if str_eq s "completed" || str_eq s "done"
    then some completed
    else if str_eq s "superseded"
    then some superseded
    else if str_eq s "invalidated"
    then some invalidated
    else if str_eq s "historical" || str_eq s "history"
    then some historical
    else none

unfoldable pub parse : String → Option TemporalState
unfolding parse_normal
parse value = parse_normal (replace_char "-" "_" (to_ascii_lowercase (trim value)))

-- The wire form of every state parses back to it.
pub parse-as_str : (x : TemporalState) → parse (as_str x) ≡ some x
unfolding parse as_str trim to_ascii_lowercase replace_char
parse-as_str planned = refl
parse-as_str current = refl
parse-as_str completed = refl
parse-as_str superseded = refl
parse-as_str invalidated = refl
parse-as_str historical = refl
