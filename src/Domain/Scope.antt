-- ===== src/Domain/Scope.antt =====
-- `Scope` of src/domain.rs, and its wire form.
use codex_memoryd.Prelude.{
  String, ◌≡◌, refl, ◌↔◌, Option, none, some, keyed, str_eq, trim, to_ascii_lowercase,
  if◌then◌else◌,
}

pub data Scope : Type 0 where
  user profile workspace repo file session : Scope

pub Scope-discrete : Discrete Scope
Scope-discrete = hlevel

unfoldable pub as_str : Scope → String
as_str user = "user"
as_str profile = "profile"
as_str workspace = "workspace"
as_str repo = "repo"
as_str file = "file"
as_str session = "session"

-- the `match` of `parse`, on the trimmed and lowered text
parse_normal : String → Option Scope
parse_normal s =
    if str_eq s "user"
    then some user
    else if str_eq s "profile"
    then some profile
    else if str_eq s "workspace"
    then some workspace
    else if str_eq s "repo"
    then some repo
    else if str_eq s "file"
    then some file
    else if str_eq s "session"
    then some session
    else none

unfoldable pub parse : String → Option Scope
unfolding parse_normal
parse value = parse_normal (to_ascii_lowercase (trim value))

as_str_of_parse_normal : (s : String) (x : Scope) → parse_normal s ≡ some x → s ≡ as_str x
unfolding parse_normal as_str
as_str_of_parse_normal s x = keyed as_str s user _ x (
    keyed as_str s profile _ x (
      keyed as_str s workspace _ x
        (keyed as_str s repo _ x (keyed as_str s file _ x (keyed as_str s session _ x (λ h. cc))))))

parse_normal-as_str : (x : Scope) → parse_normal (as_str x) ≡ some x
unfolding parse_normal as_str
parse_normal-as_str user = refl
parse_normal-as_str profile = refl
parse_normal-as_str workspace = refl
parse_normal-as_str repo = refl
parse_normal-as_str file = refl
parse_normal-as_str session = refl

-- `parse` accepts a text as `x` exactly when the text, trimmed and lowered, is the wire form of `x`.
pub parse_iff :
    (value : String) (x : Scope)
    → (parse value ≡ some x) ↔ (to_ascii_lowercase (trim value) ≡ as_str x)
unfolding parse
parse_iff value x = (as_str_of_parse_normal _ x, λ h. rw h (parse_normal-as_str x))

-- The wire form of every value parses back to it.
pub parse-as_str : (x : Scope) → parse (as_str x) ≡ some x
unfolding parse as_str trim to_ascii_lowercase
parse-as_str user = refl
parse-as_str profile = refl
parse-as_str workspace = refl
parse-as_str repo = refl
parse-as_str file = refl
parse-as_str session = refl
