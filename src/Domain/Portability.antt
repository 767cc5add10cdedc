-- ===== src/Domain/Portability.antt =====
-- `Portability` of src/domain.rs, and its wire form.
use codex_memoryd.Prelude.{
  String, ◌≡◌, refl, ◌↔◌, Option, none, some, keyed, str_eq, trim, to_ascii_lowercase,
  if◌then◌else◌,
}

pub data Portability : Type 0 where
  portable profile_only workspace_only never_export : Portability

pub Portability-discrete : Discrete Portability
Portability-discrete = hlevel

unfoldable pub as_str : Portability → String
as_str portable = "portable"
as_str profile_only = "profile_only"
as_str workspace_only = "workspace_only"
as_str never_export = "never_export"

-- the `match` of `parse`, on the trimmed and lowered text
parse_normal : String → Option Portability
parse_normal s =
    if str_eq s "portable"
    then some portable
    else if str_eq s "profile_only"
    then some profile_only
    else if str_eq s "workspace_only"
    then some workspace_only
    else if str_eq s "never_export"
    then some never_export
    else none

unfoldable pub parse : String → Option Portability
unfolding parse_normal
parse value = parse_normal (to_ascii_lowercase (trim value))

as_str_of_parse_normal : (s : String) (x : Portability) → parse_normal s ≡ some x → s ≡ as_str x
unfolding parse_normal as_str
as_str_of_parse_normal s x = keyed as_str s portable _ x (
    keyed as_str s profile_only _ x
      (keyed as_str s workspace_only _ x (keyed as_str s never_export _ x (λ h. cc))))

parse_normal-as_str : (x : Portability) → parse_normal (as_str x) ≡ some x
unfolding parse_normal as_str
parse_normal-as_str portable = refl
parse_normal-as_str profile_only = refl
parse_normal-as_str workspace_only = refl
parse_normal-as_str never_export = refl

-- `parse` accepts a text as `x` exactly when the text, trimmed and lowered, is the wire form of `x`.
pub parse_iff :
    (value : String) (x : Portability)
    → (parse value ≡ some x) ↔ (to_ascii_lowercase (trim value) ≡ as_str x)
unfolding parse
parse_iff value x = (as_str_of_parse_normal _ x, λ h. rw h (parse_normal-as_str x))

-- The wire form of every value parses back to it.
pub parse-as_str : (x : Portability) → parse (as_str x) ≡ some x
unfolding parse as_str trim to_ascii_lowercase
parse-as_str portable = refl
parse-as_str profile_only = refl
parse-as_str workspace_only = refl
parse-as_str never_export = refl
