-- ===== src/Domain/Profile.antt =====
-- `Profile` of src/domain.rs, and its wire form.
use codex_memoryd.Prelude.{
  String, ◌≡◌, refl, ◌↔◌, Option, none, some, keyed, str_eq, trim, to_ascii_lowercase,
  if◌then◌else◌,
}

pub data Profile : Type 0 where
  personal work oss homelab : Profile

pub Profile-discrete : Discrete Profile
Profile-discrete = hlevel

unfoldable pub as_str : Profile → String
as_str personal = "personal"
as_str work = "work"
as_str oss = "oss"
as_str homelab = "homelab"

-- the `match` of `parse`, on the trimmed and lowered text
parse_normal : String → Option Profile
parse_normal s =
    if str_eq s "personal"
    then some personal
    else if str_eq s "work"
    then some work
    else if str_eq s "oss"
    then some oss
    else if str_eq s "homelab"
    then some homelab
    else none

unfoldable pub parse : String → Option Profile
unfolding parse_normal
parse value = parse_normal (to_ascii_lowercase (trim value))

as_str_of_parse_normal : (s : String) (x : Profile) → parse_normal s ≡ some x → s ≡ as_str x
unfolding parse_normal as_str
as_str_of_parse_normal s x =
    keyed as_str s personal _ x
      (keyed as_str s work _ x (keyed as_str s oss _ x (keyed as_str s homelab _ x (λ h. cc))))

parse_normal-as_str : (x : Profile) → parse_normal (as_str x) ≡ some x
unfolding parse_normal as_str
parse_normal-as_str personal = refl
parse_normal-as_str work = refl
parse_normal-as_str oss = refl
parse_normal-as_str homelab = refl

-- `parse` accepts a text as `x` exactly when the text, trimmed and lowered, is the wire form of `x`.
pub parse_iff :
    (value : String) (x : Profile)
    → (parse value ≡ some x) ↔ (to_ascii_lowercase (trim value) ≡ as_str x)
unfolding parse
parse_iff value x = (as_str_of_parse_normal _ x, λ h. rw h (parse_normal-as_str x))

-- The wire form of every value parses back to it.
pub parse-as_str : (x : Profile) → parse (as_str x) ≡ some x
unfolding parse as_str trim to_ascii_lowercase
parse-as_str personal = refl
parse-as_str work = refl
parse-as_str oss = refl
parse-as_str homelab = refl
