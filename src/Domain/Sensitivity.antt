-- ===== src/Domain/Sensitivity.antt =====
-- `Sensitivity` of src/domain.rs, and its wire form.
use codex_memoryd.Prelude.{
  String, ◌≡◌, refl, ◌↔◌, Option, none, some, keyed, str_eq, trim, to_ascii_lowercase,
  if◌then◌else◌,
}

pub data Sensitivity : Type 0 where
  public personal work_confidential secret_blocked : Sensitivity

pub Sensitivity-discrete : Discrete Sensitivity
Sensitivity-discrete = hlevel

unfoldable pub as_str : Sensitivity → String
as_str public = "public"
as_str personal = "personal"
as_str work_confidential = "work_confidential"
as_str secret_blocked = "secret_blocked"

-- the `match` of `parse`, on the trimmed and lowered text
parse_normal : String → Option Sensitivity
parse_normal s =
    if str_eq s "public"
    then some public
    else if str_eq s "personal"
    then some personal
    else if str_eq s "work_confidential"
    then some work_confidential
    else if str_eq s "secret_blocked"
    then some secret_blocked
    else none

unfoldable pub parse : String → Option Sensitivity
unfolding parse_normal
parse value = parse_normal (to_ascii_lowercase (trim value))

as_str_of_parse_normal : (s : String) (x : Sensitivity) → parse_normal s ≡ some x → s ≡ as_str x
unfolding parse_normal as_str
as_str_of_parse_normal s x = keyed as_str s public _ x (
    keyed as_str s personal _ x
      (keyed as_str s work_confidential _ x (keyed as_str s secret_blocked _ x (λ h. cc))))

parse_normal-as_str : (x : Sensitivity) → parse_normal (as_str x) ≡ some x
unfolding parse_normal as_str
parse_normal-as_str public = refl
parse_normal-as_str personal = refl
parse_normal-as_str work_confidential = refl
parse_normal-as_str secret_blocked = refl

-- `parse` accepts a text as `x` exactly when the text, trimmed and lowered, is the wire form of `x`.
pub parse_iff :
    (value : String) (x : Sensitivity)
    → (parse value ≡ some x) ↔ (to_ascii_lowercase (trim value) ≡ as_str x)
unfolding parse
parse_iff value x = (as_str_of_parse_normal _ x, λ h. rw h (parse_normal-as_str x))

-- The wire form of every value parses back to it.
pub parse-as_str : (x : Sensitivity) → parse (as_str x) ≡ some x
unfolding parse as_str trim to_ascii_lowercase
parse-as_str public = refl
parse-as_str personal = refl
parse-as_str work_confidential = refl
parse-as_str secret_blocked = refl
