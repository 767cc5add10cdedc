-- ===== src/Domain/SubjectKind.antt =====
-- `SubjectKind` of src/domain.rs, and its wire form.
use codex_memoryd.Prelude.{
  String, ◌≡◌, refl, ◌↔◌, Option, none, some, keyed, str_eq, trim, to_ascii_lowercase,
  if◌then◌else◌,
}

pub data SubjectKind : Type 0 where
  person agent org project repo routine workflow device concept other : SubjectKind

pub SubjectKind-discrete : Discrete SubjectKind
SubjectKind-discrete = hlevel

unfoldable pub as_str : SubjectKind → String
as_str person = "person"
as_str agent = "agent"
as_str org = "org"
as_str project = "project"
as_str repo = "repo"
as_str routine = "routine"
as_str workflow = "workflow"
as_str device = "device"
as_str concept = "concept"
as_str other = "other"

-- the `match` of `parse`, on the trimmed and lowered text
parse_normal : String → Option SubjectKind
parse_normal s =
    if str_eq s "person"
    then some person
    else if str_eq s "agent"
    then some agent
    else if str_eq s "org"
    then some org
    else if str_eq s "project"
    then some project
    else if str_eq s "repo"
    then some repo
    else if str_eq s "routine"
    then some routine
    else if str_eq s "workflow"
    then some workflow
    else if str_eq s "device"
    then some device
    else if str_eq s "concept"
    then some concept
    else if str_eq s "other"
    then some other
    else none

unfoldable pub parse : String → Option SubjectKind
unfolding parse_normal
parse value = parse_normal (to_ascii_lowercase (trim value))

as_str_of_parse_normal : (s : String) (x : SubjectKind) → parse_normal s ≡ some x → s ≡ as_str x
unfolding parse_normal as_str
as_str_of_parse_normal s x = keyed as_str s person _ x (
    keyed as_str s agent _ x (
      keyed as_str s org _ x (
        keyed as_str s project _ x (
          keyed as_str s repo _ x (
            keyed as_str s routine _ x (
              keyed as_str s workflow _ x (
                keyed as_str s device _ x
                  (keyed as_str s concept _ x (keyed as_str s other _ x (λ h. cc))))))))))

parse_normal-as_str : (x : SubjectKind) → parse_normal (as_str x) ≡ some x
unfolding parse_normal as_str
parse_normal-as_str person = refl
parse_normal-as_str agent = refl
parse_normal-as_str org = refl
parse_normal-as_str project = refl
parse_normal-as_str repo = refl
parse_normal-as_str routine = refl
parse_normal-as_str workflow = refl
parse_normal-as_str device = refl
parse_normal-as_str concept = refl
parse_normal-as_str other = refl

-- `parse` accepts a text as `x` exactly when the text, trimmed and lowered, is the wire form of `x`.
pub parse_iff :
    (value : String) (x : SubjectKind)
    → (parse value ≡ some x) ↔ (to_ascii_lowercase (trim value) ≡ as_str x)
unfolding parse
parse_iff value x = (as_str_of_parse_normal _ x, λ h. rw h (parse_normal-as_str x))

-- The wire form of every value parses back to it.
pub parse-as_str : (x : SubjectKind) → parse (as_str x) ≡ some x
unfolding parse as_str trim to_ascii_lowercase
parse-as_str person = refl
parse-as_str agent = refl
parse-as_str org = refl
parse-as_str project = refl
parse-as_str repo = refl
parse-as_str routine = refl
parse-as_str workflow = refl
parse-as_str device = refl
parse-as_str concept = refl
parse-as_str other = refl
