-- ===== src/Bundle/Paths/Laws.antt =====
-- The paths that src/portable_bundle.rs accepts stay below the directory they are resolved in.
use codex_memoryd.Prelude.{
  ℕ, ◌+◌, ◌-◌, ◌==◌, ◌≤◌, ◌<◌, String, Bool, true, false, ◌||◌, ◌≡◌, ◌≢◌, ◌⊎◌, refl, ap, ◌∙◌, inl,
  inr, Option, none, some, List, [], ◌∷◌, any, starts_with, contains, length, arith, str_eq,
  str_is_empty, split, Bool-cases, Option-cases, if◌then◌else◌,
}
use codex_memoryd.Errors.{Result, ok, err}
use codex_memoryd.Bundle.Paths.{unsafe_part, validate_member_name, path_depth, valid_repo_path}

-- Where the parts lead, by the resolution of a file system: the number of directories below the
-- start, or none if they lead above it on the way.
unfoldable pub resolve : List String → ℕ → Option ℕ
resolve [] n = some n
resolve (part ∷ parts) n =
    let stay = resolve parts n in
    let down = resolve parts (n + 1) in
    let up = resolve parts (n - 1) in
    if str_is_empty part || str_eq part "."
    then stay
    else if str_eq part ".."
    then if n == 0 then none else up
    else down

resolve-path_depth :
    (parts : List String) (n k : ℕ)
    → path_depth parts n ≡ some k
    → (resolve parts n ≡ some k) × (k ≡ n + length parts)
unfolding resolve path_depth
resolve-path_depth [] n k h = (h, ground arith)
resolve-path_depth (part ∷ parts) n k h = elim (Bool-cases (str_is_empty part || str_eq part ".")) [
  | inl bad ↦ absurd (ground arith)
  | inr fine ↦ elim (Bool-cases (str_eq part "..")) [
    | inl bad ↦ absurd (ground arith)
    | inr down ↦
        let e : path_depth parts (n + 1) ≡ some k = ground arith in
        let rest = resolve-path_depth parts (n + 1) k e in
        rw (fine, down) (rest.0, omega (arith, rest.1))
  ]
]

-- An accepted repository path leads below its repository, as many directories down as it has parts,
-- and at least one.
pub valid_repo_path-resolve :
    (path : String)
    → valid_repo_path path ≡ true
    → (resolve (split "/" path) 0 ≡ some (length (split "/" path))) × (0 < length (split "/" path))
unfolding valid_repo_path
valid_repo_path-resolve path h = elim (Option-cases (path_depth (split "/" path) 0)) [
  | inl bad ↦ absurd (ground arith)
  | inr (k, e) ↦
      let r = resolve-path_depth (split "/" path) 0 k e in
      let q : k ≡ length (split "/" path) = omega (arith, r.1) in (r.0 ∙ ap some q, ground arith)
]

resolve-safe :
    (parts : List String) (n : ℕ)
    → any unsafe_part parts ≡ false
    → (k : ℕ) × (resolve parts n ≡ some k) × (n ≤ k)
unfolding resolve
resolve-safe [] n h = (n, refl, omega arith)
resolve-safe (part ∷ parts) n h = elim (Bool-cases (str_is_empty part || str_eq part ".")) [
  | inl here ↦ rw here (resolve-safe parts n (ground arith))
  | inr other ↦
      let down : str_eq part ".." ≡ false = ground arith in
      let (k, e, l) = resolve-safe parts (n + 1) (ground arith) in
      rw (other, down) (k, e, omega arith)
]

-- The name of an accepted archive member leads nowhere above the directory it is unpacked in.
pub validate_member_name-resolve :
    (name : String)
    → validate_member_name name ≡ ok tt
    → (k : ℕ) × (resolve (split "/" name) 0 ≡ some k)
unfolding validate_member_name
validate_member_name-resolve name h =
    let safe : any unsafe_part (split "/" name) ≡ false = ground arith in
    let (k, e, l) = resolve-safe (split "/" name) 0 safe in (k, e)

is_accepted : Result {0} Unit → Bool
is_accepted (ok _) = true
is_accepted (err _) = false

accepted : (r : Result {0} Unit) → is_accepted r ≡ true → r ≡ ok tt
unfolding is_accepted
accepted (ok tt) h = refl
accepted (err e) h = absurd (cc)

refused : (r : Result {0} Unit) → is_accepted r ≡ false → r ≢ ok tt
unfolding is_accepted
refused (ok tt) h = absurd (cc)
refused (err e) h = λ q. absurd (cc)

-- A path that the directory it is resolved in cannot be left by.
pub record IsInside (path : String) : Type 0 where
  pub relative : starts_with path "/" ≡ false
  pub no_backslash : contains path "\\" ≡ false
  pub no_nul : contains path "\0" ≡ false
  pub depth : ℕ
  pub leads : resolve (split "/" path) 0 ≡ some depth

-- What a repository path must be besides.
pub record IsBelow (path : String) : Type 0 where
  pub inside : IsInside path
  pub all_parts : inside.depth ≡ length (split "/" path)
  pub below : 0 < inside.depth
  pub home : starts_with path "~" ≡ false
  pub scheme : contains path "://" ≡ false

valid_repo_path-IsBelow : (path : String) → valid_repo_path path ≡ true → IsBelow path
unfolding valid_repo_path
valid_repo_path-IsBelow path h =
    let (leads, below) = valid_repo_path-resolve path h in
    record {
      inside = record {
        relative = ground arith;
        no_backslash = ground arith;
        no_nul = ground arith;
        depth = length (split "/" path);
        leads = leads;
      };
      all_parts = refl;
      below = below;
      home = ground arith;
      scheme = ground arith;
    }

validate_member_name-IsInside : (name : String) → validate_member_name name ≡ ok tt → IsInside name
unfolding validate_member_name
validate_member_name-IsInside name h =
    let (k, leads) = validate_member_name-resolve name h in
    record {
      relative = ground arith;
      no_backslash = ground arith;
      no_nul = ground arith;
      depth = k;
      leads = leads;
    }

-- A repository path is refused, or it is relative, has no backslash, no NUL and no `://` in it, does
-- not start with `~`, and leads below its repository, as many directories down as it has parts, and
-- at least one. The name of an archive member is refused, or it is relative, has no backslash and no
-- NUL in it, and leads nowhere above the directory it is unpacked in.
pub paths-resolve :
    (path : String)
    → ((valid_repo_path path ≡ false) ⊎ IsBelow path)
      × ((validate_member_name path ≢ ok tt) ⊎ IsInside path)
paths-resolve path = (
  elim (Bool-cases (valid_repo_path path)) [
    | inl valid ↦ inr (valid_repo_path-IsBelow path valid)
    | inr bad ↦ inl bad
  ],
  elim (Bool-cases (is_accepted (validate_member_name path))) [
    | inl valid ↦ inr (validate_member_name-IsInside path (accepted _ valid))
    | inr bad ↦ inl (refused _ bad)
  ],
)
