-- ===== src/Bundle/Paths.antt =====
-- src/portable_bundle.rs: the paths, keys and scalars that a bundle may carry.
pub mod Laws
use codex_memoryd.Prelude.{
  ℕ, ◌+◌, Char, code, String, len, count, push_str, Bool, true, false, not, ◌&&◌, ◌||◌, Option,
  none, some, List, [], ◌∷◌, any, leb, ltb, ◌==◌, str_eq, str_is_empty, starts_with, contains,
  contains_any, any_char, split, to_ascii_lowercase, if◌then◌else◌,
}
use codex_memoryd.Errors.{
  Result, ok, err, fail, invalid_request, bundle_unsafe_member, bundle_limit_exceeded,
  bundle_policy_denied, bundle_integrity_failed,
}
use codex_memoryd.Policy.Regex.{RegexEngine}
use codex_memoryd.Policy.Screen.{PolicyDecision, accept, reject, screen_content}

-- a part of a path that is empty or leaves its directory
abbrev pub unsafe_part : String → Bool
unsafe_part part = str_eq part ".." || str_is_empty part

-- `Path::components` has a `ParentDir` for a part `..`, and a `RootDir` for a leading `/`
abbrev leaves_root : String → Bool
leaves_root name = any (λ part. str_eq part "..") (split "/" name) || starts_with name "/"

unfoldable pub validate_member_name : String → Result {0} Unit
validate_member_name name =
    if str_is_empty name
      || contains name "\0"
      || contains name "\\"
      || starts_with name "/"
      || any unsafe_part (split "/" name)
      || leaves_root name
    then fail bundle_unsafe_member "unsafe ZIP member path"
    else ok tt

-- `chars().nth(1)` is a colon, as in a drive letter
abbrev pub has_drive : String → Bool
has_drive String.[] = false
has_drive (String.◌∷◌ c String.[]) = false
has_drive (String.◌∷◌ c (String.◌∷◌ d s)) = code d == b':'

-- The loop over the components, whose `depth`, an i32, counts them; no path that is held in memory
-- has more than an i32 counts.
unfoldable pub path_depth : List String → ℕ → Option ℕ
path_depth [] depth = some depth
path_depth (part ∷ parts) depth =
    let rest = path_depth parts (depth + 1) in
    if str_is_empty part || str_eq part "." then none else if str_eq part ".." then none else rest

unfoldable pub valid_repo_path : String → Bool
unfolding path_depth
valid_repo_path path =
    if str_is_empty path
      || contains path "\0"
      || contains path "\\"
      || starts_with path "/"
      || starts_with path "~"
      || contains path "://"
      || has_drive path
      || starts_with path "//"
    then false
    else elim (path_depth (split "/" path) 0) [ none ↦ false | some depth ↦ ltb 0 depth ]

unfoldable pub valid_metadata_string : String → Bool
valid_metadata_string value =
    not (contains value "\0")
    && not (starts_with value "/")
    && not (starts_with value "~")
    && not (starts_with value "//")
    && not (contains value "://")
    && not (has_drive value)

unfoldable pub unsafe_metadata_key : String → Bool
unsafe_metadata_key key = contains_any (to_ascii_lowercase key) (
    "path" ∷ "root" ∷ "url" ∷ "remote" ∷ "token" ∷ "secret" ∷ "credential" ∷ "password" ∷ "loader"
    ∷ "query" ∷ "sql" ∷ "code" ∷ "command" ∷ "env" ∷ "file" ∷ [])

-- `char::is_control`: the characters of Unicode's Cc
abbrev is_control : Char → Bool
is_control c = leb (code c) 31 || (leb 127 (code c) && leb (code c) 159)

unfoldable pub validate_scalar : String → String → Result {0} Unit
validate_scalar value label =
    if str_is_empty value || ltb 512 (len value) || contains value "\0" || any_char is_control value
    then fail invalid_request (push_str "invalid bundle " label)
    else ok tt

unfoldable pub sanitized_scalar : String → ℕ → Result String
sanitized_scalar value max_len = elim (validate_scalar value "object value") [
  | err e ↦ err e
  | ok _ ↦
      if ltb max_len (count value)
      then fail bundle_limit_exceeded "portable object string limit exceeded"
      else ok value
]

unfoldable pub screened_string : RegexEngine → String → ℕ → Result String
screened_string E value max_chars = elim (screen_content E value max_chars) [
  | accept cleaned ↦ ok cleaned
  | reject code reason ↦
      fail (if str_eq code "secret_detected" then bundle_policy_denied else bundle_integrity_failed)
        "portable object content failed policy screening"
]
