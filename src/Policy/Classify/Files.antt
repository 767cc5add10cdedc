-- ===== src/Policy/Classify/Files.antt =====
-- src/policy.rs: the file-like tokens of a text.
pub mod Laws
use codex_memoryd.Prelude.{
  String, Char, code, len, Bool, false, not, ◌&&◌, ◌||◌, Option, none, some, List, [], ◌∷◌, ◌++◌,
  leb, ltb, ◌==◌, length, contains, starts_with, trim, str_is_empty, any_char, all_chars, mem_str,
  if◌then◌else◌,
}
use codex_memoryd.Policy.Regex.{RegexEngine, Unicode}

abbrev file_path_re : String
file_path_re = "(?:[A-Za-z0-9_./\\-]+/)*[A-Za-z0-9_\\-]+\\.[A-Za-z0-9]{1,8}"

abbrev backtick_re : String
backtick_re = "`([^`]+)`"

abbrev is_ascii_alphabetic : Char → Bool
is_ascii_alphabetic c =
    (leb b'a' (code c) && leb (code c) b'z') || (leb b'A' (code c) && leb (code c) b'Z')

abbrev is_ascii_digit : Char → Bool
is_ascii_digit c = leb b'0' (code c) && leb (code c) b'9'

-- `rsplit('.').next()`: what follows the last dot, or the whole text
after_last_dot : String → String
after_last_dot String.[] = ""
after_last_dot (String.◌∷◌ c s) =
    let rest = after_last_dot s in
    if any_char (λ d. code d == b'.') s then rest else if code c == b'.' then s else String.◌∷◌ c s

unfoldable pub is_file_pathish : String → Bool
unfolding after_last_dot contains
is_file_pathish token =
    let ext = after_last_dot token in
    let has_ext =
      not (str_is_empty ext)
      && leb (len ext) 8
      && all_chars (λ c. is_ascii_alphabetic c || is_ascii_digit c) ext
      && any_char is_ascii_alphabetic ext in
    let has_sep = any_char (λ c. code c == b'/') token in
    if ltb (len token) 3 || ltb 200 (len token)
    then false
    else (has_ext || has_sep)
      && not (starts_with token "http")
      && not (contains token "://")
      && not (all_chars (λ c. is_ascii_digit c || code c == b'.') token)

-- `trim_matches(p)`
trim_start_matches : (Char → Bool) → String → String
trim_start_matches p String.[] = ""
trim_start_matches p (String.◌∷◌ c s) =
    let rest = trim_start_matches p s in if p c then rest else String.◌∷◌ c s

trim_end_matches : (Char → Bool) → String → String
trim_end_matches p String.[] = ""
trim_end_matches p (String.◌∷◌ c s) =
    let rest = trim_end_matches p s in if str_is_empty rest && p c then "" else String.◌∷◌ c rest

-- `if is_file_pathish(token) && !files.contains(token) { files.push(token) }`
push_file : List String → String → List String
unfolding is_file_pathish
push_file files token =
    if is_file_pathish token && not (mem_str token files) then files ++ token ∷ [] else files

-- the loop over the backticked spans
push_spans : List String → List (Option String) → List String
unfolding push_file
push_spans files [] = files
push_spans files (none ∷ more) = push_spans files more
push_spans files (some inner ∷ more) = push_spans (push_file files (trim inner)) more

module _ (U : Unicode) where
  abbrev is_edge : Char → Bool
  is_edge c =
      not (U.is_alphanumeric c)
      && not (code c == b'/')
      && not (code c == b'.')
      && not (code c == b'_')
      && not (code c == b'-')

  -- the loop over the bare tokens, which stops once 16 files are held
  push_tokens : List String → List String → List String
  unfolding push_file trim_start_matches trim_end_matches
  push_tokens files [] = files
  push_tokens files (m ∷ more) =
      let files' = push_file files (trim_end_matches is_edge (trim_start_matches is_edge m)) in
      let rest = push_tokens files' more in if leb 16 (length files') then files' else rest

unfoldable pub extract_related_files : RegexEngine → Unicode → String → List String
unfolding push_spans push_tokens
extract_related_files E U content =
    push_tokens U (push_spans [] (E.captures_1 backtick_re content))
      (E.find_all file_path_re content)
