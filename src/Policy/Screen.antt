-- ===== src/Policy/Screen.antt =====
-- src/policy.rs: the combined gate on durable content.
pub mod Laws
use codex_memoryd.Prelude.{
  ℕ, String, count, push_str, Bool, not, false, true, ◌&&◌, ◌||◌, Option, none, some, List, [], ◌∷◌,
  any, leb, ltb, ◌==◌, code, starts_with, str_is_empty, trim, trim_start, take_chars, any_char,
  lines, until, if◌then◌else◌,
}
use codex_memoryd.Policy.Regex.{RegexEngine}
use codex_memoryd.Policy.Secrets.{detect_secret, detect_injection}

abbrev pub max_record_chars : ℕ
max_record_chars = 8000

abbrev pub max_raw_log_chars : ℕ
max_raw_log_chars = 16000

pub data PolicyDecision : Type 0 where
  accept : String → PolicyDecision
  reject : String → String → PolicyDecision  -- code, reason

unfoldable pub is_accept : PolicyDecision → Bool
is_accept (accept _) = true
is_accept (reject _ _) = false

unfoldable pub looks_structured : String → Bool
unfolding lines trim_start
looks_structured content =
    any
      (λ line.
        let t = trim_start line in
        starts_with t "#" || starts_with t "- " || starts_with t "* " || starts_with t "1.")
      (lines content)

abbrev pub truncation_marker : String
truncation_marker = "\n[truncated by codex-memoryd]"

unfoldable pub truncate_chars : String → ℕ → String
truncate_chars content max_chars =
    if leb (count content) max_chars
    then content
    else push_str (take_chars max_chars content) truncation_marker

-- the checks of `screen_string_value` after the trimming, in their order
screen_trimmed : RegexEngine → String → PolicyDecision
screen_trimmed E trimmed =
    if str_is_empty trimmed then accept "" else elim (detect_secret E trimmed) [
      | some label ↦ reject "secret_detected" (push_str "secret-like content detected: " label)
      | none ↦
          if detect_injection E trimmed
          then reject "policy_denied" "prompt-injection-like content detected"
          else if ltb max_raw_log_chars (count trimmed) && not (looks_structured trimmed)
          then reject "policy_denied" "oversized unstructured content likely to contain secrets"
          else accept trimmed
    ]

unfoldable pub screen_string_value : RegexEngine → String → PolicyDecision
unfolding screen_trimmed
screen_string_value E content = screen_trimmed E (trim content)

unfoldable pub screen_content : RegexEngine → String → ℕ → PolicyDecision
screen_content E content max_chars =
    let trimmed = trim content in
    if str_is_empty trimmed
    then reject "invalid_request" "empty content"
    else elim (screen_string_value E trimmed) [
      | accept cleaned ↦ accept (truncate_chars cleaned max_chars)
      | reject code reason ↦ reject code reason
    ]

-- `strip_prefix`, for the two prefixes that the caller tries
abbrev drop_chars : ℕ → String → String
drop_chars n String.[] = String.[]
drop_chars ℕ.zero s = s
drop_chars (ℕ.suc n) (String.◌∷◌ c s) = drop_chars n s

unfoldable pub has_http_remote_credentials : String → Bool
unfolding trim until
has_http_remote_credentials remote =
    let trimmed = trim remote in
    let at_sign = λ (rest : String). any_char (λ c. code c == b'@') (until "/" rest) in
    if starts_with trimmed "https://"
    then at_sign (drop_chars 8 trimmed)
    else if starts_with trimmed "http://"
    then at_sign (drop_chars 7 trimmed)
    else false
