-- ===== src/Policy/Regex.antt =====
-- The `regex` crate, as src/policy.rs uses it: a parameter of the model.
use codex_memoryd.Prelude.{ℕ, String, Char, Bool, List, Option}

pub record RegexEngine : Type 0 where
  -- does `Regex::new(pattern)` succeed?
  pub compiles : String → Bool
  -- `is_match(content)` and `find_iter(content).count()` of a compiled pattern
  pub is_match : String → String → Bool
  pub count_matches : String → String → ℕ
  -- `replace_all(content, replacement)`
  pub replace_all : String → String → String → String
  -- the texts of `find_iter(content)`, and group 1 of each of `captures_iter(content)`
  pub find_all : String → String → List String
  pub captures_1 : String → String → List (Option String)

-- Rust's Unicode tables
pub record Unicode : Type 0 where
  pub is_alphanumeric : Char → Bool
