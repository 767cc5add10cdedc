-- ===== src/Examples/Gate.antt =====
-- The gate, the boundary and the classification of src/policy.rs, on small inputs.
use codex_memoryd.Prelude.{
  String, trim, to_ascii_lowercase, max, ◌≡◌, refl, inl, true, some, [], ◌∷◌, ◌≤◌, ◌+◌, arith,
  contains, length,
}
use codex_memoryd.Domain.Profile.{personal, work}
use codex_memoryd.Policy.Regex.{RegexEngine, Unicode}
use codex_memoryd.Policy.Secrets.{detect_secret, detect_injection}
use codex_memoryd.Policy.Screen.{accept, screen_content, truncate_chars}
use codex_memoryd.Policy.Screen.Laws.{Passes, screen_content-accept_iff}
use codex_memoryd.Policy.Boundary.{export_boundary, is_deny, export_boundary_matrix}
use codex_memoryd.Policy.Classify.Files.{extract_related_files}
use codex_memoryd.Policy.Classify.Files.Laws.{AreFiles, extract_related_files-AreFiles}

-- an engine whose patterns match literally, and whose file tokens are the whole text
abbrev pub literal_engine : RegexEngine
literal_engine = record {
  compiles = λ p. true;
  is_match = λ p s. contains s p;
  count_matches = λ p s. 0;
  replace_all = λ p s r. s;
  find_all = λ p s. s ∷ [];
  captures_1 = λ p s. some s ∷ [];
}

abbrev pub ascii : Unicode
ascii = record { is_alphanumeric = λ c. true }

-- `use` and the marker
abbrev cut_use : String
cut_use = "use\n[truncated by codex-memoryd]"

use_pnpm-Passes : Passes literal_engine "use pnpm"
unfolding detect_secret detect_injection to_ascii_lowercase
use_pnpm-Passes = record {
  filled = refl;
  no_secret = refl;
  no_injection = refl;
  small = inl (omega arith);
}

screen_content-accept_example : screen_content literal_engine "  use pnpm  " 3 ≡ accept cut_use
unfolding trim truncate_chars
screen_content-accept_example =
    (screen_content-accept_iff literal_engine "  use pnpm  " 3 cut_use).1 (use_pnpm-Passes, refl)

export_boundary_example : is_deny (export_boundary work personal) ≡ true
export_boundary_example = (export_boundary_matrix work personal).0.1 (refl, λ e. ground arith)

extract_related_files_example :
    AreFiles (extract_related_files literal_engine ascii "src/lib.rs")
    × (length (extract_related_files literal_engine ascii "src/lib.rs") ≤ max 16 (1 + 1))
extract_related_files_example = extract_related_files-AreFiles literal_engine ascii "src/lib.rs"
