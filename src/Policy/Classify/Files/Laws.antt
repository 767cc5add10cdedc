-- ===== src/Policy/Classify/Files/Laws.antt =====
-- What `extract_related_files` of src/policy.rs returns.
use codex_memoryd.Prelude.{
  ℕ, ◌≤◌, ◌<◌, ◌+◌, max, String, ◌≡◌, true, false, not, Option, none, some, List, [], ◌∷◌, ◌++◌,
  arith, length, length-append, mem_str, All, trim, leb, Bool-cases, inl, inr, ◌&&◌,
}
use codex_memoryd.Prelude.Distinct.{Distinct, Distinct-append}
use codex_memoryd.Policy.Regex.{RegexEngine, Unicode}
use codex_memoryd.Policy.Classify.Files.{
  is_file_pathish, push_file, push_spans, push_tokens, is_edge, extract_related_files, backtick_re,
  file_path_re, trim_end_matches, trim_start_matches,
}

-- A list of files is sound if none stands twice and each is path-like.
pub record AreFiles (files : List String) : Type 0 where
  pub distinct : Distinct files
  pub pathish : All (λ f. is_file_pathish f ≡ true) files

All-concat :
    (P : String → Type 0) (xs : List String) (x : String) → All P xs → P x → All P (xs ++ x ∷ [])
All-concat P [] x h p = (p, tt)
All-concat P (y ∷ ys) x h p = (h.0, All-concat P ys x h.1 p)

push_file-AreFiles :
    (files : List String) (t : String) → AreFiles files → AreFiles (push_file files t)
unfolding push_file
push_file-AreFiles files t a = elim (Bool-cases (is_file_pathish t && not (mem_str t files))) [
  | inl new ↦ rw new (record {
    distinct = Distinct-append files t a.distinct (ground arith);
    pathish = All-concat _ files t a.pathish (ground arith);
  })
  | inr old ↦ rw old a
]

length-push_file :
    (files : List String) (t : String) → length (push_file files t) ≤ length files + 1
unfolding push_file
length-push_file files t = ground (arith, length-append files (t ∷ []))

not_leb : (a b : ℕ) → leb a b ≡ false → b < a
not_leb a b h = ground arith

push_spans-AreFiles :
    (files : List String) (spans : List (Option String))
    → AreFiles files
    → AreFiles (push_spans files spans)
unfolding push_spans
push_spans-AreFiles files [] a = a
push_spans-AreFiles files (none ∷ more) a = push_spans-AreFiles files more a
push_spans-AreFiles files (some s ∷ more) a =
    push_spans-AreFiles (push_file files (trim s)) more (push_file-AreFiles files (trim s) a)

module _ (U : Unicode) where
  push_tokens-AreFiles :
      (files tokens : List String) → AreFiles files → AreFiles (push_tokens U files tokens)
  unfolding push_tokens
  push_tokens-AreFiles files [] a = a
  push_tokens-AreFiles files (m ∷ more) a =
      let t = trim_end_matches (is_edge U) (trim_start_matches (is_edge U) m) in
      let files' = push_file files t in
      let b = push_file-AreFiles files t a in
      elim (Bool-cases (leb 16 (length files'))) [
        | inl full ↦ rw full b
        | inr room ↦ rw room (push_tokens-AreFiles files' more b)
      ]

  length-push_tokens :
      (files tokens : List String) → length (push_tokens U files tokens) ≤ max 16 (length files + 1)
  unfolding push_tokens
  length-push_tokens files [] = omega arith
  length-push_tokens files (m ∷ more) =
      let t = trim_end_matches (is_edge U) (trim_start_matches (is_edge U) m) in
      let grown = length-push_file files t in
      elim (Bool-cases (leb 16 (length (push_file files t)))) [
        | inl full ↦ rw full (omega (arith, grown))
        | inr room ↦
            rw room (omega (arith, length-push_tokens (push_file files t) more, not_leb _ _ room))
      ]

length-push_spans :
    (files : List String) (spans : List (Option String))
    → length (push_spans files spans) ≤ length files + length spans
unfolding push_spans
length-push_spans files [] = omega arith
length-push_spans files (none ∷ more) = omega (arith, length-push_spans files more)
length-push_spans files (some s ∷ more) =
    omega
      (arith, length-push_spans (push_file files (trim s)) more, length-push_file files (trim s))

-- Every file that a text yields is path-like, none stands twice, and there are at most 16, or one
-- more than the backticked spans if these are more than 15.
pub extract_related_files-AreFiles :
    (E : RegexEngine) (U : Unicode) (content : String)
    → AreFiles (extract_related_files E U content)
      × (length (extract_related_files E U content)
          ≤ max 16 (length (E.captures_1 backtick_re content) + 1))
unfolding extract_related_files
extract_related_files-AreFiles E U content =
    let spans = E.captures_1 backtick_re content in
    let tokens = E.find_all file_path_re content in
    let start : AreFiles [] = record { distinct = tt; pathish = tt } in
    (
      push_tokens-AreFiles U (push_spans [] spans) tokens (push_spans-AreFiles [] spans start),
      omega (arith, length-push_tokens U (push_spans [] spans) tokens, length-push_spans [] spans),
    )
