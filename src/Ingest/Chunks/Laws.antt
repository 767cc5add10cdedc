-- ===== src/Ingest/Chunks/Laws.antt =====
-- The chunks of src/ingest.rs: none of the text is lost by the cutting to size, and what is derived
-- is bounded, trimmed and classified by its own text.
use text.Mathlib.TextLemmas.{nil-append, append-nil, append_assoc, cons-append}
use codex_memoryd.Prelude.{
  ℕ, zero, suc, ◌+◌, ◌≤◌, Char, String, count, push_str, Bool, true, not, ◌&&◌, ◌≡◌, refl, sym, ap,
  subst, ◌∙◌, inl, inr, List, [], ◌∷◌, map, select, take, leb, length, str_is_empty, trim,
  trim_idem, All, arith, Bool-cases, length-select-le,
}
use codex_memoryd.Domain.Profile.{Profile}
use codex_memoryd.Policy.Regex.{RegexEngine, Unicode}
use codex_memoryd.Policy.Classify.{classify}
use codex_memoryd.Ingest.Kinds.{
  ArtifactKind, memory_summary, memory_registry, rollout_summary, ad_hoc_note, screenshot_image,
  ocr_text_extract, log_excerpt, document_excerpt, git_diff, terminal_output_excerpt, unknown,
}
use codex_memoryd.Ingest.Chunks.{
  raw_chunks, CandidateChunk, max_chunk_chars, max_chunks_per_file, is_blank, may_break,
  split_fixed_from, split_fixed, sized_pieces, chunk_markdown, is_long_enough, derive_chunks,
}

abbrev pub concat : List String → String
concat [] = String.[]
concat (s ∷ ss) = push_str s (concat ss)

-- The pieces and a blank end are the text.
abbrev pub Whole : List String → String → Type 0
Whole pieces s = (end : String) × (push_str (concat pieces) end ≡ s) × (is_blank end ≡ true)

push_char :
    (buf : String) (c : Char) (s : String)
    → push_str (push_str buf (String.◌∷◌ c String.[])) s ≡ push_str buf (String.◌∷◌ c s)
push_char buf c s =
    append_assoc buf (String.◌∷◌ c String.[]) s
    ∙ ap (push_str buf) (cons-append c String.[] s ∙ ap (λ t. String.◌∷◌ c t) (nil-append s))

Whole-cons :
    (piece s : String) (pieces : List String)
    → Whole pieces s
    → Whole (piece ∷ pieces) (push_str piece s)
Whole-cons piece s pieces (end, e, b) =
    (end, append_assoc piece (concat pieces) end ∙ ap (push_str piece) e, b)

Whole-split_fixed_from :
    (s buf : String) (n : ℕ) → Whole (split_fixed_from s buf n) (push_str buf s)
unfolding split_fixed_from trim
Whole-split_fixed_from String.[] buf n = elim (Bool-cases (is_blank buf)) [
  | inl blank ↦ rw blank (buf, nil-append buf ∙ sym (append-nil buf), blank)
  | inr text ↦ rw text (String.[], append-nil (push_str buf String.[]), refl)
]
Whole-split_fixed_from (String.◌∷◌ c s) buf n =
    let buf' = push_str buf (String.◌∷◌ c String.[]) in
    elim (Bool-cases (leb max_chunk_chars (n + 1) && may_break c)) [
      | inl cut ↦ rw cut (
          subst (Whole (buf' ∷ split_fixed_from s String.[] 0)) (push_char buf c s) (
            Whole-cons buf' s (split_fixed_from s String.[] 0) (
              subst (Whole (split_fixed_from s String.[] 0)) (nil-append s)
                (Whole-split_fixed_from s String.[] 0))))
      | inr go ↦ rw go (
          subst (Whole (split_fixed_from s buf' (n + 1))) (push_char buf c s)
            (Whole-split_fixed_from s buf' (n + 1)))
    ]

-- Cutting to size loses nothing: the pieces in order, and a blank end, are the chunk.
pub split_fixed_lem : (chunk : String) → Whole (split_fixed chunk) chunk
unfolding split_fixed trim
split_fixed_lem chunk = elim (Bool-cases (leb (count chunk) max_chunk_chars)) [
  | inl short ↦ rw short (String.[], append-nil (push_str chunk String.[]) ∙ append-nil chunk, refl)
  | inr long ↦ rw long (
      subst (Whole (split_fixed_from chunk String.[] 0)) (nil-append chunk)
        (Whole-split_fixed_from chunk String.[] 0))
]

-- what is promised of a derived chunk
abbrev pub IsFit : RegexEngine → Unicode → Profile → Bool → CandidateChunk → Type 0
IsFit E U profile repo_present c =
    (8 ≤ count c.content)
    × (trim c.content ≡ c.content)
    × (c.classification ≡ classify E U c.content profile repo_present)

length-take-le : (n : ℕ) (xs : List String) → length (take n xs) ≤ n
length-take-le zero xs = omega arith
length-take-le (suc n) [] = omega arith
length-take-le (suc n) (x ∷ xs) = omega (arith, length-take-le n xs)

length-map : (f : String → CandidateChunk) (xs : List String) → length (map f xs) ≡ length xs
length-map f [] = refl
length-map f (x ∷ xs) = ap suc (length-map f xs)

module _ (P : String → Type 0) where
  All-take : (n : ℕ) (xs : List String) → All P xs → All P (take n xs)
  All-take zero xs all = tt
  All-take (suc n) [] all = tt
  All-take (suc n) (x ∷ xs) (px, all) = (px, All-take n xs all)

  All-select : (p : String → Bool) (xs : List String) → All P xs → All P (select p xs)
  All-select p [] all = tt
  All-select p (x ∷ xs) (px, all) = elim (Bool-cases (p x)) [
    | inl kept ↦ rw kept (px, All-select p xs all)
    | inr dropped ↦ rw dropped (All-select p xs all)
  ]

abbrev Trimmed : String → Type 0
Trimmed s = trim s ≡ s

All-map-trim : (xs : List String) → All Trimmed (map trim xs)
All-map-trim [] = tt
All-map-trim (x ∷ xs) = (trim_idem x, All-map-trim xs)

chunk_markdown-Trimmed : (content : String) → All Trimmed (chunk_markdown content)
unfolding chunk_markdown
chunk_markdown-Trimmed content =
    All-select Trimmed (λ s. not (str_is_empty s)) (map trim (sized_pieces content))
      (All-map-trim (sized_pieces content))

raw_chunks-Trimmed :
    (kind : ArtifactKind) (content : String) → All Trimmed (raw_chunks kind content)
raw_chunks-Trimmed memory_summary content = chunk_markdown-Trimmed content
raw_chunks-Trimmed memory_registry content = chunk_markdown-Trimmed content
raw_chunks-Trimmed rollout_summary content = chunk_markdown-Trimmed content
raw_chunks-Trimmed ad_hoc_note content = chunk_markdown-Trimmed content
raw_chunks-Trimmed unknown content = chunk_markdown-Trimmed content
raw_chunks-Trimmed screenshot_image content = chunk_markdown-Trimmed content
raw_chunks-Trimmed ocr_text_extract content = chunk_markdown-Trimmed content
raw_chunks-Trimmed log_excerpt content = chunk_markdown-Trimmed content
raw_chunks-Trimmed document_excerpt content = chunk_markdown-Trimmed content
raw_chunks-Trimmed git_diff content = chunk_markdown-Trimmed content
raw_chunks-Trimmed terminal_output_excerpt content = chunk_markdown-Trimmed content

is_long_enough-count : (s : String) → is_long_enough s ≡ true → trim s ≡ s → 8 ≤ count s
is_long_enough-count s long e = subst (λ t. 8 ≤ count t) e (ground arith)

module _ (E : RegexEngine) (U : Unicode) (profile : Profile) (repo_present : Bool) where
  abbrev candidate : String → CandidateChunk
  candidate c = record { content = c; classification = classify E U c profile repo_present }

  All-candidate :
      (xs : List String)
      → All Trimmed xs
      → All (IsFit E U profile repo_present) (map candidate (select is_long_enough xs))
  All-candidate [] all = tt
  All-candidate (x ∷ xs) (e, all) = elim (Bool-cases (is_long_enough x)) [
    | inl long ↦ rw long ((is_long_enough-count x long e, e, refl), All-candidate xs all)
    | inr short ↦ rw short (All-candidate xs all)
  ]

  -- At most two hundred chunks are derived, and each is trimmed, of eight characters or more, and
  -- classified by its own text.
  pub derive_chunks_lem :
      (content : String) (kind : ArtifactKind)
      → (length (derive_chunks E U content kind profile repo_present) ≤ max_chunks_per_file)
        × All (IsFit E U profile repo_present) (derive_chunks E U content kind profile repo_present)
  unfolding derive_chunks
  derive_chunks_lem content kind =
      let kept = take max_chunks_per_file (raw_chunks kind content) in
      (
        omega (
          arith,
          length-map candidate (select is_long_enough kept),
          length-select-le is_long_enough kept,
          length-take-le max_chunks_per_file (raw_chunks kind content),
        ),
        All-candidate kept (
            All-take Trimmed max_chunks_per_file (raw_chunks kind content)
              (raw_chunks-Trimmed kind content)),
      )
