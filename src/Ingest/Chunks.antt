-- ===== src/Ingest/Chunks.antt =====
-- `derive_chunks` of src/ingest.rs: the chunks of a file's text.
pub mod Laws
use codex_memoryd.Prelude.{
  ℕ, zero, suc, ◌+◌, Char, code, String, count, push_str, Bool, true, false, not, ◌&&◌, ◌||◌, List,
  [], ◌∷◌, ◌++◌, is_empty, map, select, take, leb, ◌==◌, starts_with, str_is_empty, trim,
  trim_start, lines, if◌then◌else◌,
}
use codex_memoryd.Domain.Profile.{Profile}
use codex_memoryd.Policy.Regex.{RegexEngine, Unicode}
use codex_memoryd.Policy.Classify.{Classification, classify}
use codex_memoryd.Ingest.Kinds.{
  ArtifactKind, memory_summary, memory_registry, rollout_summary, ad_hoc_note, unknown,
}

abbrev pub max_chunk_chars : ℕ
max_chunk_chars = 1500

abbrev pub min_chunk_chars : ℕ
min_chunk_chars = 8

abbrev pub max_chunks_per_file : ℕ
max_chunks_per_file = 200

pub record CandidateChunk : Type 0 where
  pub content : String
  pub classification : Classification

abbrev pub is_blank : String → Bool
is_blank s = str_is_empty (trim s)

abbrev pub may_break : Char → Bool
may_break c = code c == 10 || code c == b'.' || code c == 32

-- the loop over the characters, with the buffer and its length
unfoldable pub split_fixed_from : String → String → ℕ → List String
split_fixed_from String.[] buf n = if not (is_blank buf) then buf ∷ [] else []
split_fixed_from (String.◌∷◌ c s) buf n =
    let buf' = push_str buf (String.◌∷◌ c String.[]) in
    let next = split_fixed_from s String.[] 0 in
    let more = split_fixed_from s buf' (n + 1) in
    if leb max_chunk_chars (n + 1) && may_break c then buf' ∷ next else more

unfoldable pub split_fixed : String → List String
unfolding split_fixed_from
split_fixed chunk =
    if leb (count chunk) max_chunk_chars then chunk ∷ [] else split_fixed_from chunk String.[] 0

abbrev is_ascii_digit : Char → Bool
is_ascii_digit c = leb b'0' (code c) && leb (code c) b'9'

numbered_from : Bool → String → Bool
numbered_from saw_digit String.[] = false
numbered_from saw_digit (String.◌∷◌ c s) =
    let rest = numbered_from true s in
    if is_ascii_digit c then rest else if code c == b'.' || code c == b')' then saw_digit else false

unfoldable pub is_numbered_bullet : String → Bool
unfolding numbered_from
is_numbered_bullet t = numbered_from false t

-- a line with its newline
abbrev with_newline : String → String
with_newline line = push_str line "\n"

abbrev under_heading : String → String → String
under_heading heading s = if str_is_empty heading then s else push_str heading (push_str "\n" s)

-- `flush`: the paragraph, as one more chunk
abbrev flushed : String → String → List String
flushed heading paragraph =
    if not (is_blank paragraph) then under_heading heading (trim paragraph) ∷ [] else []

abbrev is_bullet : String → Bool
is_bullet t = starts_with t "- " || starts_with t "* " || is_numbered_bullet t

-- the loop over the lines of the body, with the paragraph so far
unfoldable pub split_body : String → List String → String → List String
split_body heading [] paragraph = flushed heading paragraph
split_body heading (line ∷ body) paragraph =
    let t = trim_start line in
    let after = split_body heading body String.[] in
    let more = split_body heading body (push_str paragraph (with_newline line)) in
    if is_bullet t
    then flushed heading paragraph ++ under_heading heading t ∷ after
    else if str_is_empty t
    then flushed heading paragraph ++ after
    else more

abbrev starts_heading : String → Bool
starts_heading line = starts_with (trim_start line) "#"

-- the chunks of the body, or the heading alone
abbrev or_heading : String → List String → List String
or_heading heading chunks =
    if is_empty chunks && not (str_is_empty heading) then heading ∷ [] else chunks

abbrev split_lines : List String → List String
split_lines [] = or_heading String.[] (split_body String.[] [] String.[])
split_lines (line ∷ body) =
    if starts_heading line
    then or_heading (trim line) (split_body (trim line) body String.[])
    else or_heading String.[] (split_body String.[] (line ∷ body) String.[])

unfoldable pub split_section : String → List String
split_section section = split_lines (lines section)

-- the loop over the lines, with the section so far
unfoldable pub sections_from : List String → String → List String
sections_from [] current = if not (is_blank current) then current ∷ [] else []
sections_from (line ∷ more) current =
    let fresh = sections_from more (with_newline line) in
    let same = sections_from more (push_str current (with_newline line)) in
    if starts_heading line && not (is_blank current) then current ∷ fresh else same

abbrev or_whole : String → List String → List String
or_whole content sections = if is_empty sections then content ∷ [] else sections

abbrev flat_map : (String → List String) → List String → List String
flat_map f [] = []
flat_map f (x ∷ xs) = f x ++ flat_map f xs

-- the pieces of the sections, each cut to size
abbrev sized_pieces : String → List String
sized_pieces content =
    flat_map split_fixed
      (flat_map split_section (or_whole content (sections_from (lines content) "")))

unfoldable pub chunk_markdown : String → List String
chunk_markdown content = select (λ s. not (str_is_empty s)) (map trim (sized_pieces content))

abbrev pub is_long_enough : String → Bool
is_long_enough c = leb min_chunk_chars (count (trim c))

-- the strategy of an artifact kind: all kinds have the same
abbrev pub raw_chunks : ArtifactKind → String → List String
raw_chunks memory_registry content = chunk_markdown content
raw_chunks memory_summary content = chunk_markdown content
raw_chunks rollout_summary content = chunk_markdown content
raw_chunks ad_hoc_note content = chunk_markdown content
raw_chunks unknown content = chunk_markdown content
raw_chunks _ content = chunk_markdown content

module _ (E : RegexEngine) (U : Unicode) where
  unfoldable pub derive_chunks : String → ArtifactKind → Profile → Bool → List CandidateChunk
  derive_chunks content kind profile repo_present =
      map (λ c. record { content = c; classification = classify E U c profile repo_present })
        (select is_long_enough (take max_chunks_per_file (raw_chunks kind content)))
