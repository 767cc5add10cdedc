-- ===== src/Ingest/Kinds.antt =====
-- `ArtifactKind` of src/ingest.rs, and how it is inferred from a path.
use codex_memoryd.Prelude.{
  String, Bool, true, false, ◌||◌, List, [], ◌∷◌, any, str_eq, contains, ends_with, split, trim,
  to_ascii_lowercase, mem_str, if◌then◌else◌,
}

pub data ArtifactKind : Type 0 where
  memory_summary memory_registry rollout_summary ad_hoc_note screenshot_image ocr_text_extract
        log_excerpt document_excerpt git_diff terminal_output_excerpt unknown :
      ArtifactKind

unfoldable pub as_str : ArtifactKind → String
as_str memory_summary = "memory_summary"
as_str memory_registry = "memory_registry"
as_str rollout_summary = "rollout_summary"
as_str ad_hoc_note = "ad_hoc_note"
as_str screenshot_image = "screenshot_image"
as_str ocr_text_extract = "ocr_text_extract"
as_str log_excerpt = "log_excerpt"
as_str document_excerpt = "document_excerpt"
as_str git_diff = "git_diff"
as_str terminal_output_excerpt = "terminal_output_excerpt"
as_str unknown = "unknown"

unfoldable pub source_kind : ArtifactKind → String
source_kind memory_summary = "local_memory_summary"
source_kind memory_registry = "local_memory_registry"
source_kind rollout_summary = "rollout_summary"
source_kind ad_hoc_note = "ad_hoc_note"
source_kind screenshot_image = "multimodal_screenshot_image"
source_kind ocr_text_extract = "multimodal_ocr_text_extract"
source_kind log_excerpt = "multimodal_log_excerpt"
source_kind document_excerpt = "multimodal_document_excerpt"
source_kind git_diff = "multimodal_git_diff"
source_kind terminal_output_excerpt = "multimodal_terminal_output_excerpt"
source_kind unknown = "unknown"

-- the `match` on the normalized text
parse_normal : String → ArtifactKind
parse_normal s =
    if str_eq s "memory_summary"
    then memory_summary
    else if str_eq s "memory_registry"
    then memory_registry
    else if str_eq s "rollout_summary"
    then rollout_summary
    else if str_eq s "ad_hoc_note"
    then ad_hoc_note
    else if mem_str s ("screenshot_image" ∷ "screenshot" ∷ "image" ∷ [])
    then screenshot_image
    else if mem_str s ("ocr_text_extract" ∷ "ocr" ∷ "text_extract" ∷ [])
    then ocr_text_extract
    else if mem_str s ("log_excerpt" ∷ "log" ∷ [])
    then log_excerpt
    else if mem_str s ("document_excerpt" ∷ "document" ∷ "doc_excerpt" ∷ [])
    then document_excerpt
    else if mem_str s ("git_diff" ∷ "diff" ∷ [])
    then git_diff
    else if mem_str s ("terminal_output_excerpt" ∷ "terminal_output" ∷ "terminal" ∷ [])
    then terminal_output_excerpt
    else unknown

unfoldable pub parse : String → ArtifactKind
unfolding parse_normal
parse value = parse_normal (to_ascii_lowercase (trim value))

-- `rsplit('/').next()`
abbrev last_of : String → List String → String
last_of s [] = s
last_of s (t ∷ ts) = last_of t ts

unfoldable pub infer_from_path : String → ArtifactKind
infer_from_path path =
    let lower = to_ascii_lowercase path in
    let base = last_of lower (split "/" lower) in
    let ends_in = any (ends_with lower) in
    if str_eq base "memory_summary.md"
    then memory_summary
    else if str_eq base "memory.md"
    then memory_registry
    else if contains lower "rollout_summaries/" || contains lower "rollout_summary"
    then rollout_summary
    else if contains lower "ad_hoc" || contains lower "/notes/"
    then ad_hoc_note
    else if ends_with lower ".md"
    then ad_hoc_note
    else if ends_in (".png" ∷ ".jpg" ∷ ".jpeg" ∷ ".webp" ∷ ".gif" ∷ [])
    then screenshot_image
    else if ends_with lower ".log"
    then log_excerpt
    else if ends_in (".diff" ∷ ".patch" ∷ [])
    then git_diff
    else if ends_with lower ".txt"
    then terminal_output_excerpt
    else if ends_in (".pdf" ∷ ".doc" ∷ ".docx" ∷ ".odt" ∷ [])
    then document_excerpt
    else unknown

unfoldable pub is_multimodal : ArtifactKind → Bool
is_multimodal screenshot_image = true
is_multimodal ocr_text_extract = true
is_multimodal log_excerpt = true
is_multimodal document_excerpt = true
is_multimodal git_diff = true
is_multimodal terminal_output_excerpt = true
is_multimodal _ = false
