-- ===== src/Examples/Ingests.antt =====
-- The chunks of src/ingest.rs, on small inputs and on one that is cut.
use codex_memoryd.Prelude.{
  ℕ, zero, suc, ◌≤◌, String, push_str, lines, trim_start, trim, true, [], ◌∷◌, length, All, ◌≡◌,
  refl,
}
use codex_memoryd.Domain.Profile.{personal}
use codex_memoryd.Ingest.Kinds.{ad_hoc_note}
use codex_memoryd.Ingest.Chunks.{
  max_chunks_per_file, split_fixed, split_fixed_from, split_section, split_body, is_numbered_bullet,
  sections_from, chunk_markdown, derive_chunks,
}
use codex_memoryd.Ingest.Chunks.Laws.{Whole, split_fixed_lem, IsFit, derive_chunks_lem}
use codex_memoryd.Examples.Gate.{literal_engine, ascii}

abbrev repeated : ℕ → String → String
repeated zero s = String.[]
repeated (suc n) s = push_str s (repeated n s)

-- 1,600 characters, with a full stop in each eight
abbrev sentences : String
sentences = repeated 200 "Use it. "

abbrev note : String
note = "# Tools\n\nUse pnpm\nin this repo\n- never npm\n1. run tests\n"

test_chunks :
    chunk_markdown note
    ≡ "# Tools\nUse pnpm\nin this repo" ∷ "# Tools\n- never npm" ∷ "# Tools\n1. run tests" ∷ []
unfolding chunk_markdown split_fixed split_fixed_from split_section split_body is_numbered_bullet
    sections_from lines trim_start trim
test_chunks = refl

split_fixed_example : Whole (split_fixed sentences) sentences
split_fixed_example = split_fixed_lem sentences

derive_chunks_example :
    (length (derive_chunks literal_engine ascii note ad_hoc_note personal true)
      ≤ max_chunks_per_file)
    × All
        (IsFit literal_engine ascii personal true)
        (derive_chunks literal_engine ascii note ad_hoc_note personal true)
derive_chunks_example = derive_chunks_lem literal_engine ascii personal true note ad_hoc_note
