-- ===== src/Examples/Hashes.antt =====
-- The hashes of src/ids.rs, with a digest that is its text.
use codex_memoryd.Prelude.{Char, String, ◌≡◌, ◌↔◌, refl, none, some, trim, is_whitespace}
use codex_memoryd.Ids.Hashes.{normalize_for_hash, normalize_from}
use codex_memoryd.Ids.Hashes.Laws.{
  Identity, IsPlain, SameNames, hash, exact_hash, normal, content_hash_iff,
}

abbrev verbatim : String → String
verbatim s = s

abbrev same_case : Char → String
same_case c = String.◌∷◌ c String.[]

abbrev spaced : Identity
spaced = record {
  profile = "work";
  workspace = "codex";
  repo_id = some "memoryd";
  record_type = "preference";
  scope = "repo";
  content = "  use\n pnpm ";
}

abbrev homeless : Identity
homeless = record spaced { repo_id = none; content = "use pnpm" }

test_normalize : normalize_for_hash same_case spaced.content ≡ "use pnpm"
unfolding normalize_for_hash normalize_from trim is_whitespace
test_normalize = refl

spaced-IsPlain : IsPlain spaced
spaced-IsPlain = record {
  profile = refl;
  workspace = refl;
  repo_id = refl;
  record_type = refl;
  scope = refl;
}

homeless-IsPlain : IsPlain homeless
homeless-IsPlain = record {
  profile = refl;
  workspace = refl;
  repo_id = refl;
  record_type = refl;
  scope = refl;
}

content_hash_example :
    ((hash verbatim same_case spaced ≡ hash verbatim same_case homeless) ↔ (
      SameNames spaced homeless
      × (normal verbatim same_case spaced ≡ normal verbatim same_case homeless)))
    × ((exact_hash verbatim same_case spaced ≡ exact_hash verbatim same_case homeless)
        ↔ (SameNames spaced homeless × (spaced.content ≡ homeless.content)))
content_hash_example =
    content_hash_iff verbatim same_case (λ x y e. e) spaced homeless spaced-IsPlain homeless-IsPlain
