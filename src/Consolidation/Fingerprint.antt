-- ===== src/Consolidation/Fingerprint.antt =====
-- `rejection_fingerprint` of src/consolidation/policy.rs: the identity under which a rejected
-- inference stays suppressed. `sha256_hex` is of the `sha2` crate (src/ids.rs adds the hex form).
use codex_memoryd.Prelude.{String, [], ◌∷◌, ◌≡◌, join}
use codex_memoryd.Prelude.StrSet.{set_of}
use codex_memoryd.Prelude.StrOrder.{SameMembers, set_of_ext}
use codex_memoryd.Consolidation.Types.{ConsolidationCandidate}

abbrev separator : String
separator = "\u{1f}"

module _ (sha256_hex : String → String) where
  unfoldable pub rejection_fingerprint : ConsolidationCandidate → String
  rejection_fingerprint candidate = sha256_hex (
      join separator (
        "consolidation-rejection.v1"
        ∷ candidate.claim_class
        ∷ candidate.subject
        ∷ join separator (set_of candidate.source_ids)
        ∷ []))

  -- A paraphrase stays suppressed: two candidates with the same claim class and subject, and with
  -- the same sources in whatever order and however often named, have the same fingerprint.
  pub fingerprint_of_lineage :
      (c d : ConsolidationCandidate)
      → c.claim_class ≡ d.claim_class
      → c.subject ≡ d.subject
      → SameMembers c.source_ids d.source_ids
      → rejection_fingerprint c ≡ rejection_fingerprint d
  unfolding rejection_fingerprint
  fingerprint_of_lineage c d k s m = cc (set_of_ext c.source_ids d.source_ids m)
