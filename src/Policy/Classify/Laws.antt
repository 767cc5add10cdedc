-- ===== src/Policy/Classify/Laws.antt =====
-- What the classification of src/policy.rs gives, whatever the text.
use codex_memoryd.Prelude.{
  ℕ, to_ascii_lowercase, ◌≤◌, ◌-◌, max, min, if◌then◌else◌, String, ◌≡◌, ◌↔◌, ◌⊎◌, ◌≢◌, Bool, List,
  [], ◌∷◌, arith,
}
use codex_memoryd.Prelude.Distinct.{Distinct, Distinct-append}
use codex_memoryd.Domain.Profile.{Profile, personal, work, oss, homelab}
use codex_memoryd.Domain.RecordType
use codex_memoryd.Domain.RecordType.{RecordType, preference, identity}
use codex_memoryd.Domain.Sensitivity.{work_confidential}
use codex_memoryd.Domain.Portability.{portable, profile_only}
use codex_memoryd.Policy.Regex.{RegexEngine, Unicode}
use codex_memoryd.Policy.Classify.{
  classify_as, classify_confidence, base_confidence, push_tags, keyword_tags, extract_tags, hedged,
}

-- Whatever a classified text says: it is `portable` exactly when the profile is oss or homelab, or
-- is personal and the type is preference or identity; otherwise it is `profile_only`; and it is
-- `work_confidential` exactly in the work profile, where it is thus never portable.
pub classify_as_portability :
    (E : RegexEngine) (U : Unicode) (content : String) (p : Profile) (repo : Bool) (t : RecordType)
    → let c = classify_as E U content p repo t in
      ((c.portability ≡ portable)
        ↔ ((p ≡ oss) ⊎ (p ≡ homelab) ⊎ ((p ≡ personal) × ((t ≡ preference) ⊎ (t ≡ identity)))))
      × ((c.portability ≢ portable) ↔ (c.portability ≡ profile_only))
      × ((c.sensitivity ≡ work_confidential) ↔ (p ≡ work))
unfolding classify_as
classify_as_portability E U content p repo t = ground arith

base_confidence_bounds : (t : RecordType) → (50 ≤ base_confidence t) × (base_confidence t ≤ 85)
unfolding base_confidence
base_confidence_bounds t = ground arith

clamped :
    (base : ℕ) (h : Bool)
    → (50 ≤ base) × (base ≤ 85)
    → let c = max 10 (min 99 (if h then base - 20 else base)) in (30 ≤ c) × (c ≤ 85)
clamped base h b = ground arith

-- A confidence lies between 0.30 and 0.85, so the clamp to [0.1, 0.99] never acts.
pub classify_confidence_bounds :
    (t : RecordType) (content : String)
    → (30 ≤ classify_confidence t content) × (classify_confidence t content ≤ 85)
classify_confidence_bounds t content =
    let step = clamped (base_confidence t) (hedged content) in
    unfold classify_confidence in step (base_confidence_bounds t)

push_tags-Distinct :
    (lower : String) (more : List (String × String)) (tags : List String)
    → Distinct tags
    → Distinct (push_tags lower more tags)
unfolding push_tags
push_tags-Distinct lower [] tags d = d
push_tags-Distinct lower ((needle, tag) ∷ more) tags d =
    push_tags-Distinct lower more _ (ground (arith, Distinct-append tags tag))

-- No tag stands twice.
pub extract_tags-Distinct : (lower : String) (t : RecordType) → Distinct (extract_tags lower t)
unfolding extract_tags
extract_tags-Distinct lower t =
    push_tags-Distinct lower keyword_tags (RecordType.as_str t ∷ []) (ground arith)

-- Whatever a classified text says: it is `portable` exactly when the profile is oss or homelab, or is
-- personal and the record a preference or an identity, and otherwise `profile_only`; it is work
-- confidential exactly in the work profile; its confidence lies between 0.30 and 0.85, so that the
-- clamp to [0.1, 0.99] never acts; and no tag of it stands twice.
pub classify_as_lem :
    (E : RegexEngine) (U : Unicode) (content : String) (p : Profile) (repo : Bool) (t : RecordType)
    → let c = classify_as E U content p repo t in
      ((c.portability ≡ portable)
        ↔ ((p ≡ oss) ⊎ (p ≡ homelab) ⊎ ((p ≡ personal) × ((t ≡ preference) ⊎ (t ≡ identity)))))
      × ((c.portability ≢ portable) ↔ (c.portability ≡ profile_only))
      × ((c.sensitivity ≡ work_confidential) ↔ (p ≡ work))
      × ((30 ≤ c.confidence) × (c.confidence ≤ 85))
      × Distinct c.tags
unfolding classify_as
classify_as_lem E U content p repo t = (
  (classify_as_portability E U content p repo t).0,
  (classify_as_portability E U content p repo t).1,
  (classify_as_portability E U content p repo t).2,
  classify_confidence_bounds t content,
  extract_tags-Distinct (to_ascii_lowercase content) t,
)
