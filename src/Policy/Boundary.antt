-- ===== src/Policy/Boundary.antt =====
-- src/policy.rs: the profile boundary for exports.
use codex_memoryd.Prelude.{
  String, ◌≡◌, ◌≢◌, ◌↔◌, ◌⊎◌, Bool, true, false, ◌&&◌, arith, if◌then◌else◌,
}
use codex_memoryd.Domain.Profile.{Profile, personal, work, oss, homelab}
use codex_memoryd.Domain.RecordType.{RecordType}
use codex_memoryd.Domain.Sensitivity.{Sensitivity}

pub data BoundaryDecision : Type 0 where
  allow : BoundaryDecision
  allow_generic_preferences_only : BoundaryDecision
  deny : String → BoundaryDecision

abbrev pub is_deny : BoundaryDecision → Bool
is_deny (deny _) = true
is_deny _ = false

-- `==` of `Profile`
abbrev pub same_profile : Profile → Profile → Bool
same_profile personal personal = true
same_profile work work = true
same_profile oss oss = true
same_profile homelab homelab = true
same_profile _ _ = false

-- the `match` on two different profiles
cross_boundary : Profile → Profile → BoundaryDecision
cross_boundary work personal =
    deny "work-profile memory must not export to personal profile by default"
cross_boundary personal work = allow_generic_preferences_only
cross_boundary oss personal = allow
cross_boundary homelab personal = allow
cross_boundary work _ = deny "work-profile memory must not export to other profiles by default"
cross_boundary _ _ = allow

unfoldable pub export_boundary : Profile → Profile → BoundaryDecision
unfolding cross_boundary
export_boundary from to = if same_profile from to then allow else cross_boundary from to

abbrev generic_type : RecordType → Bool
generic_type RecordType.preference = true
generic_type RecordType.identity = true
generic_type _ = false

abbrev generic_sensitivity : Sensitivity → Bool
generic_sensitivity Sensitivity.public = true
generic_sensitivity Sensitivity.personal = true
generic_sensitivity _ = false

unfoldable pub is_generic_preference : RecordType → Sensitivity → Bool
is_generic_preference t s = generic_type t && generic_sensitivity s

-- The matrix, read by its outcomes: an export is denied exactly when it leaves the work profile,
-- is held to generic preferences exactly from personal to work, and is free in every other case.
pub export_boundary_matrix :
    (from to : Profile)
    → ((is_deny (export_boundary from to) ≡ true) ↔ ((from ≡ work) × (to ≢ work)))
      × ((export_boundary from to ≡ allow_generic_preferences_only)
          ↔ ((from ≡ personal) × (to ≡ work)))
      × ((export_boundary from to ≡ allow)
          ↔ ((from ≡ to) ⊎ ((from ≢ work) × ((from ≢ personal) ⊎ (to ≢ work)))))
unfolding export_boundary
export_boundary_matrix from to = ground arith
