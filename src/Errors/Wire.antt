-- ===== src/Errors/Wire.antt =====
-- The wire forms of src/error.rs tell the codes apart, and the statuses are HTTP errors.
use codex_memoryd.Prelude.{
  String, ◌≡◌, refl, ◌⊎◌, ◌↔◌, ◌≤◌, ◌<◌, ap, List, [], ◌∷◌, Option, some, find, str_eq, arith,
}
use codex_memoryd.Errors.{
  ErrorCode, as_str, http_status, invalid_request, missing_profile, missing_workspace,
  unknown_profile, unknown_workspace, storage_unavailable, policy_denied, secret_detected,
  auth_missing, profile_boundary_denied, sync_source_invalid, not_found, unsupported_version,
  bundle_integrity_failed, bundle_schema_unsupported, bundle_required_feature_unsupported,
  bundle_unsafe_member, bundle_duplicate_identity, bundle_missing_dependency, bundle_limit_exceeded,
  bundle_policy_denied, bundle_plan_stale, bundle_local_only, internal_error,
}

abbrev all_codes : List ErrorCode
all_codes =
    invalid_request ∷ missing_profile ∷ missing_workspace ∷ unknown_profile ∷ unknown_workspace
    ∷ storage_unavailable ∷ policy_denied ∷ secret_detected ∷ auth_missing ∷ profile_boundary_denied
    ∷ sync_source_invalid ∷ not_found ∷ unsupported_version ∷ bundle_integrity_failed
    ∷ bundle_schema_unsupported ∷ bundle_required_feature_unsupported ∷ bundle_unsafe_member
    ∷ bundle_duplicate_identity ∷ bundle_missing_dependency ∷ bundle_limit_exceeded
    ∷ bundle_policy_denied ∷ bundle_plan_stale ∷ bundle_local_only ∷ internal_error ∷ []

-- A client's reading of a code: the first code with that wire form.
unfoldable pub decode : String → Option ErrorCode
unfolding as_str
decode s = find (λ c. str_eq (as_str c) s) all_codes

pub decode-as_str : (c : ErrorCode) → decode (as_str c) ≡ some c
unfolding decode
decode-as_str invalid_request = refl
decode-as_str missing_profile = refl
decode-as_str missing_workspace = refl
decode-as_str unknown_profile = refl
decode-as_str unknown_workspace = refl
decode-as_str storage_unavailable = refl
decode-as_str policy_denied = refl
decode-as_str secret_detected = refl
decode-as_str auth_missing = refl
decode-as_str profile_boundary_denied = refl
decode-as_str sync_source_invalid = refl
decode-as_str not_found = refl
decode-as_str unsupported_version = refl
decode-as_str bundle_integrity_failed = refl
decode-as_str bundle_schema_unsupported = refl
decode-as_str bundle_required_feature_unsupported = refl
decode-as_str bundle_unsafe_member = refl
decode-as_str bundle_duplicate_identity = refl
decode-as_str bundle_missing_dependency = refl
decode-as_str bundle_limit_exceeded = refl
decode-as_str bundle_policy_denied = refl
decode-as_str bundle_plan_stale = refl
decode-as_str bundle_local_only = refl
decode-as_str internal_error = refl

-- Two codes with the same wire form are the same code.
pub as_str_injective : (c d : ErrorCode) → as_str c ≡ as_str d → c ≡ d
as_str_injective c d h = cc (decode-as_str c, decode-as_str d, ap decode h)

-- Every code maps to a client or a server error: only `storage_unavailable` and `internal_error`
-- are server errors, and only the three "unknown" codes are 404.
pub http_status_classes :
    (c : ErrorCode)
    → (400 ≤ http_status c)
      × (http_status c < 600)
      × ((500 ≤ http_status c) ↔ ((c ≡ storage_unavailable) ⊎ (c ≡ internal_error)))
      × ((http_status c ≡ 404)
          ↔ ((c ≡ unknown_profile) ⊎ (c ≡ unknown_workspace) ⊎ (c ≡ not_found)))
unfolding http_status
http_status_classes c = ground arith

-- A client reads every code back from its wire form. Every code maps to a client or a server error:
-- only `storage_unavailable` and `internal_error` are server errors, and only the two unknown scopes
-- and `not_found` are 404.
pub ErrorCode_lem :
    (c : ErrorCode)
    → (decode (as_str c) ≡ some c)
      × (400 ≤ http_status c)
      × (http_status c < 600)
      × ((500 ≤ http_status c) ↔ ((c ≡ storage_unavailable) ⊎ (c ≡ internal_error)))
      × ((http_status c ≡ 404)
          ↔ ((c ≡ unknown_profile) ⊎ (c ≡ unknown_workspace) ⊎ (c ≡ not_found)))
ErrorCode_lem c = let h = http_status_classes c in (decode-as_str c, h.0, h.1, h.2, h.3)
