-- ===== src/Errors.antt =====
-- src/error.rs: the stable error codes, their HTTP statuses, and the provider's `Result`.
pub mod Wire
use codex_memoryd.Prelude.{
  ℕ, String, Bool, true, false, ◌≡◌, ◌⊎◌, refl, ap, inl, inr, Option, none, some, List, [], ◌∷◌,
  All, arith, if◌then◌else◌,
}

pub data ErrorCode : Type 0 where
  invalid_request missing_profile missing_workspace unknown_profile unknown_workspace
        storage_unavailable policy_denied secret_detected auth_missing profile_boundary_denied
        sync_source_invalid not_found unsupported_version bundle_integrity_failed
        bundle_schema_unsupported bundle_required_feature_unsupported bundle_unsafe_member
        bundle_duplicate_identity bundle_missing_dependency bundle_limit_exceeded
        bundle_policy_denied bundle_plan_stale bundle_local_only internal_error :
      ErrorCode

pub ErrorCode-discrete : Discrete ErrorCode
ErrorCode-discrete = hlevel

unfoldable pub as_str : ErrorCode → String
as_str invalid_request = "invalid_request"
as_str missing_profile = "missing_profile"
as_str missing_workspace = "missing_workspace"
as_str unknown_profile = "unknown_profile"
as_str unknown_workspace = "unknown_workspace"
as_str storage_unavailable = "storage_unavailable"
as_str policy_denied = "policy_denied"
as_str secret_detected = "secret_detected"
as_str auth_missing = "auth_missing"
as_str profile_boundary_denied = "profile_boundary_denied"
as_str sync_source_invalid = "sync_source_invalid"
as_str not_found = "not_found"
as_str unsupported_version = "unsupported_version"
as_str bundle_integrity_failed = "bundle_integrity_failed"
as_str bundle_schema_unsupported = "bundle_schema_unsupported"
as_str bundle_required_feature_unsupported = "bundle_required_feature_unsupported"
as_str bundle_unsafe_member = "bundle_unsafe_member"
as_str bundle_duplicate_identity = "bundle_duplicate_identity"
as_str bundle_missing_dependency = "bundle_missing_dependency"
as_str bundle_limit_exceeded = "bundle_limit_exceeded"
as_str bundle_policy_denied = "bundle_policy_denied"
as_str bundle_plan_stale = "bundle_plan_stale"
as_str bundle_local_only = "bundle_local_only"
as_str internal_error = "internal_error"

-- u16; every value is a literal
unfoldable pub http_status : ErrorCode → ℕ
http_status invalid_request = 400
http_status missing_profile = 400
http_status missing_workspace = 400
http_status unknown_profile = 404
http_status unknown_workspace = 404
http_status storage_unavailable = 503
http_status policy_denied = 422
http_status secret_detected = 422
http_status auth_missing = 401
http_status profile_boundary_denied = 422
http_status sync_source_invalid = 400
http_status not_found = 404
http_status unsupported_version = 400
http_status bundle_integrity_failed = 422
http_status bundle_schema_unsupported = 422
http_status bundle_required_feature_unsupported = 422
http_status bundle_unsafe_member = 422
http_status bundle_duplicate_identity = 422
http_status bundle_missing_dependency = 422
http_status bundle_limit_exceeded = 422
http_status bundle_policy_denied = 422
http_status bundle_plan_stale = 422
http_status bundle_local_only = 422
http_status internal_error = 500

pub record Error : Type 0 where
  pub code : ErrorCode
  pub message : String

pub data Result {ℓ} (A : Type ℓ) : Type ℓ where
  ok : A → Result A
  err : Error → Result A

abbrev pub fail {ℓ} : {A : Type ℓ} → ErrorCode → String → Result A
fail c m = err (record { code = c; message = m })

pub Result-cases {ℓ} :
    {A : Type ℓ} (r : Result A) → ((a : A) × (r ≡ ok a)) ⊎ ((e : Error) × (r ≡ err e))
Result-cases (ok a) = inl (a, refl)
Result-cases (err e) = inr (e, refl)

-- `?` as a bind, so that the program's chains of checks are do blocks
infixl 5 ◌>>=◌
abbrev pub ◌>>=◌ {ℓ κ} : {X : Type ℓ} {Y : Type κ} → Result X → (X → Result Y) → Result Y
err failure >>= next = err failure
ok value >>= next = next value

-- a check, and what comes after it
infixl 5 ◌>>◌
abbrev pub ◌>>◌ {κ} : {Y : Type κ} → Result {0} Unit → Result Y → Result Y
check >> rest = check >>= λ u. rest

-- `if !test { return Err(..) }`
abbrev pub ensure : Bool → ErrorCode → String → Result (Unit {0})
ensure test c m = if test then ok tt else fail c m

-- a loop of checks
abbrev pub each {ℓ} : {A : Type ℓ} → (A → Result (Unit {0})) → List A → Result (Unit {0})
each check [] = ok tt
each check (x ∷ xs) = check x >> each check xs

-- `if let Some(value) = ..`
abbrev pub for_some {ℓ} : {A : Type ℓ} → (A → Result (Unit {0})) → Option A → Result (Unit {0})
for_some check none = ok tt
for_some check (some x) = check x

abbrev passes : Result (Unit {0}) → Bool
passes (ok u) = true
passes (err e) = false

-- What a successful check leaves to succeed.
pub >>-eq-ok : (m k : Result (Unit {0})) → (m >> k) ≡ ok tt → (m ≡ ok tt) × (k ≡ ok tt)
>>-eq-ok (ok u) k h = (refl, h)
>>-eq-ok (err e) k h = let wrong : false ≡ true = ap passes h in cc

pub ensure-eq-ok :
    (test : Bool) (c : ErrorCode) (m : String) → ensure test c m ≡ ok tt → test ≡ true
ensure-eq-ok true c m h = refl
ensure-eq-ok false c m h = let wrong : false ≡ true = ap passes h in cc

pub each-eq-ok {ℓ} :
    {A : Type ℓ} (check : A → Result (Unit {0})) (xs : List A)
    → each check xs ≡ ok tt
    → All (λ x. check x ≡ ok tt) xs
each-eq-ok check [] h = tt
each-eq-ok check (x ∷ xs) h =
    let (here, rest) = >>-eq-ok (check x) (each check xs) h in (here, each-eq-ok check xs rest)

-- What a successful step gave, and what was done with it.
pub bind_succeeds {ℓ κ} :
    {Y : Type κ} {X : Type ℓ} (step : Result X) (next : X → Result Y) (y : Y)
    → (step >>= next) ≡ ok y
    → (x : X) × (step ≡ ok x) × (next x ≡ ok y)
bind_succeeds (err failure) next y h = absurd (ground arith)
bind_succeeds (ok value) next y h = (value, refl, h)
