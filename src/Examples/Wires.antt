-- ===== src/Examples/Wires.antt =====
-- The wire forms of src/domain.rs and src/error.rs, on small inputs.
use codex_memoryd.Prelude.{◌≡◌, ◌≤◌, ◌<◌, ◌↔◌, ◌⊎◌, some}
use codex_memoryd.Errors.{
  http_status, not_found, storage_unavailable, internal_error, unknown_profile, unknown_workspace,
}
use codex_memoryd.Errors
use codex_memoryd.Errors.Wire.{decode, ErrorCode_lem}

ErrorCode_example :
    (decode (Errors.as_str not_found) ≡ some not_found)
    × (400 ≤ http_status not_found)
    × (http_status not_found < 600)
    × ((500 ≤ http_status not_found)
        ↔ ((not_found ≡ storage_unavailable) ⊎ (not_found ≡ internal_error)))
    × ((http_status not_found ≡ 404) ↔ (
        (not_found ≡ unknown_profile) ⊎ (not_found ≡ unknown_workspace) ⊎ (not_found ≡ not_found)))
ErrorCode_example = ErrorCode_lem not_found
