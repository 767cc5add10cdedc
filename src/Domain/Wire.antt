-- ===== src/Domain/Wire.antt =====
-- The wire forms of the enums of src/domain.rs, all together.
use codex_memoryd.Prelude.{String, ◌≡◌, ◌↔◌, some, trim, to_ascii_lowercase}
use codex_memoryd.Domain.Profile
use codex_memoryd.Domain.Profile.{Profile}
use codex_memoryd.Domain.Scope
use codex_memoryd.Domain.Scope.{Scope}
use codex_memoryd.Domain.RecordType
use codex_memoryd.Domain.RecordType.{RecordType}
use codex_memoryd.Domain.Sensitivity
use codex_memoryd.Domain.Sensitivity.{Sensitivity}
use codex_memoryd.Domain.Portability
use codex_memoryd.Domain.Portability.{Portability}
use codex_memoryd.Domain.SubjectKind
use codex_memoryd.Domain.SubjectKind.{SubjectKind}
use codex_memoryd.Domain.TemporalState
use codex_memoryd.Domain.TemporalState.{TemporalState}

-- Each of the six parsers accepts a text as a value exactly when the text, trimmed and lowered, is
-- the wire form of that value.
pub parse_iff_all :
    (text : String)
    → let normal = to_ascii_lowercase (trim text) in
      ((x : Profile) → (Profile.parse text ≡ some x) ↔ (normal ≡ Profile.as_str x))
      × ((x : Scope) → (Scope.parse text ≡ some x) ↔ (normal ≡ Scope.as_str x))
      × ((x : RecordType) → (RecordType.parse text ≡ some x) ↔ (normal ≡ RecordType.as_str x))
      × ((x : Sensitivity) → (Sensitivity.parse text ≡ some x) ↔ (normal ≡ Sensitivity.as_str x))
      × ((x : Portability) → (Portability.parse text ≡ some x) ↔ (normal ≡ Portability.as_str x))
      × ((x : SubjectKind) → (SubjectKind.parse text ≡ some x) ↔ (normal ≡ SubjectKind.as_str x))
parse_iff_all text = (
  Profile.parse_iff text,
  Scope.parse_iff text,
  RecordType.parse_iff text,
  Sensitivity.parse_iff text,
  Portability.parse_iff text,
  SubjectKind.parse_iff text,
)

-- Every value of the seven enums is what its wire form parses to.
pub parse-as_str_all :
    ((x : Profile) → Profile.parse (Profile.as_str x) ≡ some x)
    × ((x : Scope) → Scope.parse (Scope.as_str x) ≡ some x)
    × ((x : RecordType) → RecordType.parse (RecordType.as_str x) ≡ some x)
    × ((x : Sensitivity) → Sensitivity.parse (Sensitivity.as_str x) ≡ some x)
    × ((x : Portability) → Portability.parse (Portability.as_str x) ≡ some x)
    × ((x : SubjectKind) → SubjectKind.parse (SubjectKind.as_str x) ≡ some x)
    × ((x : TemporalState) → TemporalState.parse (TemporalState.as_str x) ≡ some x)
parse-as_str_all = (
  Profile.parse-as_str, Scope.parse-as_str, RecordType.parse-as_str, Sensitivity.parse-as_str,
  Portability.parse-as_str, SubjectKind.parse-as_str, TemporalState.parse-as_str,
)
