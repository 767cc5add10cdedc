-- ===== src/Store/Records/Recalled.antt =====
-- `quarantine_records` of src/store.rs and the admission of src/recall.rs together.
use codex_memoryd.Prelude.{
  String, false, ◌&&◌, ◌≡◌, refl, ◌⊎◌, inl, inr, Option, some, List, [], ◌∷◌, mem_str, All,
}
use codex_memoryd.Domain.MemoryRecord.{MemoryRecord}
use codex_memoryd.Recall.Admission
use codex_memoryd.Recall.Admission.{
  RecallDenyReason, RecallParams, recall_deny_reason, policy_recall_deny_reason,
}
use codex_memoryd.Store.Records.{Records, in_scope, quarantine_records}
use codex_memoryd.Store.Records.Quarantine.{HeldRow, Held, quarantine_records_lem}

deny_quarantined :
    (r : MemoryRecord) (params : RecallParams) (time : String)
    → r.trust_state ≡ "quarantined"
    → recall_deny_reason r params time ≡ some Admission.quarantined
unfolding recall_deny_reason policy_recall_deny_reason
deny_quarantined r params time h = rw h refl

module _ (profile_id : String) (workspace_id : Option String) (reason now : String)
    (params : RecallParams) (time : String) where
  abbrev pub Withheld : List String → MemoryRecord → Type 0
  Withheld ids r =
      ((in_scope profile_id workspace_id r && mem_str r.id ids) ≡ false)
      ⊎ (recall_deny_reason r params time ≡ some Admission.quarantined)

  Withheld-HeldRow :
      (ids : List String) (r : MemoryRecord)
      → HeldRow profile_id workspace_id reason now ids r
      → Withheld ids r
  unfolding HeldRow
  Withheld-HeldRow ids r h = elim h [
    | inl other ↦ inl other
    | inr held ↦ inr (deny_quarantined r params time held)
  ]

  Withheld-Held :
      (ids : List String) (rows : Records)
      → Held profile_id workspace_id reason now ids rows
      → All (Withheld ids) rows
  Withheld-Held ids [] h = tt
  Withheld-Held ids (r ∷ rows) h = (Withheld-HeldRow ids r h.0, Withheld-Held ids rows h.1)

  -- Recall never shows what was quarantined: of the table that a quarantine leaves, every row that
  -- is in its scope and has one of its ids is denied as quarantined, whatever the request, its
  -- temporal mode and the time.
  pub quarantine_withholds :
      (ids : List String) (rows : Records)
      → All (Withheld ids) (quarantine_records profile_id workspace_id reason now ids rows).rows
  quarantine_withholds ids rows =
      Withheld-Held ids _ (quarantine_records_lem profile_id workspace_id reason now ids rows).0
