-- ===== src/Semantic/Apply/Laws.antt =====
-- An import of src/semantic_import.rs that succeeds leaves nothing for a second one to do.
use codex_memoryd.Prelude.{
  String, ℕ, suc, Bool, true, false, ◌&&◌, ◌≡◌, refl, sym, ap, ◌∙◌, subst, inl, inr, List, [], ◌∷◌,
  ◌++◌, All, is_empty, trim, Bool-cases, Option-cases, if◌then◌else◌,
}
use codex_memoryd.Domain.MemoryRecord.{F64}
use codex_memoryd.Errors.{ok, Result-cases}
use codex_memoryd.Store.Semantics.{Tables, get_subject_alias, get_active_relation}
use codex_memoryd.Store.Semantics.Laws.{Keeps}
use codex_memoryd.Semantic.{
  SemanticAliasInput, SemanticRelationInput, SemanticImportRequest, SemanticImportReport, Supply,
  alias_problems, relation_problems, validate_request_shape, empty_report, refresh_counts,
}
use codex_memoryd.Semantic.Laws.{
  alias_new, aliases_new, relation_new, relations_new, previewed, would_apply-previewed,
  preview_of_shape, preview_of_misfit,
}
use codex_memoryd.Semantic.Apply.{
  Progress, then_on, apply_entries, apply_previewed, apply_semantic_import,
}
use codex_memoryd.Semantic.Apply.Steps.{IsOpen, Has, Progress-cases, err-ne-ok, apply_entries-Has}

All-left : {A : Type 0} (P : A → Type 0) (xs ys : List A) → All P (xs ++ ys) → All P xs
All-left P [] ys h = tt
All-left P (x ∷ xs) ys h = (h.0, All-left P xs ys h.1)

All-right : {A : Type 0} (P : A → Type 0) (xs ys : List A) → All P (xs ++ ys) → All P ys
All-right P [] ys h = h
All-right P (x ∷ xs) ys h = All-right P xs ys h.1

All-one : {A : Type 0} (P : A → Type 0) (b : Bool) (x : A) → P x → All P (if b then x ∷ [] else [])
All-one P true x h = (h, tt)
All-one P false x h = tt

All-both : {A : Type 0} (P : A → Type 0) (xs ys : List A) → All P xs → All P ys → All P (xs ++ ys)
All-both P [] ys h k = k
All-both P (x ∷ xs) ys h k = (h.0, All-both P xs ys h.1 k)

module _ (subject_exists : String → String → String → Bool) (in_unit : F64 → Bool)
    (supply later : Supply) (request : SemanticImportRequest) (t u : Tables) (k : Keeps t u) where
  alias_new-done :
      (n : ℕ) (a : SemanticAliasInput)
      → All (Has u) (alias_new subject_exists in_unit supply request t n a)
      → alias_new subject_exists in_unit later request u n a ≡ []
  alias_new-done n a h = elim (Bool-cases (is_empty (alias_problems a))) [
    | inr wrong ↦ rw wrong refl
    | inl right ↦
        elim (Bool-cases
          (subject_exists request.profile_id request.workspace_id (trim a.subject_id))) [
            | inr outside ↦ rw (right, outside) refl
            | inl inside ↦
                elim (Option-cases (
                  get_subject_alias t request.profile_id request.workspace_id (trim a.alias_key))) [
                    | inr (row, found) ↦
                        rw
                          (
                            right,
                            inside,
                            k.alias request.profile_id request.workspace_id (trim a.alias_key) row
                                found,
                          )
                          refl
                    | inl free ↦
                        let (row, found, same) = (rw (right, inside, free) at h).0 in
                        rw (right, inside, found) refl
                  ]
          ]
  ]

  aliases_new-done :
      (n : ℕ) (aliases : List SemanticAliasInput)
      → All (Has u) (aliases_new subject_exists in_unit supply request t n aliases)
      → aliases_new subject_exists in_unit later request u n aliases ≡ []
  aliases_new-done n [] h = refl
  aliases_new-done n (a ∷ aliases) h =
      let here = alias_new subject_exists in_unit supply request t n a in
      let rest = aliases_new subject_exists in_unit supply request t (suc n) aliases in
      rw (alias_new-done n a (All-left (Has u) here rest h))
        (aliases_new-done (suc n) aliases (All-right (Has u) here rest h))

  relation_new-done :
      (n : ℕ) (r : SemanticRelationInput)
      → All (Has u) (relation_new subject_exists in_unit supply request t n r)
      → relation_new subject_exists in_unit later request u n r ≡ []
  relation_new-done n r h =
      let in_scope = subject_exists request.profile_id request.workspace_id in
      elim (Bool-cases (is_empty (relation_problems subject_exists in_unit supply request r))) [
        | inr wrong ↦ rw wrong refl
        | inl right ↦
            elim (Bool-cases
              (in_scope (trim r.from_subject_id) && in_scope (trim r.to_subject_id))) [
                | inr outside ↦ rw (right, outside) refl
                | inl inside ↦
                    elim (Option-cases (
                      get_active_relation t request.profile_id request.workspace_id
                        (trim r.from_subject_id) (trim r.relation_type) (trim r.to_subject_id))) [
                          | inr (row, found) ↦
                              rw
                                (
                                  right,
                                  inside,
                                  k.relation request.profile_id request.workspace_id
                                      (trim r.from_subject_id) (trim r.relation_type)
                                      (trim r.to_subject_id) row found,
                                )
                                refl
                          | inl free ↦
                              let (row, found) = (rw (right, inside, free) at h).0 in
                              rw (right, inside, found) refl
                        ]
              ]
      ]

  relations_new-done :
      (n : ℕ) (relations : List SemanticRelationInput)
      → All (Has u) (relations_new subject_exists in_unit supply request t n relations)
      → relations_new subject_exists in_unit later request u n relations ≡ []
  relations_new-done n [] h = refl
  relations_new-done n (r ∷ relations) h =
      let here = relation_new subject_exists in_unit supply request t n r in
      let rest = relations_new subject_exists in_unit supply request t (suc n) relations in
      rw (relation_new-done n r (All-left (Has u) here rest h))
        (relations_new-done (suc n) relations (All-right (Has u) here rest h))

module _ (subject_exists : String → String → String → Bool) (in_unit : F64 → Bool) (supply : Supply)
    (request : SemanticImportRequest) (t : Tables) where
  aliases_new-IsOpen :
      (n : ℕ) (aliases : List SemanticAliasInput)
      → All (λ e. IsOpen e.value) (aliases_new subject_exists in_unit supply request t n aliases)
  aliases_new-IsOpen n [] = tt
  aliases_new-IsOpen n (a ∷ aliases) =
      All-both (λ e. IsOpen e.value) _
        (aliases_new subject_exists in_unit supply request t (suc n) aliases)
        (All-one (λ e. IsOpen e.value) _ _ tt) (aliases_new-IsOpen (suc n) aliases)

  relations_new-IsOpen :
      (n : ℕ) (relations : List SemanticRelationInput)
      → All
          (λ e. IsOpen e.value)
          (relations_new subject_exists in_unit supply request t n relations)
  relations_new-IsOpen n [] = tt
  relations_new-IsOpen n (r ∷ relations) =
      All-both (λ e. IsOpen e.value) _
        (relations_new subject_exists in_unit supply request t (suc n) relations)
        (All-one (λ e. IsOpen e.value) _ _ refl) (relations_new-IsOpen (suc n) relations)

  would_apply-IsOpen :
      All (λ e. IsOpen e.value) (previewed subject_exists in_unit supply request t).would_apply
  would_apply-IsOpen =
      subst (All (λ e. IsOpen e.value))
        (sym (would_apply-previewed subject_exists in_unit supply request t))
        (All-both (λ e. IsOpen e.value)
          (aliases_new subject_exists in_unit supply request t 0 request.aliases) _
          (aliases_new-IsOpen 0 request.aliases) (relations_new-IsOpen 0 request.relations))

module _ (subject_exists : String → String → String → Bool) (key_refusal json_refusal : String)
    (in_unit : F64 → Bool) where
  abbrev import : Supply → Tables → SemanticImportRequest → Progress
  import = apply_semantic_import subject_exists key_refusal json_refusal in_unit

  -- nothing is left to apply in tables that hold what was to be applied
  nothing_left :
      (supply later : Supply) (request : SemanticImportRequest) (t u : Tables)
      → Keeps t u
      → All (Has u) (previewed subject_exists in_unit supply request t).would_apply
      → (previewed subject_exists in_unit later request u).would_apply ≡ []
  nothing_left supply later request t u k h =
      let aliases = aliases_new subject_exists in_unit supply request t 0 request.aliases in
      let relations = relations_new subject_exists in_unit supply request t 0 request.relations in
      let all =
        subst (All (Has u)) (would_apply-previewed subject_exists in_unit supply request t) h in
      would_apply-previewed subject_exists in_unit later request u
      ∙ rw
          (
            aliases_new-done subject_exists in_unit supply later request t u k 0 request.aliases
                (All-left (Has u) aliases relations all),
            relations_new-done subject_exists in_unit supply later request t u k 0 request.relations
                (All-right (Has u) aliases relations all),
          )
          refl

  again_nothing :
      (later : Supply) (request : SemanticImportRequest) (u : Tables)
      → validate_request_shape request ≡ ok tt
      → (previewed subject_exists in_unit later request u).would_apply ≡ []
      → (again : SemanticImportReport) × (import later u request ≡ (u, ok again))
        × (again.applied ≡ [])
  unfolding apply_semantic_import apply_previewed apply_entries
  again_nothing later request u shape none_ =
      let p = previewed subject_exists in_unit later request u in
      let report : SemanticImportReport = record (empty_report request) {
        already_present = p.already_present;
        rejected = p.rejected;
      } in
      let close = λ (v : Tables) (r : SemanticImportReport).
        let o : Progress = (v, ok (refresh_counts r)) in o in
      (
        refresh_counts report,
        ap (apply_previewed subject_exists key_refusal json_refusal u request)
              (preview_of_shape subject_exists in_unit later request u shape)
            ∙ ap
                (λ entries.
                  then_on (apply_entries subject_exists key_refusal json_refusal u entries report)
                    close)
                none_,
        refl,
      )

  of_preview :
      (supply : Supply) (request : SemanticImportRequest) (t u : Tables)
      (report : SemanticImportReport)
      → apply_previewed subject_exists key_refusal json_refusal t request
          (ok (refresh_counts (previewed subject_exists in_unit supply request t)))
        ≡ (u, ok report)
      → Keeps t u × All (Has u) (previewed subject_exists in_unit supply request t).would_apply
  unfolding apply_previewed
  of_preview supply request t u report h =
      let p = previewed subject_exists in_unit supply request t in
      let start : SemanticImportReport = record (empty_report request) {
        already_present = p.already_present;
        rejected = p.rejected;
      } in
      let close = λ (v : Tables) (r : SemanticImportReport).
        let o : Progress = (v, ok (refresh_counts r)) in o in
      elim (Progress-cases
        (apply_entries subject_exists key_refusal json_refusal t p.would_apply start)) [
          | inr (v, e, failed) ↦
              absurd
                (err-ne-ok v u e report (subst (λ o. then_on o close ≡ (u, ok report)) failed h))
          | inl (v, q, went) ↦
              subst (λ w. Keeps t w × All (Has w) p.would_apply)
                (ap (λ (o : Progress). o.0) (subst (λ o. then_on o close ≡ (u, ok report)) went h))
                (apply_entries-Has subject_exists key_refusal json_refusal t p.would_apply start v q
                  (would_apply-IsOpen subject_exists in_unit supply request t) went)
        ]

  -- what a successful import was made of
  import_inv :
      (supply : Supply) (request : SemanticImportRequest) (t u : Tables)
      (report : SemanticImportReport)
      → import supply t request ≡ (u, ok report)
      → (validate_request_shape request ≡ ok tt)
        × Keeps t u
        × All (Has u) (previewed subject_exists in_unit supply request t).would_apply
  unfolding apply_semantic_import apply_previewed
  import_inv supply request t u report h = elim (Result-cases (validate_request_shape request)) [
    | inr (e, misfit) ↦ absurd (
        err-ne-ok t u e report (
          sym (
            ap (apply_previewed subject_exists key_refusal json_refusal t request)
              (preview_of_misfit subject_exists in_unit supply request t e misfit))
          ∙ h))
    | inl (_, shape) ↦
        let (kept, has) = of_preview supply request t u report (
          sym (
            ap (apply_previewed subject_exists key_refusal json_refusal t request)
              (preview_of_shape subject_exists in_unit supply request t shape))
          ∙ h) in
        (shape, kept, has)
  ]

  -- An import that succeeds leaves nothing to do: the same request again, whatever ids and times it
  -- draws, succeeds, applies nothing, and leaves the tables as they are.
  pub apply_semantic_import_twice :
      (supply later : Supply) (request : SemanticImportRequest) (t u : Tables)
      (report : SemanticImportReport)
      → apply_semantic_import subject_exists key_refusal json_refusal in_unit supply t request
        ≡ (u, ok report)
      → (again : SemanticImportReport) × (apply_semantic_import subject_exists key_refusal
            json_refusal in_unit later u request
          ≡ (u, ok again))
        × (again.applied ≡ [])
  apply_semantic_import_twice supply later request t u report h =
      let (shape, kept, has) = import_inv supply request t u report h in
      again_nothing later request u shape (nothing_left supply later request t u kept has)
