-- ===== src/Bundle/Reference/Laws.antt =====
-- The key of a valid reference of src/portable_bundle.rs determines it.
use codex_memoryd.Prelude.{
  String, push_str, true, ◌≡◌, refl, sym, ap, subst, ◌∙◌, inl, inr, Option, some, str_eq, eq_iff,
  all_chars, arith, Bool-cases, Option-cases,
}
use codex_memoryd.Prelude.Fields.{plain, sep, separated, cut}
use codex_memoryd.Ids.{PublicHandleKind}
use codex_memoryd.Errors.{ok}
use codex_memoryd.Bundle.Reference.{
  PortableRef, is_origin_char, bad_origin, handle_kind, validate, ref_key,
}

plain-origin : (s : String) → all_chars is_origin_char s ≡ true → plain s ≡ true
plain-origin String.[] h = refl
plain-origin (String.◌∷◌ c s) h = ground (arith, plain-origin s)

plain-same : (s t : String) → plain t ≡ true → str_eq s t ≡ true → plain s ≡ true
plain-same s t p e = subst (λ u. plain u ≡ true) (sym ((eq_iff s t).0 e)) p

plain-handle_kind :
    (kind : String) (k : PublicHandleKind) → handle_kind kind ≡ some k → plain kind ≡ true
unfolding handle_kind
plain-handle_kind kind k h = ground (
  arith,
  plain-same kind "memory" refl,
  plain-same kind "subject" refl,
  plain-same kind "episode" refl,
  plain-same kind "source" refl,
  plain-same kind "evidence" refl,
)

-- what `validate` accepts has a plain origin and a plain kind
plain-validate :
    (r : PortableRef) (expected : Option String)
    → validate r expected ≡ ok tt
    → (plain r.origin_instance_id ≡ true) × (plain r.kind ≡ true)
unfolding validate
plain-validate r expected h = elim (Bool-cases (bad_origin r.origin_instance_id)) [
  | inl bad ↦ absurd (ground arith)
  | inr fine ↦ elim (Option-cases (handle_kind r.kind)) [
    | inl unknown ↦ absurd (ground arith)
    | inr (k, known) ↦
        (plain-origin r.origin_instance_id (ground arith), plain-handle_kind r.kind k known)
  ]
]

ref_key-cut :
    (r : PortableRef)
    → ref_key r
      ≡ push_str r.origin_instance_id (String.◌∷◌ sep (push_str r.kind (String.◌∷◌ sep r.id)))
unfolding ref_key
ref_key-cut r =
    ap (push_str r.origin_instance_id)
      (separated _ ∙ ap (λ s. String.◌∷◌ sep (push_str r.kind s)) (separated r.id))

-- Among the references that `validate` accepts, whatever kind was expected of each, those with the
-- same key are equal.
pub ref_key_injective :
    (a b : PortableRef) (expected_a expected_b : Option String)
    → validate a expected_a ≡ ok tt
    → validate b expected_b ≡ ok tt
    → ref_key a ≡ ref_key b
    → a ≡ b
ref_key_injective a b expected_a expected_b ha hb e =
    let (oa, ka) = plain-validate a expected_a ha in
    let (ob, kb) = plain-validate b expected_b hb in
    let (o, rest) =
      cut a.origin_instance_id b.origin_instance_id _ _ oa ob
        (sym (ref_key-cut a) ∙ e ∙ ref_key-cut b) in
    let (k, i) = cut a.kind b.kind a.id b.id ka kb rest in
    λ t. record { origin_instance_id = o t; kind = k t; id = i t }
