-- ===== src/Ids/Hashes/Laws.antt =====
-- The hashes of src/ids.rs tell apart what they are made of.
use text.Mathlib.TextLemmas.{append_cancel_left}
use codex_memoryd.Prelude.{Char, String, push_str, true, ◌≡◌, sym, ap, ◌∙◌, ◌↔◌, Option}
use codex_memoryd.Prelude.Fields.{plain, separated, cut}
use codex_memoryd.Ids.Hashes.{normalize_for_hash, field, or_empty, content_hash, exact_content_hash}

-- what a hash is made of
pub record Identity : Type 0 where
  pub profile : String
  pub workspace : String
  pub repo_id : Option String
  pub record_type : String
  pub scope : String
  pub content : String

-- The names of the identity do not hold the separator; its content may.
pub record IsPlain (a : Identity) : Type 0 where
  pub profile : plain a.profile ≡ true
  pub workspace : plain a.workspace ≡ true
  pub repo_id : plain (or_empty a.repo_id) ≡ true
  pub record_type : plain a.record_type ≡ true
  pub scope : plain a.scope ≡ true

-- Same names, where no repository is the same as one with an empty name.
abbrev pub SameNames : Identity → Identity → Type 0
SameNames a b =
    (a.profile ≡ b.profile)
    × (a.workspace ≡ b.workspace)
    × (or_empty a.repo_id ≡ or_empty b.repo_id)
    × (a.record_type ≡ b.record_type)
    × (a.scope ≡ b.scope)

cut-field :
    (s t x y : String) → plain s ≡ true → plain t ≡ true → field s x ≡ field t y → (s ≡ t) × (x ≡ y)
cut-field s t x y p q e =
    cut s t x y p q (sym (ap (push_str s) (separated x)) ∙ e ∙ ap (push_str t) (separated y))

abbrev preimage : Identity → String → String
preimage a content =
    field a.profile
      (field a.workspace (field (or_empty a.repo_id) (field a.record_type (field a.scope content))))

preimage-SameNames :
    (a b : Identity) (x y : String)
    → IsPlain a
    → IsPlain b
    → preimage a x ≡ preimage b y
    → SameNames a b × (x ≡ y)
preimage-SameNames a b x y pa pb e =
    let (profile, e1) = cut-field a.profile b.profile _ _ pa.profile pb.profile e in
    let (workspace, e2) = cut-field a.workspace b.workspace _ _ pa.workspace pb.workspace e1 in
    let (repo, e3) =
      cut-field (or_empty a.repo_id) (or_empty b.repo_id) _ _ pa.repo_id pb.repo_id e2 in
    let (kind, e4) = cut-field a.record_type b.record_type _ _ pa.record_type pb.record_type e3 in
    let (scope, e5) = cut-field a.scope b.scope _ _ pa.scope pb.scope e4 in
    ((profile, workspace, repo, kind, scope), e5)

module _ (hex_digest : String → String) (to_lowercase : Char → String) where
  abbrev pub hash : Identity → String
  hash a =
      content_hash hex_digest to_lowercase a.profile a.workspace a.repo_id a.record_type a.scope
        a.content

  abbrev pub exact_hash : Identity → String
  exact_hash a =
      exact_content_hash hex_digest a.profile a.workspace a.repo_id a.record_type a.scope a.content

  abbrev pub normal : Identity → String
  normal a = normalize_for_hash to_lowercase a.content

  preimage-same :
      (a b : Identity) (x y : String)
      → SameNames a b × (x ≡ y)
      → push_str "sha256:" (hex_digest (preimage a x))
        ≡ push_str "sha256:" (hex_digest (preimage b y))
  preimage-same a b x y ((profile, workspace, repo, kind, scope), e) = cc

  -- With a digest without collisions, two records whose names do not hold U+001F have the same
  -- content hash exactly when they have the same names and the same normalized content, and the
  -- same exact hash exactly when they have the same names and the same content. No repository
  -- counts as one with an empty name.
  pub content_hash_iff :
      ((x y : String) → hex_digest x ≡ hex_digest y → x ≡ y)
      → (a b : Identity) → IsPlain a
      → IsPlain b
      → ((hash a ≡ hash b) ↔ (SameNames a b × (normal a ≡ normal b)))
        × ((exact_hash a ≡ exact_hash b) ↔ (SameNames a b × (a.content ≡ b.content)))
  unfolding content_hash exact_content_hash
  content_hash_iff injective a b pa pb = (
    (
      λ e.
          preimage-SameNames a b (normal a) (normal b) pa pb
            (injective _ _ (append_cancel_left "sha256:" _ _ e)),
      preimage-same a b (normal a) (normal b),
    ),
    (
      λ e.
          preimage-SameNames a b a.content b.content pa pb
            (injective _ _ (append_cancel_left "sha256:" _ _ e)),
      preimage-same a b a.content b.content,
    ),
  )
