-- ===== src/Bundle/Payload/Closed.antt =====
-- The references of the objects that src/portable_bundle.rs accepts.
use codex_memoryd.Prelude.{
  String, length, leb, true, false, ◌||◌, ◌≡◌, refl, inl, inr, Option, none, some, List, [], ◌∷◌,
  ◌++◌, All, All-imp, All-append, map, eq_iff, arith, mem_str, Bool-cases,
}
use codex_memoryd.Prelude.Distinct.{Distinct}
use codex_memoryd.Prelude.StrSet.{set_insert, mem_str-set_insert}
use codex_memoryd.Errors.{
  Result, ok, ensure, ensure-eq-ok, >>-eq-ok, each-eq-ok, for_some, Result-cases,
}
use codex_memoryd.Bundle.Reference.{
  PortableRef, max_refs, ref_key, validate, external_refs_from, validate_external_refs,
  validate_reference_present,
}
use codex_memoryd.Bundle.Objects.{EvidenceBody, MemoryBody, is_met}
use codex_memoryd.Bundle.Objects.Checks.{validate_evidence_ref, validate_evidence_refs}
use codex_memoryd.Bundle.Objects.Memories.{validate_memory_refs}

-- the option as a list
abbrev refs_in : Option PortableRef → List PortableRef
refs_in none = []
refs_in (some r) = r ∷ []

-- the references of a memory to other objects
abbrev pub refs_of : MemoryBody → List PortableRef
refs_of b =
    refs_in b.subject_ref
    ++ (refs_in b.episode_ref ++ (b.source_refs ++ (b.supersedes ++ refs_in b.superseded_by)))

-- the references of an evidence to other objects
abbrev pub evidence_refs_of : EvidenceBody → List PortableRef
evidence_refs_of b = refs_in b.subject_ref ++ refs_in b.source_ref

-- Each of the references is in the payload or listed as external, and what is listed as external is
-- listed once and is not in the payload.
pub record IsClosed (present : List String) (external_refs refs : List PortableRef) : Type 0 where
  pub met : All (λ r. is_met present external_refs r ≡ true) refs
  pub omitted : All (λ r. mem_str (ref_key r) present ≡ false) external_refs
  pub unique : Distinct (map ref_key external_refs)

module _ (k : String) (seen : List String) where
  apart :
      (rs : List PortableRef)
      → All (λ r. mem_str (ref_key r) (set_insert k seen) ≡ false) rs
      → (mem_str k (map ref_key rs) ≡ false) × All (λ r. mem_str (ref_key r) seen ≡ false) rs
  apart [] h = (refl, tt)
  apart (r ∷ rs) (h, hs) =
      let (fresh, old) = apart rs hs in
      (
        ground (
          arith,
          mem_str-set_insert (ref_key r) k seen,
          eq_iff k (ref_key r),
          eq_iff (ref_key r) k,
        ),
        (ground (arith, mem_str-set_insert (ref_key r) k seen), old),
      )

module _ (present : List String) where
  omitted_from :
      (rs : List PortableRef) (seen : List String)
      → external_refs_from present rs seen ≡ ok tt
      → All (λ r. mem_str (ref_key r) present ≡ false) rs
        × All (λ r. mem_str (ref_key r) seen ≡ false) rs
        × Distinct (map ref_key rs)
  unfolding external_refs_from
  omitted_from [] seen h = (tt, tt, tt)
  omitted_from (r ∷ rs) seen h =
      elim (Bool-cases (mem_str (ref_key r) seen || mem_str (ref_key r) present)) [
        | inl known ↦ absurd (ground arith)
        | inr fresh ↦
            let (omitted, apart_, unique) =
              omitted_from rs (set_insert (ref_key r) seen) (ground arith) in
            let (single, old) = apart (ref_key r) seen rs apart_ in
            ((ground arith, omitted), (ground arith, old), (single, unique))
      ]

  validate_external_refs-omitted :
      (rs : List PortableRef)
      → validate_external_refs rs present ≡ ok tt
      → All (λ r. mem_str (ref_key r) present ≡ false) rs × Distinct (map ref_key rs)
  unfolding validate_external_refs
  validate_external_refs-omitted rs h =
      let (omitted, _, unique) = omitted_from rs [] (ground arith) in (omitted, unique)

  validate_reference_present-met :
      (kind : String) (external_refs : List PortableRef) (r : PortableRef)
      → validate_reference_present r kind present external_refs ≡ ok tt
      → is_met present external_refs r ≡ true
  unfolding validate_reference_present
  validate_reference_present-met kind external_refs r h =
      elim (Result-cases (validate r (some kind))) [
        | inl (u, fine) ↦ ground arith
        | inr (e, bad) ↦ absurd (ground arith)
      ]

  all_in :
      (P : PortableRef → Type 0) (o : Option PortableRef) (check : PortableRef → Result {0} Unit)
      → ((r : PortableRef) → check r ≡ ok tt → P r)
      → for_some check o ≡ ok tt
      → All P (refs_in o)
  all_in P none check f h = tt
  all_in P (some r) check f h = (f r h, tt)

  pub validate_memory_refs-IsClosed :
      (b : MemoryBody)
      → validate_memory_refs present b ≡ ok tt
      → IsClosed present b.external_refs (refs_of b)
  unfolding validate_memory_refs
  validate_memory_refs-IsClosed b h =
      let is = λ (r : PortableRef). is_met present b.external_refs r ≡ true in
      let met = λ (kind : String). validate_reference_present-met kind b.external_refs in
      let (subject, h1) = >>-eq-ok _ _ h in
      let (episode, h2) = >>-eq-ok _ _ h1 in
      let (sources, h3) = >>-eq-ok _ _ h2 in
      let (supersedes, h4) = >>-eq-ok _ _ h3 in
      let (superseded, h5) = >>-eq-ok _ _ h4 in
      let (valid, external) = >>-eq-ok _ _ h5 in
      let (omitted, unique) = validate_external_refs-omitted b.external_refs external in
      record {
        met = All-append is _ _ (all_in is b.subject_ref _ (met "subject") subject) (
            All-append is _ _ (all_in is b.episode_ref _ (met "episode") episode) (
              All-append is _ _ (All-imp (met "source") b.source_refs (each-eq-ok _ _ sources)) (
                All-append is _ _ (All-imp (met "memory") b.supersedes (each-eq-ok _ _ supersedes))
                  (all_in is b.superseded_by _ (met "memory") superseded))));
        omitted = omitted;
        unique = unique;
      }

  validate_evidence_ref-met :
      (kind message : String) (external_refs : List PortableRef) (r : PortableRef)
      → validate_evidence_ref present external_refs kind message r ≡ ok tt
      → is_met present external_refs r ≡ true
  unfolding validate_evidence_ref
  validate_evidence_ref-met kind message external_refs r h =
      ensure-eq-ok (is_met present external_refs r) _ _ (>>-eq-ok (validate r (some kind)) _ h).1

  pub validate_evidence_refs-IsClosed :
      (b : EvidenceBody)
      → validate_evidence_refs present b ≡ ok tt
      → IsClosed present b.external_refs (evidence_refs_of b)
  unfolding validate_evidence_refs
  validate_evidence_refs-IsClosed b h =
      let is = λ (r : PortableRef). is_met present b.external_refs r ≡ true in
      let met = λ (kind message : String). validate_evidence_ref-met kind message b.external_refs in
      let (subject, h1) = >>-eq-ok _ _ h in
      let (source, h2) = >>-eq-ok _ _ h1 in
      let (_, h3) = >>-eq-ok (ensure (leb (length b.external_refs) max_refs) _ _) _ h2 in
      let (valid, external) = >>-eq-ok _ _ h3 in
      let (omitted, unique) = validate_external_refs-omitted b.external_refs external in
      record {
        met =
            All-append is _ _ (all_in is b.subject_ref _ (met "subject" _) subject)
              (all_in is b.source_ref _ (met "source" _) source);
        omitted = omitted;
        unique = unique;
      }

-- Only the members of the payload count.
pub IsClosed-same :
    (p q : List String) (external_refs refs : List PortableRef)
    → ((k : String) → mem_str k p ≡ mem_str k q)
    → IsClosed p external_refs refs
    → IsClosed q external_refs refs
IsClosed-same p q external_refs refs same c = record {
  met = All-imp (λ r m. ground (arith, same (ref_key r))) refs c.met;
  omitted = All-imp (λ r m. ground (arith, same (ref_key r))) external_refs c.omitted;
  unique = c.unique;
}
