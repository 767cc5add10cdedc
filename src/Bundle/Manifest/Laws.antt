-- ===== src/Bundle/Manifest/Laws.antt =====
-- What an accepted manifest of src/portable_bundle.rs is bound to.
use codex_memoryd.Prelude.{
  ℕ, ◌+◌, ◌≤◌, String, Bool, true, false, ◌&&◌, ◌≡◌, refl, inl, inr, Option, some, List, [], ◌∷◌,
  All, All-imp, length, all, leb, str_eq, eq_iff, is_empty, arith, Option-cases,
}
use codex_memoryd.Prelude.Int.{ℤ}
use codex_memoryd.Prelude.StrSet.{set_of}
use codex_memoryd.Errors.{ok, >>-eq-ok, ensure-eq-ok, each-eq-ok, bundle_limit_exceeded}
use codex_memoryd.Bundle.Manifest.{
  ObjectKind, media_type, kind_for_member, object_members, max_member_size, max_objects,
  max_root_memories, Descriptor, BundleManifest, BundleManifestCounts, count_values, same_texts,
  is_memory_handle, paths_of, validate_record_id, validate_descriptor, validate_required,
  validate_counts, validate_scalars, validate_format, validate_paths, validate_timestamp,
  validate_manifest,
}

pub same_texts-eq : (xs ys : List String) → same_texts xs ys ≡ true → xs ≡ ys
unfolding same_texts
same_texts-eq [] [] h = refl
same_texts-eq [] (y ∷ ys) h = cc
same_texts-eq (x ∷ xs) [] h = cc
same_texts-eq (x ∷ xs) (y ∷ ys) h = ground (arith, eq_iff x y, same_texts-eq xs ys)

-- A member of one of the five kinds, in its format and within the limits.
pub record IsMember (d : Descriptor) : Type 0 where
  pub kind : ObjectKind
  pub member_of : kind_for_member d.path ≡ some kind
  pub required : d.required ≡ true
  pub format : d.media_type ≡ media_type kind
  pub size : d.size_bytes ≤ max_member_size
  pub objects : d.object_count ≤ max_objects

validate_descriptor-IsMember : (d : Descriptor) → validate_descriptor d ≡ ok tt → IsMember d
unfolding validate_descriptor
validate_descriptor-IsMember d h = elim (Option-cases (kind_for_member d.path)) [
  | inl none_ ↦ absurd (ground arith)
  | inr (k, found) ↦
      let fine =
        ensure-eq-ok
          (d.required
            && str_eq d.media_type (media_type k)
            && leb d.size_bytes max_member_size
            && leb d.object_count max_objects)
          _ _ (rw (found, validate_descriptor) at h) in
      record {
        kind = k;
        member_of = found;
        required = ground arith;
        format = ground (arith, eq_iff d.media_type (media_type k));
        size = ground arith;
        objects = ground arith;
      }
]

validate_record_id-memory :
    (id : String) → validate_record_id id ≡ ok tt → is_memory_handle id ≡ true
unfolding validate_record_id
validate_record_id-memory id h = ensure-eq-ok _ _ _ (>>-eq-ok _ _ h).1

counts_le :
    (c : BundleManifestCounts)
    → (leb c.root_memories max_root_memories
        && leb (c.root_memories + c.dependency_objects) max_objects
        && all (λ n. leb n max_objects) (count_values c))
      ≡ true
    → (c.root_memories ≤ max_root_memories) × (c.root_memories + c.dependency_objects ≤ max_objects)
counts_le c h = (ground arith, ground arith)

le_of_leb : (m n : ℕ) → leb m n ≡ true → m ≤ n
le_of_leb m n h = ground arith

validate_counts-le :
    (c : BundleManifestCounts)
    → validate_counts c ≡ ok tt
    → (c.root_memories ≤ max_root_memories) × (c.root_memories + c.dependency_objects ≤ max_objects)
unfolding validate_counts
validate_counts-le c h = counts_le c (ensure-eq-ok _ _ _ (>>-eq-ok _ _ h).1)

and-right : (a b : Bool) → (a && b) ≡ true → b ≡ true
and-right true b h = h
and-right false b h = cc

nil_of : (xs : List String) → is_empty xs ≡ true → xs ≡ []
nil_of [] h = refl
nil_of (x ∷ xs) h = cc

validate_paths-eq : (m : BundleManifest) → validate_paths m ≡ ok tt → paths_of m ≡ object_members
unfolding validate_paths
validate_paths-eq m h =
    same_texts-eq (paths_of m) object_members (
      and-right (same_texts (set_of (paths_of m)) (set_of object_members)) _ (ensure-eq-ok _ _ _ h))

no_features : (m : BundleManifest) → validate_required m ≡ ok tt → m.required_features ≡ []
unfolding validate_required
no_features m h = nil_of m.required_features (ground arith)

-- What an accepted manifest is bound to.
pub record IsBound (m : BundleManifest) : Type 0 where
  pub members : paths_of m ≡ object_members
  pub descriptors : All IsMember m.descriptors
  pub roots : m.counts.root_memories ≤ max_root_memories
  pub objects : m.counts.root_memories + m.counts.dependency_objects ≤ max_objects
  pub handles : All (λ id. is_memory_handle id ≡ true) m.selection.record_ids
  pub selected : length m.selection.record_ids ≤ max_root_memories
  pub features : m.required_features ≡ []

module _ (utc_offset : String → Option ℤ) where
  -- When a manifest is accepted, its descriptors name the five members of a bundle in their order,
  -- each is required, has the media type of its kind and declares no more than 64 MiB and 20,000
  -- objects; it counts at most 5,000 memories and at most 20,000 objects with their dependencies;
  -- the ids of its selection, at most 5,000, are handles of memories; and it asks for no features.
  pub validate_manifest-IsBound :
      (m : BundleManifest) → validate_manifest utc_offset m ≡ ok tt → IsBound m
  unfolding validate_manifest
  validate_manifest-IsBound m h =
      let (_, h1) = >>-eq-ok (validate_format m) _ h in
      let (_, h2) = >>-eq-ok (validate_timestamp utc_offset m.created_at) _ h1 in
      let (_, h3) = >>-eq-ok (validate_scalars m) _ h2 in
      let (ids, h4) = >>-eq-ok _ _ h3 in
      let (needed, h5) = >>-eq-ok _ _ h4 in
      let (paths, h6) = >>-eq-ok _ _ h5 in
      let (described, h7) = >>-eq-ok _ _ h6 in
      let (counted, selected) = >>-eq-ok _ _ h7 in
      let exact = validate_paths-eq m paths in
      let few =
        ensure-eq-ok (leb (length m.selection.record_ids) max_root_memories) bundle_limit_exceeded
          "bundle selection limit exceeded" selected in
      let (roots, objects) = validate_counts-le m.counts counted in
      record {
        members = exact;
        descriptors = All-imp validate_descriptor-IsMember m.descriptors (each-eq-ok _ _ described);
        roots = roots;
        objects = objects;
        handles = All-imp validate_record_id-memory m.selection.record_ids (each-eq-ok _ _ ids);
        selected = le_of_leb _ _ few;
        features = no_features m needed;
      }
