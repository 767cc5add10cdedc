-- ===== src/Bundle/Canonical/Order.antt =====
-- The canonical JSON of src/portable_bundle.rs does not depend on the order of an object's members.
use Prim.Native.Nat.{Ordering}
use codex_memoryd.Prelude.{
  ℕ, String, ◌≡◌, ◌≢◌, ◌⊎◌, inl, inr, refl, sym, ap, ◌∙◌, Option, List, [], ◌∷◌, arith,
}
use codex_memoryd.Prelude.StrOrder.{flip}
use codex_memoryd.Bundle.Json.{Value, Members, object, member}
use codex_memoryd.Bundle.Canonical.{
  Entry, units_cmp, utf16_cmp, encode_utf16, sort_insert, sort_entries, write_sorted,
  canonical_json, entries_of,
}

units_cmp-flip : (xs ys : List ℕ) → units_cmp ys xs ≡ flip (units_cmp xs ys)
unfolding units_cmp
units_cmp-flip [] [] = refl
units_cmp-flip [] (y ∷ ys) = refl
units_cmp-flip (x ∷ xs) [] = refl
units_cmp-flip (x ∷ xs) (y ∷ ys) = ground (arith, units_cmp-flip xs ys)

units_cmp_trans :
    (xs ys zs : List ℕ)
    → units_cmp xs ys ≡ Ordering.lt
    → units_cmp ys zs ≢ Ordering.gt
    → units_cmp xs zs ≡ Ordering.lt
unfolding units_cmp
units_cmp_trans [] [] zs h k = absurd (ground arith)
units_cmp_trans [] (y ∷ ys) [] h k = absurd (ground arith)
units_cmp_trans [] (y ∷ ys) (z ∷ zs) h k = refl
units_cmp_trans (x ∷ xs) [] zs h k = absurd (ground arith)
units_cmp_trans (x ∷ xs) (y ∷ ys) [] h k = absurd (ground arith)
units_cmp_trans (x ∷ xs) (y ∷ ys) (z ∷ zs) h k = ground (arith, units_cmp_trans xs ys zs)

utf16_cmp-flip : (a b : String) → utf16_cmp b a ≡ flip (utf16_cmp a b)
unfolding utf16_cmp
utf16_cmp-flip a b = units_cmp-flip (encode_utf16 a) (encode_utf16 b)

utf16_cmp_trans :
    (a b c : String)
    → utf16_cmp a b ≡ Ordering.lt
    → utf16_cmp b c ≢ Ordering.gt
    → utf16_cmp a c ≡ Ordering.lt
unfolding utf16_cmp
utf16_cmp_trans a b c = units_cmp_trans (encode_utf16 a) (encode_utf16 b) (encode_utf16 c)

-- Two entries of which the first is below the second can be sorted in either order.
insert_below :
    (a b : Entry) (es : List Entry)
    → utf16_cmp a.key b.key ≡ Ordering.lt
    → sort_insert a (sort_insert b es) ≡ sort_insert b (sort_insert a es)
unfolding sort_insert
insert_below a b [] h = ground (arith, utf16_cmp-flip a.key b.key)
insert_below a b (e ∷ es) h =
    ground
      (arith, utf16_cmp-flip a.key b.key, utf16_cmp_trans a.key b.key e.key, insert_below a b es h)

cmp-cases :
    (a b : String)
    → (utf16_cmp a b ≡ Ordering.lt)
      ⊎ ((utf16_cmp a b ≡ Ordering.eq) ⊎ (utf16_cmp a b ≡ Ordering.gt))
cmp-cases a b = ground arith

insert_apart :
    (a b : Entry) (es : List Entry)
    → utf16_cmp a.key b.key ≢ Ordering.eq
    → sort_insert a (sort_insert b es) ≡ sort_insert b (sort_insert a es)
insert_apart a b es h = elim (cmp-cases a.key b.key) [
  | inl lower ↦ insert_below a b es lower
  | inr (inl same) ↦ absurd (h same)
  | inr (inr higher) ↦ sym (insert_below b a es (utf16_cmp-flip a.key b.key ∙ ap flip higher))
]

-- The members of an object in another order, where those that change places differ in their keys.
pub data Reordered : Members → Members → Type 0 where
  same : (ms : Members) → Reordered ms ms
  later :
      (key : String) (v : Value) (ms ns : Members)
      → Reordered ms ns
      → Reordered (member key v ms) (member key v ns)
  swap :
      (k : String) (v : Value) (l : String) (w : Value) (ms : Members)
      → utf16_cmp k l ≢ Ordering.eq
      → Reordered (member k v (member l w ms)) (member l w (member k v ms))
  both : (ms ns os : Members) → Reordered ms ns → Reordered ns os → Reordered ms os

module _ (float_text : String → Option String) (quoted : String → String) where
  sort_entries-Reordered :
      (ms ns : Members)
      → Reordered ms ns
      → sort_entries (entries_of float_text quoted ms)
        ≡ sort_entries (entries_of float_text quoted ns)
  unfolding sort_entries entries_of
  sort_entries-Reordered ms _ (same _) = refl
  sort_entries-Reordered _ _ (later key v ms ns r) =
      ap (sort_insert (record { key = key; written = canonical_json float_text quoted v }))
        (sort_entries-Reordered ms ns r)
  sort_entries-Reordered _ _ (swap k v l w ms apart) = insert_apart _ _ _ apart
  sort_entries-Reordered _ _ (both ms ns os r s) =
      sort_entries-Reordered ms ns r ∙ sort_entries-Reordered ns os s

  -- Objects whose members stand in another order, those that change places differing in the UTF-16 of
  -- their keys, have the same canonical JSON, or fail with the same error.
  pub canonical_json-Reordered :
      (ms ns : Members)
      → Reordered ms ns
      → canonical_json float_text quoted (object ms) ≡ canonical_json float_text quoted (object ns)
  unfolding canonical_json
  canonical_json-Reordered ms ns r =
      ap (λ es. write_sorted float_text quoted es) (sort_entries-Reordered ms ns r)
