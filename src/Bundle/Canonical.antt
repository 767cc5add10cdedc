-- ===== src/Bundle/Canonical.antt =====
-- `canonical_json` of src/portable_bundle.rs, the JSON of RFC 8785. What serde_json writes of a text,
-- and of the number that a text denotes, are parameters.
pub mod Order
pub mod Numbers
use Prim.Native.Nat.{Ordering, compare}
use codex_memoryd.Prelude.{
  ℕ, ◌+◌, ◌-◌, ◌/◌, ◌%◌, Char, code, String, push_str, Bool, true, false, Option, none, some, List,
  [], ◌∷◌, leb, join, if◌then◌else◌,
}
use codex_memoryd.Errors.{Result, ok, err, ◌>>=◌, fail, bundle_integrity_failed}
use codex_memoryd.Bundle.Json.{
  Value, Values, Members, null, bool, number, text, array, object, nil, cons, end, member,
}
use codex_memoryd.Bundle.Canonical.Numbers.{canonical_number}

-- `encode_utf16`
abbrev pub utf16_units : Char → List ℕ → List ℕ
utf16_units c rest =
    let n = code c in
    if leb 65536 n
    then (55296 + (n - 65536) / 1024) ∷ (56320 + (n - 65536) % 1024) ∷ rest
    else n ∷ rest

unfoldable pub encode_utf16 : String → List ℕ
encode_utf16 String.[] = []
encode_utf16 (String.◌∷◌ c s) = utf16_units c (encode_utf16 s)

-- `Iterator::cmp`
unfoldable pub units_cmp : List ℕ → List ℕ → Ordering
units_cmp [] [] = Ordering.eq
units_cmp [] (y ∷ ys) = Ordering.lt
units_cmp (x ∷ xs) [] = Ordering.gt
units_cmp (x ∷ xs) (y ∷ ys) =
    let later = units_cmp xs ys in
    elim (compare x y) [
      | Ordering.lt ↦ Ordering.lt
      | Ordering.eq ↦ later
      | Ordering.gt ↦ Ordering.gt
    ]

unfoldable pub utf16_cmp : String → String → Ordering
utf16_cmp a b = units_cmp (encode_utf16 a) (encode_utf16 b)

-- a key with what is written of its value
pub record Entry : Type 0 where
  pub key : String
  pub written : Result String

-- `keys.sort_by(utf16_cmp)`, a stable sort
unfoldable pub sort_insert : Entry → List Entry → List Entry
sort_insert e [] = e ∷ []
sort_insert e (f ∷ fs) =
    let rest = sort_insert e fs in
    elim (utf16_cmp e.key f.key) [ Ordering.gt ↦ f ∷ rest | _ ↦ e ∷ f ∷ fs ]

unfoldable pub sort_entries : List Entry → List Entry
sort_entries [] = []
sort_entries (e ∷ es) = sort_insert e (sort_entries es)

-- the texts of a loop, up to the first error
unfoldable pub all_written : List (Result String) → Result (List String)
all_written [] = ok []
all_written (r ∷ rs) = do s ← r; ss ← all_written rs; ok (s ∷ ss)

abbrev pub enclosed : String → String → List String → String
enclosed first last parts = push_str first (push_str (join "," parts) last)

module _ (float_text : String → Option String) (quoted : String → String) where
  abbrev pub write_entry : Entry → Result String
  write_entry e = do s ← e.written; ok (push_str (quoted e.key) (push_str ":" s))

  unfoldable pub write_entries : List Entry → List (Result String)
  write_entries [] = []
  write_entries (e ∷ es) = write_entry e ∷ write_entries es

  -- the members in the order of their keys
  abbrev pub write_sorted : List Entry → Result String
  write_sorted es = do parts ← all_written (write_entries es); ok (enclosed "{" "}" parts)

  unfoldable mutual
    pub canonical_json : Value → Result String
    canonical_json null = ok "null"
    canonical_json (bool b) = ok (if b then "true" else "false")
    canonical_json (text s) = ok (quoted s)
    canonical_json (number n) = canonical_number (float_text n)
    canonical_json (array vs) = do
      parts ← all_written (written_values vs)
      ok (enclosed "[" "]" parts)
    canonical_json (object ms) = write_sorted (sort_entries (entries_of ms))

    pub written_values : Values → List (Result String)
    written_values nil = []
    written_values (cons v vs) = canonical_json v ∷ written_values vs

    pub entries_of : Members → List Entry
    entries_of end = []
    entries_of (member key v ms) = record { key = key; written = canonical_json v } ∷ entries_of ms
