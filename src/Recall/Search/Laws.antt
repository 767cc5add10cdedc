-- ===== src/Recall/Search/Laws.antt =====
-- What the pages of `search` of src/recall.rs give, over `search_records` of src/store.rs.
use codex_memoryd.Prelude.{
  ℕ, zero, suc, ◌+◌, ◌-◌, ◌≤◌, ◌<◌, String, true, false, ◌≡◌, ◌⊎◌, refl, none, some, List, [], ◌∷◌,
  ◌++◌, length, take, map, min, select, str_is_empty, trim, arith, ltb, if◌then◌else◌, Bool-cases,
  inl, inr, ap, sym,
}
use codex_memoryd.Domain.MemoryRecord.{MemoryRecord}
use codex_memoryd.Errors.{Result, ok, err, ◌>>=◌}
use codex_memoryd.Policy.Regex.{Unicode}
use codex_memoryd.Store.Search.{
  Sqlite, drop, paged, passes_filters, query_records, search_fts, search_like, search_records,
}
use codex_memoryd.Recall.Search.{
  SearchParams, SearchMatch, SearchResponse, match_of, search_filters, page_of, search,
}

abbrev pub at : SearchParams → ℕ → SearchParams
at p offset = record p { offset = offset }

take-short : (n : ℕ) (xs : List MemoryRecord) → length xs ≤ n → take n xs ≡ xs
take-short zero [] h = refl
take-short (suc n) [] h = refl
take-short zero (x ∷ xs) h = ground arith
take-short (suc n) (x ∷ xs) h = ap (λ ys. x ∷ ys) (take-short n xs (omega arith))

length-take : (n : ℕ) (xs : List MemoryRecord) → length (take n xs) ≡ min n (length xs)
length-take zero xs = omega arith
length-take (suc n) [] = omega arith
length-take (suc n) (x ∷ xs) = omega (arith, length-take n xs)

take-take : (n : ℕ) (xs : List MemoryRecord) → take n (take (suc n) xs) ≡ take n xs
take-take zero xs = refl
take-take (suc n) [] = refl
take-take (suc n) (x ∷ xs) = ap (λ ys. x ∷ ys) (take-take n xs)

take-drop : (n : ℕ) (xs : List MemoryRecord) → take n xs ++ drop n xs ≡ xs
take-drop zero xs = refl
take-drop (suc n) [] = refl
take-drop (suc n) (x ∷ xs) = ap (λ ys. x ∷ ys) (take-drop n xs)

drop_nil : (n : ℕ) → drop n [] ≡ []
drop_nil zero = refl
drop_nil (suc n) = refl

drop-drop : (n m : ℕ) (xs : List MemoryRecord) → drop m (drop n xs) ≡ drop (n + m) xs
drop-drop zero m xs = let e : 0 + m ≡ m = omega arith in rw e refl
drop-drop (suc n) m [] = rw (drop_nil m, drop_nil (suc n + m)) refl
drop-drop (suc n) m (x ∷ xs) =
    let e : suc n + m ≡ suc (n + m) = omega arith in rw e (drop-drop n m xs)

length-drop : (n : ℕ) (xs : List MemoryRecord) → length (drop n xs) ≡ length xs - n
length-drop zero xs = omega arith
length-drop (suc n) [] = omega arith
length-drop (suc n) (x ∷ xs) = omega (arith, length-drop n xs)

map-append :
    (f : MemoryRecord → SearchMatch) (xs ys : List MemoryRecord)
    → map f (xs ++ ys) ≡ map f xs ++ map f ys
map-append f [] ys = refl
map-append f (x ∷ xs) ys = ap (λ zs. f x ∷ zs) (map-append f xs ys)

-- one record more than the limit tells whether there is another page
page_take :
    (limit : ℕ) (xs : List MemoryRecord)
    → (if ltb limit (length (take (suc limit) xs))
        then take limit (take (suc limit) xs)
        else take (suc limit) xs)
      ≡ take limit xs
page_take limit xs = elim (Bool-cases (ltb limit (length (take (suc limit) xs)))) [
  | inl more ↦ rw (more, take-take limit xs) refl
  | inr last ↦
      let e = length-take (suc limit) xs in
      rw (last, take-short (suc limit) xs (ground arith), take-short limit xs (ground arith)) refl
]

has_more_iff :
    (limit offset : ℕ) (all : List MemoryRecord)
    → ltb limit (length (take (suc limit) (drop offset all))) ≡ ltb (offset + limit) (length all)
has_more_iff limit offset all =
    ground (arith, length-take (suc limit) (drop offset all), length-drop offset all)

append_nil : (xs : List SearchMatch) → xs ++ [] ≡ xs
append_nil [] = refl
append_nil (x ∷ xs) = ap (λ ys. x ∷ ys) (append_nil xs)

-- a page, by what it is to show: a number of records from an offset on
abbrev page_at : (String → String) → ℕ → ℕ → List MemoryRecord → SearchResponse
page_at hex_digest limit offset all = record {
  matches = map (match_of hex_digest) (take limit (drop offset all));
  next_cursor = if ltb (offset + limit) (length all) then some (offset + limit) else none;
}

one_more :
    (limit offset : ℕ) (all : List MemoryRecord)
    → paged (limit + 1) offset all ≡ take (suc limit) (drop offset all)
one_more limit offset all = let e : limit + 1 ≡ suc limit = omega arith in rw e (ground arith)

page_of-paged :
    (hex_digest : String → String) (p : SearchParams) (all : List MemoryRecord)
    → page_of hex_digest p (paged (p.limit + 1) p.offset all)
      ≡ page_at hex_digest p.limit p.offset all
unfolding page_of
page_of-paged hex_digest p all =
    rw
      (
        one_more p.limit p.offset all,
        page_take p.limit (drop p.offset all),
        has_more_iff p.limit p.offset all,
      )
      refl

-- the matches of an answer
abbrev pub matches_of : Result SearchResponse → Result (List SearchMatch)
matches_of (ok page) = ok page.matches
matches_of (err e) = err e

module _ (hex_digest : String → String) (U : Unicode) (db : Sqlite) (p : SearchParams) where
  abbrev pub answer : ℕ → Result SearchResponse
  answer offset = search hex_digest (search_records U db) (at p offset)

  -- a client that asks for page after page from a cursor on, as long as it is given a next one
  pub follow : ℕ → ℕ → Result (List SearchMatch)
  follow zero offset = ok []
  follow (suc fuel) offset = do
    page ← answer offset
    rest ← elim page.next_cursor [ none ↦ ok [] | some next ↦ follow fuel next ]
    ok (page.matches ++ rest)

  -- the matching rows of the table
  abbrev pub found : List MemoryRecord → List MemoryRecord
  found = select (passes_filters (search_filters p))

  found_at :
      (offset : ℕ) (rows : List MemoryRecord)
      → select (passes_filters (search_filters (at p offset))) rows ≡ found rows
  unfolding passes_filters
  found_at offset rows = refl

  module _ (rows : List MemoryRecord) (h : db.latest_rows ≡ ok rows)
      (blank : str_is_empty (trim p.query) ≡ true) where
    search-page_at :
        (offset : ℕ) → answer offset ≡ ok (page_at hex_digest p.limit offset (found rows))
    unfolding search search_records query_records
    search-page_at offset =
        rw (blank, h, found_at offset rows, page_of-paged hex_digest (at p offset) (found rows))
          refl

    pages_join :
        (offset : ℕ) (all : List MemoryRecord)
        → map (match_of hex_digest) (take p.limit (drop offset all))
            ++ map (match_of hex_digest) (drop (offset + p.limit) all)
          ≡ map (match_of hex_digest) (drop offset all)
    pages_join offset all =
        let f = match_of hex_digest in
        let xs = drop offset all in
        rw
          (
            sym (drop-drop offset p.limit all),
            sym (map-append f (take p.limit xs) (drop p.limit xs)),
          )
          (ap (map f) (take-drop p.limit xs))

    last_page :
        (offset : ℕ) (all : List MemoryRecord)
        → length all ≤ offset + p.limit
        → map (match_of hex_digest) (take p.limit (drop offset all)) ++ []
          ≡ map (match_of hex_digest) (drop offset all)
    last_page offset all k =
        let short = take-short p.limit (drop offset all) (omega (arith, length-drop offset all)) in
        rw (short, append_nil (map (match_of hex_digest) (drop offset all))) refl

    follow-found :
        (fuel offset : ℕ)
        → 0 < p.limit
        → length (found rows) - offset < fuel
        → follow fuel offset ≡ ok (map (match_of hex_digest) (drop offset (found rows)))
    unfolding follow
    follow-found zero offset l k = ground arith
    follow-found (suc fuel) offset l k =
        rw (search-page_at offset)
          (elim (Bool-cases (ltb (offset + p.limit) (length (found rows)))) [
            | inl more ↦
                rw (more, follow-found fuel (offset + p.limit) l (ground arith))
                  (ap (λ ms. ok ms) (pages_join offset (found rows)))
            | inr last ↦ rw last (ap (λ ms. ok ms) (last_page offset (found rows) (ground arith)))
          ])

  -- the page of a query with text does not depend on the offset
  search_records-at :
      (offset : ℕ)
      → str_is_empty (trim p.query) ≡ false
      → search_records U db p.query (search_filters (at p offset))
        ≡ search_records U db p.query (search_filters (at p 0))
  unfolding search_records search_fts search_like passes_filters
  search_records-at offset filled = rw filled refl

  matches_of-page_of :
      (offset : ℕ) (r : Result (List MemoryRecord))
      → matches_of (r >>= λ rs. ok (page_of hex_digest (at p offset) rs))
        ≡ matches_of (r >>= λ rs. ok (page_of hex_digest (at p 0) rs))
  unfolding page_of
  matches_of-page_of offset (ok rs) = refl
  matches_of-page_of offset (err e) = refl

  answer_repeats :
      (offset : ℕ)
      → str_is_empty (trim p.query) ≡ false
      → matches_of (answer offset) ≡ matches_of (answer 0)
  unfolding search
  answer_repeats offset filled =
      rw (search_records-at offset filled)
        (matches_of-page_of offset (search_records U db p.query (search_filters (at p 0))))

  -- Where SQLite lists the table, the limit is not 0 and the fuel is above the number of the rows that
  -- pass the filters from an offset on: for a query without text, a client that follows the cursors
  -- from there is given each of these rows, once and in order; for a query with text, the page at
  -- the offset has the matches or the error of the first page, since neither the full-text nor the
  -- LIKE query applies the offset.
  pub follow-search :
      (rows : List MemoryRecord)
      → db.latest_rows ≡ ok rows
      → (fuel offset : ℕ) → 0 < p.limit
      → length (found rows) - offset < fuel
      → ((str_is_empty (trim p.query) ≡ true)
          × (follow fuel offset ≡ ok (map (match_of hex_digest) (drop offset (found rows)))))
        ⊎ ((str_is_empty (trim p.query) ≡ false)
            × (matches_of (answer offset) ≡ matches_of (answer 0)))
  follow-search rows h fuel offset l k = elim (Bool-cases (str_is_empty (trim p.query))) [
    | inl blank ↦ inl (blank, follow-found rows h blank fuel offset l k)
    | inr filled ↦ inr (filled, answer_repeats offset filled)
  ]
