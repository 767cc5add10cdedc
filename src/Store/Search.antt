-- ===== src/Store/Search.antt =====
-- `search_records` of src/store.rs, with the three queries it may ask. What SQLite finds, in the order
-- that a query asks for, is a parameter; the filters and the page of a query are the program's.
use codex_memoryd.Prelude.{
  ℕ, zero, suc, code, String, push_str, Bool, true, false, not, ◌&&◌, ◌||◌, Option, none, some,
  List, [], ◌∷◌, take, select, join, ◌==◌, str_eq, str_is_empty, str_lt, trim, split_whitespace,
  is_empty, if◌then◌else◌,
}
use codex_memoryd.Domain.Scope
use codex_memoryd.Domain.RecordType
use codex_memoryd.Domain.Sensitivity
use codex_memoryd.Domain.MemoryRecord.{MemoryRecord}
use codex_memoryd.Errors.{Result, ok, err, ◌>>=◌}
use codex_memoryd.Policy.Regex.{Unicode}
use codex_memoryd.Recall.Respond.{RecordQuery}

-- the rows of a statement without its filters and its page
pub record Sqlite : Type 0 where
  pub fts_enabled : Bool
  -- a MATCH, by its expression, in the order of bm25
  pub fts_rows : String → Result (List MemoryRecord)
  -- a LIKE on the content, the tags and the files, by its pattern, the latest first
  pub like_rows : String → Result (List MemoryRecord)
  -- the whole table, the latest first
  pub latest_rows : Result (List MemoryRecord)

-- `if let Some(value) = filter { " AND column = ?" }`
abbrev is_text : Option String → String → Bool
is_text none column = true
is_text (some value) column = str_eq column value

abbrev is_nullable_text : Option String → Option String → Bool
is_nullable_text none column = true
is_nullable_text (some value) none = false
is_nullable_text (some value) (some column) = str_eq column value

abbrev is_type : Option RecordType.RecordType → RecordType.RecordType → Bool
is_type none column = true
is_type (some value) column = str_eq (RecordType.as_str column) (RecordType.as_str value)

abbrev is_scope : Option Scope.Scope → Scope.Scope → Bool
is_scope none column = true
is_scope (some value) column = str_eq (Scope.as_str column) (Scope.as_str value)

abbrev is_recent : Option String → String → Bool
is_recent none column = true
is_recent (some cutoff) column = not (str_lt column cutoff)

-- `append_record_filters`, which `query_records` repeats
unfoldable pub passes_filters : RecordQuery → MemoryRecord → Bool
passes_filters q r =
    is_text q.profile_id r.profile_id
    && is_text q.workspace_id r.workspace_id
    && is_nullable_text q.repo_id r.repo_id
    && is_type q.record_type r.record_type
    && is_scope q.scope r.scope
    && (q.include_archived || not r.archived)
    && not (str_eq (Sensitivity.as_str r.sensitivity) "secret_blocked")
    && not (str_eq r.trust_state "quarantined")
    && is_recent q.recency_cutoff r.updated_at

-- `OFFSET`
abbrev pub drop : ℕ → List MemoryRecord → List MemoryRecord
drop zero xs = xs
drop (suc n) [] = []
drop (suc n) (x ∷ xs) = drop n xs

-- `if limit > 0 { " LIMIT .." }`
abbrev pub limited : ℕ → List MemoryRecord → List MemoryRecord
limited n rows = if n == 0 then rows else take n rows

-- `if limit > 0 { " LIMIT .. OFFSET .." }`
abbrev pub paged : ℕ → ℕ → List MemoryRecord → List MemoryRecord
paged n offset rows = if n == 0 then rows else take n (drop offset rows)

unfoldable pub query_records : Sqlite → RecordQuery → Result (List MemoryRecord)
query_records db q = do
  rows ← db.latest_rows
  ok (paged q.limit q.offset (select (passes_filters q) rows))

module _ (U : Unicode) where
  -- the characters of a token that are kept
  unfoldable pub cleaned : String → String
  cleaned String.[] = String.[]
  cleaned (String.◌∷◌ c s) =
      let rest = cleaned s in
      if U.is_alphanumeric c || code c == b'_' then String.◌∷◌ c rest else rest

  unfoldable pub quoted_tokens : List String → List String
  quoted_tokens [] = []
  quoted_tokens (t ∷ ts) =
      let rest = quoted_tokens ts in
      let word = cleaned t in
      if str_is_empty word then rest else push_str "\"" (push_str word "\"") ∷ rest

  unfoldable pub fts_match_query : String → String
  fts_match_query raw =
      let tokens = quoted_tokens (split_whitespace raw) in
      if is_empty tokens then "\"\"" else join " OR " tokens

  unfoldable pub search_fts : Sqlite → String → RecordQuery → Result (List MemoryRecord)
  search_fts db query_text q = do
    rows ← db.fts_rows (fts_match_query query_text)
    ok (limited q.limit (select (passes_filters q) rows))

  -- `replace(['%', '_'], "")`
  unfoldable pub escape_like : String → String
  escape_like String.[] = String.[]
  escape_like (String.◌∷◌ c s) =
      let rest = escape_like s in
      if code c == b'%' || code c == b'_' then rest else String.◌∷◌ c rest

  unfoldable pub search_like : Sqlite → String → RecordQuery → Result (List MemoryRecord)
  search_like db query_text q = do
    rows ← db.like_rows (push_str "%" (push_str (escape_like query_text) "%"))
    ok (limited q.limit (select (passes_filters q) rows))

  unfoldable pub search_records : Sqlite → String → RecordQuery → Result (List MemoryRecord)
  search_records db query_text q =
      let trimmed = trim query_text in
      if str_is_empty trimmed
      then query_records db q
      else if db.fts_enabled
      then elim (search_fts db trimmed q) [ ok rows ↦ ok rows | err e ↦ search_like db trimmed q ]
      else search_like db trimmed q
