-- ===== src/Recall/Search.antt =====
-- `search` of src/recall.rs: a page of matches, with the cursor of the next page.
pub mod Laws
use codex_memoryd.Prelude.{
  ℕ, ◌+◌, String, Bool, Option, none, some, List, [], ◌∷◌, length, take, map, ltb, if◌then◌else◌,
}
use codex_memoryd.Domain.Profile
use codex_memoryd.Domain.Scope
use codex_memoryd.Domain.RecordType
use codex_memoryd.Domain.MemoryRecord.{F64, MemoryRecord}
use codex_memoryd.Errors.{Result, ok, ◌>>=◌}
use codex_memoryd.Ids.{public_handle, memory_ref}
use codex_memoryd.Recall.Respond.{RecordQuery}

pub record SearchParams : Type 0 where
  pub profile : Profile.Profile
  pub workspace : Option String
  pub repo_id : Option String
  pub query : String
  pub scope : Option Scope.Scope
  pub record_type : Option RecordType.RecordType
  pub include_archived : Bool
  pub limit : ℕ
  pub offset : ℕ

pub record SearchMatch : Type 0 where
  pub id : String
  pub record_type : String
  pub scope : String
  pub content : String
  pub confidence : F64
  pub workspace_id : String
  pub repo_id : Option String
  pub tags : List String
  pub archived : Bool
  pub updated_at : String

-- `next_cursor`, which the wire form prints in decimal, is held as the number.
pub record SearchResponse : Type 0 where
  pub matches : List SearchMatch
  pub next_cursor : Option ℕ

unfoldable pub match_of : (String → String) → MemoryRecord → SearchMatch
unfolding public_handle
match_of hex_digest r = record {
  id = public_handle hex_digest memory_ref r.id;
  record_type = RecordType.as_str r.record_type;
  scope = Scope.as_str r.scope;
  content = r.content;
  confidence = r.confidence;
  workspace_id = r.workspace_id;
  repo_id = r.repo_id;
  tags = r.tags;
  archived = r.archived;
  updated_at = r.updated_at;
}

-- the query of a search, with one record more to see whether there is another page
abbrev pub search_filters : SearchParams → RecordQuery
search_filters p = record {
  profile_id = some (Profile.as_str p.profile);
  workspace_id = p.workspace;
  repo_id = p.repo_id;
  record_type = p.record_type;
  scope = p.scope;
  include_archived = p.include_archived;
  recency_cutoff = none;
  limit = p.limit + 1;
  offset = p.offset;
}

-- the answer, from the records found
unfoldable pub page_of : (String → String) → SearchParams → List MemoryRecord → SearchResponse
page_of hex_digest p records =
    let has_more = ltb p.limit (length records) in
    record {
      matches = map (match_of hex_digest) (if has_more then take p.limit records else records);
      next_cursor = if has_more then some (p.offset + p.limit) else none;
    }

unfoldable pub search :
    (String → String)
    → (String → RecordQuery → Result (List MemoryRecord))
    → SearchParams
    → Result SearchResponse
search hex_digest search_records p = do
  records ← search_records p.query (search_filters p)
  ok (page_of hex_digest p records)
