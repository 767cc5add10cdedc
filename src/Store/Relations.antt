-- ===== src/Store/Relations.antt =====
-- src/store.rs: the expansion of subjects along their relations, breadth first. The rows that the
-- query of a subject's active relations answers with, in its order, are a parameter; the connection
-- always answers.
pub mod Turns
pub mod Laws
use codex_memoryd.Prelude.{
  ℕ, zero, suc, ◌+◌, min, max, String, Bool, true, false, ◌||◌, Option, none, some, List, [], ◌∷◌,
  ◌++◌, map, length, leb, mem_str, if◌then◌else◌,
}
use codex_memoryd.Prelude.StrSet.{set_insert, set_of}
use codex_memoryd.Domain.MemoryRecord.{F64}

-- `metadata` is the JSON text
pub record Relation : Type 0 where
  pub id : String
  pub profile_id : String
  pub workspace_id : String
  pub from_subject_id : String
  pub relation_type : String
  pub to_subject_id : String
  pub confidence : F64
  pub state : String
  pub source_episode_ids : List String
  pub source_evidence : Option String
  pub created_at : String
  pub retired_at : Option String
  pub metadata : String

pub record RelationExpansion : Type 0 where
  pub subject_id : String
  pub depth : ℕ
  pub via_relation_ids : List String
  pub evidence_refs : List String

-- the loop of `dedupe_strings`, with the texts seen
unfoldable pub dedupe_strings_from : List String → List String → List String
dedupe_strings_from seen [] = []
dedupe_strings_from seen (value ∷ values) =
    let fresh = value ∷ dedupe_strings_from (set_insert value seen) values in
    let rest = dedupe_strings_from seen values in if mem_str value seen then rest else fresh

unfoldable pub dedupe_strings : List String → List String
dedupe_strings values = dedupe_strings_from [] values

abbrev pub max_expansions : ℕ
max_expansions = 64

-- `clamp(1, 3)`
abbrev pub clamped_depth : ℕ → ℕ
clamped_depth d = max 1 (min d 3)

-- an entry of the queue is an expansion that is yet to be followed
pub record Traversal : Type 0 where
  pub seen : List String
  pub queue : List RelationExpansion
  pub expansions : List RelationExpansion

abbrev pub evidence_of : Option String → List String
evidence_of none = []
evidence_of (some e) = e ∷ []

-- the expansion along a relation
unfoldable pub expanded : RelationExpansion → Relation → RelationExpansion
unfolding dedupe_strings
expanded item relation = record {
  subject_id = relation.to_subject_id;
  depth = item.depth + 1;
  via_relation_ids = item.via_relation_ids ++ relation.id ∷ [];
  evidence_refs =
      dedupe_strings (
        item.evidence_refs
        ++ (relation.source_episode_ids ++ evidence_of relation.source_evidence));
}

-- one turn of the loop over the rows
unfoldable pub follow_relation : RelationExpansion → Relation → Traversal → Traversal
follow_relation item relation t = if mem_str relation.to_subject_id t.seen then t else record {
  seen = set_insert relation.to_subject_id t.seen;
  queue = t.queue ++ expanded item relation ∷ [];
  expansions = t.expansions ++ expanded item relation ∷ [];
}

unfoldable pub follow_relations : RelationExpansion → List Relation → Traversal → Traversal
follow_relations item [] t = t
follow_relations item (relation ∷ rows) t =
    follow_relations item rows (follow_relation item relation t)

abbrev pub seed : String → RelationExpansion
seed id = record { subject_id = id; depth = 0; via_relation_ids = []; evidence_refs = [] }

module _ (relations_from : String → List Relation) (max_depth : ℕ) where
  -- one turn of the loop over the queue, which `item` was taken from
  unfoldable pub visit : RelationExpansion → Traversal → Traversal
  visit item t =
      if leb (clamped_depth max_depth) item.depth || leb max_expansions (length t.expansions)
      then t
      else follow_relations item (relations_from item.subject_id) t

  -- the loop, which runs out of fuel rather than end before the queue is empty
  unfoldable pub traverse : ℕ → Traversal → Option (List RelationExpansion)
  traverse zero t = none
  traverse (suc fuel) t = elim t.queue [
    | [] ↦ some t.expansions
    | ◌∷◌ item rest ↦ traverse fuel (visit item (record t { queue = rest }))
  ]

  unfoldable pub relation_expanded_subjects : ℕ → List String → Option (List RelationExpansion)
  relation_expanded_subjects fuel seeds =
      traverse fuel (record { seen = set_of seeds; queue = map seed seeds; expansions = [] })
