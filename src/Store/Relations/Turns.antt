-- ===== src/Store/Relations/Turns.antt =====
-- How many turns are left of the expansion along relations of src/store.rs.
use codex_memoryd.Prelude.{
  ℕ, suc, ◌+◌, ◌-◌, ◌≤◌, ◌<◌, ◌≡◌, refl, ◌∙◌, List, [], ◌∷◌, length, length-append, arith,
}
use codex_memoryd.Store.Relations.{
  Relation, RelationExpansion, Traversal, max_expansions, expanded, follow_relation,
  follow_relations,
}

-- the turns that are left at most, where a subject has at most `rows` relations
abbrev pub turns : ℕ → Traversal → ℕ
turns rows t = length t.queue + ((max_expansions + rows) - length t.expansions)

turns-follow_relation :
    (rows : ℕ) (item : RelationExpansion) (r : Relation) (t : Traversal)
    → length t.expansions < max_expansions + rows
    → (turns rows (follow_relation item r t) ≡ turns rows t)
      × (length (follow_relation item r t).expansions ≤ suc (length t.expansions))
unfolding follow_relation
turns-follow_relation rows item r t h = ground (
  arith,
  length-append t.queue (expanded item r ∷ []),
  length-append t.expansions (expanded item r ∷ []),
)

pub turns-follow_relations :
    (rows : ℕ) (item : RelationExpansion) (rs : List Relation) (t : Traversal)
    → length t.expansions + length rs ≤ max_expansions + rows
    → turns rows (follow_relations item rs t) ≡ turns rows t
unfolding follow_relations
turns-follow_relations rows item [] t h = refl
turns-follow_relations rows item (r ∷ rs) t h =
    let (same, longer) = turns-follow_relation rows item r t (omega arith) in
    turns-follow_relations rows item rs (follow_relation item r t) (omega arith) ∙ same
