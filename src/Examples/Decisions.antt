-- ===== src/Examples/Decisions.antt =====
-- The consolidation of src/consolidation/, on small inputs.
use codex_memoryd.Prelude.{
  mem_str, eq_iff, contains, String, push_str, trim, to_ascii_lowercase, Option, Bool, ◌≡◌, ◌⊎◌,
  refl, inl, inr, true, false, none, some, List, [], ◌∷◌, arith,
}
use codex_memoryd.Policy.Screen.{screen_content, screen_string_value, is_accept, max_record_chars}
use codex_memoryd.Policy.Secrets.{detect_secret, detect_injection}
use codex_memoryd.Consolidation.Types.{
  ConsolidationBudget, ConsolidationPolicy, ConsolidationCandidate, ConsolidationBatch,
  ConsolidationDecision, defer, automatic, adopt_inference, adopt_statement, no_change,
  validate_policy, validate_candidate, validate_batch, consolidation_contract_version,
}
use codex_memoryd.Consolidation.Batch.{validate_batch_iff}
use codex_memoryd.Consolidation.Evaluate.{
  EvidenceDescriptor, SemanticValidation, evaluate_candidate, matched, roots, resolved, allows,
}
use codex_memoryd.Prelude.Distinct.{Distinct}
use codex_memoryd.Prelude.StrSet.{set_of, set_insert}
use codex_memoryd.Consolidation.Evaluate.Evidence.{evidence_ids}
use codex_memoryd.Consolidation.Evaluate.Adoption.{
  IsPlainStatement, Cleared, Evidenced, adopt_statement_iff,
}
use codex_memoryd.Consolidation.Evaluate.Soundness.{decision_shape}
use codex_memoryd.Consolidation.Fingerprint.{rejection_fingerprint, fingerprint_of_lineage}
use codex_memoryd.Examples.Gate.{literal_engine}

abbrev budget : ConsolidationBudget
budget = record {
  max_candidates = 5;
  max_source_records = 5;
  max_provider_calls = 5;
  max_input_bytes = 1000;
  max_output_bytes = 1000;
}

abbrev policy : ConsolidationPolicy
policy = record {
  version = consolidation_contract_version;
  mode = automatic;
  scopes = "repo" ∷ [];
  claim_classes = "preference" ∷ [];
  source_classes = "user_statement" ∷ "turn" ∷ [];
  operations = adopt_inference ∷ adopt_statement ∷ no_change ∷ [];
  budget = budget;
  retention_days = 30;
  semantic_validation = true;
  legacy_metadata = none;
}

abbrev two : List String
two = "e1" ∷ "e2" ∷ []

-- what is represented already: the claim and its two roots
abbrev known : List String
known = "prefers tabs" ∷ "r1" ∷ "r2" ∷ []

abbrev candidate_of : Bool → List String → ConsolidationCandidate
candidate_of inferred sources = record {
  candidate_id = "c1";
  output_digest = "d1";
  claim = "prefers tabs";
  claim_class = "preference";
  subject = "user";
  inferred = inferred;
  source_ids = sources;
  supporting_spans = [];
  supersedes = [];
  temporal_state = none;
  valid_until = none;
  historical_reason = none;
}

abbrev inference : ConsolidationCandidate
inference = candidate_of true two

abbrev statement : ConsolidationCandidate
statement = candidate_of false two

abbrev item : String → String → EvidenceDescriptor
item id root = record {
  id = id;
  root_id = root;
  source_class = "turn";
  actor = "user";
  subject = "user";
  content = "tabs please";
  supporting_span = none;
}

abbrev evidence : List EvidenceDescriptor
evidence = item "e1" "r1" ∷ item "e2" "r2" ∷ []

abbrev confirmed : SemanticValidation
confirmed = record { supported = true; validator = "v1"; reason = "" }

claim_is_safe : is_accept (screen_content literal_engine "prefers tabs" max_record_chars) ≡ true
unfolding screen_content is_accept trim screen_string_value detect_secret to_ascii_lowercase
    detect_injection
claim_is_safe = refl

claim_is_plain : IsPlainStatement "prefers tabs"
unfolding to_ascii_lowercase contains
claim_is_plain = ((refl, (refl, (refl, (refl, (refl, (refl, (refl, tt))))))), refl)

policy_is_valid : validate_policy policy ≡ none
unfolding validate_policy
policy_is_valid = refl

candidate_is_whole : (inferred : Bool) → validate_candidate (candidate_of inferred two) ≡ none
unfolding validate_candidate
candidate_is_whole inferred = refl

distinct : Distinct (evidence_ids evidence)
distinct = (refl, (refl, tt))

cleared :
    (inferred : Bool) (v : Option SemanticValidation)
    → Cleared policy (candidate_of inferred two) evidence literal_engine "repo" [] [] v distinct
cleared inferred v = record {
  policy_valid = policy_is_valid;
  enabled = λ e. ground arith;
  scope_allowed = refl;
  class_allowed = refl;
  well_formed = candidate_is_whole inferred;
  content_safe = claim_is_safe;
  certain = inr claim_is_plain;
}

evidenced : (inferred : Bool) → Evidenced policy (candidate_of inferred two) evidence
evidenced inferred = record {
  all_found = λ a m. m;
  good = (
    inr (record { class = refl; subject = refl; actor = inr (inr refl) }),
    (inr (record { class = refl; subject = refl; actor = inr (inr refl) }), tt),
  );
  two_roots = inr ("r1", "r2", refl, refl, λ e. ground (arith, eq_iff "r1" "r2"));
}

abbrev decide_at :
    ConsolidationCandidate → List String → Option SemanticValidation → ConsolidationDecision
decide_at c known v = evaluate_candidate literal_engine policy "repo" c evidence known known v

adopt_statement_example : (decide_at statement [] none).operation ≡ adopt_statement
unfolding allows
adopt_statement_example =
    (adopt_statement_iff policy statement evidence literal_engine "repo" [] [] none distinct).1
      ((cleared false none, evidenced false, inl refl, refl), refl)

-- Where two evidences have one id, the count of the sources is right though `e2` is not there.
test_missing_source :
    (resolved statement (item "e1" "r1" ∷ item "e1" "r1" ∷ []) ≡ true)
    × (mem_str "e2" (evidence_ids (item "e1" "r1" ∷ item "e1" "r1" ∷ [])) ≡ false)
unfolding resolved matched roots set_of set_insert
test_missing_source = (refl, refl)

decision_shape_example :
    (((decide_at inference [] none).operation ≡ defer)
      × ((decide_at inference [] none).distinct_evidence_roots ≡ []))
    ⊎ ((((decide_at inference [] none).operation ≡ no_change)
          ⊎ ((decide_at inference [] none).operation ≡ adopt_inference))
        × ((decide_at inference [] none).distinct_evidence_roots ≡ roots inference evidence))
decision_shape_example = decision_shape literal_engine policy "repo" inference evidence [] [] none

-- the same sources, named in another order and one of them twice
abbrev renamed : ConsolidationCandidate
renamed = record inference { claim = "likes tabs"; source_ids = "e2" ∷ "e1" ∷ "e2" ∷ [] }

fingerprint_of_lineage_example :
    rejection_fingerprint (push_str "sha256:") inference
    ≡ rejection_fingerprint (push_str "sha256:") renamed
fingerprint_of_lineage_example =
    fingerprint_of_lineage (push_str "sha256:") inference renamed refl refl (λ a. ground arith)

abbrev batch : ConsolidationBatch
batch = record {
  version = consolidation_contract_version;
  batch_id = "b1";
  policy_digest = "p1";
  profile = "work";
  workspace = "w1";
  repo_id = some "r1";
  scope = "repo";
  source_cursor = record { since = none; until = none; explicit_since = false };
  snapshot_digest = "s1";
  candidates = inference ∷ statement ∷ [];
}

validate_batch_example : validate_batch batch ≡ none
unfolding trim
validate_batch_example = (validate_batch_iff batch).1 (
  refl,
  refl,
  refl,
  refl,
  refl,
  ground arith,
  (candidate_is_whole true, (candidate_is_whole false, tt)),
)
