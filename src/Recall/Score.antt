-- ===== src/Recall/Score.antt =====
-- src/recall.rs: the score of a candidate record and the signals that explain it.
use codex_memoryd.Prelude.{
  ℕ, String, len, push_str, Bool, false, not, ◌&&◌, ◌||◌, Option, none, some, List, [], ◌∷◌, ◌++◌,
  any, select, is_empty, length, ltb, leb, str_eq, str_is_empty, contains, ends_with,
  split_whitespace, to_ascii_lowercase, if◌then◌else◌,
}
use codex_memoryd.Prelude.Int.{ℤ, pos, negsuc}
use codex_memoryd.Domain.RecordType.{RecordType}
use codex_memoryd.Domain.MemoryRecord.{F64, MemoryRecord}
use codex_memoryd.Recall.Admission.{same_type}
use codex_memoryd.Recall.Facts.{Scored, is_stale}
use codex_memoryd.Recall.Float.{Float}
use codex_memoryd.Recall.Boost.{pack_mode_boost}
use codex_memoryd.Recall.ModeSignals.{push_if, pack_mode_signals}
use codex_memoryd.Recall.Pack.{PackTemplate, f64_positive}

-- `RecordType::recall_weight` of src/domain.rs, in hundredths
unfoldable pub recall_weight : RecordType → ℕ
recall_weight RecordType.decision = 100
recall_weight RecordType.gotcha = 95
recall_weight RecordType.command = 90
recall_weight RecordType.repo_convention = 85
recall_weight RecordType.task_checkpoint = 80
recall_weight RecordType.workflow_pattern = 70
recall_weight RecordType.preference = 65
recall_weight RecordType.landmark = 55
recall_weight RecordType.identity = 50
recall_weight RecordType.other = 30

abbrev same_repo : Option String → Option String → Bool
same_repo (some want) (some have) = str_eq want have
same_repo _ _ = false

abbrev related : String → String → Bool
related rf f = str_eq f rf || ends_with f rf || ends_with rf f

unfoldable pub file_match : MemoryRecord → List String → Bool
unfolding ends_with
file_match r files =
    not (is_empty files)
    && not (is_empty r.related_files)
    && any (λ rf. any (related rf) files) r.related_files

abbrev marker_operational_valence : MemoryRecord → Option String
marker_operational_valence r = r.metadata.text_in "marker" "operational_valence"

abbrev marker_decayed_intensity : MemoryRecord → Option F64
marker_decayed_intensity r = r.metadata.number_in "marker" "decayed_intensity"

abbrev marker_retired : MemoryRecord → Bool
marker_retired r = r.metadata.filled_in "marker" "retired_at"

-- the days up to which a record is so recent, and the boost in hundredths
recency_hundredths : Option ℤ → ℕ
recency_hundredths none = 30
recency_hundredths (some (negsuc n)) = 150
recency_hundredths (some (pos days)) =
    if leb days 7 then 150 else if leb days 30 then 100 else if leb days 90 then 50 else 10

module _ (f : Float) (days_since : String → Option ℤ) where
  abbrev lit : ℕ → F64
  lit n = f.hundredths (pos n)

  unfoldable pub recency_boost : String → F64
  unfolding recency_hundredths
  recency_boost updated_at = lit (recency_hundredths (days_since updated_at))

  unfoldable pub lexical_overlap : String → String → F64
  unfolding split_whitespace contains to_ascii_lowercase
  lexical_overlap query content =
      let q_terms = select (λ t. ltb 2 (len t)) (split_whitespace (to_ascii_lowercase query)) in
      let hits = length (select (contains (to_ascii_lowercase content)) q_terms) in
      if is_empty q_terms then lit 0 else f.div (f.of_usize hits) (f.of_usize (length q_terms))

  -- `clamp(0.0, 1.0)`
  abbrev unit_clamp : F64 → F64
  unit_clamp x = if f.lt x (lit 0) then lit 0 else if f.lt (lit 100) x then lit 100 else x

  abbrev intensity_of : Option F64 → F64
  intensity_of none = lit 0
  intensity_of (some x) = x

  valence_boost : String → F64 → F64
  valence_boost valence intensity =
      if str_eq valence "positive"
      then f.mul intensity (lit 80)
      else if str_eq valence "negative"
      then (if f.lt intensity (lit 10) then lit 0 else f.mul intensity (lit 40))
      else if str_eq valence "mixed"
      then f.mul intensity (lit 20)
      else lit 0

  unfoldable pub operational_valence_boost : MemoryRecord → F64
  unfolding valence_boost
  operational_valence_boost r = elim (marker_operational_valence r) [
    | none ↦ lit 0
    | some valence ↦ valence_boost valence (unit_clamp (intensity_of (marker_decayed_intensity r)))
  ]

  abbrev faint : Option F64 → Bool
  faint none = false
  faint (some intensity) = f.lt intensity (lit 10)

  unfoldable pub operational_valence_signals : MemoryRecord → List String
  operational_valence_signals r = elim (marker_operational_valence r) [
    | none ↦ []
    | some valence ↦
        push_str "operational_valence:" valence
        ∷ "valence_ranking_only"
        ∷ (push_if (faint (marker_decayed_intensity r)) "valence_decay_low"
            ++ push_if (marker_retired r) "valence_retired")
  ]

  -- `score += amount`
  abbrev add_if : Bool → ℕ → F64 → F64
  add_if test amount score = if test then f.add score (lit amount) else score

  module _ (repo_id : Option String) (files : List String) (query : String)
      (pack_template : PackTemplate) where
    unfoldable pub score_record : MemoryRecord → F64
    unfolding file_match recall_weight recency_boost lexical_overlap pack_mode_boost
        operational_valence_boost
    score_record r =
        let base = f.add (lit 0) (lit 100) in
        let in_repo = add_if (same_repo repo_id r.repo_id) 300 base in
        let in_files = add_if (file_match r files) 400 in_repo in
        let weighed = f.add in_files (f.mul (lit (recall_weight r.record_type)) (lit 150)) in
        let trusted = f.add weighed r.confidence in
        let recent = f.add trusted (recency_boost r.updated_at) in
        let matched = f.add recent (f.mul (lexical_overlap query r.content) (lit 150)) in
        let resumed = add_if (same_type r.record_type RecordType.task_checkpoint) 50 matched in
        f.add (f.add resumed (pack_mode_boost f r pack_template.mode)) (operational_valence_boost r)

    unfoldable pub ranking_signals : MemoryRecord → List String
    unfolding file_match recency_boost lexical_overlap pack_mode_signals operational_valence_signals
    ranking_signals r =
        let recent = f64_positive (recency_boost r.updated_at) in
        push_if (same_repo repo_id r.repo_id) "repo_match"
        ++ (push_if (file_match r files) "file_match"
            ++ (push_if recent "recency"
                ++ (push_if (f64_positive (lexical_overlap query r.content)) "query_match"
                    ++ (push_if (same_type r.record_type RecordType.task_checkpoint)
                          "checkpoint_boost"
                        ++ (push_if (not (same_type r.record_type RecordType.other))
                              "record_type_weight"
                            ++ (push_if (recent && str_is_empty query) "recent_implicit"
                                ++ (push_if (is_stale (days_since r.updated_at))
                                      "stale_deprioritized"
                                    ++ (pack_mode_signals r pack_template.mode
                                        ++ operational_valence_signals r))))))))

    abbrev pub scored : MemoryRecord → Scored
    scored r = record { entry = r; score = score_record r; ranking_signals = ranking_signals r }
