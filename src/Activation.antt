-- ===== src/Activation.antt =====
-- src/activation.rs: whether a procedure is used for a query, over the arithmetic of f64. A
-- `BTreeSet` of tokens is the ascending list of them.
pub mod Laws
use Prim.Native.Nat.{Ordering}
use codex_memoryd.Prelude.{
  ℕ, ◌+◌, Char, code, String, len, Bool, true, false, not, ◌&&◌, ◌||◌, Option, none, some, List, [],
  ◌∷◌, ◌++◌, is_empty, length, leb, mem_str, select, str_is_empty, to_ascii_lowercase,
  if◌then◌else◌,
}
use codex_memoryd.Prelude.Int.{pos}
use codex_memoryd.Prelude.StrSet.{set_of}
use codex_memoryd.Domain.MemoryRecord.{F64}
use codex_memoryd.Recall.Float.{Float}
use codex_memoryd.Store.Procedures.{Procedure}

pub record ActivationDecision : Type 0 where
  pub activate : Bool
  pub score : F64
  pub negative_match : F64
  pub reason : String

abbrev stopwords : List String
stopwords =
    "the" ∷ "a" ∷ "an" ∷ "to" ∷ "of" ∷ "and" ∷ "or" ∷ "on" ∷ "in" ∷ "for" ∷ "with" ∷ "when"
    ∷ "working" ∷ "work" ∷ "this" ∷ "that" ∷ "is" ∷ "are" ∷ "be" ∷ "your" ∷ "you" ∷ "it" ∷ "as"
    ∷ "at" ∷ "by" ∷ "do" ∷ []

-- `is_ascii_alphanumeric`
abbrev is_word_char : Char → Bool
is_word_char c =
    (leb b'0' (code c) && leb (code c) b'9')
    || (leb b'A' (code c) && leb (code c) b'Z')
    || (leb b'a' (code c) && leb (code c) b'z')

-- `split` on the other characters: the piece that the text starts with, and those after it
unfoldable pub pieces_from : String → String × List String
pieces_from String.[] = (String.[], [])
pieces_from (String.◌∷◌ c s) =
    let rest = pieces_from s in
    if is_word_char c then (String.◌∷◌ c rest.0, rest.1) else (String.[], rest.0 ∷ rest.1)

abbrev pieces : String → List String
pieces s = (pieces_from s).0 ∷ (pieces_from s).1

unfoldable pub tokenize : String → List String
unfolding pieces_from to_ascii_lowercase
tokenize text =
    select (λ t. not (mem_str t stopwords))
      (select (λ t. leb 3 (len t)) (pieces (to_ascii_lowercase text)))

unfoldable pub token_set : String → List String
unfolding tokenize set_of
token_set text = set_of (tokenize text)

-- `self.intersection(b).count()` and `self.union(b).count()`
abbrev shared_count : List String → List String → ℕ
shared_count a b = length (select (λ t. mem_str t b) a)

abbrev union_count : List String → List String → ℕ
union_count a b = length a + length (select (λ t. not (mem_str t a)) b)

unfoldable pub cue_tokens : Procedure → List String
unfolding token_set set_of
cue_tokens p = set_of (token_set p.activation_query ++ (token_set p.name ++ token_set p.steps))

module _ (f : Float) where
  abbrev pub zero_score : F64
  zero_score = f.hundredths (pos 0)

  -- `a >= b`
  abbrev pub ge : F64 → F64 → Bool
  ge a b = elim (f.partial_cmp a b) [
    | some o ↦ elim o [ Ordering.lt ↦ false | _ ↦ true ]
    | none ↦ false
  ]

  unfoldable pub jaccard : List String → List String → F64
  jaccard a b =
      if is_empty a || is_empty b
      then zero_score
      else f.div (f.of_usize (shared_count a b)) (f.of_usize (union_count a b))

  unfoldable pub coverage : List String → List String → F64
  coverage query cues =
      if is_empty query
      then zero_score
      else f.div (f.of_usize (length (select (λ t. mem_str t cues) query)))
          (f.of_usize (length query))

  -- the loop over the negative examples
  unfoldable pub negative_match_from : List String → F64 → List String → F64
  negative_match_from query best [] = best
  negative_match_from query best (negative ∷ negatives) =
      let sim = jaccard query (token_set negative) in
      negative_match_from query (if f.lt best sim then sim else best) negatives

  unfoldable pub evaluate_with : Procedure → String → F64 → F64 → ActivationDecision
  evaluate_with p query activation_threshold negative_veto_threshold =
      let query_tokens = token_set query in
      let negative_match = negative_match_from query_tokens zero_score p.negative_examples in
      let score = coverage query_tokens (cue_tokens p) in
      if is_empty query_tokens
      then record {
        activate = false;
        score = zero_score;
        negative_match = zero_score;
        reason = "empty_query";
      }
      else if ge negative_match negative_veto_threshold
      then record {
        activate = false;
        score = zero_score;
        negative_match = negative_match;
        reason = "negative_example_veto";
      }
      else if ge score activation_threshold
      then record {
        activate = true;
        score = score;
        negative_match = negative_match;
        reason = "activated";
      }
      else record {
        activate = false;
        score = score;
        negative_match = negative_match;
        reason = "below_threshold";
      }

  abbrev pub default_activation_threshold : F64
  default_activation_threshold = f.hundredths (pos 34)

  abbrev pub negative_veto_threshold : F64
  negative_veto_threshold = f.hundredths (pos 50)

  unfoldable pub evaluate : Procedure → String → ActivationDecision
  unfolding evaluate_with
  evaluate p query = evaluate_with p query default_activation_threshold negative_veto_threshold
