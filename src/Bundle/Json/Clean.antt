-- ===== src/Bundle/Json/Clean.antt =====
-- `sanitize_metadata_value` of src/portable_bundle.rs keeps a value as it is, or drops all of it.
use codex_memoryd.Prelude.{
  ℕ, String, Bool, true, false, not, ◌&&◌, ◌||◌, ◌≡◌, refl, inl, inr, List, [], ◌∷◌, ◌++◌, any,
  Bool-cases, All, code, ◌==◌, contains, contains_any, starts_with, to_ascii_lowercase, Option,
  none, some, arith, ltb, if◌then◌else◌,
}
use codex_memoryd.Policy.Regex.{RegexEngine}
use codex_memoryd.Policy.Screen.{max_record_chars, is_accept, screen_content}
use codex_memoryd.Bundle.Paths.{has_drive, valid_metadata_string, unsafe_metadata_key}
use codex_memoryd.Bundle.Json.{
  Value, null, bool, number, text, array, object, Values, nil, cons, Members, end, member,
  max_metadata_members, count_members, is_small, is_clean_text, sanitize_metadata_value,
  sanitize_values, sanitize_members,
}

any-append : (p : String → Bool) (xs ys : List String) → any p (xs ++ ys) ≡ (any p xs || any p ys)
any-append p [] ys = refl
any-append p (x ∷ xs) ys = ground (arith, any-append p xs ys)

-- the keys of all objects in a value
unfoldable mutual
  pub keys : Value → List String
  keys (array vs) = keys_of_values vs
  keys (object ms) = keys_of_members ms
  keys null = []
  keys (bool b) = []
  keys (number n) = []
  keys (text s) = []

  pub keys_of_values : Values → List String
  keys_of_values nil = []
  keys_of_values (cons v vs) = keys v ++ keys_of_values vs

  pub keys_of_members : Members → List String
  keys_of_members end = []
  keys_of_members (member key v ms) = key ∷ (keys v ++ keys_of_members ms)

-- the texts in a value
unfoldable mutual
  pub texts : Value → List String
  texts (array vs) = texts_of_values vs
  texts (object ms) = texts_of_members ms
  texts (text s) = s ∷ []
  texts null = []
  texts (bool b) = []
  texts (number n) = []

  pub texts_of_values : Values → List String
  texts_of_values nil = []
  texts_of_values (cons v vs) = texts v ++ texts_of_values vs

  pub texts_of_members : Members → List String
  texts_of_members end = []
  texts_of_members (member key v ms) = texts v ++ texts_of_members ms

-- the words that no key may have in it
abbrev sensitive_words : List String
sensitive_words =
    "path" ∷ "root" ∷ "url" ∷ "remote" ∷ "token" ∷ "secret" ∷ "credential" ∷ "password" ∷ "loader"
    ∷ "query" ∷ "sql" ∷ "code" ∷ "command" ∷ "env" ∷ "file" ∷ []

abbrev pub IsPlainKey : String → Type 0
IsPlainKey key = All (λ word. contains (to_ascii_lowercase key) word ≡ false) sensitive_words

abbrev colon_second : String → Bool
colon_second String.[] = false
colon_second (String.◌∷◌ c String.[]) = false
colon_second (String.◌∷◌ c (String.◌∷◌ d s)) = code d == b':'

pub record IsPlainText (E : RegexEngine) (s : String) : Type 0 where
  pub screened : is_accept (screen_content E s max_record_chars) ≡ true
  pub rooted : starts_with s "/" ≡ false
  pub home : starts_with s "~" ≡ false
  pub scheme : contains s "://" ≡ false
  pub nul : contains s "\0" ≡ false
  pub drive : colon_second s ≡ false

colon_second_of_drive : (s : String) → has_drive s ≡ false → colon_second s ≡ false
colon_second_of_drive String.[] h = refl
colon_second_of_drive (String.◌∷◌ c String.[]) h = refl
colon_second_of_drive (String.◌∷◌ c (String.◌∷◌ d s)) h = h

All_of_none :
    (p : String → Bool) (Q : String → Type 0)
    → ((s : String) → p s ≡ false → Q s)
    → (xs : List String) → any p xs ≡ false
    → All Q xs
All_of_none p Q f [] h = tt
All_of_none p Q f (x ∷ xs) h = (f x (ground arith), All_of_none p Q f xs (ground arith))

apart_of_contains :
    (key : String) (words : List String)
    → contains_any key words ≡ false
    → All (λ word. contains key word ≡ false) words
apart_of_contains key [] h = tt
apart_of_contains key (word ∷ words) h = (ground arith, apart_of_contains key words (ground arith))

plain_key : (key : String) → unsafe_metadata_key key ≡ false → IsPlainKey key
unfolding unsafe_metadata_key
plain_key key h = apart_of_contains (to_ascii_lowercase key) sensitive_words h

module _ (E : RegexEngine) (encoded_len : Value → Option ℕ) where
  abbrev dirty : String → Bool
  dirty s = not (is_clean_text E encoded_len s)

  -- Every value inside is small, every text passes `is_clean_text`, every object
  -- has at most 128 members, and no key names something sensitive.
  unfoldable mutual
    pub is_clean : Value → Bool
    is_clean null = is_small E encoded_len null
    is_clean (bool b) = is_small E encoded_len (bool b)
    is_clean (number n) = is_small E encoded_len (number n)
    is_clean (text s) = is_small E encoded_len (text s) && is_clean_text E encoded_len s
    is_clean (array vs) = is_small E encoded_len (array vs) && are_clean vs
    is_clean (object ms) =
        is_small E encoded_len (object ms)
        && not (ltb max_metadata_members (count_members ms))
        && are_clean_members ms

    pub are_clean : Values → Bool
    are_clean nil = true
    are_clean (cons v vs) = is_clean v && are_clean vs

    pub are_clean_members : Members → Bool
    are_clean_members end = true
    are_clean_members (member key v ms) =
        not (unsafe_metadata_key key) && is_clean v && are_clean_members ms

  mutual
    unfolding sanitize_metadata_value sanitize_values sanitize_members is_clean are_clean
        are_clean_members

    sanitize-is_clean :
        (v : Value)
        → sanitize_metadata_value E encoded_len v ≡ (if is_clean v then some v else none)
    sanitize-is_clean null = ground arith
    sanitize-is_clean (bool b) = ground arith
    sanitize-is_clean (number n) = ground arith
    sanitize-is_clean (text s) = ground arith
    sanitize-is_clean (array vs) = ground (arith, sanitize-are_clean vs)
    sanitize-is_clean (object ms) = ground (arith, sanitize-are_clean_members ms)

    sanitize-are_clean :
        (vs : Values) → sanitize_values E encoded_len vs ≡ (if are_clean vs then some vs else none)
    sanitize-are_clean nil = refl
    sanitize-are_clean (cons v vs) = ground (arith, sanitize-is_clean v, sanitize-are_clean vs)

    sanitize-are_clean_members :
        (ms : Members)
        → sanitize_members E encoded_len ms ≡ (if are_clean_members ms then some ms else none)
    sanitize-are_clean_members end = refl
    sanitize-are_clean_members (member key v ms) =
        ground (arith, sanitize-is_clean v, sanitize-are_clean_members ms)

  mutual
    unfolding is_clean are_clean are_clean_members keys keys_of_values keys_of_members

    keys-is_clean : (v : Value) → is_clean v ≡ true → any unsafe_metadata_key (keys v) ≡ false
    keys-is_clean null h = refl
    keys-is_clean (bool b) h = refl
    keys-is_clean (number n) h = refl
    keys-is_clean (text s) h = refl
    keys-is_clean (array vs) h = keys-are_clean vs (ground arith)
    keys-is_clean (object ms) h = keys-are_clean_members ms (ground arith)

    keys-are_clean :
        (vs : Values) → are_clean vs ≡ true → any unsafe_metadata_key (keys_of_values vs) ≡ false
    keys-are_clean nil h = refl
    keys-are_clean (cons v vs) h = ground (
      arith,
      any-append unsafe_metadata_key (keys v) (keys_of_values vs),
      keys-is_clean v,
      keys-are_clean vs,
    )

    keys-are_clean_members :
        (ms : Members)
        → are_clean_members ms ≡ true
        → any unsafe_metadata_key (keys_of_members ms) ≡ false
    keys-are_clean_members end h = refl
    keys-are_clean_members (member key v ms) h = ground (
      arith,
      any-append unsafe_metadata_key (keys v) (keys_of_members ms),
      keys-is_clean v,
      keys-are_clean_members ms,
    )

  mutual
    unfolding is_clean are_clean are_clean_members texts texts_of_values texts_of_members

    texts-is_clean : (v : Value) → is_clean v ≡ true → any dirty (texts v) ≡ false
    texts-is_clean null h = refl
    texts-is_clean (bool b) h = refl
    texts-is_clean (number n) h = refl
    texts-is_clean (text s) h = ground arith
    texts-is_clean (array vs) h = texts-are_clean vs (ground arith)
    texts-is_clean (object ms) h = texts-are_clean_members ms (ground arith)

    texts-are_clean : (vs : Values) → are_clean vs ≡ true → any dirty (texts_of_values vs) ≡ false
    texts-are_clean nil h = refl
    texts-are_clean (cons v vs) h = ground (
      arith,
      any-append dirty (texts v) (texts_of_values vs),
      texts-is_clean v,
      texts-are_clean vs,
    )

    texts-are_clean_members :
        (ms : Members) → are_clean_members ms ≡ true → any dirty (texts_of_members ms) ≡ false
    texts-are_clean_members end h = refl
    texts-are_clean_members (member key v ms) h = ground (
      arith,
      any-append dirty (texts v) (texts_of_members ms),
      texts-is_clean v,
      texts-are_clean_members ms,
    )

  plain_text : (s : String) → dirty s ≡ false → IsPlainText E s
  unfolding valid_metadata_string
  plain_text s h = record {
    screened = ground arith;
    rooted = ground arith;
    home = ground arith;
    scheme = ground arith;
    nul = ground arith;
    drive = colon_second_of_drive s (ground arith);
  }

  -- Metadata is kept as it is or dropped: what comes back is the value itself; no key anywhere in it
  -- has, in lower case, one of the fifteen words in it; and every text anywhere in it passes the
  -- screening, starts with neither `/` nor `~`, has no `://` and no NUL in it, and has no colon as
  -- its second character.
  pub sanitize_metadata_value-safe :
      (v w : Value)
      → sanitize_metadata_value E encoded_len v ≡ some w
      → (w ≡ v) × All IsPlainKey (keys w) × All (IsPlainText E) (texts w)
  sanitize_metadata_value-safe v w h = elim (Bool-cases (is_clean v)) [
    | inl clean ↦
        let e : w ≡ v = ground (arith, sanitize-is_clean v) in
        rw e (
          refl,
          All_of_none unsafe_metadata_key IsPlainKey plain_key (keys v) (keys-is_clean v clean),
          All_of_none dirty (IsPlainText E) plain_text (texts v) (texts-is_clean v clean),
        )
    | inr bad ↦ absurd (ground (arith, sanitize-is_clean v))
  ]
