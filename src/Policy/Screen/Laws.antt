-- ===== src/Policy/Screen/Laws.antt =====
-- What the gate of src/policy.rs accepts, and how it cuts.
use codex_memoryd.Prelude.{
  ℕ, ◌+◌, ◌≤◌, ◌<◌, String, count, push_str, ◌≡◌, ap, ◌∙◌, ◌↔◌, ◌⊎◌, inl, inr, true, false, none,
  arith, leb, str_is_empty, trim, trim_idem, take_chars, count-append, count-take_chars, Bool-cases,
  leb→le,
}
use codex_memoryd.Policy.Regex.{RegexEngine}
use codex_memoryd.Policy.Secrets.{detect_secret, detect_injection}
use codex_memoryd.Policy.Screen.{
  PolicyDecision, accept, reject, screen_string_value, screen_content, screen_trimmed,
  truncate_chars, looks_structured, max_raw_log_chars, truncation_marker,
}

-- A text longer than `n` is cut to its first `n` characters and the 29 of the marker.
count_of_cut :
    (s : String) (n : ℕ)
    → n ≤ count s
    → count (push_str (take_chars n s) truncation_marker) ≡ n + 29
count_of_cut s n h =
    count-append (take_chars n s) truncation_marker ∙ ap (λ k. k + 29) (count-take_chars n s h)

-- A text of at most `n` characters is kept as it is; a longer one becomes its first `n` characters
-- and the marker, which makes `n + 29` characters.
pub truncate_chars_bounds :
    (s : String) (n : ℕ)
    → ((count s ≤ n) × (truncate_chars s n ≡ s))
      ⊎ ((n < count s)
          × (truncate_chars s n ≡ push_str (take_chars n s) truncation_marker)
          × (count (truncate_chars s n) ≡ n + 29))
unfolding truncate_chars
truncate_chars_bounds s n = elim (Bool-cases (leb (count s) n)) [
  | inl fits ↦ inl (leb→le _ _ fits, rw fits)
  | inr over ↦
      let longer : n < count s = ground arith in
      inr (longer, rw over, rw over (count_of_cut s n (omega arith)))
]

-- What a text must satisfy to pass the gate.
pub record Passes (E : RegexEngine) (t : String) : Type 0 where
  pub filled : str_is_empty t ≡ false
  pub no_secret : detect_secret E t ≡ none
  pub no_injection : detect_injection E t ≡ false
  pub small : (count t ≤ max_raw_log_chars) ⊎ (looks_structured t ≡ true)

screen_string_value-trim :
    (E : RegexEngine) (s : String) → screen_string_value E (trim s) ≡ screen_trimmed E (trim s)
unfolding screen_string_value
screen_string_value-trim E s = ap (screen_trimmed E) (trim_idem s)

abbrev cut : ℕ → PolicyDecision → PolicyDecision
cut n d = elim d [
  | accept cleaned ↦ accept (truncate_chars cleaned n)
  | reject code reason ↦ reject code reason
]

module _ (E : RegexEngine) (t : String) (n : ℕ) (out : String) where
  Passes-of_accept :
      str_is_empty t ≡ false
      → cut n (screen_trimmed E t) ≡ accept out
      → Passes E t × (out ≡ truncate_chars t n)
  unfolding screen_trimmed
  Passes-of_accept filled h = ground arith

  accept_of_Passes : Passes E t → out ≡ truncate_chars t n → cut n (screen_trimmed E t) ≡ accept out
  unfolding screen_trimmed
  accept_of_Passes p e = ground arith

-- The gate accepts exactly the texts whose trimmed form is not empty, holds no secret and no
-- injection, and is either of at most 16,000 characters or structured; what it accepts is that form,
-- or its first `n` characters and a marker where it has more.
pub screen_content-accept_iff :
    (E : RegexEngine) (s : String) (n : ℕ) (out : String)
    → (screen_content E s n ≡ accept out) ↔ (Passes E (trim s) × (out ≡ truncate_chars (trim s) n))
unfolding screen_content
screen_content-accept_iff E s n out = elim (Bool-cases (str_is_empty (trim s))) [
  | inl nothing_left ↦
      rw nothing_left (λ h. absurd (cc h), λ p. absurd (cc (nothing_left, p.0.filled)))
  | inr filled ↦
      rw (filled, screen_string_value-trim)
        (Passes-of_accept E (trim s) n out filled, λ p. accept_of_Passes E (trim s) n out p.0 p.1)
]
