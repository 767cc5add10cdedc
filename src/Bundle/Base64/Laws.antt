-- ===== src/Bundle/Base64/Laws.antt =====
-- `decode_base64` of src/portable_bundle.rs inverts the base 64 encoding of RFC 4648.
use codex_memoryd.Prelude.{
  ℕ, ◌+◌, ◌-◌, ◌*◌, ◌/◌, ◌%◌, ◌<◌, Bool, true, false, not, ◌≡◌, refl, ap, ◌∙◌, inl, inr, some, List,
  [], ◌∷◌, ◌++◌, any, is_empty, length, All, arith, ltb, ◌==◌, Bool-cases, if◌then◌else◌,
}
use codex_memoryd.Errors.{ok}
use codex_memoryd.Bundle.Base64.{
  is_ascii_whitespace, pad, sextet, bytes_of, joined, decode_values, decode_chunk, decode_chunks,
  decode_base64,
}

-- the character of a value, by the alphabet of RFC 4648
unfoldable pub letter : ℕ → ℕ
letter v =
    if ltb v 26
    then b'A' + v
    else if ltb v 52
    then b'a' + (v - 26)
    else if ltb v 62
    then b'0' + (v - 52)
    else if v == 62
    then b'+'
    else b'/'

unfoldable pub encode : List ℕ → List ℕ
encode [] = []
encode (x ∷ []) = letter (x / 4) ∷ letter ((x % 4) * 16) ∷ pad ∷ pad ∷ []
encode (x ∷ y ∷ []) =
    letter (x / 4) ∷ letter ((x % 4) * 16 + y / 16) ∷ letter ((y % 16) * 4) ∷ pad ∷ []
encode (x ∷ y ∷ z ∷ rest) =
    letter (x / 4)
    ∷ letter ((x % 4) * 16 + y / 16)
    ∷ letter ((y % 16) * 4 + z / 64)
    ∷ letter (z % 64)
    ∷ encode rest

sextet-letter : (v : ℕ) → v < 64 → sextet (letter v) ≡ some v
unfolding sextet letter
sextet-letter v h = ground arith

sextet-pad : sextet pad ≡ some 0
unfolding sextet
sextet-pad = refl

letter-pad : (v : ℕ) → (letter v == pad) ≡ false
unfolding letter
letter-pad v = ground arith

letter-solid : (v : ℕ) → is_ascii_whitespace (letter v) ≡ false
unfolding letter
letter-solid v = ground arith

-- the arithmetic of a triple
first_byte : (x y : ℕ) → x < 256 → y < 256 → ((x / 4) * 4) % 256 + ((x % 4) * 16 + y / 16) / 16 ≡ x
first_byte x y h k = omega arith

second_byte :
    (x y z : ℕ)
    → x < 256
    → y < 256
    → z < 256
    → (((x % 4) * 16 + y / 16) * 16) % 256 + ((y % 16) * 4 + z / 64) / 4 ≡ y
second_byte x y z h k l = omega arith

third_byte : (y z : ℕ) → z < 256 → (((y % 16) * 4 + z / 64) * 64) % 256 + z % 64 ≡ z
third_byte y z h = omega arith

-- a chunk of letters, and the two that end with padding
decode-letters :
    (a b c d : ℕ) (followed : Bool)
    → a < 64
    → b < 64
    → c < 64
    → d < 64
    → decode_chunk (letter a) (letter b) (letter c) (letter d) followed
      ≡ ok (bytes_of a b c d true true)
unfolding decode_chunk decode_values
decode-letters a b c d followed ha hb hc hd = elim (Bool-cases followed) [
  | inl more ↦
      rw
        (
          more,
          letter-pad a,
          letter-pad b,
          letter-pad c,
          letter-pad d,
          decode_values,
          sextet-letter a ha,
          sextet-letter b hb,
          sextet-letter c hc,
          sextet-letter d hd,
          letter-pad c,
          letter-pad d,
        )
        refl
  | inr last ↦
      rw
        (
          last,
          letter-pad a,
          letter-pad b,
          decode_values,
          sextet-letter a ha,
          sextet-letter b hb,
          sextet-letter c hc,
          sextet-letter d hd,
          letter-pad c,
          letter-pad d,
        )
        refl
]

decode-letters-pad :
    (a b c : ℕ)
    → a < 64
    → b < 64
    → c < 64
    → decode_chunk (letter a) (letter b) (letter c) pad false ≡ ok (bytes_of a b c 0 true false)
unfolding decode_chunk decode_values
decode-letters-pad a b c ha hb hc =
    rw
      (
        letter-pad a,
        letter-pad b,
        decode_values,
        sextet-letter a ha,
        sextet-letter b hb,
        sextet-letter c hc,
        sextet-pad,
        letter-pad c,
      )
      refl

decode-letters-pads :
    (a b : ℕ)
    → a < 64
    → b < 64
    → decode_chunk (letter a) (letter b) pad pad false ≡ ok (bytes_of a b 0 0 false false)
unfolding decode_chunk decode_values
decode-letters-pads a b ha hb =
    rw
      (
        letter-pad a,
        letter-pad b,
        decode_values,
        sextet-letter a ha,
        sextet-letter b hb,
        sextet-pad,
        sextet-pad,
      )
      refl

-- The bytes are u8 values.
abbrev pub AllBytes : List ℕ → Type 0
AllBytes bytes = All (λ x. x < 256) bytes

decode_chunks-cons :
    (a b c d : ℕ) (rest out more : List ℕ)
    → decode_chunk a b c d (not (is_empty rest)) ≡ ok out
    → decode_chunks rest ≡ ok more
    → decode_chunks (a ∷ b ∷ c ∷ d ∷ rest) ≡ ok (out ++ more)
unfolding decode_chunks joined
decode_chunks-cons a b c d rest out more h k = rw (decode_chunks, h, k) refl

decode_chunks-encode : (bytes : List ℕ) → AllBytes bytes → decode_chunks (encode bytes) ≡ ok bytes
unfolding decode_chunks encode
decode_chunks-encode [] h = refl
decode_chunks-encode (x ∷ []) h =
    decode_chunks-cons (letter (x / 4)) (letter ((x % 4) * 16)) pad pad [] _ []
      (decode-letters-pads (x / 4) ((x % 4) * 16) (omega arith) (omega arith)) refl
    ∙ ap (λ u. ok (u ∷ [])) (omega arith)
decode_chunks-encode (x ∷ y ∷ []) h =
    decode_chunks-cons (letter (x / 4)) (letter ((x % 4) * 16 + y / 16)) (letter ((y % 16) * 4)) pad
      [] _ []
      (decode-letters-pad (x / 4) ((x % 4) * 16 + y / 16) ((y % 16) * 4) (omega arith) (omega arith)
        (omega arith))
      refl
    ∙ ap (λ u. ok (u ∷ ((((x % 4) * 16 + y / 16) * 16) % 256 + ((y % 16) * 4) / 4) ∷ []))
        (first_byte x y h.0 h.1.0)
    ∙ ap (λ u. ok (x ∷ u ∷ [])) (omega arith)
decode_chunks-encode (x ∷ y ∷ z ∷ rest) h =
    decode_chunks-cons (letter (x / 4)) (letter ((x % 4) * 16 + y / 16))
      (letter ((y % 16) * 4 + z / 64)) (letter (z % 64)) (encode rest) _ rest
      (decode-letters (x / 4) ((x % 4) * 16 + y / 16) ((y % 16) * 4 + z / 64) (z % 64)
        (not (is_empty (encode rest))) (omega arith) (omega arith) (omega arith) (omega arith))
      (decode_chunks-encode rest h.1.1.1)
    ∙ rw (first_byte x y h.0 h.1.0, second_byte x y z h.0 h.1.0 h.1.1.0, third_byte y z h.1.1.0)
        refl

encode-solid : (bytes : List ℕ) → any is_ascii_whitespace (encode bytes) ≡ false
unfolding encode
encode-solid [] = refl
encode-solid (x ∷ []) = rw (letter-solid (x / 4), letter-solid ((x % 4) * 16)) refl
encode-solid (x ∷ y ∷ []) =
    rw (letter-solid (x / 4), letter-solid ((x % 4) * 16 + y / 16), letter-solid ((y % 16) * 4))
      refl
encode-solid (x ∷ y ∷ z ∷ rest) =
    rw
      (
        letter-solid (x / 4),
        letter-solid ((x % 4) * 16 + y / 16),
        letter-solid ((y % 16) * 4 + z / 64),
        letter-solid (z % 64),
      )
      (encode-solid rest)

length-encode : (bytes : List ℕ) → length (encode bytes) % 4 ≡ 0
unfolding encode
length-encode [] = omega arith
length-encode (x ∷ []) = omega arith
length-encode (x ∷ y ∷ []) = omega arith
length-encode (x ∷ y ∷ z ∷ rest) = omega (arith, length-encode rest)

is_empty-encode : (bytes : List ℕ) → is_empty (encode bytes) ≡ is_empty bytes
unfolding encode
is_empty-encode [] = refl
is_empty-encode (x ∷ []) = refl
is_empty-encode (x ∷ y ∷ []) = refl
is_empty-encode (x ∷ y ∷ z ∷ rest) = refl

-- The decoder inverts the base 64 encoding of RFC 4648, with padding, of any bytes but none.
pub decode_base64-encode :
    (bytes : List ℕ)
    → AllBytes bytes
    → is_empty bytes ≡ false
    → decode_base64 (encode bytes) ≡ ok bytes
unfolding decode_base64
decode_base64-encode bytes h n =
    let four : (length (encode bytes) % 4 == 1) ≡ false = ground (arith, length-encode bytes) in
    rw (is_empty-encode bytes, n, encode-solid bytes, four) (decode_chunks-encode bytes h)
