-- ===== src/Bundle/Base64.antt =====
-- `decode_base64` of src/portable_bundle.rs, on the bytes of its text.
pub mod Laws
pub mod Bounds
use codex_memoryd.Prelude.{
  ℕ, ◌+◌, ◌-◌, ◌*◌, ◌/◌, ◌%◌, Bool, true, false, not, ◌&&◌, ◌||◌, Option, none, some, List, [], ◌∷◌,
  ◌++◌, any, is_empty, length, leb, ◌==◌, if◌then◌else◌,
}
use codex_memoryd.Errors.{Result, ok, err, fail, bundle_integrity_failed}

-- `u8::is_ascii_whitespace`
abbrev pub is_ascii_whitespace : ℕ → Bool
is_ascii_whitespace c = c == 9 || c == 10 || c == 12 || c == 13 || c == 32

abbrev pub pad : ℕ
pad = b'='

-- the value of a character; the padding counts as 0
unfoldable pub sextet : ℕ → Option ℕ
sextet c =
    if c == pad
    then some 0
    else if leb b'A' c && leb c b'Z'
    then some (c - b'A')
    else if leb b'a' c && leb c b'z'
    then some ((c - b'a') + 26)
    else if leb b'0' c && leb c b'9'
    then some ((c - b'0') + 52)
    else if c == b'+'
    then some 62
    else if c == b'/'
    then some 63
    else none

-- The bytes of four values. A shift to the left drops what does not fit a u8, and the two sides of
-- each `|` have no bit in common, so that it is a sum.
abbrev pub bytes_of : ℕ → ℕ → ℕ → ℕ → Bool → Bool → List ℕ
bytes_of a b c d has_c has_d =
    ((a * 4) % 256 + b / 16)
    ∷ ((if has_c then ((b * 16) % 256 + c / 4) ∷ [] else [])
        ++ (if has_d then ((c * 64) % 256 + d) ∷ [] else []))

-- the values of the chunk, which is filled up with padding
unfoldable pub decode_values : ℕ → ℕ → ℕ → ℕ → Result (List ℕ)
decode_values a b c d = elim (sextet a) [
  | none ↦ fail bundle_integrity_failed "invalid base64 character"
  | some va ↦ elim (sextet b) [
    | none ↦ fail bundle_integrity_failed "invalid base64 character"
    | some vb ↦ elim (sextet c) [
      | none ↦ fail bundle_integrity_failed "invalid base64 character"
      | some vc ↦ elim (sextet d) [
        | none ↦ fail bundle_integrity_failed "invalid base64 character"
        | some vd ↦
            if c == pad && not (d == pad)
            then fail bundle_integrity_failed "invalid base64 padding"
            else ok (bytes_of va vb vc vd (not (c == pad)) (not (d == pad)))
      ]
    ]
  ]
]

-- one turn of the loop; `followed` tells whether there are bytes after the chunk
unfoldable pub decode_chunk : ℕ → ℕ → ℕ → ℕ → Bool → Result (List ℕ)
decode_chunk a b c d followed =
    if a == pad || b == pad || (followed && (a == pad || b == pad || c == pad || d == pad))
    then fail bundle_integrity_failed "invalid base64 padding"
    else decode_values a b c d

-- the output of a turn in front of that of the later ones; the first error ends the loop
unfoldable pub joined : Result (List ℕ) → Result (List ℕ) → Result (List ℕ)
joined (err e) later = err e
joined (ok bytes) (err e) = err e
joined (ok bytes) (ok more) = ok (bytes ++ more)

unfoldable pub decode_chunks : List ℕ → Result (List ℕ)
decode_chunks [] = ok []
decode_chunks (a ∷ []) = decode_chunk a pad pad pad false
decode_chunks (a ∷ b ∷ []) = decode_chunk a b pad pad false
decode_chunks (a ∷ b ∷ c ∷ []) = decode_chunk a b c pad false
decode_chunks (a ∷ b ∷ c ∷ d ∷ rest) =
    joined (decode_chunk a b c d (not (is_empty rest))) (decode_chunks rest)

unfoldable pub decode_base64 : List ℕ → Result (List ℕ)
decode_base64 value =
    if is_empty value || any is_ascii_whitespace value
    then fail bundle_integrity_failed "invalid base64"
    else if length value % 4 == 1
    then fail bundle_integrity_failed "invalid base64 length"
    else decode_chunks value
