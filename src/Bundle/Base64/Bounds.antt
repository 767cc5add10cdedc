-- ===== src/Bundle/Base64/Bounds.antt =====
-- What `decode_base64` of src/portable_bundle.rs returns is bytes, and bounded by its input.
use codex_memoryd.Prelude.{
  ℕ, ◌+◌, ◌*◌, ◌%◌, ◌≤◌, ◌<◌, Bool, true, false, not, ◌&&◌, ◌||◌, ◌≡◌, refl, subst, inl, inr, some,
  List, [], ◌∷◌, ◌++◌, any, is_empty, length, length-append, arith, Option-cases, ◌==◌, Bool-cases,
}
use codex_memoryd.Errors.{Result, ok, err}
use codex_memoryd.Bundle.Base64.{
  is_ascii_whitespace, pad, sextet, bytes_of, joined, decode_values, decode_chunk, decode_chunks,
  decode_base64,
}
use codex_memoryd.Bundle.Base64.Laws.{AllBytes}

-- What a chunk gives: bytes, and one more for each character that is no padding.
AllBytes-bytes_of :
    (a b c d : ℕ) (p q : Bool) → a < 64 → b < 64 → c < 64 → d < 64 → AllBytes (bytes_of a b c d p q)
AllBytes-bytes_of a b c d true true ha hb hc hd = (omega arith, (omega arith, (omega arith, tt)))
AllBytes-bytes_of a b c d true false ha hb hc hd = (omega arith, (omega arith, tt))
AllBytes-bytes_of a b c d false true ha hb hc hd = (omega arith, (omega arith, tt))
AllBytes-bytes_of a b c d false false ha hb hc hd = (omega arith, tt)

sextet-bound : (c v : ℕ) → sextet c ≡ some v → v < 64
unfolding sextet
sextet-bound c v h = ground arith

abbrev one_unless : Bool → ℕ
one_unless true = 0
one_unless false = 1

-- the bytes of a chunk that ends with these characters
abbrev size : ℕ → ℕ → ℕ
size c d = 1 + (one_unless (c == pad) + one_unless (d == pad))

length-bytes_of :
    (a b c d : ℕ) (p q : Bool)
    → length (bytes_of a b c d (not p) (not q)) ≡ 1 + (one_unless p + one_unless q)
length-bytes_of a b c d true true = refl
length-bytes_of a b c d true false = refl
length-bytes_of a b c d false true = refl
length-bytes_of a b c d false false = refl

abbrev Sized : ℕ → List ℕ → Type 0
Sized n bytes = AllBytes bytes × (length bytes ≡ n)

-- the bound of a result, if there is one
abbrev SizedOk : ℕ → Result (List ℕ) → Type 0
SizedOk n (ok bytes) = Sized n bytes
SizedOk n (err e) = Unit

decode_values-SizedOk : (a b c d : ℕ) → SizedOk (size c d) (decode_values a b c d)
unfolding decode_values
decode_values-SizedOk a b c d = elim (Option-cases (sextet a)) [
  | inl bad ↦ rw (SizedOk, bad) tt
  | inr (va, ea) ↦ elim (Option-cases (sextet b)) [
    | inl bad ↦ rw (SizedOk, ea, bad) tt
    | inr (vb, eb) ↦ elim (Option-cases (sextet c)) [
      | inl bad ↦ rw (SizedOk, ea, eb, bad) tt
      | inr (vc, ec) ↦ elim (Option-cases (sextet d)) [
        | inl bad ↦ rw (SizedOk, ea, eb, ec, bad) tt
        | inr (vd, ed) ↦ elim (Bool-cases (c == pad && not (d == pad))) [
          | inl bad ↦ rw (SizedOk, ea, eb, ec, ed, bad) tt
          | inr fine ↦
              rw (SizedOk, ea, eb, ec, ed, fine)
                (
                  AllBytes-bytes_of va vb vc vd (not (c == pad)) (not (d == pad))
                      (sextet-bound a va ea) (sextet-bound b vb eb) (sextet-bound c vc ec)
                      (sextet-bound d vd ed),
                  length-bytes_of va vb vc vd (c == pad) (d == pad),
                )
        ]
      ]
    ]
  ]
]

decode_chunk-SizedOk :
    (a b c d : ℕ) (followed : Bool) → SizedOk (size c d) (decode_chunk a b c d followed)
unfolding decode_chunk
decode_chunk-SizedOk a b c d followed =
    elim (Bool-cases
      (a == pad || b == pad || (followed && (a == pad || b == pad || c == pad || d == pad)))) [
        | inl bad ↦ rw bad tt
        | inr fine ↦ rw fine (decode_values-SizedOk a b c d)
      ]

-- bytes that are at most three for four of the `n` characters
abbrev FitsOk : ℕ → Result (List ℕ) → Type 0
FitsOk n (ok bytes) = AllBytes bytes × (length bytes * 4 ≤ n * 3)
FitsOk n (err e) = Unit

FitsOk-SizedOk : (n k : ℕ) (r : Result (List ℕ)) → k * 4 ≤ n * 3 → SizedOk k r → FitsOk n r
FitsOk-SizedOk n k (ok bytes) h s = (s.0, omega (arith, s.1))
FitsOk-SizedOk n k (err e) h s = tt

AllBytes-append : (xs ys : List ℕ) → AllBytes xs → AllBytes ys → AllBytes (xs ++ ys)
AllBytes-append [] ys h k = k
AllBytes-append (x ∷ xs) ys h k = (h.0, AllBytes-append xs ys h.1 k)

FitsOk-joined :
    (n m k : ℕ) (r s : Result (List ℕ))
    → k ≡ n + m
    → FitsOk n r
    → FitsOk m s
    → FitsOk k (joined r s)
unfolding joined
FitsOk-joined n m k (err e) s q h i = tt
FitsOk-joined n m k (ok xs) (err e) q h i = tt
FitsOk-joined n m k (ok xs) (ok ys) q h i =
    (AllBytes-append xs ys h.0 i.0, omega (arith, length-append xs ys, h.1, i.1))

size-bound : (c d : ℕ) → size c d ≤ 3
size-bound c d = ground arith

-- one character alone is refused
alone-FitsOk : (a : ℕ) → FitsOk 1 (decode_chunk a pad pad pad false)
unfolding decode_chunk
alone-FitsOk a = elim (Bool-cases (a == pad)) [
  | inl bad ↦ rw (FitsOk, bad) tt
  | inr fine ↦ rw (FitsOk, fine) tt
]

decode_chunks-FitsOk : (value : List ℕ) → FitsOk (length value) (decode_chunks value)
unfolding decode_chunks
decode_chunks-FitsOk [] = (tt, omega arith)
decode_chunks-FitsOk (a ∷ []) = alone-FitsOk a
decode_chunks-FitsOk (a ∷ b ∷ []) =
    FitsOk-SizedOk 2 1 _ (omega arith) (decode_chunk-SizedOk a b pad pad false)
decode_chunks-FitsOk (a ∷ b ∷ c ∷ []) =
    FitsOk-SizedOk 3 (size c pad) _ (ground arith) (decode_chunk-SizedOk a b c pad false)
decode_chunks-FitsOk (a ∷ b ∷ c ∷ d ∷ rest) =
    FitsOk-joined 4 (length rest) _ _ _ (omega arith)
      (FitsOk-SizedOk 4 (size c d) _ (omega (arith, size-bound c d))
        (decode_chunk-SizedOk a b c d (not (is_empty rest))))
      (decode_chunks-FitsOk rest)

-- Whatever is decoded is made of bytes, and of at most three for four characters of the input.
pub decode_base64-AllBytes :
    (value bytes : List ℕ)
    → decode_base64 value ≡ ok bytes
    → AllBytes bytes × (length bytes * 4 ≤ length value * 3)
unfolding decode_base64
decode_base64-AllBytes value bytes h =
    elim (Bool-cases (is_empty value || any is_ascii_whitespace value)) [
      | inl bad ↦ absurd (ground arith)
      | inr fine ↦ elim (Bool-cases (length value % 4 == 1)) [
        | inl odd ↦ absurd (ground arith)
        | inr even ↦
            let e : decode_chunks value ≡ ok bytes = ground arith in
            subst (FitsOk (length value)) e (decode_chunks-FitsOk value)
      ]
    ]
