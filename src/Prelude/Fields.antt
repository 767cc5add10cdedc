-- ===== src/Prelude/Fields.antt =====
-- Texts that are joined by the unit separator, U+001F, can be taken apart again where they do not
-- hold it.
use Prim.Native.String.append
use codex_memoryd.Prelude.{
  Char, code, String, push_str, Bool, true, not, ◌≡◌, refl, sym, ap, ◌∙◌, ◌==◌, all_chars, arith,
}

-- The text does not hold the separator.
abbrev pub plain : String → Bool
plain s = all_chars (λ c. not (code c == 31)) s

abbrev pub sep : Char
sep = "\u{1f}"

pub separated : (x : String) → push_str "\u{1f}" x ≡ String.◌∷◌ sep x
separated x = rw (append.cons, append.nil) refl

-- Two texts that start with plain texts in front of a separator have these in common.
pub cut :
    (a b x y : String)
    → plain a ≡ true
    → plain b ≡ true
    → push_str a (String.◌∷◌ sep x) ≡ push_str b (String.◌∷◌ sep y)
    → (a ≡ b) × (x ≡ y)
cut String.[] String.[] x y p q e =
    let e' : String.◌∷◌ sep x ≡ String.◌∷◌ sep y = sym (append.nil _) ∙ e ∙ append.nil _ in
    (refl, cc)
cut String.[] (String.◌∷◌ d b) x y p q e =
    let e' : String.◌∷◌ sep x ≡ String.◌∷◌ d (push_str b (String.◌∷◌ sep y)) =
      sym (append.nil _) ∙ e ∙ append.cons d b _ in
    let same : sep ≡ d = cc in let n : code d ≡ 31 = sym (ap code same) in absurd (ground arith)
cut (String.◌∷◌ c a) String.[] x y p q e =
    let e' : String.◌∷◌ c (push_str a (String.◌∷◌ sep x)) ≡ String.◌∷◌ sep y =
      sym (append.cons c a _) ∙ e ∙ append.nil _ in
    let same : c ≡ sep = cc in let n : code c ≡ 31 = ap code same in absurd (ground arith)
cut (String.◌∷◌ c a) (String.◌∷◌ d b) x y p q e =
    let e' : String.◌∷◌ c (push_str a (String.◌∷◌ sep x))
        ≡ String.◌∷◌ d (push_str b (String.◌∷◌ sep y)) =
      sym (append.cons c a _) ∙ e ∙ append.cons d b _ in
    let rest = cut a b x y (ground arith) (ground arith) cc in (cc, rest.1)
