-- ===== src/Go/Strings/Last.antt =====
-- Texts that end in a part without a separator.
use kaa_s_demo.Prelude.{
  refl, sym, ap, arith, ◌∙◌, ◌++◌, ◌==◌, Bool, ◌≡◌, Text, ℕ, [], ◌∷◌, true, false,
}
use kaa_s_demo.Prelude.Any.{any-append, any}

abbrev pub has_byte : ℕ → Text → Bool
has_byte sep t = any (λ c. c == sep) t

-- The last separator of a text ends its first part.
pub split_last :
    (sep : ℕ) (a b x y : Text)
    → has_byte sep x ≡ false
    → has_byte sep y ≡ false
    → a ++ sep ∷ x ≡ b ++ sep ∷ y
    → (a ≡ b) × (x ≡ y)
split_last sep [] [] x y hx hy e = (refl, cc)
split_last sep [] (c ∷ b) x y hx hy e =
    let e' : x ≡ b ++ sep ∷ y = cc in
    let slash : has_byte sep (b ++ sep ∷ y) ≡ true =
      any-append (λ c. c == sep) b (sep ∷ y) ∙ (unfold any in ground arith) in
    let slash' : has_byte sep x ≡ true = ap (has_byte sep) e' ∙ slash in cc
split_last sep (c ∷ a) [] x y hx hy e =
    let e' : a ++ sep ∷ x ≡ y = cc in
    let slash : has_byte sep (a ++ sep ∷ x) ≡ true =
      any-append (λ c. c == sep) a (sep ∷ x) ∙ (unfold any in ground arith) in
    let slash' : has_byte sep y ≡ true = sym (ap (has_byte sep) e') ∙ slash in cc
split_last sep (c ∷ a) (d ∷ b) x y hx hy e =
    let rest = split_last sep a b x y hx hy (cc) in
    (let head_ : c ≡ d = cc in let tail_ = rest.0 in cc, rest.1)
