-- ===== src/Go/Strings/Clean.antt =====
-- `strings`: texts without white space or without a separator.
use kaa_s_demo.Prelude.Any.{any}
use kaa_s_demo.Prelude.{refl, ◌∙◌, true, ap, some, arith, ◌==◌, false, ℕ, ◌≡◌, Text, [], ◌∷◌, ◌++◌}
use kaa_s_demo.Go.Strings.{is_space, trim_space, trim_left, trim_right, keep, cut}

trim_left-clean : (s : Text) → any is_space s ≡ false → trim_left s ≡ s
unfolding trim_left any
trim_left-clean [] h = refl
trim_left-clean (c ∷ cs) h = let e : is_space c ≡ false = ground arith in simp (e)

keep-clean : (c : ℕ) (cs : Text) → is_space c ≡ false → keep c cs ≡ c ∷ cs
unfolding keep
keep-clean c [] h = simp (h)
keep-clean c (d ∷ ds) h = refl

trim_right-clean : (s : Text) → any is_space s ≡ false → trim_right s ≡ s
unfolding trim_right any
trim_right-clean [] h = refl
trim_right-clean (c ∷ cs) h =
    ap (keep c) (trim_right-clean cs (ground arith)) ∙ keep-clean c cs (ground arith)

-- Trimming a text without white space changes nothing.
pub trim_space-clean : (s : Text) → any is_space s ≡ false → trim_space s ≡ s
unfolding trim_space
trim_space-clean s h = ap trim_right (trim_left-clean s h) ∙ trim_right-clean s h

-- A text is cut at the separator behind a part that does not have it.
pub cut-append :
    (sep : ℕ) (a b : Text) → any (λ c. c == sep) a ≡ false → cut sep (a ++ sep ∷ b) ≡ some (a, b)
unfolding cut any
cut-append sep [] b h = let e : (sep == sep) ≡ true = ground arith in simp (e)
cut-append sep (c ∷ cs) b h =
    let e : (c == sep) ≡ false = ground arith in
    let ih : cut sep (cs ++ sep ∷ b) ≡ some (cs, b) = cut-append sep cs b (ground arith) in
    simp (e, ih)
