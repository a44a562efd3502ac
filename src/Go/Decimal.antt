-- ===== src/Go/Decimal.antt =====
-- `%d` for a number that is not negative, and reading it back.
use kaa_s_demo.Prelude.Any.{any}
use kaa_s_demo.Prelude.{
  Bool, refl, ◌≤◌, true, false, ℕ, zero, suc, ◌+◌, ◌-◌, ◌*◌, ◌/◌, ◌%◌, ◌<◌, ◌≡◌, sym, ◌∙◌, ap, [],
  ◌∷◌, inl, inr, Bool-cases, arith, ltb, if◌then◌else◌, Text,
}

-- The digits of `n`, before those in `acc`. `f` bounds their number.
digits : ℕ → ℕ → Text → Text
digits zero n acc = acc
digits (suc f) n acc =
    let rest = digits f (n / 10) ((48 + n % 10) ∷ acc) in if ltb n 10 then (48 + n) ∷ acc else rest

-- strconv.Itoa(n): more digits than `n + 1` are never needed.
unfoldable pub decimal : ℕ → Text
unfolding digits
decimal n = digits (suc n) n []

-- The number that a row of digits stands for, after the part already read.
pub read : ℕ → Text → ℕ
read v [] = v
read v (c ∷ cs) = read (v * 10 + (c - 48)) cs

read-digits : (f n v : ℕ) (acc : Text) → n < f → read 0 (digits f n acc) ≡ read n acc
unfolding digits read
read-digits zero n v acc h = elim h [ ]
read-digits (suc f) n v acc h = elim (Bool-cases (ltb n 10)) [
  | inl small ↦ rw small (ap (λ (k : ℕ). read k acc) (omega arith))
  | inr large ↦ rw large (
      read-digits f (n / 10) v ((48 + n % 10) ∷ acc) (ground arith)
      ∙ ap (λ (k : ℕ). read k acc) (omega arith))
]

-- Reading a printed number gives it back.
pub read-decimal : (n : ℕ) → read 0 (decimal n) ≡ n
unfolding decimal read
read-decimal n = read-digits (suc n) n 0 [] (omega arith)

pub decimal_injective : (m n : ℕ) → decimal m ≡ decimal n → m ≡ n
decimal_injective m n e = sym (read-decimal m) ∙ ap (read 0) e ∙ read-decimal n

digits_last : (f n : ℕ) (acc : Text) → ltb n 10 ≡ true → digits (suc f) n acc ≡ (48 + n) ∷ acc
unfolding digits
digits_last f n acc h = simp (h)

digits_more :
    (f n : ℕ) (acc : Text)
    → ltb n 10 ≡ false
    → digits (suc f) n acc ≡ digits f (n / 10) ((48 + n % 10) ∷ acc)
unfolding digits
digits_more f n acc h = simp (h)

-- The digits of numbers below a thousand.
pub decimal_units : (n : ℕ) → n < 10 → decimal n ≡ (48 + n) ∷ []
unfolding decimal
decimal_units n h = digits_last n n [] (ground arith)

pub decimal_tens : (n : ℕ) → 10 ≤ n → n < 100 → decimal n ≡ (48 + n / 10) ∷ (48 + n % 10) ∷ []
unfolding decimal
decimal_tens zero h h' = absurd (omega arith)
decimal_tens (suc n) h h' =
    digits_more (suc n) (suc n) [] (ground arith)
    ∙ digits_last n (suc n / 10) ((48 + suc n % 10) ∷ []) (ground arith)

pub decimal_hundreds :
    (n : ℕ)
    → 100 ≤ n
    → n < 1000
    → decimal n ≡ (48 + n / 100) ∷ (48 + n / 10 % 10) ∷ (48 + n % 10) ∷ []
unfolding decimal
decimal_hundreds zero h h' = absurd (omega arith)
decimal_hundreds (suc zero) h h' = absurd (omega arith)
decimal_hundreds (suc (suc n)) h h' =
    let e : suc (suc n) / 10 / 10 ≡ suc (suc n) / 100 = omega arith in
    digits_more (suc (suc n)) (suc (suc n)) [] (ground arith)
    ∙ digits_more (suc n) (suc (suc n) / 10) ((48 + suc (suc n) % 10) ∷ []) (ground arith)
    ∙ digits_last n (suc (suc n) / 10 / 10)
        ((48 + suc (suc n) / 10 % 10) ∷ (48 + suc (suc n) % 10) ∷ []) (ground arith)
    ∙ rw e refl

digits-clean :
    (p : ℕ → Bool)
    → ((d : ℕ) → d < 10 → p (48 + d) ≡ false)
    → (f n : ℕ) (acc : Text) → any p acc ≡ false
    → any p (digits f n acc) ≡ false
unfolding digits any
digits-clean p clean zero n acc h = h
digits-clean p clean (suc f) n acc h = elim (Bool-cases (ltb n 10)) [
  | inl last ↦ rw last (ground (arith, clean n (ground arith)))
  | inr more ↦ rw more (
      digits-clean p clean f (n / 10) ((48 + n % 10) ∷ acc)
        (ground (arith, clean (n % 10) (omega arith))))
]

-- A character that is no digit does not stand in a number's text.
pub decimal-clean :
    (p : ℕ → Bool) → ((d : ℕ) → d < 10 → p (48 + d) ≡ false) → (n : ℕ) → any p (decimal n) ≡ false
unfolding decimal any
decimal-clean p clean n = digits-clean p clean (suc n) n [] refl
