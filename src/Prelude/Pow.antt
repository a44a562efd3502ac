-- ===== src/Prelude/Pow.antt =====
-- Powers of two.
use Prim.Native.Nat.{ℕ, zero, suc, ◌+◌, ◌-◌, ◌*◌, ◌^◌, ◌≤◌, ◌<◌}
use mathlib.Core.Path.{◌≡◌, refl, ap, ◌∙◌}
use native.Mathlib.Nat.{pow-suc}
use native.Mathlib.Omega.{arith}

pub pow2_pos : (k : ℕ) → 0 < 2 ^ k
pow2_pos zero = omega arith
pow2_pos (suc k) = omega (arith, pow-suc 2 k, pow2_pos k)

pub pow2_add : (a b : ℕ) → 2 ^ (a + b) ≡ 2 ^ a * 2 ^ b
pow2_add a zero =
    let e : a + zero ≡ a = omega arith in let one : 2 ^ zero ≡ 1 = refl in rw (e, one) (omega arith)
pow2_add a (suc b) =
    let e : a + suc b ≡ suc (a + b) = omega arith in
    rw (e, pow-suc 2 (a + b), pow2_add a b, pow-suc 2 b) (grind arith)

pub pow2_split : (a b : ℕ) → a ≤ b → 2 ^ b ≡ 2 ^ a * 2 ^ (b - a)
pow2_split a b h =
    let e : b ≡ a + (b - a) = omega arith in ap (λ (i : ℕ). 2 ^ i) e ∙ pow2_add a (b - a)

pub pow2_mono : (a b : ℕ) → a ≤ b → 2 ^ a ≤ 2 ^ b
pow2_mono a b h = rw (pow2_split a b h) (grind (arith, pow2_pos (b - a)))
