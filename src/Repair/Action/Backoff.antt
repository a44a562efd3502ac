-- ===== src/Repair/Action/Backoff.antt =====
-- How long the policy waits between attempts.
use native.Mathlib.Nat.{pow-suc}
use Prim.Native.Nat.{min}
use kaa_s_demo.Prelude.{
  ◌-◌, ℕ, zero, suc, ◌*◌, ◌^◌, ◌<◌, ◌≤◌, ◌≡◌, ◌∙◌, ap, arith, Bool-cases, inl, inr,
}
use kaa_s_demo.Prelude.Int.{pos, ltb_ℤ}
use kaa_s_demo.Go.Int64.{mul64}
use kaa_s_demo.Go.Time.{day}
use kaa_s_demo.Repair.{RepairPolicy}
use kaa_s_demo.Repair.Action.{double_below_day, backoff_for, at_most_day}

-- 24 hours in nanoseconds
abbrev day_ns : ℕ
day_ns = 86400000000000

double_exact : (d : ℕ) → d < day_ns → mul64 (pos d) (pos 2) ≡ pos (d * 2)
unfolding mul64
double_exact d h = ground arith

pow_pos : (k : ℕ) → 0 < 2 ^ k
pow_pos zero = omega arith
pow_pos (suc k) = omega (arith, pow-suc 2 k, pow_pos k)

capped : (d : ℕ) → at_most_day (pos d) ≡ pos (min day_ns d)
capped d = ground arith

grows : (d k : ℕ) → d * 2 * 2 ^ k ≡ d * 2 ^ suc k
grows d k = rw pow-suc (grind arith)

past_day : (d m : ℕ) → day_ns ≤ d → 0 < m → min day_ns d ≡ min day_ns (d * m)
past_day d m h k = grind arith

doubled : (k d : ℕ) → at_most_day (double_below_day k (pos d)) ≡ pos (min day_ns (d * 2 ^ k))
unfolding double_below_day
doubled zero d = capped d ∙ ap (λ (n : ℕ). pos (min day_ns n)) (omega arith)
doubled (suc k) d = elim (Bool-cases (ltb_ℤ (pos d) day)) [
  | inl below ↦
      rw (below, double_below_day)
        (rw (double_exact d (ground arith))
          (doubled k (d * 2) ∙ ap (λ (n : ℕ). pos (min day_ns n)) (grows d k)))
  | inr above ↦
      rw (above, double_below_day)
        (capped d ∙ ap pos (past_day d (2 ^ suc k) (ground arith) (pow_pos (suc k))))
]

module _ {F : Type 0} (p : RepairPolicy F) where
  -- With a positive backoff `b`, the wait after n + 1 attempts is `b * 2 ^ n`, and never more than
  -- a day: doubling stops before it could wrap.
  pub backoff_for_lem :
      (b n : ℕ) → p.backoff ≡ pos b → 0 < b → backoff_for p (suc n) ≡ pos (min day_ns (b * 2 ^ n))
  unfolding backoff_for
  backoff_for_lem b n e h = ground (arith, same, doubled n b)
    where
      same : double_below_day (suc n - 1) p.backoff ≡ double_below_day n (pos b)
      same = ap (λ (k : ℕ). double_below_day k p.backoff) (omega arith) ∙ ap (double_below_day n) e
