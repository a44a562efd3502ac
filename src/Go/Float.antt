-- ===== src/Go/Float.antt =====
-- `float64`, of which the program uses conversion, division and comparison. They are a parameter:
-- no theorem rests on a law of rounding.
use kaa_s_demo.Prelude.{◌*◌, Bool, ltb}
use kaa_s_demo.Prelude.Int.{ℤ, pos, pos_part}

pub record Float (F : Type 0) : Type 0 where
  -- float64(n)
  pub of_int : ℤ → F
  -- x / y
  pub quot : F → F → F
  -- x > y
  pub exceeds : F → F → Bool

-- A concrete instance, exact fractions of numbers that are not negative, for the examples.
pub record Fraction : Type 0 where
  pub over : ℤ
  pub under : ℤ

abbrev pub fractions : Float Fraction
fractions = record {
  of_int = λ n. record { over = n; under = pos 1 };
  quot = λ x y. record {
    over = pos (pos_part x.over * pos_part y.under);
    under = pos (pos_part x.under * pos_part y.over);
  };
  exceeds = λ x y. ltb (pos_part y.over * pos_part x.under) (pos_part x.over * pos_part y.under);
}
