-- ===== src/Go/Time.antt =====
-- `time.Time` as nanoseconds since Go's zero instant, and `time.Duration` as signed nanoseconds.
use kaa_s_demo.Prelude.{ℕ, ◌≤◌, Bool, arith, ltb, ◌==◌, if◌then◌else◌}
use kaa_s_demo.Prelude.Int.{ℤ, pos, sub_ℕ, ltb_ℤ, ◌≤ℤ◌}
use kaa_s_demo.Go.Int64.{max_int64, min_int64}

abbrev pub Time : Type 0
Time = ℕ

abbrev pub Duration : Type 0
Duration = ℤ

abbrev pub second : Duration
second = pos 1000000000

abbrev pub minute : Duration
minute = pos 60000000000

abbrev pub hour : Duration
hour = pos 3600000000000

abbrev pub day : Duration
day = pos 86400000000000

-- t.IsZero()
abbrev pub is_zero : Time → Bool
is_zero t = t == 0

-- t.Before(u)
abbrev pub before : Time → Time → Bool
before t u = ltb t u

-- t.After(u)
abbrev pub after : Time → Time → Bool
after t u = ltb u t

-- A difference that no `Duration` holds becomes the nearest one.
saturate : ℤ → Duration
saturate z = if ltb_ℤ max_int64 z then max_int64 else if ltb_ℤ z min_int64 then min_int64 else z

-- t.Sub(u)
unfoldable pub sub : Time → Time → Duration
unfolding saturate
sub t u = saturate (sub_ℕ t u)

-- As time passes, the distance from an earlier instant does not shrink.
pub sub_mono : (t t' u : Time) → t ≤ t' → sub t u ≤ℤ sub t' u
unfolding sub
sub_mono t t' u h = ground arith

-- A later instant is less far back.
pub sub_anti : (t u u' : Time) → u ≤ u' → sub t u' ≤ℤ sub t u
unfolding sub
sub_anti t u u' h = ground arith
