-- ===== src/Examples/Maintenance.antt =====
-- Maintenance windows: the theorems at concrete inputs, and tests of the definitions.
use kaa_s_demo.Prelude.Any.{any}
use kaa_s_demo.Prelude.{
  ◌<◌, ℕ, ◌↔◌, ◌⊎◌, ◌≡◌, text_eq, some, arith, [], ◌∷◌, codes, refl, true, false,
}
use kaa_s_demo.Go.Strings.{trim_space, split, cut, fields, is_space}
use kaa_s_demo.Maintenance.{
  MaintenanceWindow, LocalTime, day_ok, allows_at, parse_maintenance_window, parse_fields,
  parse_span, parse_clock, parse_days, clock_digits, weekday_names, ok, no_window,
}
use kaa_s_demo.Maintenance.Weekly.{
  IsWindow, IsClock, allows_at_iff, open_for, open_length, made-IsWindow,
}
use kaa_s_demo.Maintenance.Parse.{parse_maintenance_window-IsWindow}

-- Saturdays from 22:00 to 02:00
abbrev saturday_night : MaintenanceWindow
saturday_night = record {
  days = 6 ∷ [];
  start = 1320;
  end_ = 120;
  loc = some (codes "UTC");
  set_ = true;
}

-- Sunday, 01:30
abbrev small_hours : LocalTime
small_hours = record { hour = 1; minute = 30; weekday = 0 }

small_hours_allowed : allows_at saturday_night small_hours ≡ true
unfolding allows_at day_ok any
small_hours_allowed = refl

saturday_night-IsWindow : IsWindow saturday_night
saturday_night-IsWindow =
    made-IsWindow (6 ∷ []) (codes "UTC") 1320 120 (omega arith) (omega arith) (omega arith)

small_hours-IsClock : IsClock small_hours
unfolding IsClock
small_hours-IsClock = (omega arith, omega arith, omega arith)

allows_at_iff_example : (allows_at saturday_night small_hours ≡ true) ↔ (
    (d : ℕ) × (d < 7)
    × (day_ok saturday_night d ≡ true)
    × (open_for saturday_night small_hours d < open_length saturday_night))
allows_at_iff_example =
    allows_at_iff saturday_night small_hours saturday_night-IsWindow small_hours-IsClock

night_parses :
    parse_maintenance_window (λ tz. false) (codes " Sat 22:00-02:00") [] ≡ ok saturday_night
unfolding parse_maintenance_window parse_fields parse_span parse_clock parse_days clock_digits
    weekday_names fields trim_space split cut is_space text_eq
night_parses = refl

parse_maintenance_window-IsWindow_example : (saturday_night ≡ no_window) ⊎ IsWindow saturday_night
parse_maintenance_window-IsWindow_example =
    parse_maintenance_window-IsWindow (λ tz. false) (codes " Sat 22:00-02:00") [] saturday_night
      night_parses
