-- ===== src/Maintenance.antt =====
-- internal/domain/maintenance.go: the weekly maintenance window. A time zone is a name; the local
-- clock that Go's `time` shows in it is a parameter.
pub mod Weekly
pub mod Parse
use kaa_s_demo.Prelude.Any.{any}
use kaa_s_demo.Go.Time.{Time}
use kaa_s_demo.Prelude.{
  ◌%◌, ◌-◌, not, codes, ◌+◌, ◌&&◌, leb, ltb, ◌==◌, if◌then◌else◌, ◌*◌, Option, ◌||◌, ℕ, List, Text,
  Bool, text_eq, [], ◌∷◌, none, some, true, false, zero, suc,
}
use kaa_s_demo.Go.Strings.{fields, trim_space, split, cut, is_digit}

-- t.In(loc): the time of day and the day of the week, from Sunday
pub record LocalTime : Type 0 where
  pub hour : ℕ
  pub minute : ℕ
  pub weekday : ℕ

-- The keys of the map `Days`, all of which read true; the zero value has no `Loc` and is not set.
pub record MaintenanceWindow : Type 0 where
  pub days : List ℕ
  pub start : ℕ
  pub end_ : ℕ
  pub loc : Option Text
  pub set_ : Bool

abbrev pub no_window : MaintenanceWindow
no_window = record { days = []; start = 0; end_ = 0; loc = none; set_ = false }

abbrev pub configured : MaintenanceWindow → Bool
configured w = w.set_

abbrev pub is_empty : List ℕ → Bool
is_empty [] = true
is_empty (d ∷ ds) = false

unfoldable pub day_ok : MaintenanceWindow → ℕ → Bool
day_ok w d = is_empty w.days || any (λ e. e == d) w.days

-- Allows, at the local time of the window's zone
unfoldable pub allows_at : MaintenanceWindow → LocalTime → Bool
allows_at w t =
    let mins = t.hour * 60 + t.minute in
    if not w.set_
    then true
    else if ltb w.start w.end_
    then day_ok w t.weekday && (leb w.start mins && ltb mins w.end_)
    else if leb w.start mins
    then day_ok w t.weekday
    else if ltb mins w.end_
    then day_ok w ((t.weekday + 6) % 7)
    else false

-- Allows: no zone is UTC
unfoldable pub allows : (Text → Time → LocalTime) → MaintenanceWindow → Time → Bool
allows local w t = allows_at w (local (elim w.loc [ none ↦ codes "UTC" | some l ↦ l ]) t)

pub data WindowError : Type 0 where
  bad_timezone unknown_weekday bad_shape not_a_span bad_clock empty_span : Text → WindowError

pub data Parsed {ℓ} (A : Type ℓ) : Type ℓ where
  ok : A → Parsed A
  err : WindowError → Parsed A

infixl 5 ◌>>=◌
abbrev pub ◌>>=◌ {ℓ κ} : {A : Type ℓ} {B : Type κ} → Parsed A → (A → Parsed B) → Parsed B
ok a >>= f = f a
err e >>= f = err e

-- strings.ToLower on ASCII
abbrev pub lower : Text → Text
lower [] = []
lower (c ∷ cs) = (if leb b'A' c && leb c b'Z' then c + 32 else c) ∷ lower cs

is_name : Text → Text → Text → Bool
unfolding text_eq
is_name s short long = text_eq s short || text_eq s long

-- weekdayNames
unfoldable pub weekday_names : Text → Option ℕ
unfolding is_name
weekday_names s =
    if is_name s (codes "sun") (codes "sunday")
    then some 0
    else if is_name s (codes "mon") (codes "monday")
    then some 1
    else if is_name s (codes "tue") (codes "tuesday")
    then some 2
    else if is_name s (codes "wed") (codes "wednesday")
    then some 3
    else if is_name s (codes "thu") (codes "thursday")
    then some 4
    else if is_name s (codes "fri") (codes "friday")
    then some 5
    else if is_name s (codes "sat") (codes "saturday")
    then some 6
    else none

-- time.Parse("15:04", s): one or two digits, a colon, two digits
unfoldable pub clock_digits : Text → Text → Option (ℕ × ℕ)
clock_digits (a ∷ []) (c ∷ d ∷ []) =
    if is_digit a && (is_digit c && is_digit d)
    then some (a - 48, (c - 48) * 10 + (d - 48))
    else none
clock_digits (a ∷ b ∷ []) (c ∷ d ∷ []) =
    if (is_digit a && is_digit b) && (is_digit c && is_digit d)
    then some ((a - 48) * 10 + (b - 48), (c - 48) * 10 + (d - 48))
    else none
clock_digits _ _ = none

unfoldable pub parse_clock : Text → Parsed ℕ
parse_clock s = elim (cut b':' (trim_space s)) [
  | none ↦ err (bad_clock s)
  | some (h, m) ↦ elim (clock_digits h m) [
    | none ↦ err (bad_clock s)
    | some (hours, mins) ↦
        if ltb hours 24 && ltb mins 60 then ok (hours * 60 + mins) else err (bad_clock s)
  ]
]

-- the loop over the names of the days
unfoldable pub parse_days : List Text → List ℕ → Parsed (List ℕ)
parse_days [] days = ok days
parse_days (name ∷ names) days = elim (weekday_names (lower (trim_space name))) [
  | none ↦ err (unknown_weekday name)
  | some d ↦ parse_days names (d ∷ days)
]

-- the span "HH:MM-HH:MM", on the given days
unfoldable pub parse_span : List ℕ → Text → Text → Parsed MaintenanceWindow
parse_span days loc span = elim (cut b'-' span) [
  | none ↦ err (not_a_span span)
  | some (a, b) ↦ do
    start ← parse_clock a
    end_ ← parse_clock b
    if start == end_
        then err (empty_span span)
        else ok (record { days = days; start = start; end_ = end_; loc = some loc; set_ = true })
]

unfoldable pub parse_fields : Text → Text → List Text → Parsed MaintenanceWindow
parse_fields spec loc (span ∷ []) = parse_span [] loc span
parse_fields spec loc (names ∷ span ∷ []) = do
  days ← parse_days (split b',' names) []
  parse_span days loc span
parse_fields spec loc _ = err (bad_shape spec)

-- ParseMaintenanceWindow; `known` is whether time.LoadLocation finds a zone
unfoldable pub parse_maintenance_window : (Text → Bool) → Text → Text → Parsed MaintenanceWindow
parse_maintenance_window known spec tz =
    if text_eq (trim_space spec) []
    then ok no_window
    else if text_eq tz []
    then parse_fields (trim_space spec) (codes "UTC") (fields (trim_space spec))
    else if known tz
    then parse_fields (trim_space spec) tz (fields (trim_space spec))
    else err (bad_timezone tz)
