-- ===== src/Maintenance/Weekly.antt =====
-- internal/domain/maintenance.go: a window that wraps past midnight belongs to the day it opens.
use kaa_s_demo.Prelude.{
  refl, some, Text, List, ltb, leb, Bool-cases, arith, ◌⊎◌, ◌≤◌, ◌%◌, ◌≢◌, ◌-◌, ◌↔◌, ◌+◌, ◌*◌, true,
  ℕ, ◌≡◌, ◌<◌, inl, inr,
}
use kaa_s_demo.Maintenance.{MaintenanceWindow, LocalTime, day_ok, allows_at}

-- what a clock shows
unfoldable pub IsClock : LocalTime → Type 0
IsClock t = (t.hour < 24) × (t.minute < 60) × (t.weekday < 7)

-- what a parsed window holds
pub IsWindow : MaintenanceWindow → Type 0
IsWindow w = (w.set_ ≡ true) × (w.start < 1440) × (w.end_ < 1440) × (w.start ≢ w.end_)

pub made-IsWindow :
    (days : List ℕ) (loc : Text) (start end_ : ℕ)
    → start < 1440
    → end_ < 1440
    → start ≢ end_
    → IsWindow (record { days = days; start = start; end_ = end_; loc = some loc; set_ = true })
unfolding IsWindow
made-IsWindow days loc start end_ hs he ne = (refl, hs, he, ne)

-- minutes since the start of Sunday
abbrev pub minute_of_week : ℕ → ℕ → ℕ
minute_of_week weekday mins = weekday * 1440 + mins

-- the minutes for which the window has been open, if it opened on day `d`
abbrev pub open_for : MaintenanceWindow → LocalTime → ℕ → ℕ
open_for w t d =
    (minute_of_week t.weekday (t.hour * 60 + t.minute) + 10080 - minute_of_week d w.start) % 10080

-- how long it stays open
abbrev pub open_length : MaintenanceWindow → ℕ
open_length w = (w.end_ + 1440 - w.start) % 1440

since : ℕ → ℕ → ℕ → ℕ → ℕ
since weekday mins d start = (minute_of_week weekday mins + 10080 - minute_of_week d start) % 10080

module _ (weekday mins start end_ d : ℕ) (hw : weekday < 7) (hm : mins < 1440) (hs : start < 1440)
    (he : end_ < 1440) (hd : d < 7) where
  same_day :
      start < end_
      → since weekday mins d start < (end_ + 1440 - start) % 1440
      → (d ≡ weekday) × (start ≤ mins) × (mins < end_)
  unfolding since
  same_day h lt = (omega arith, omega arith, omega arith)

  over_midnight :
      end_ < start
      → since weekday mins d start < (end_ + 1440 - start) % 1440
      → ((d ≡ weekday) × (start ≤ mins)) ⊎ ((d ≡ (weekday + 6) % 7) × (mins < end_))
  unfolding since
  over_midnight h lt = elim (Bool-cases (leb start mins)) [
    | inl late ↦ inl (ground arith, ground arith)
    | inr early ↦ inr (ground arith, ground arith)
  ]

-- A window that is set, with two distinct times of day, allows exactly the minutes of the week that follow its start on one of its days by less
-- than its length.
pub allows_at_iff :
    (w : MaintenanceWindow) (t : LocalTime)
    → IsWindow w
    → IsClock t
    → (allows_at w t ≡ true)
      ↔ ((d : ℕ) × (d < 7) × (day_ok w d ≡ true) × (open_for w t d < open_length w))
unfolding allows_at IsWindow IsClock since
allows_at_iff w t (is_set, hs, he, ne) (hh, hm, hd) = (to, from)
  where
    mins : ℕ
    mins = t.hour * 60 + t.minute

    to :
        allows_at w t ≡ true
        → (d : ℕ) × (d < 7) × (day_ok w d ≡ true) × (open_for w t d < open_length w)
    to h = elim (Bool-cases (ltb w.start w.end_)) [
      | inl same ↦ (t.weekday, hd, ground arith, ground arith)
      | inr wraps ↦ elim (Bool-cases (leb w.start mins)) [
        | inl late ↦ (t.weekday, hd, ground arith, ground arith)
        | inr early ↦ ((t.weekday + 6) % 7, omega arith, ground arith, ground arith)
      ]
    ]

    from :
        (d : ℕ) × (d < 7) × (day_ok w d ≡ true) × (open_for w t d < open_length w)
        → allows_at w t ≡ true
    from (d, d<7, okd, lt) = elim (Bool-cases (ltb w.start w.end_)) [
      | inl same ↦
          let (e, a, b) =
            same_day t.weekday mins w.start w.end_ d hd (omega arith) hs he d<7 (ground arith) lt in
          let okw : day_ok w t.weekday ≡ true = rw e at okd in ground arith
      | inr wraps ↦
          elim (over_midnight t.weekday mins w.start w.end_ d hd (omega arith) hs he d<7
            (ground arith) lt) [
              | inl (e, late) ↦ let okw : day_ok w t.weekday ≡ true = rw e at okd in ground arith
              | inr (e, early) ↦
                  let okw : day_ok w ((t.weekday + 6) % 7) ≡ true = rw e at okd in ground arith
            ]
    ]
