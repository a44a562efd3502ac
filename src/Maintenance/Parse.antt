-- ===== src/Maintenance/Parse.antt =====
-- internal/domain/maintenance.go: what ParseMaintenanceWindow accepts.
use mathlib.Core.Path.{subst}
use kaa_s_demo.Go.Strings.{fields, trim_space, cut, split}
use kaa_s_demo.Prelude.{
  arith, ◌+◌, true, ◌*◌, some, ◌&&◌, codes, ◌==◌, ltb, ◌∙◌, text_eq, sym, ◌<◌, Option-cases, refl,
  Bool-cases, ◌⊎◌, Bool, ℕ, ◌≡◌, List, Text, inl, inr, [], ◌∷◌,
}
use kaa_s_demo.Maintenance.{
  bad_timezone, empty_span, not_a_span, Parsed, ok, err, parse_clock, parse_span, parse_days,
  parse_fields, parse_maintenance_window, no_window, MaintenanceWindow, bad_clock, clock_digits,
  WindowError,
}
use kaa_s_demo.Maintenance.Weekly.{made-IsWindow, IsWindow}

pub Parsed-cases :
    {A : Type 0} (r : Parsed A) → ((a : A) × (r ≡ ok a)) ⊎ ((e : WindowError) × (r ≡ err e))
Parsed-cases (ok a) = inl (a, refl)
Parsed-cases (err e) = inr (e, refl)

-- a time of day is below 24:00
parse_clock-lt : (s : Text) (m : ℕ) → parse_clock s ≡ ok m → m < 1440
unfolding parse_clock
parse_clock-lt s m h = elim (Option-cases (cut b':' (trim_space s))) [
  | inl e ↦ let no : err (bad_clock s) ≡ ok m = sym (simp (parse_clock, e)) ∙ h in cc
  | inr (parts, e) ↦ elim (Option-cases (clock_digits parts.0 parts.1)) [
    | inl e' ↦ let no : err (bad_clock s) ≡ ok m = sym (simp (parse_clock, e, e')) ∙ h in cc
    | inr (hm, e') ↦ elim (Bool-cases (ltb hm.0 24 && ltb hm.1 60)) [
      | inr out ↦ let no : err (bad_clock s) ≡ ok m = sym (simp (parse_clock, e, e', out)) ∙ h in cc
      | inl in_day ↦
          let same : ok (hm.0 * 60 + hm.1) ≡ ok m = sym (simp (parse_clock, e, e', in_day)) ∙ h in
          let value : hm.0 * 60 + hm.1 ≡ m = cc in ground arith
    ]
  ]
]

parse_span-IsWindow :
    (days : List ℕ) (loc span : Text) (w : MaintenanceWindow)
    → parse_span days loc span ≡ ok w
    → IsWindow w
unfolding parse_span
parse_span-IsWindow days loc span w h = elim (Option-cases (cut b'-' span)) [
  | inl e ↦ let no : err (not_a_span span) ≡ ok w = sym (simp (parse_span, e)) ∙ h in cc
  | inr (parts, e) ↦ elim (Parsed-cases (parse_clock parts.0)) [
    | inr (x, a) ↦ let no : err x ≡ ok w = sym (simp (parse_span, e, a)) ∙ h in cc
    | inl (start, a) ↦ elim (Parsed-cases (parse_clock parts.1)) [
      | inr (x, b) ↦ let no : err x ≡ ok w = sym (simp (parse_span, e, a, b)) ∙ h in cc
      | inl (end_, b) ↦ elim (Bool-cases (start == end_)) [
        | inl same ↦
            let no : err (empty_span span) ≡ ok w = sym (simp (parse_span, e, a, b, same)) ∙ h in cc
        | inr other ↦
            let made : MaintenanceWindow = record {
              days = days;
              start = start;
              end_ = end_;
              loc = some loc;
              set_ = true;
            } in
            let same : ok made ≡ ok w = sym (simp (parse_span, e, a, b, other)) ∙ h in
            let made≡w : made ≡ w = cc in
            subst IsWindow made≡w (
              made-IsWindow days loc start end_ (parse_clock-lt parts.0 start a)
                (parse_clock-lt parts.1 end_ b) (ground arith))
      ]
    ]
  ]
]

parse_fields-IsWindow :
    (spec loc : Text) (fs : List Text) (w : MaintenanceWindow)
    → parse_fields spec loc fs ≡ ok w
    → IsWindow w
unfolding parse_fields
parse_fields-IsWindow spec loc [] w h = cc
parse_fields-IsWindow spec loc (span ∷ []) w h = parse_span-IsWindow [] loc span w h
parse_fields-IsWindow spec loc (names ∷ span ∷ []) w h =
    elim (Parsed-cases (parse_days (split b',' names) [])) [
      | inr (x, e) ↦ let no : err x ≡ ok w = sym (simp (parse_fields, e)) ∙ h in cc
      | inl (days, e) ↦ parse_span-IsWindow days loc span w (sym (simp (parse_fields, e)) ∙ h)
    ]
parse_fields-IsWindow spec loc (a ∷ b ∷ c ∷ fs) w h = cc

-- A window that is parsed either is the one that allows any time, for an empty text, or has two
-- distinct times of day.
pub parse_maintenance_window-IsWindow :
    (known : Text → Bool) (spec tz : Text) (w : MaintenanceWindow)
    → parse_maintenance_window known spec tz ≡ ok w
    → (w ≡ no_window) ⊎ IsWindow w
unfolding parse_maintenance_window
parse_maintenance_window-IsWindow known spec tz w h =
    elim (Bool-cases (text_eq (trim_space spec) [])) [
      | inl empty ↦
          let same : ok no_window ≡ ok w = sym (simp (empty)) ∙ h in
          let e : no_window ≡ w = cc in inl (sym e)
      | inr given ↦ elim (Bool-cases (text_eq tz [])) [
        | inl utc ↦ inr (
            parse_fields-IsWindow (trim_space spec) (codes "UTC") (fields (trim_space spec)) w
              (sym (simp (given, utc)) ∙ h))
        | inr named ↦ elim (Bool-cases (known tz)) [
          | inl there ↦ inr (
              parse_fields-IsWindow (trim_space spec) tz (fields (trim_space spec)) w
                (sym (simp (given, named, there)) ∙ h))
          | inr lost ↦
              let no : err (bad_timezone tz) ≡ ok w = sym (simp (given, named, lost)) ∙ h in cc
        ]
      ]
    ]
