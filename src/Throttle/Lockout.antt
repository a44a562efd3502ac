-- ===== src/Throttle/Lockout.antt =====
-- internal/app/throttle.go: how many wrong passwords for one name reach the directory.
use kaa_s_demo.Prelude.{
  ◌<◌, ◌+◌, ℕ, Option, ◌≤◌, refl, ◌∙◌, Bool-cases, Option-cases, arith, ◌≡◌, text_eq, Text, [],
  none, some, true, false, suc, inl, inr,
}
use kaa_s_demo.Prelude.Int.{◌+ℤ◌, pos, ltb_ℤ, ◌≤ℤ◌}
use kaa_s_demo.Prelude.Dict.{get, get-put, get-put_self}
use kaa_s_demo.Go.Time.{Duration, Time, sub, sub_anti}
use kaa_s_demo.Throttle.{
  Logins, LoginFailure, throttle_key, record_login_failure, login_failures, record_failure,
  record_scopes, scopes, throttled, check_scopes, is_tripped, max_for, memory_read, ThrottleConfig,
  scope_user, scope_ip, LoginRuns, login_checks, login_fails,
}

abbrev pub user_key : Text → Text
user_key username = throttle_key scope_user username

-- the counter of an address is not that of a name
keys_apart : (ip username : Text) → text_eq (throttle_key scope_ip ip) (user_key username) ≡ false
unfolding throttle_key text_eq
keys_apart ip username = refl

record_other :
    (m : Logins) (ip username : Text) (window : Duration) (now : Time)
    → get (record_login_failure m scope_ip ip window now) (user_key username)
      ≡ get m (user_key username)
unfolding record_login_failure
record_other m ip username window now = elim (Option-cases (get m (throttle_key scope_ip ip))) [
  | inl e ↦ rw (record_login_failure, e, get-put, keys_apart ip username) refl
  | inr (f, e) ↦ elim (Bool-cases (ltb_ℤ window (sub now f.window_start))) [
    | inl old ↦ rw (record_login_failure, e, old, get-put, keys_apart ip username) refl
    | inr live ↦ rw (record_login_failure, e, live, get-put, keys_apart ip username) refl
  ]
]

-- only the first of the two counters is the name's
record_failure-get :
    (c : ThrottleConfig) (now : Time) (username ip : Text) (m : Logins)
    → get (record_failure c now username ip m) (user_key username)
      ≡ get (record_login_failure m scope_user username c.window now) (user_key username)
unfolding record_failure record_scopes scopes
record_failure-get c now username ip m = elim (Bool-cases (text_eq ip [])) [
  | inl unknown ↦ rw unknown refl
  | inr given ↦ rw given (
      record_other (record_login_failure m scope_user username c.window now) ip username c.window
        now)
]

record_first :
    (c : ThrottleConfig) (now : Time) (username ip : Text) (m : Logins)
    → get m (user_key username) ≡ none
    → get (record_failure c now username ip m) (user_key username)
      ≡ some (record { failures = 1; window_start = now })
unfolding record_login_failure
record_first c now username ip m e =
    record_failure-get c now username ip m
    ∙ rw (record_login_failure, e)
        (get-put_self m (user_key username) (record { failures = 1; window_start = now }))

record_next :
    (c : ThrottleConfig) (now : Time) (username ip : Text) (m : Logins) (f : LoginFailure)
    → get m (user_key username) ≡ some f
    → sub now f.window_start ≤ℤ c.window
    → get (record_failure c now username ip m) (user_key username)
      ≡ some (record { failures = suc f.failures; window_start = f.window_start })
unfolding record_login_failure
record_next c now username ip m f e live =
    let open_ : ltb_ℤ c.window (sub now f.window_start) ≡ false = ground arith in
    record_failure-get c now username ip m
    ∙ rw (record_login_failure, e, open_)
        (get-put_self m (user_key username)
          (record { failures = suc f.failures; window_start = f.window_start }))

reads_counter :
    (m : Logins) (username : Text) (f : LoginFailure)
    → get m (user_key username) ≡ some f
    → login_failures m scope_user username ≡ f
unfolding login_failures
reads_counter m username f e = rw (login_failures, e) refl

name_tripped :
    (c : ThrottleConfig) (m : Logins) (read : Text → Text → Option LoginFailure) (now : Time)
    (username ip : Text)
    → read scope_user username ≡ memory_read m scope_user username
    → throttled c read now username ip ≡ false
    → is_tripped c scope_user (login_failures m scope_user username) now ≡ false
unfolding throttled check_scopes scopes
name_tripped c m read now username ip e h =
    elim (Bool-cases (is_tripped c scope_user (login_failures m scope_user username) now)) [
      | inl yes' ↦
          let t : throttled c read now username ip ≡ true = rw (throttled, e, yes') refl in
          absurd (ground arith)
      | inr no' ↦ no'
    ]

-- where a name is not refused, its counter is below its limit
passes_below :
    (c : ThrottleConfig) (m : Logins) (read : Text → Text → Option LoginFailure) (now : Time)
    (username ip : Text) (f : LoginFailure)
    → get m (user_key username) ≡ some f
    → sub now f.window_start ≤ℤ c.window
    → read scope_user username ≡ memory_read m scope_user username
    → throttled c read now username ip ≡ false
    → ltb_ℤ (pos f.failures) c.max_user ≡ true
unfolding is_tripped max_for text_eq
passes_below c m read now username ip f e live same h =
    let t : is_tripped c scope_user f now ≡ false =
      rw (reads_counter m username f e) at (name_tripped c m read now username ip same h) in
    ground arith

module _ (c : ThrottleConfig) (username : Text) (start : Time) (k : ℕ) where
  -- a time in the window from `start` on
  abbrev pub InWindow : Time → Type 0
  InWindow at = (start ≤ at) × (sub at start ≤ℤ c.window)

  -- What wrong passwords for the name make of the counters, their calls interleaved in any order, with
  -- at most `k` of them in flight. The check reads the name's counter as it is, and that of the address
  -- in whatever way; logins under other names, and whatever else leaves the name's counter alone, may
  -- come between any two calls.
  pub data Tries : LoginRuns → Type 0 where
    begins :
        (m : Logins)
        → get m (user_key username) ≡ none
        → Tries (record { counters = m; in_flight = 0; sent = 0 })
    arrives :
        {s : LoginRuns} (read : Text → Text → Option LoginFailure) (at : Time) (client_ip : Text)
        → Tries s
        → InWindow at
        → read scope_user username ≡ memory_read s.counters scope_user username
        → (login_checks c read username at client_ip s).in_flight ≤ k
        → Tries (login_checks c read username at client_ip s)
    answers :
        {s : LoginRuns} (at : Time) (client_ip : Text)
        → Tries s
        → InWindow at
        → 0 < s.in_flight
        → Tries (login_fails c username at client_ip s)
    elsewhere :
        {s : LoginRuns} (m : Logins)
        → Tries s
        → get m (user_key username) ≡ get s.counters (user_key username)
        → Tries (record s { counters = m })

  -- the name's counter has those of the logins that are no longer in flight
  abbrev Counted : LoginRuns → Option LoginFailure → Type 0
  Counted s none = s.sent ≡ s.in_flight
  Counted s (some f) = (s.sent ≡ f.failures + s.in_flight) × (start ≤ f.window_start)

  abbrev IsCounted : LoginRuns → Type 0
  IsCounted s =
      Counted s (get s.counters (user_key username))
      × (s.in_flight ≤ k)
      × (pos (suc s.sent) ≤ℤ c.max_user +ℤ pos k)

  -- a passed check adds one that is in flight, and the name's counter was below its limit
  pass_adds_one :
      (s : LoginRuns) (read : Text → Text → Option LoginFailure) (at : Time) (client_ip : Text)
      (o : Option LoginFailure)
      → pos 1 ≤ℤ c.max_user
      → get s.counters (user_key username) ≡ o
      → Counted s o
      → InWindow at
      → read scope_user username ≡ memory_read s.counters scope_user username
      → throttled c read at username client_ip ≡ false
      → suc s.in_flight ≤ k
      → Counted (record s { in_flight = suc s.in_flight; sent = suc s.sent }) o
        × (pos (suc (suc s.sent)) ≤ℤ c.max_user +ℤ pos k)
  unfolding ◌+ℤ◌
  pass_adds_one s read at client_ip none limit e h w same passed room = ground arith
  pass_adds_one s read at client_ip (some f) limit e (h, later) (_, near) same passed room =
      let live : sub at f.window_start ≤ℤ c.window =
        ground (arith, sub_anti at start f.window_start later) in
      let below = passes_below c s.counters read at username client_ip f e live same passed in
      ground arith

  -- a failure that is counted leaves the flight and goes into the name's counter
  failure_moves_on :
      (s : LoginRuns) (at : Time) (client_ip : Text) (o : Option LoginFailure)
      → get s.counters (user_key username) ≡ o
      → Counted s o
      → InWindow at
      → 0 < s.in_flight
      → Counted
          (login_fails c username at client_ip s)
          (get (login_fails c username at client_ip s).counters (user_key username))
  unfolding login_fails
  failure_moves_on s at client_ip none e h (after, near) some_ =
      rw (record_first c at username client_ip s.counters e) (omega arith, after)
  failure_moves_on s at client_ip (some f) e (h, later) (_, near) some_ =
      let live : sub at f.window_start ≤ℤ c.window =
        ground (arith, sub_anti at start f.window_start later) in
      rw (record_next c at username client_ip s.counters f e live) (omega arith, later)

  checked_IsCounted :
      (s : LoginRuns) (read : Text → Text → Option LoginFailure) (at : Time) (client_ip : Text)
      → pos 1 ≤ℤ c.max_user
      → IsCounted s
      → InWindow at
      → read scope_user username ≡ memory_read s.counters scope_user username
      → (login_checks c read username at client_ip s).in_flight ≤ k
      → IsCounted (login_checks c read username at client_ip s)
  unfolding login_checks
  checked_IsCounted s read at client_ip limit (h, room, bound) w same more =
      elim (Bool-cases (throttled c read at username client_ip)) [
        | inl refused ↦ rw refused (h, room, bound)
        | inr passed ↦
            let more' : suc s.in_flight ≤ k = rw passed at more in
            let (h', bound') =
              pass_adds_one s read at client_ip (get s.counters (user_key username)) limit refl h w
                same passed more' in
            rw passed (h', more', bound')
      ]

  Tries-IsCounted : {s : LoginRuns} → pos 1 ≤ℤ c.max_user → Tries s → IsCounted s
  unfolding login_fails ◌+ℤ◌
  Tries-IsCounted limit (begins m e) = (rw e refl, omega arith, ground arith)
  Tries-IsCounted limit (arrives {s = s} read at client_ip t w same more) =
      checked_IsCounted s read at client_ip limit (Tries-IsCounted limit t) w same more
  Tries-IsCounted limit (answers {s = s} at client_ip t w some_) =
      let (h, room, bound) = Tries-IsCounted limit t in
      (
        failure_moves_on s at client_ip (get s.counters (user_key username)) refl h w some_,
        omega arith,
        bound,
      )
  Tries-IsCounted limit (elsewhere {s = s} m t same) =
      let (h, room, bound) = Tries-IsCounted limit t in (rw same h, room, bound)

-- Let wrong passwords be tried for a name within one window, from whatever addresses, their calls
-- interleaved in any order, with at most `k` of them between the check and the count of their failure
-- at once; the check can read the name's counter, and the directory answers each password that it is
-- sent. If no failure was counted for the name before and the limit is at least one, those that reach
-- the directory are fewer than the limit and `k` together: with one at a time, no more than the limit.
pub binds_bounded :
    (c : ThrottleConfig) (username : Text) (start : Time) (k : ℕ) (s : LoginRuns)
    → pos 1 ≤ℤ c.max_user
    → Tries c username start k s
    → pos (suc s.sent) ≤ℤ c.max_user +ℤ pos k
binds_bounded c username start k s limit t = (Tries-IsCounted c username start k limit t).2
