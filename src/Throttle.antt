-- ===== src/Throttle.antt =====
-- internal/app/throttle.go, and the login counters of the in-memory store (internal/store/store.go).
-- The clock is an argument; a read of a counter may fail.
pub mod Lockout
use kaa_s_demo.Prelude.{
  ◌-◌, ◌&&◌, text_eq, not, codes, if◌then◌else◌, Bool, ◌++◌, Option, List, ℕ, Text, [], ◌∷◌, none,
  some, true, false, suc,
}
use kaa_s_demo.Prelude.Int.{ℤ, pos, ltb_ℤ}
use kaa_s_demo.Prelude.Dict.{Dict, get, put, remove}
use kaa_s_demo.Go.Time.{Duration, Time, sub}

-- loginFailure
pub record LoginFailure : Type 0 where
  pub failures : ℕ
  pub window_start : Time

abbrev pub Logins : Type 0
Logins = Dict LoginFailure

abbrev pub scope_user : Text
scope_user = codes "user"

abbrev pub scope_ip : Text
scope_ip = codes "ip"

unfoldable pub throttle_key : Text → Text → Text
throttle_key scope key = scope ++ b'/' ∷ key

-- Memory.LoginFailures: a key that the map lacks reads as the zero value
unfoldable pub login_failures : Logins → Text → Text → LoginFailure
login_failures m scope key = elim (get m (throttle_key scope key)) [
  | none ↦ record { failures = 0; window_start = 0 }
  | some f ↦ f
]

-- Memory.RecordLoginFailure
unfoldable pub record_login_failure : Logins → Text → Text → Duration → Time → Logins
record_login_failure m scope key window now = elim (get m (throttle_key scope key)) [
  | none ↦ put m (throttle_key scope key) (record { failures = 1; window_start = now })
  | some f ↦
      if ltb_ℤ window (sub now f.window_start)
      then put m (throttle_key scope key) (record { failures = 1; window_start = now })
      else put m (throttle_key scope key)
          (record { failures = suc f.failures; window_start = f.window_start })
]

-- Memory.ResetLoginFailures
unfoldable pub reset_login_failures : Logins → Text → Text → Logins
reset_login_failures m scope key = remove m (throttle_key scope key)

pub record ThrottleConfig : Type 0 where
  pub max_user : ℤ
  pub max_ip : ℤ
  pub window : Duration

unfoldable pub max_for : ThrottleConfig → Text → ℤ
max_for c scope = if text_eq scope scope_ip then c.max_ip else c.max_user

pub record ThrottleScope : Type 0 where
  pub scope : Text
  pub key : Text

unfoldable pub scopes : Text → Text → List ThrottleScope
scopes username client_ip =
    record { scope = scope_user; key = username }
    ∷ (if text_eq client_ip [] then [] else record { scope = scope_ip; key = client_ip } ∷ [])

-- whether a counter has tripped: it has reached its limit, and its window has not expired
unfoldable pub is_tripped : ThrottleConfig → Text → LoginFailure → Time → Bool
is_tripped c scope f now =
    not (ltb_ℤ (pos f.failures) (max_for c scope)) && not (ltb_ℤ c.window (sub now f.window_start))

-- the loop of check; `true` is ErrTooManyAttempts, and a failed read is passed over
unfoldable pub check_scopes :
    ThrottleConfig → (Text → Text → Option LoginFailure) → Time → List ThrottleScope → Bool
check_scopes c read now [] = false
check_scopes c read now (s ∷ ss) =
    let rest = check_scopes c read now ss in
    elim (read s.scope s.key) [
      | none ↦ rest
      | some f ↦ if is_tripped c s.scope f now then true else rest
    ]

unfoldable pub throttled :
    ThrottleConfig → (Text → Text → Option LoginFailure) → Time → Text → Text → Bool
throttled c read now username client_ip = check_scopes c read now (scopes username client_ip)

-- throttler.recordFailure and throttler.reset, on the in-memory store, whose calls do not fail
unfoldable pub record_scopes : ThrottleConfig → Time → List ThrottleScope → Logins → Logins
record_scopes c now [] m = m
record_scopes c now (s ∷ ss) m =
    record_scopes c now ss (record_login_failure m s.scope s.key c.window now)

unfoldable pub record_failure : ThrottleConfig → Time → Text → Text → Logins → Logins
record_failure c now username client_ip m = record_scopes c now (scopes username client_ip) m

unfoldable pub reset_scopes : List ThrottleScope → Logins → Logins
reset_scopes [] m = m
reset_scopes (s ∷ ss) m = reset_scopes ss (reset_login_failures m s.scope s.key)

unfoldable pub reset : Text → Text → Logins → Logins
reset username client_ip m = reset_scopes (scopes username client_ip) m

-- the reads of the in-memory store never fail
abbrev pub memory_read : Logins → Text → Text → Option LoginFailure
memory_read m scope key = some (login_failures m scope key)

-- Logins under one name with wrong passwords, over all replicas: the counters that they share, how
-- many of them have passed the check and not yet counted their failure, and how many have passed it.
pub record LoginRuns : Type 0 where
  pub counters : Logins
  pub in_flight : ℕ
  pub sent : ℕ

-- a login reaches the check, which refuses it, or the password goes to the directory
unfoldable pub login_checks :
    ThrottleConfig
    → (Text → Text → Option LoginFailure)
    → Text
    → Time
    → Text
    → LoginRuns
    → LoginRuns
login_checks c read username at client_ip s =
    if throttled c read at username client_ip
    then s
    else record s { in_flight = suc s.in_flight; sent = suc s.sent }

-- the directory has refused the password of a login, and its failure is counted
unfoldable pub login_fails : ThrottleConfig → Text → Time → Text → LoginRuns → LoginRuns
login_fails c username at client_ip s = record s {
  counters = record_failure c at username client_ip s.counters;
  in_flight = s.in_flight - 1;
}
