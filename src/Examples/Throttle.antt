-- ===== src/Examples/Throttle.antt =====
-- Login throttling: the theorem at a concrete input, and tests of the definitions.
use kaa_s_demo.Prelude.{◌≡◌, text_eq, Text, arith, codes, refl, suc}
use kaa_s_demo.Prelude.Int.{pos, ◌≤ℤ◌, ◌+ℤ◌}
use kaa_s_demo.Prelude.Dict.{empty, get, put, get-empty}
use kaa_s_demo.Go.Time.{Time, minute, sub}
use kaa_s_demo.Throttle.{
  throttle_key, record_login_failure, record_scopes, record_failure, login_failures, max_for,
  is_tripped, scopes, check_scopes, throttled, memory_read, ThrottleConfig, LoginRuns, login_checks,
  login_fails,
}
use kaa_s_demo.Throttle.Lockout.{Tries, begins, arrives, answers, binds_bounded, user_key}

abbrev config : ThrottleConfig
config = record { max_user = pos 3; max_ip = pos 30; window = minute }

abbrev alice : Text
alice = codes "alice"

abbrev address : Text
address = codes "10.0.0.1"

abbrev nothing_yet : LoginRuns
nothing_yet = record { counters = empty; in_flight = 0; sent = 0 }

-- a login that reaches the check, and one that the directory has refused
abbrev arrive : Time → LoginRuns → LoginRuns
arrive t s = login_checks config (memory_read s.counters) alice t address s

abbrev answer : Time → LoginRuns → LoginRuns
answer t s = login_fails config alice t address s

abbrev one_by_one : LoginRuns
one_by_one =
    arrive 16 (answer 15 (arrive 14 (answer 13 (arrive 12 (answer 11 (arrive 10 nothing_yet))))))

-- one at a time, the fourth is refused
three_sent : (one_by_one.sent ≡ 3) × (one_by_one.in_flight ≡ 0)
unfolding login_checks login_fails throttled check_scopes scopes is_tripped max_for text_eq
    login_failures record_failure record_scopes record_login_failure throttle_key sub get put empty
three_sent = (refl, refl)

-- five that arrive before the first is answered all reach the directory
five_sent : (arrive 14 (arrive 13 (arrive 12 (arrive 11 (arrive 10 nothing_yet))))).sent ≡ 5
unfolding login_checks login_fails throttled check_scopes scopes is_tripped max_for text_eq
    login_failures record_failure record_scopes record_login_failure throttle_key sub get put empty
five_sent = refl

-- two at a time
abbrev two_arrived : LoginRuns
two_arrived = arrive 11 (arrive 10 nothing_yet)

abbrev one_answered : LoginRuns
one_answered = answer 12 two_arrived

abbrev two_answered : LoginRuns
two_answered = answer 14 (arrive 13 one_answered)

four_sent : (arrive 15 two_answered).sent ≡ 4
unfolding login_checks login_fails throttled check_scopes scopes is_tripped max_for text_eq
    login_failures record_failure record_scopes record_login_failure throttle_key sub get put empty
four_sent = refl

both_runs : Tries config alice 10 2 (arrive 15 two_answered)
unfolding login_checks login_fails throttled check_scopes scopes is_tripped max_for text_eq
    login_failures record_failure record_scopes record_login_failure throttle_key sub get put empty
both_runs =
    arrives (memory_read two_answered.counters) 15 address
      (answers 14 address
        (arrives (memory_read one_answered.counters) 13 address
          (answers 12 address
            (arrives (memory_read (arrive 10 nothing_yet).counters) 11 address
              (arrives (memory_read empty) 10 address (begins empty (get-empty (user_key alice)))
                (omega arith, omega arith) refl (omega arith))
              (omega arith, omega arith) refl (omega arith))
            (omega arith, omega arith) (omega arith))
          (omega arith, omega arith) refl (omega arith))
        (omega arith, omega arith) (omega arith))
      (omega arith, omega arith) refl (omega arith)

binds_bounded_example : pos (suc (arrive 15 two_answered).sent) ≤ℤ config.max_user +ℤ pos 2
binds_bounded_example =
    binds_bounded config alice 10 2 (arrive 15 two_answered) (omega arith) both_runs
