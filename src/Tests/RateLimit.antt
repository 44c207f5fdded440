-- ===== src/Tests/RateLimit.antt =====
-- A limiter of one hit in ten ticks, with a window of the key open.
use device_pulse.Prelude.{
  ◌+◌, ◌≤◌, Text, codes, list_beq, text_eq, List, [], ◌∷◌, some, lookup, insert, Distinct, ◌≡◌,
  refl, arith,
}
use device_pulse.RateLimit.{
  RateLimiter, new_rate_limiter, blocked, current_window, count_hit, allow, sweep,
}
use device_pulse.RateLimit.Passed.{Hit, passed}
use device_pulse.RateLimit.Window.{allowed, allowed-le_twice}
use device_pulse.RateLimit.Janitor.{sweep_invisible}

abbrev key : Text
key = codes "k"

abbrev limiter : RateLimiter
limiter = record (new_rate_limiter 1 10) { hits = (key, record { start = 5; count = 0 }) ∷ [] }

abbrev hits : List Hit
hits =
    record { key = key; at = 14 }
    ∷ record { key = key; at = 15 }
    ∷ record { key = codes "l"; at = 16 }
    ∷ []

-- One hit at the end of the old window and one at the start of the next: twice the limit.
both_pass : passed key limiter hits ≡ 2
unfolding passed count_hit current_window list_beq insert lookup
both_pass = refl

allowed-le_twice_example : allowed key (some limiter) hits ≤ 1 + 1
allowed-le_twice_example =
    allowed-le_twice key limiter 14 hits (omega arith)
      ((omega arith, omega arith), ((omega arith, omega arith), ((omega arith, omega arith), tt)))

limiter-Distinct : Distinct limiter.hits
unfolding lookup
limiter-Distinct = (refl, tt)

sweep_invisible_example :
    ((allow (some (sweep limiter 20)) key 21).0 ≡ (allow (some limiter) key 21).0)
    × (blocked (some (sweep limiter 20)) key 21 ≡ blocked (some limiter) key 21)
    × (lookup key (count_hit (sweep limiter 20) key 21).1.hits
        ≡ lookup key (count_hit limiter key 21).1.hits)
sweep_invisible_example = sweep_invisible limiter key 20 21 limiter-Distinct (omega arith)
