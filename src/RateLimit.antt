-- ===== src/RateLimit.antt =====
-- api/main.go, the fixed-window rate limiter: `rateLimiter`, `Blocked`, `Hit`, `Reset`, `Allow`,
-- the janitor started by `newRateLimiter`, and `requireRateLimit`. Instants and durations are
-- nanoseconds, `now` is the value that the method reads from the clock, and a nil `*rateLimiter`
-- is `none`. The mutex is held by every method, so a call is one step.
pub mod Passed
pub mod Window
pub mod Janitor
use device_pulse.Prelude.{
  ℕ, ◌+◌, ◌/◌, Text, Bool, true, false, not, ◌&&◌, List, [], ◌∷◌, Option, none, some, Map, lookup,
  insert, erase, ltb, leb, ◌==◌, if◌then◌else◌, text_eq,
}

pub record RateWindow : Type 0 where
  pub start : ℕ
  pub count : ℕ

pub record RateLimiter : Type 0 where
  pub limit : ℕ
  pub window : ℕ
  pub hits : Map Text RateWindow

-- `newRateLimiter`, without the janitor's goroutine, which is `sweep`.
abbrev pub new_rate_limiter : ℕ → ℕ → RateLimiter
new_rate_limiter limit window = record { limit = limit; window = window; hits = [] }

-- `now.Sub(w.start) >= rl.window`
abbrev pub expired : RateLimiter → RateWindow → ℕ → Bool
expired rl w now = leb (w.start + rl.window) now

unfoldable pub blocked_by : RateLimiter → Option RateWindow → ℕ → Bool
blocked_by rl none now = false
blocked_by rl (some w) now = not (expired rl w now) && leb rl.limit w.count

unfoldable pub blocked : Option RateLimiter → Text → ℕ → Bool
unfolding blocked_by
blocked none key now = false
blocked (some rl) key now = if rl.limit == 0 then false else blocked_by rl (lookup key rl.hits) now

-- The window that a hit at `now` counts in: the stored one, or a fresh one.
unfoldable pub current_window : RateLimiter → Option RateWindow → ℕ → RateWindow
current_window rl none now = record { start = now; count = 0 }
current_window rl (some w) now = if expired rl w now then record { start = now; count = 0 } else w

-- The body of `Allow` behind its first test.
unfoldable pub count_hit : RateLimiter → Text → ℕ → Bool × RateLimiter
unfolding current_window
count_hit rl key now =
    let w = current_window rl (lookup key rl.hits) now in
    let w' = record w { count = w.count + 1 } in
    (leb w'.count rl.limit, record rl { hits = insert key w' rl.hits })

unfoldable pub allow : Option RateLimiter → Text → ℕ → Bool × Option RateLimiter
unfolding count_hit
allow none key now = (true, none)
allow (some rl) key now =
    if rl.limit == 0
    then (true, some rl)
    else let (passed, rl') = count_hit rl key now in (passed, some rl')

unfoldable pub hit : Option RateLimiter → Text → ℕ → Option RateLimiter
unfolding allow
hit rl key now = (allow rl key now).1

unfoldable pub reset : Option RateLimiter → Text → Option RateLimiter
reset none key = none
reset (some rl) key = some (record rl { hits = erase key rl.hits })

-- One tick of the janitor: it drops every window that started before `now - window`.
unfoldable pub sweep_hits : ℕ → ℕ → Map Text RateWindow → Map Text RateWindow
sweep_hits window now [] = []
sweep_hits window now ((key, w) ∷ hits) =
    if ltb (w.start + window) now
    then sweep_hits window now hits
    else (key, w) ∷ sweep_hits window now hits

unfoldable pub sweep : RateLimiter → ℕ → RateLimiter
unfolding sweep_hits
sweep rl now = record rl { hits = sweep_hits rl.window now rl.hits }

pub data Reply {ℓ} (A : Type ℓ) : Type ℓ where
  too_many_requests : ℕ → Reply A
  served : A → Reply A

-- The `Retry-After` header holds whole seconds; `next` is the wrapped handler's reply.
unfoldable pub require_rate_limit {ℓ} :
    {A : Type ℓ} → Option RateLimiter → Text → ℕ → A → Reply A × Option RateLimiter
unfolding allow
require_rate_limit none ip now next = (served next, none)
require_rate_limit (some rl) ip now next =
    let (passed, rl') = allow (some rl) ip now in
    (if passed then served next else too_many_requests (rl.window / 1_000_000_000), rl')
