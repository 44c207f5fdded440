-- ===== src/RateLimit/Janitor.antt =====
-- The janitor is invisible: a tick changes no later answer of `Allow` or `Blocked`.
use device_pulse.Prelude.{
  ℕ, ◌+◌, ◌≤◌, Text, false, [], ◌∷◌, Option, none, some, lookup, Distinct, lookup-insert_self, sym,
  ltb, ◌==◌, if◌then◌else◌, text_eq, ◌≡◌, refl, arith, Map, ◌∙◌,
}
use device_pulse.RateLimit.{
  RateWindow, RateLimiter, blocked, blocked_by, current_window, count_hit, allow, sweep_hits, sweep,
}

module _ (window now : ℕ) where
  -- What a tick leaves of a key's window.
  unfoldable pub keep_live : Option RateWindow → Option RateWindow
  keep_live none = none
  keep_live (some w) = if ltb (w.start + window) now then none else some w

  lookup-sweep_hits :
      (key : Text) (m : Map Text RateWindow)
      → Distinct m
      → lookup key (sweep_hits window now m) ≡ keep_live (lookup key m)
  unfolding lookup sweep_hits keep_live
  lookup-sweep_hits key [] d = refl
  lookup-sweep_hits key ((j, w) ∷ m) d =
      ground (arith, text_eq.beq_iff j key, lookup-sweep_hits key m d.1)

  sweep_hits-Distinct : (m : Map Text RateWindow) → Distinct m → Distinct (sweep_hits window now m)
  unfolding sweep_hits keep_live
  sweep_hits-Distinct [] d = d
  sweep_hits-Distinct ((j, w) ∷ m) d =
      ground (arith, lookup-sweep_hits j m d.1, sweep_hits-Distinct m d.1)

current_window-keep_live :
    (rl : RateLimiter) (o : Option RateWindow) (now later : ℕ)
    → now ≤ later
    → current_window rl (keep_live rl.window now o) later ≡ current_window rl o later
unfolding current_window keep_live
current_window-keep_live rl none now later h = refl
current_window-keep_live rl (some w) now later h = ground arith

blocked_by-keep_live :
    (rl : RateLimiter) (o : Option RateWindow) (now later : ℕ)
    → now ≤ later
    → (if rl.limit == 0 then false else blocked_by rl (keep_live rl.window now o) later)
      ≡ (if rl.limit == 0 then false else blocked_by rl o later)
unfolding blocked_by keep_live
blocked_by-keep_live rl none now later h = refl
blocked_by-keep_live rl (some w) now later h = ground arith

-- A tick of the janitor at `now`, on a limiter that holds each key once, changes no answer that
-- `Allow` or `Blocked` gives at `now` or later, nor the window that the key is left with.
pub sweep_invisible :
    (rl : RateLimiter) (key : Text) (now later : ℕ)
    → Distinct rl.hits
    → now ≤ later
    → ((allow (some (sweep rl now)) key later).0 ≡ (allow (some rl) key later).0)
      × (blocked (some (sweep rl now)) key later ≡ blocked (some rl) key later)
      × (lookup key (count_hit (sweep rl now) key later).1.hits
          ≡ lookup key (count_hit rl key later).1.hits)
unfolding sweep allow blocked count_hit
sweep_invisible rl key now later d h =
    let found = lookup-sweep_hits rl.window now key rl.hits d in
    let same = current_window-keep_live rl (lookup key rl.hits) now later h in
    (
      rw found (rw same (ground arith)),
      rw found (blocked_by-keep_live rl (lookup key rl.hits) now later h),
      lookup-insert_self key _ _ ∙ rw found (rw same (sym (lookup-insert_self key _ _))),
    )
