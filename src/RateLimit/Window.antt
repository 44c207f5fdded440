-- ===== src/RateLimit/Window.antt =====
-- How many hits the fixed window lets through.
use device_pulse.Prelude.{
  ℕ, ◌+◌, ◌≤◌, ◌<◌, Text, false, not, ◌&&◌, List, [], ◌∷◌, Option, none, some, lookup, erase,
  lookup-erase, beq_refl, ◌==◌, if◌then◌else◌, text_eq, ◌∙◌, ◌≡◌, refl, arith, Option-cases, inl,
  inr,
}
use device_pulse.RateLimit.{RateLimiter, blocked, count_hit, allow, reset}
use device_pulse.RateLimit.Passed.{
  Hit, passed, Within, count_hit_kept, passed-le-two, passed-le-limit,
}

-- How many of the hits of `key` pass, when the limiter meets these calls of `Allow` in turn.
unfoldable pub allowed : Text → Option RateLimiter → List Hit → ℕ
allowed key rl [] = 0
allowed key rl (h ∷ hs) =
    let (ok, rl') = allow rl h.key h.at in
    (if text_eq.beq h.key key && ok then 1 else 0) + allowed key rl' hs

allowed-passed :
    (key : Text) (hs : List Hit) (rl : RateLimiter)
    → 0 < rl.limit
    → allowed key (some rl) hs ≡ passed key rl hs
unfolding allowed passed allow
allowed-passed key [] rl h = refl
allowed-passed key (x ∷ hs) rl h =
    let positive : (rl.limit == 0) ≡ false = ground arith in
    rw positive (
      omega (
        arith,
        allowed-passed key hs (count_hit rl x.key x.at).1
            (omega (arith, count_hit_kept rl x.key x.at)),
      ))

-- Whatever a limiter with a positive limit holds and however the keys interleave, at most twice
-- the limit of one key's calls pass in any span as long as the window.
pub allowed-le_twice :
    (key : Text) (rl : RateLimiter) (a : ℕ) (hs : List Hit)
    → 0 < rl.limit
    → Within a rl.window hs
    → allowed key (some rl) hs ≤ rl.limit + rl.limit
allowed-le_twice key rl a hs positive k =
    rw (allowed-passed key hs rl positive) (elim (Option-cases (lookup key rl.hits)) [
      | inl e ↦ omega (arith, passed-le-limit key a hs rl k e)
      | inr (w, e) ↦ omega (arith, passed-le-two key a hs rl k w e)
    ])

-- After `Reset` of a key, when the limit is positive, at most the limit of the key's calls pass in
-- a span as long as the window.
pub allowed-reset-le :
    (key : Text) (rl : RateLimiter) (a : ℕ) (hs : List Hit)
    → 0 < rl.limit
    → Within a rl.window hs
    → allowed key (reset (some rl) key) hs ≤ rl.limit
unfolding reset
allowed-reset-le key rl a hs positive k =
    let rl' : RateLimiter = record rl { hits = erase key rl.hits } in
    let gone : lookup key (erase key rl.hits) ≡ none =
      lookup-erase key key rl.hits ∙ rw (beq_refl key) in
    rw (allowed-passed key hs rl' positive) (passed-le-limit key a hs rl' k gone)

-- `Blocked` says exactly that the next `Allow` at that instant would refuse.
pub blocked-allow :
    (rl : Option RateLimiter) (key : Text) (now : ℕ) → blocked rl key now ≡ not (allow rl key now).0
unfolding blocked allow
blocked-allow none key now = refl
blocked-allow (some rl) key now = elim (Option-cases (lookup key rl.hits)) [
  | inl e ↦ rw e (ground arith)
  | inr (w, e) ↦ rw e (ground arith)
]
