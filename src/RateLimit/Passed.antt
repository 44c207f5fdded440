-- ===== src/RateLimit/Passed.antt =====
-- How many of a key's hits the counter behind `Allow` lets through.
use device_pulse.Prelude.{
  ℕ, ◌+◌, ◌-◌, ◌≤◌, ◌<◌, Text, false, ◌&&◌, List, [], ◌∷◌, Option, none, some, lookup,
  lookup-insert, lookup-insert_self, leb, if◌then◌else◌, text_eq, All, ◌⊎◌, ◌∙◌, ◌≡◌, refl, arith,
  Bool-cases, inl, inr,
}
use device_pulse.RateLimit.{RateWindow, RateLimiter, current_window, count_hit, expired}

pub record Hit : Type 0 where
  pub key : Text
  pub at : ℕ

-- How many of the hits of `key` pass, when the limiter meets these calls of `Allow` in turn.
unfoldable pub passed : Text → RateLimiter → List Hit → ℕ
passed key rl [] = 0
passed key rl (h ∷ hs) =
    let (ok, rl') = count_hit rl h.key h.at in
    (if text_eq.beq h.key key && ok then 1 else 0) + passed key rl' hs

abbrev pub Within : ℕ → ℕ → List Hit → Type 0
Within a window = All (λ h. (a ≤ h.at) × (h.at < a + window))

-- Where a hit at `now` leaves the key's window.
count_hit-lookup :
    (rl : RateLimiter) (k : Text) (now : ℕ)
    → lookup k (count_hit rl k now).1.hits ≡ (
        let w = current_window rl (lookup k rl.hits) now in some (record w { count = w.count + 1 }))
unfolding count_hit
count_hit-lookup rl k now = lookup-insert_self k _ rl.hits

count_hit-lookup_ne :
    (rl : RateLimiter) (k key : Text) (now : ℕ)
    → text_eq.beq k key ≡ false
    → lookup key (count_hit rl k now).1.hits ≡ lookup key rl.hits
unfolding count_hit
count_hit-lookup_ne rl k key now other = lookup-insert k key _ rl.hits ∙ rw other

count_hit_passes :
    (rl : RateLimiter) (k : Text) (now : ℕ)
    → (count_hit rl k now).0 ≡ leb ((current_window rl (lookup k rl.hits) now).count + 1) rl.limit
unfolding count_hit
count_hit_passes rl k now = refl

pub count_hit_kept :
    (rl : RateLimiter) (k : Text) (now : ℕ)
    → ((count_hit rl k now).1.limit ≡ rl.limit) × ((count_hit rl k now).1.window ≡ rl.window)
unfolding count_hit
count_hit_kept rl k now = (refl, refl)

current_window-live :
    (rl : RateLimiter) (w : RateWindow) (now : ℕ)
    → now < w.start + rl.window
    → current_window rl (some w) now ≡ w
unfolding current_window
current_window-live rl w now h = ground arith

current_window-none :
    (rl : RateLimiter) (now : ℕ) → current_window rl none now ≡ record { start = now; count = 0 }
unfolding current_window
current_window-none rl now = refl

current_window_cases :
    (rl : RateLimiter) (o : Option RateWindow) (now : ℕ)
    → ((w : RateWindow) × (o ≡ some w) × (current_window rl o now ≡ w))
      ⊎ (current_window rl o now ≡ record { start = now; count = 0 })
unfolding current_window
current_window_cases rl none now = inr refl
current_window_cases rl (some w) now = elim (Bool-cases (expired rl w now)) [
  | inl old ↦ inr (rw old)
  | inr live ↦ inl (w, refl, rw live)
]

module _ (key : Text) (a : ℕ) where
  passed-le-left :
      (hs : List Hit) (rl : RateLimiter) (w : RateWindow)
      → lookup key rl.hits ≡ some w
      → a ≤ w.start
      → Within a rl.window hs
      → passed key rl hs ≤ rl.limit - w.count
  unfolding passed
  passed-le-left [] rl w e le k = omega arith
  passed-le-left (h ∷ hs) rl w e le k =
      let (same_limit, window) = count_hit_kept rl h.key h.at in
      elim (Bool-cases (text_eq.beq h.key key)) [
        | inl same ↦
            let eq = (text_eq.beq_iff h.key key).0 same in
            let w' : RateWindow = record w { count = w.count + 1 } in
            let live = current_window-live rl w h.at (omega arith) in
            let found : lookup key (count_hit rl h.key h.at).1.hits ≡ some w' =
              rw eq (count_hit-lookup rl key h.at ∙ rw (e, live)) in
            let tested : (count_hit rl h.key h.at).0 ≡ leb (w.count + 1) rl.limit =
              rw eq (count_hit_passes rl key h.at ∙ rw (e, live)) in
            ground (
              arith,
              tested,
              same_limit,
              passed-le-left hs (count_hit rl h.key h.at).1 w' found le (rw window k.1),
            )
        | inr other ↦ ground (
          arith,
          same_limit,
          passed-le-left hs (count_hit rl h.key h.at).1 w
              (count_hit-lookup_ne rl h.key key h.at other ∙ e) le (rw window k.1),
        )
      ]

  -- Whatever window is stored, it lets through what is left of it, and a fresh one its limit.
  pub passed-le-two :
      (hs : List Hit) (rl : RateLimiter)
      → Within a rl.window hs
      → (w : RateWindow) → lookup key rl.hits ≡ some w
      → passed key rl hs ≤ (rl.limit - w.count) + rl.limit
  unfolding passed
  passed-le-two [] rl k w e = omega arith
  passed-le-two (h ∷ hs) rl k w e =
      let (same_limit, window) = count_hit_kept rl h.key h.at in
      elim (Bool-cases (text_eq.beq h.key key)) [
        | inl same ↦
            let eq = (text_eq.beq_iff h.key key).0 same in
            let v = current_window rl (lookup key rl.hits) h.at in
            let found : lookup key (count_hit rl h.key h.at).1.hits
                ≡ some (record v { count = v.count + 1 }) =
              rw eq (count_hit-lookup rl key h.at) in
            let tested : (count_hit rl h.key h.at).0 ≡ leb (v.count + 1) rl.limit =
              rw eq (count_hit_passes rl key h.at) in
            elim (current_window_cases rl (lookup key rl.hits) h.at) [
              | inl (u, stored, live) ↦ ground (
                arith,
                tested,
                same_limit,
                live,
                stored,
                e,
                passed-le-two hs (count_hit rl h.key h.at).1 (rw window k.1)
                    (record v { count = v.count + 1 }) found,
              )
              | inr fresh ↦ ground (
                arith,
                tested,
                same_limit,
                fresh,
                passed-le-left hs (count_hit rl h.key h.at).1 (record v { count = v.count + 1 })
                    found (rw fresh (omega arith)) (rw window k.1),
              )
            ]
        | inr other ↦ ground (
          arith,
          same_limit,
          passed-le-two hs (count_hit rl h.key h.at).1 (rw window k.1) w
              (count_hit-lookup_ne rl h.key key h.at other ∙ e),
        )
      ]

  pub passed-le-limit :
      (hs : List Hit) (rl : RateLimiter)
      → Within a rl.window hs
      → lookup key rl.hits ≡ none
      → passed key rl hs ≤ rl.limit
  unfolding passed
  passed-le-limit [] rl k e = omega arith
  passed-le-limit (h ∷ hs) rl k e =
      let (same_limit, window) = count_hit_kept rl h.key h.at in
      elim (Bool-cases (text_eq.beq h.key key)) [
        | inl same ↦
            let eq = (text_eq.beq_iff h.key key).0 same in
            let v : RateWindow = record { start = h.at; count = 0 } in
            let fresh : current_window rl (lookup key rl.hits) h.at ≡ v =
              rw e (current_window-none rl h.at) in
            let found : lookup key (count_hit rl h.key h.at).1.hits
                ≡ some (record v { count = v.count + 1 }) =
              rw eq (count_hit-lookup rl key h.at ∙ rw fresh) in
            let tested : (count_hit rl h.key h.at).0 ≡ leb (v.count + 1) rl.limit =
              rw eq (count_hit_passes rl key h.at ∙ rw fresh) in
            ground (
              arith,
              tested,
              same_limit,
              passed-le-left hs (count_hit rl h.key h.at).1 (record v { count = v.count + 1 }) found
                  (omega arith) (rw window k.1),
            )
        | inr other ↦ ground (
          arith,
          same_limit,
          passed-le-limit hs (count_hit rl h.key h.at).1 (rw window k.1)
              (count_hit-lookup_ne rl h.key key h.at other ∙ e),
        )
      ]
