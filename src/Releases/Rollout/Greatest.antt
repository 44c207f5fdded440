-- ===== src/Releases/Rollout/Greatest.antt =====
-- Which releases a rollout of api/main.go picks.
use device_pulse.Prelude.{
  Text, Bool, true, false, ◌&&◌, ◌||◌, List, [], ◌∷◌, none, some, ltb, text_eq, Map, lookup, insert,
  lookup-insert, lookup-insert_self, At, here, there, ◌≡◌, refl, arith, Bool-cases, Option-cases,
  inl, inr,
}
use device_pulse.Releases.{AgentRelease, is_equal}
use device_pulse.Releases.Versions.{
  Comparison, less, equal, greater, compare_agent_versions, flip, compare_agent_versions-flip,
}
use device_pulse.Releases.Order.{is_not_newer, not_newer_self, compare_agent_versions_trans}
use device_pulse.Releases.Rollout.{target_key, is_greater, choose, latest_by_target}

abbrev pub NotNewer : AgentRelease → AgentRelease → Type 0
NotNewer a b = is_not_newer (compare_agent_versions a.version b.version) ≡ true

kept_cases :
    (c : Comparison) (later : Bool)
    → is_greater c || (is_equal c && later) ≡ false
    → is_not_newer c ≡ true
kept_cases less later h = refl
kept_cases equal later h = refl
kept_cases greater later h = absurd (ground arith)

taken_cases :
    (c : Comparison) (later : Bool)
    → is_greater c || (is_equal c && later) ≡ true
    → is_not_newer (flip c) ≡ true
taken_cases less later h = absurd (ground arith)
taken_cases equal later h = refl
taken_cases greater later h = refl

-- Neither the new release nor the old choice is newer than the new choice.
choose-NotNewer :
    (r e : AgentRelease)
    → NotNewer r (choose false r (some e)) × NotNewer e (choose false r (some e))
unfolding choose
choose-NotNewer r e =
    let cmp = compare_agent_versions r.version e.version in
    let later = ltb e.published_at r.published_at in
    elim (Bool-cases (is_greater cmp || (is_equal cmp && later))) [
      | inl h ↦
          let old : NotNewer e r =
            rw (compare_agent_versions-flip r.version e.version) (taken_cases cmp later h) in
          rw h (not_newer_self r.version, old)
      | inr h ↦ rw h (kept_cases cmp later h, not_newer_self e.version)
    ]

-- The choice for the key, which the release is not newer than.
pub record Beaten (r : AgentRelease) (m : Map Text AgentRelease) : Type 0 where
  pub chosen : AgentRelease
  pub held : lookup (target_key r) m ≡ some chosen
  pub at_least : NotNewer r chosen

step-Beaten :
    (x r : AgentRelease) (m : Map Text AgentRelease)
    → Beaten x m
    → Beaten x (insert (target_key r) (choose false r (lookup (target_key r) m)) m)
step-Beaten x r m b = elim (Bool-cases (text_eq.beq (target_key r) (target_key x))) [
  | inl h ↦
      let same : target_key r ≡ target_key x =
        (text_eq.beq_iff (target_key r) (target_key x)).0 h in
      let v = choose false r (lookup (target_key r) m) in
      let found : lookup (target_key x) (insert (target_key r) v m) ≡ some v =
        rw (lookup-insert (target_key r) (target_key x) v m, h) refl in
      let old : lookup (target_key r) m ≡ some b.chosen = rw same b.held in
      let (_, le) = choose-NotNewer r b.chosen in
      record {
        chosen = v;
        held = found;
        at_least = rw old (
            compare_agent_versions_trans x.version b.chosen.version
              (choose false r (some b.chosen)).version b.at_least le);
      }
  | inr h ↦
      let v = choose false r (lookup (target_key r) m) in
      record {
        chosen = b.chosen;
        held = rw (lookup-insert (target_key r) (target_key x) v m, h) b.held;
        at_least = b.at_least;
      }
]

fold-Beaten :
    (x : AgentRelease) (rs : List AgentRelease) (m : Map Text AgentRelease)
    → Beaten x m
    → Beaten x (latest_by_target false m rs)
unfolding latest_by_target
fold-Beaten x [] m b = b
fold-Beaten x (r ∷ rs) m b = fold-Beaten x rs _ (step-Beaten x r m b)

-- A rollout of the latest releases picks for each target a release which none of the target's
-- releases is newer than.
pub latest_by_target-Beaten :
    (x : AgentRelease) (rs : List AgentRelease) (m : Map Text AgentRelease)
    → At x rs
    → Beaten x (latest_by_target false m rs)
unfolding latest_by_target
latest_by_target-Beaten x [] m m' = elim m' [ ]
latest_by_target-Beaten x (r ∷ rs) m here = fold-Beaten x rs _ (record {
  chosen = choose false x (lookup (target_key x) m);
  held = lookup-insert_self (target_key x) _ m;
  at_least = elim (Option-cases (lookup (target_key x) m)) [
    | inl e ↦ rw e (first x)
    | inr (e', e) ↦ rw e (choose-NotNewer x e').0
  ];
})
  where
    first : (x : AgentRelease) → NotNewer x (choose false x none)
    first x = not_newer_self x.version
latest_by_target-Beaten x (r ∷ rs) m (there m') = latest_by_target-Beaten x rs _ m'
