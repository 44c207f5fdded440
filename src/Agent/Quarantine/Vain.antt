-- ===== src/Agent/Quarantine/Vain.antt =====
-- The automatic release of agent/commander/quarantine_timer.go, when it succeeds and when it fails.
use device_pulse.Prelude.{ℕ, ◌-◌, ◌≤◌, true, Option, none, some, ◌≡◌, refl, sym, ◌∙◌, ap}
use device_pulse.Agent.Firewall.{
  success, failed, unsupported, Family, Hook, hooks, tables, quarantine_release,
}
use device_pulse.Agent.Firewall.Release.{Truthful, hooks-quarantine_release}
use device_pulse.Agent.Quarantine.{
  Host, Platform, clear_quarantine_deadline, release_and_clear, auto_release_quarantine,
}
use device_pulse.Agent.Quarantine.Deadline.{World, NotPast}

module _ (p : Platform) where
  -- An automatic release that succeeds takes away one jump from each hook of each family whose program is installed,
  -- the timer, and the deadline on a disk that works.
  pub auto_release-frees :
      Truthful p.programs
      → (now : ℕ) (h : Host) (f : Family) (g : Hook) → p.has_data_dir ≡ true
      → p.disk_works now ≡ true
      → p.programs.installed f ≡ true
      → (auto_release_quarantine p now h).0 ≡ success
      → let h' = (auto_release_quarantine p now h).1 in
        (hooks g (tables f h'.firewall) ≡ hooks g (tables f h.firewall) - 1)
        × (h'.timer ≡ none)
        × (h'.until_file ≡ none)
  unfolding auto_release_quarantine release_and_clear clear_quarantine_deadline
  auto_release-frees truthful now h f g dir disk i e =
      let status : (quarantine_release p.programs h.firewall).0 ≡ success = e in
      rw (status, auto_release_quarantine, release_and_clear, dir, disk)
        (hooks-quarantine_release p.programs truthful f g h.firewall i e, refl, refl)

  -- Steps of waiting: time passes, or the timer fires.
  pub data Wait (u : World) : World → Type 0 where
    waited : Wait u u
    passing :
        {v : World} (t : ℕ)
        → Wait u v
        → v.now ≤ t
        → NotPast t v.host.timer
        → Wait u (record v { now = t })
    firing :
        {v : World} (d : ℕ)
        → Wait u v
        → v.host.timer ≡ some d
        → d ≤ v.now
        → Wait u (record {
          now = v.now;
          host = (auto_release_quarantine p v.now v.host).1;
          since = elim (auto_release_quarantine p v.now v.host).0 [
            | success ↦ none
            | failed ↦ v.since
            | unsupported ↦ v.since
          ];
        })

  unarmed_waits :
      {u v : World} → Wait u v → u.host.timer ≡ none → (v.host ≡ u.host) × (v.since ≡ u.since)
  unarmed_waits waited n = (refl, refl)
  unarmed_waits (passing t w le past) n = unarmed_waits w n
  unarmed_waits (firing {v} d w e due) n =
      let (same, since) = unarmed_waits w n in
      let absent : ◌≡◌ {A = Option ℕ} none (some d) =
        sym n ∙ ap (λ (h : Host). h.timer) (sym same) ∙ e in
      cc absent

  release-timer :
      (now : ℕ) (h : Host)
      → (release_and_clear p now h).0 ≡ failed
      → (release_and_clear p now h).1.timer ≡ h.timer
  unfolding release_and_clear
  release-timer now h e =
      let status : (quarantine_release p.programs h.firewall).0 ≡ failed = e in
      rw (status, release_and_clear) refl

  -- After an automatic release that fails, waiting changes nothing: no timer is pending, so however long it lasts, the host
  -- stays as the failed release has left it.
  pub auto_release_in_vain :
      (u v : World)
      → (auto_release_quarantine p u.now u.host).0 ≡ failed
      → Wait (record u { host = (auto_release_quarantine p u.now u.host).1 }) v
      → let h = (auto_release_quarantine p u.now u.host).1 in
        (h.timer ≡ none) × (v.host ≡ h) × (v.since ≡ u.since)
  unfolding auto_release_quarantine
  auto_release_in_vain u v e w =
      let unarmed = release-timer u.now (record u.host { timer = none }) e in
      let (same, since) = unarmed_waits w unarmed in (unarmed, same, since)
