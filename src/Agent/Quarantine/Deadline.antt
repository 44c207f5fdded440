-- ===== src/Agent/Quarantine/Deadline.antt =====
-- The pending release of a quarantine of agent/commander. Commands, the timer, restarts and
-- the passing of time are steps; a step is atomic, and the clock of the host does not go back.
use device_pulse.Prelude.{
  ℕ, ◌*◌, ◌+◌, ◌≤◌, Text, codes, true, false, Option, none, some, if◌then◌else◌, list_beq,
  list_beq_iff, nat_eq, Bool-cases, ◌≡◌, refl, sym, subst, ◌∙◌, inl, inr, arith,
}
use device_pulse.Agent.Firewall.{
  Status, success, failed, unsupported, quarantine_release, quarantine_enable,
}
use device_pulse.Agent.Firewall.Isolation.{Status-cases}
use device_pulse.Agent.Quarantine.{
  full_day, quarantine_duration, Command, until, Host, Platform, whole_seconds,
  arm_quarantine_deadline, release_and_clear, auto_release_quarantine, enable_and_arm, execute,
  resume_quarantine_deadline, stopped,
}

-- `since` is the time of the last enabling that succeeded, if since then no release has succeeded
-- and the automatic release has not run.
pub record World : Type 0 where
  pub now : ℕ
  pub host : Host
  pub since : Option ℕ

abbrev pub since_after : ℕ → Text → Status → Option ℕ → Option ℕ
since_after now kind success since =
    if list_beq kind (codes "quarantine_enable")
    then some now
    else if list_beq kind (codes "quarantine_release")
    then none
    else since
since_after now kind failed since = since
since_after now kind unsupported since = since

-- Time does not pass a pending timer that is not overdue.
abbrev pub NotPast : ℕ → Option ℕ → Type 0
NotPast t none = Unit
NotPast t (some d) = t ≤ d

-- The steps of an agent. An automatic release may succeed or fail.
pub data Step (p : Platform) (w : World) : World → Type 0 where
  commanded :
      (c : Command)
      → Step p w (record {
        now = w.now;
        host = (execute p w.now c w.host).1;
        since = since_after w.now c.kind (execute p w.now c w.host).0 w.since;
      })
  passed : (t : ℕ) → w.now ≤ t → NotPast t w.host.timer → Step p w (record w { now = t })
  fired :
      (d : ℕ)
      → w.host.timer ≡ some d
      → d ≤ w.now
      → Step p w
          (record { now = w.now; host = (auto_release_quarantine p w.now w.host).1; since = none })
  restarted :
      (t : ℕ)
      → w.now ≤ t
      → Step p w (record w { now = t; host = resume_quarantine_deadline p t (stopped w.host) })

pub data Reach (p : Platform) (w : World) : World → Type 0 where
  start : Reach p w w
  later : {u v : World} → Reach p w u → Step p u v → Reach p w v

-- The timer and the file of a quarantine that began at `t`.
pub record Armed (t : ℕ) (h : Host) : Type 0 where
  pub deadline : ℕ
  pub is_pending : h.timer ≡ some deadline
  pub bounded : deadline ≤ t + 30 * full_day
  pub stored : ℕ
  pub on_disk : h.until_file ≡ some (until stored)
  pub stored_bounded : stored ≤ t + 30 * full_day

abbrev pub Kept : Option ℕ → Host → Type 0
Kept none h = Unit
Kept (some t) h = Armed t h

duration_bounded : (m : Option ℕ) → quarantine_duration m ≤ 30 * full_day
unfolding quarantine_duration
duration_bounded none = omega arith
duration_bounded (some m) = ground arith

seconds-le : (t : ℕ) → whole_seconds t ≤ t
seconds-le t = omega arith

module _ (p : Platform) (dir : p.has_data_dir ≡ true) (disk : (t : ℕ) → p.disk_works t ≡ true) where
  arm-Armed :
      (now : ℕ) (m : Option ℕ) (h : Host)
      → Armed now (arm_quarantine_deadline p now (quarantine_duration m) h)
  unfolding arm_quarantine_deadline
  arm-Armed now m h = record {
    deadline = now + quarantine_duration m;
    is_pending = refl;
    bounded = omega (arith, duration_bounded m);
    stored = whole_seconds (now + quarantine_duration m);
    on_disk = rw (dir, disk now) refl;
    stored_bounded = omega (arith, duration_bounded m, seconds-le (now + quarantine_duration m));
  }

  Kept-same :
      (since : Option ℕ) (h h' : Host)
      → (h'.timer ≡ h.timer) × (h'.until_file ≡ h.until_file)
      → Kept since h
      → Kept since h'
  Kept-same none h h' same k = tt
  Kept-same (some t) h h' same k = record {
    deadline = k.deadline;
    is_pending = same.0 ∙ k.is_pending;
    bounded = k.bounded;
    stored = k.stored;
    on_disk = same.1 ∙ k.on_disk;
    stored_bounded = k.stored_bounded;
  }

  -- A command that is neither of the two keeps the timer and the file.
  execute-other :
      (now : ℕ) (c : Command) (h : Host)
      → list_beq c.kind (codes "quarantine_enable") ≡ false
      → list_beq c.kind (codes "quarantine_release") ≡ false
      → ((execute p now c h).1.timer ≡ h.timer) × ((execute p now c h).1.until_file ≡ h.until_file)
  unfolding execute
  execute-other now c h e r = elim (Bool-cases (list_beq c.kind (codes "collect_now"))) [
    | inl x ↦ rw x (refl, refl)
    | inr x ↦ elim (Bool-cases (list_beq c.kind (codes "restart_agent"))) [
      | inl y ↦ rw (x, y) (refl, refl)
      | inr y ↦ elim (Bool-cases (list_beq c.kind (codes "lock_screen"))) [
        | inl z ↦ rw (x, y, z) (refl, refl)
        | inr z ↦ elim (Bool-cases (list_beq c.kind (codes "wipe_agent"))) [
          | inl v ↦ rw (x, y, z, e, r, v) (refl, refl)
          | inr v ↦ rw (x, y, z, e, r, v) (refl, refl)
        ]
      ]
    ]
  ]

  -- The two that change it.
  execute-enable :
      (now : ℕ) (c : Command) (h : Host)
      → list_beq c.kind (codes "quarantine_enable") ≡ true
      → execute p now c h ≡ enable_and_arm p now c.duration_minutes h
  unfolding execute list_beq
  execute-enable now c h e = rw ((list_beq_iff c.kind (codes "quarantine_enable")).0 e) refl

  execute-release :
      (now : ℕ) (c : Command) (h : Host)
      → list_beq c.kind (codes "quarantine_release") ≡ true
      → execute p now c h ≡ release_and_clear p now h
  unfolding execute list_beq
  execute-release now c h e = rw ((list_beq_iff c.kind (codes "quarantine_release")).0 e) refl

  enable-Kept :
      (now : ℕ) (kind : Text) (m since : Option ℕ) (h : Host)
      → list_beq kind (codes "quarantine_enable") ≡ true
      → Kept since h
      → let (status, h') = enable_and_arm p now m h in Kept (since_after now kind status since) h'
  unfolding enable_and_arm
  enable-Kept now kind m since h e k =
      let q = quarantine_enable p.programs p.api_ips h.firewall in
      elim (Status-cases q.0) [
        | inl x ↦ rw (x, e, enable_and_arm) (arm-Armed now m (record h { firewall = q.1 }))
        | inr (inl x) ↦
            rw (x, enable_and_arm) (Kept-same since h (record h { firewall = q.1 }) (refl, refl) k)
        | inr (inr x) ↦
            rw (x, enable_and_arm) (Kept-same since h (record h { firewall = q.1 }) (refl, refl) k)
      ]

  release-Kept :
      (now : ℕ) (kind : Text) (since : Option ℕ) (h : Host)
      → list_beq kind (codes "quarantine_enable") ≡ false
      → list_beq kind (codes "quarantine_release") ≡ true
      → Kept since h
      → let (status, h') = release_and_clear p now h in Kept (since_after now kind status since) h'
  unfolding release_and_clear
  release-Kept now kind since h e r k =
      let q = quarantine_release p.programs h.firewall in
      elim (Status-cases q.0) [
        | inl x ↦ rw (x, e, r, release_and_clear) tt
        | inr (inl x) ↦
            rw (x, release_and_clear)
              (Kept-same since h (record h { firewall = q.1 }) (refl, refl) k)
        | inr (inr x) ↦
            rw (x, release_and_clear)
              (Kept-same since h (record h { firewall = q.1 }) (refl, refl) k)
      ]

  since_other :
      (now : ℕ) (kind : Text) (status : Status) (since : Option ℕ)
      → list_beq kind (codes "quarantine_enable") ≡ false
      → list_beq kind (codes "quarantine_release") ≡ false
      → since_after now kind status since ≡ since
  since_other now kind success since e r = rw (e, r) refl
  since_other now kind failed since e r = refl
  since_other now kind unsupported since e r = refl

  commanded-Kept :
      (now : ℕ) (c : Command) (since : Option ℕ) (h : Host)
      → Kept since h
      → Kept (since_after now c.kind (execute p now c h).0 since) (execute p now c h).1
  commanded-Kept now c since h k =
      let Fine : Status × Host → Type 0 = λ r. Kept (since_after now c.kind r.0 since) r.1 in
      elim (Bool-cases (list_beq c.kind (codes "quarantine_enable"))) [
        | inl e ↦
            subst Fine (sym (execute-enable now c h e))
              (enable-Kept now c.kind c.duration_minutes since h e k)
        | inr e ↦ elim (Bool-cases (list_beq c.kind (codes "quarantine_release"))) [
          | inl r ↦
              subst Fine (sym (execute-release now c h r)) (release-Kept now c.kind since h e r k)
          | inr r ↦
              subst (λ s. Kept s (execute p now c h).1)
                (sym (since_other now c.kind (execute p now c h).0 since e r))
                (Kept-same since h (execute p now c h).1 (execute-other now c h e r) k)
        ]
      ]

  resume-Kept :
      (now : ℕ) (since : Option ℕ) (h : Host)
      → Kept since h
      → Kept since (resume_quarantine_deadline p now (stopped h))
  unfolding resume_quarantine_deadline
  resume-Kept now none h k = tt
  resume-Kept now (some t) h k = record {
    deadline = k.stored;
    is_pending = rw (dir, k.on_disk) refl;
    bounded = k.stored_bounded;
    stored = k.stored;
    on_disk = rw (dir, k.on_disk, k.on_disk) refl;
    stored_bounded = k.stored_bounded;
  }

  Step-Kept : {u v : World} → Step p u v → Kept u.since u.host → Kept v.since v.host
  Step-Kept {u} (commanded c) k = commanded-Kept u.now c u.since u.host k
  Step-Kept (passed t le past) k = k
  Step-Kept (fired d pending due) k = tt
  Step-Kept {u} (restarted t le) k = resume-Kept t u.since u.host k

  Reach-Kept : {u v : World} → Reach p u v → Kept u.since u.host → Kept v.since v.host
  Reach-Kept start k = k
  Reach-Kept (later r s) k = Step-Kept s (Reach-Kept r k)

  -- From an enabling that succeeds until a release succeeds or the automatic release has run, the
  -- release is pending at most 30 days after the last such enabling, and a time within that bound is
  -- on the disk too: in every state that commands, restarts, the passing of time and automatic
  -- releases, which may fail, reach from a host with no such enabling, when the data directory is
  -- set and the disk works.
  pub quarantine-Armed :
      (u v : World) (t : ℕ) → u.since ≡ none → Reach p u v → v.since ≡ some t → Armed t v.host
  quarantine-Armed u v t free r e =
      let k = Reach-Kept r (subst (λ s. Kept s u.host) (sym free) tt) in
      subst (λ s. Kept s v.host) e k
