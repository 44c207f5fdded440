-- ===== src/Agent/Quarantine.antt =====
-- The commands that the agent executes, agent/commander/commander.go, and the deadline of a
-- quarantine, agent/commander/quarantine_timer.go. A time is in nanoseconds; a number of minutes is
-- given as the nanoseconds that it stands for, and a negative one as 0.
pub mod Deadline
pub mod Vain
use device_pulse.Prelude.{
  ℕ, ◌*◌, ◌+◌, ◌/◌, Text, codes, Bool, true, false, not, ◌&&◌, List, Option, none, some, ltb,
  if◌then◌else◌, list_beq, nat_eq,
}
use device_pulse.Agent.Firewall.{
  Status, success, failed, unsupported, Firewall, Programs, quarantine_release, quarantine_enable,
}

abbrev pub second : ℕ
second = 1000000000

abbrev pub full_minute : ℕ
full_minute = 60 * second

abbrev pub full_day : ℕ
full_day = 24 * 60 * full_minute

-- What `params` has as `duration_minutes`, if it is a number.
unfoldable pub quarantine_duration : Option ℕ → ℕ
quarantine_duration none = full_day
quarantine_duration (some minutes) =
    if ltb minutes full_minute
    then full_day
    else if ltb (30 * full_day) minutes
    then 30 * full_day
    else minutes

pub record Command : Type 0 where
  pub kind : Text
  pub duration_minutes : Option ℕ

-- quarantine_until: a time, or what is not one.
pub data UntilFile : Type 0 where
  until : ℕ → UntilFile
  not_a_time : UntilFile

-- `timer` is when the pending timer fires; `collect_token` says that the channel of one token is
-- full; `restarting` and `wiping` say that the goroutine is started that restarts or wipes.
pub record Host : Type 0 where
  pub firewall : Firewall
  pub timer : Option ℕ
  pub until_file : Option UntilFile
  pub collect_token : Bool
  pub restarting : Bool
  pub wiping : Bool

-- The addresses of the API, whether the data directory is set, whether a write or a removal
-- succeeds at a time, and what the platform's lock of the screen returns.
pub record Platform : Type 0 where
  pub programs : Programs
  pub api_ips : List Text
  pub has_data_dir : Bool
  pub disk_works : ℕ → Bool
  pub locks : ℕ → Status

abbrev pub notify_collect_now : Host → Host
notify_collect_now h = record h { collect_token = true }

-- The file holds whole seconds.
abbrev pub whole_seconds : ℕ → ℕ
whole_seconds t = t / second * second

unfoldable pub arm_quarantine_deadline : Platform → ℕ → ℕ → Host → Host
arm_quarantine_deadline p now d h = record h {
  timer = some (now + d);
  until_file =
      if p.has_data_dir && p.disk_works now
      then some (until (whole_seconds (now + d)))
      else h.until_file;
}

unfoldable pub clear_quarantine_deadline : Platform → ℕ → Host → Host
clear_quarantine_deadline p now h = record h {
  timer = none;
  until_file = if p.has_data_dir && p.disk_works now then none else h.until_file;
}

-- A release, and the clearing of the deadline if it succeeds.
unfoldable pub release_and_clear : Platform → ℕ → Host → Status × Host
release_and_clear p now h =
    let (status, firewall) = quarantine_release p.programs h.firewall in
    let released = record h { firewall = firewall } in
    (
      status,
      elim status [
        | success ↦ clear_quarantine_deadline p now released
        | failed ↦ released
        | unsupported ↦ released
      ],
    )

-- The timer has fired.
unfoldable pub auto_release_quarantine : Platform → ℕ → Host → Status × Host
auto_release_quarantine p now h = release_and_clear p now (record h { timer = none })

unfoldable pub enable_and_arm : Platform → ℕ → Option ℕ → Host → Status × Host
enable_and_arm p now minutes h =
    let (status, firewall) = quarantine_enable p.programs p.api_ips h.firewall in
    let enabled = record h { firewall = firewall } in
    (
      status,
      elim status [
        | success ↦ arm_quarantine_deadline p now (quarantine_duration minutes) enabled
        | failed ↦ enabled
        | unsupported ↦ enabled
      ],
    )

-- The status that is reported, and the host; the words of the detail are left out.
unfoldable pub execute : Platform → ℕ → Command → Host → Status × Host
execute p now c h =
    if list_beq c.kind (codes "collect_now")
    then (success, notify_collect_now h)
    else if list_beq c.kind (codes "restart_agent")
    then (success, record h { restarting = true })
    else if list_beq c.kind (codes "lock_screen")
    then (p.locks now, h)
    else if list_beq c.kind (codes "quarantine_enable")
    then enable_and_arm p now c.duration_minutes h
    else if list_beq c.kind (codes "quarantine_release")
    then release_and_clear p now h
    else if list_beq c.kind (codes "wipe_agent")
    then (success, record h { wiping = true })
    else (unsupported, h)

-- A restart of the process loses the timer; this is its start.
unfoldable pub resume_quarantine_deadline : Platform → ℕ → Host → Host
resume_quarantine_deadline p now h = if not p.has_data_dir then h else elim h.until_file [
  | none ↦ h
  | some file ↦ elim file [
    | until t ↦ record h { timer = some t }
    | not_a_time ↦ record h { until_file = if p.disk_works now then none else h.until_file }
  ]
]

abbrev pub stopped : Host → Host
stopped h = record h { timer = none; collect_token = false; restarting = false; wiping = false }
