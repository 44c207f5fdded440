-- ===== src/Tests/Quarantine.antt =====
-- A Linux host with both programs, whose commands succeed.
use device_pulse.Prelude.{
  ℕ, Text, codes, Bool, true, false, List, [], ◌∷◌, Option, none, some, ltb, filter, list_beq,
  nat_eq, ◌≡◌, refl, arith,
}
use device_pulse.Agent.Firewall.{
  success, failed, Family, v6, output, Command, check, insert_hook, delete_hook, Tables, hooks,
  Firewall, tables, Programs, chain_rules, exec_command, append_rules, hook_chain,
  apply_quarantine_chain, unhook_chain, release_family, quarantine_release, quarantine_enable,
}
use device_pulse.Agent.Firewall.Release.{Truthful}
use device_pulse.Agent.Firewall.Isolation.{ips_for, quarantine_enable-isolates}
use device_pulse.Agent.Quarantine.{
  Host, Platform, UntilFile, execute, enable_and_arm, arm_quarantine_deadline, quarantine_duration,
  release_and_clear, clear_quarantine_deadline, auto_release_quarantine, resume_quarantine_deadline,
  stopped, second, full_minute, full_day,
}
use device_pulse.Agent.Quarantine.Deadline.{
  World, Reach, start, later, Step, commanded, restarted, Armed, quarantine-Armed,
}
use device_pulse.Agent.Quarantine.Vain.{Wait, waited, passing, auto_release_in_vain}

abbrev answer : Family → Command → Firewall → Bool
answer f (check h) fw = ltb 0 (hooks h (tables f fw))
answer f c fw = true

abbrev programs : Programs
programs = record { installed = λ f. true; answers = answer }

truthful : Truthful programs
truthful f h fw = refl

abbrev empty : Tables
empty = record { chain = []; input_hooks = 0; output_hooks = 0 }

abbrev firewall : Firewall
firewall = record { ipv4 = empty; ipv6 = empty; ran = 0 }

-- One IPv4 and one IPv6 address.
abbrev ips : List Text
ips = codes "10.0.0.1" ∷ codes "fd00::1" ∷ []

quarantine_enable-isolates_example :
    tables v6 (quarantine_enable programs ips firewall).1
    ≡ record { chain = chain_rules (ips_for v6 ips) true; input_hooks = 1; output_hooks = 1 }
unfolding quarantine_enable apply_quarantine_chain append_rules hook_chain exec_command filter
quarantine_enable-isolates_example =
    quarantine_enable-isolates programs truthful v6 ips firewall refl (omega arith) (omega arith)
      refl

-- A program that cannot insert the hook of OUTPUT: the command fails, the hook of INPUT stays, and
-- no deadline is armed.
abbrev half : Family → Command → Firewall → Bool
half f (insert_hook output) fw = false
half f c fw = answer f c fw

abbrev half_programs : Programs
half_programs = record { installed = λ f. true; answers = half }

abbrev platform : Programs → Platform
platform p = record {
  programs = p;
  api_ips = ips;
  has_data_dir = true;
  disk_works = λ t. true;
  locks = λ t. success;
}

abbrev host : Host
host = record {
  firewall = firewall;
  timer = none;
  until_file = none;
  collect_token = false;
  restarting = false;
  wiping = false;
}

abbrev enables : device_pulse.Agent.Quarantine.Command
enables = record { kind = codes "quarantine_enable"; duration_minutes = none }

half_isolated :
    let (status, h) = execute (platform half_programs) 5 enables host in
    (status ≡ failed) × (h.firewall.ipv4.input_hooks ≡ 1) × (h.timer ≡ none)
unfolding execute enable_and_arm quarantine_enable apply_quarantine_chain append_rules hook_chain
    exec_command filter list_beq
half_isolated = (refl, refl, refl)

abbrev before : World
before = record { now = 5; host = host; since = none }

abbrev isolated_host : Host
isolated_host = (execute (platform programs) 5 enables host).1

abbrev after : World
after = record { now = 5; host = isolated_host; since = some 5 }

-- The enabling, and a restart of the agent ten seconds later.
abbrev restarted_world : World
restarted_world = record {
  now = 10_000_000_005;
  host = resume_quarantine_deadline (platform programs) 10_000_000_005 (stopped isolated_host);
  since = some 5;
}

enabling : Step (platform programs) before after
unfolding execute enable_and_arm quarantine_enable apply_quarantine_chain append_rules hook_chain
    exec_command filter list_beq
enabling = commanded enables

restarts : Reach (platform programs) before restarted_world
restarts = later (later start enabling) (restarted 10_000_000_005 (omega arith))

quarantine-Armed_example : Armed 5 restarted_world.host
quarantine-Armed_example =
    quarantine-Armed (platform programs) refl (λ t. refl) before restarted_world 5 refl restarts
      refl

-- A program that cannot take a hook away.
abbrev stuck : Family → Command → Firewall → Bool
stuck f (delete_hook h) fw = false
stuck f c fw = answer f c fw

abbrev stuck_programs : Programs
stuck_programs = record { installed = λ f. true; answers = stuck }

abbrev overdue : World
overdue = record {
  now = 90;
  host = record host {
    firewall = record firewall { ipv4 = record empty { input_hooks = 1 } };
    timer = some 90;
  };
  since = some 5;
}

abbrev left : Host
left = (auto_release_quarantine (platform stuck_programs) 90 overdue.host).1

waits :
    Wait
      (platform stuck_programs)
      (record overdue { host = left })
      (record { now = 1000; host = left; since = some 5 })
unfolding auto_release_quarantine release_and_clear quarantine_release release_family unhook_chain
    exec_command
waits = passing 1000 waited (omega arith) tt

auto_release_in_vain_example :
    (left.timer ≡ none) × (left ≡ left) × (◌≡◌ {A = Option ℕ} (some 5) (some 5))
unfolding auto_release_quarantine release_and_clear quarantine_release release_family unhook_chain
    exec_command
auto_release_in_vain_example =
    auto_release_in_vain (platform stuck_programs) overdue
      (record { now = 1000; host = left; since = some 5 }) refl waits
