-- ===== src/Agent/Firewall.antt =====
-- The isolation of a Linux host, agent/commander/quarantine_linux.go. The programs iptables and
-- ip6tables are outside: `answers` says which of their commands succeed, and a command that does has
-- the effect its manual gives. The words of a detail are left out.
pub mod Release
pub mod Chain
pub mod Isolation
use device_pulse.Prelude.{
  ℕ, ◌+◌, ◌-◌, Text, Bool, true, false, not, ◌&&◌, ◌||◌, List, [], ◌∷◌, ◌++◌, ltb, if◌then◌else◌,
  filter, ◌==◌,
}

pub data Status : Type 0 where
  success : Status
  failed : Status
  unsupported : Status

-- iptables and ip6tables
pub data Family : Type 0 where
  v4 : Family
  v6 : Family

pub data Hook : Type 0 where
  input : Hook
  output : Hook

pub data Rule : Type 0 where
  loopback_in : Rule
  loopback_out : Rule
  established : Rule
  dns_udp : Rule
  dns_tcp : Rule
  dhcp : Rule
  dhcp_v6 : Rule
  icmp_v6 : Rule
  to_ip : Text → Rule
  from_ip : Text → Rule
  drop_rest : Rule

-- -N, -F, -A, -C, -I, -D, -L and -X of the chain DEVICEPULSE_Q.
pub data Command : Type 0 where
  new_chain : Command
  flush : Command
  append : Rule → Command
  check : Hook → Command
  insert_hook : Hook → Command
  delete_hook : Hook → Command
  list_chain : Command
  delete_chain : Command

-- The chain, and how often INPUT and OUTPUT jump to it.
pub record Tables : Type 0 where
  pub chain : List Rule
  pub input_hooks : ℕ
  pub output_hooks : ℕ

abbrev pub hooks : Hook → Tables → ℕ
hooks input t = t.input_hooks
hooks output t = t.output_hooks

abbrev pub set_hooks : Hook → ℕ → Tables → Tables
set_hooks input n t = record t { input_hooks = n }
set_hooks output n t = record t { output_hooks = n }

abbrev pub effect : Command → Tables → Tables
effect new_chain t = record t { chain = [] }
effect flush t = record t { chain = [] }
effect (append r) t = record t { chain = t.chain ++ r ∷ [] }
effect (check h) t = t
effect (insert_hook h) t = set_hooks h (hooks h t + 1) t
effect (delete_hook h) t = set_hooks h (hooks h t - 1) t
effect list_chain t = t
effect delete_chain t = record t { chain = [] }

-- `ran` counts the commands, so that the same command may fail once and succeed later.
pub record Firewall : Type 0 where
  pub ipv4 : Tables
  pub ipv6 : Tables
  pub ran : ℕ

abbrev pub tables : Family → Firewall → Tables
tables v4 fw = fw.ipv4
tables v6 fw = fw.ipv6

abbrev pub set_tables : Family → Tables → Firewall → Firewall
set_tables v4 t fw = record fw { ipv4 = t }
set_tables v6 t fw = record fw { ipv6 = t }

-- Whether `--version` runs, and what the other commands answer.
pub record Programs : Type 0 where
  pub installed : Family → Bool
  pub answers : Family → Command → Firewall → Bool

unfoldable pub exec_command : Programs → Family → Command → Firewall → Bool × Firewall
exec_command p f c fw =
    let fine = p.answers f c fw in
    (
      fine,
      record (set_tables f (if fine then effect c (tables f fw) else tables f fw) fw) {
        ran = fw.ran + 1;
      },
    )

-- An IPv6 literal has a colon.
abbrev pub has_colon : Text → Bool
has_colon [] = false
has_colon (c ∷ s) = (c == b':') || has_colon s

abbrev pub split_ip_families : List Text → List Text × List Text
split_ip_families ips = (filter (λ ip. not (has_colon ip)) ips, filter has_colon ips)

abbrev pub ip_rules : List Text → List Rule
ip_rules [] = []
ip_rules (ip ∷ ips) = to_ip ip ∷ from_ip ip ∷ ip_rules ips

abbrev pub family_rules : Bool → List Rule
family_rules true = dhcp_v6 ∷ icmp_v6 ∷ []
family_rules false = dhcp ∷ []

abbrev pub chain_rules : List Text → Bool → List Rule
chain_rules ips is_v6 =
    loopback_in
    ∷ loopback_out
    ∷ established
    ∷ dns_udp
    ∷ dns_tcp
    ∷ (family_rules is_v6 ++ (ip_rules ips ++ drop_rest ∷ []))

unfoldable pub append_rules : Programs → Family → List Rule → Firewall → Bool × Firewall
append_rules p f [] fw = (true, fw)
append_rules p f (r ∷ rs) fw =
    let (fine, appended) = exec_command p f (append r) fw in
    let rest = append_rules p f rs appended in if fine then rest else (false, appended)

-- One turn of the loop over the hooks: whether it adds no failure.
unfoldable pub hook_chain : Programs → Family → Hook → Firewall → Bool × Firewall
hook_chain p f h fw =
    let (there_is, checked) = exec_command p f (check h) fw in
    if there_is then (true, checked) else exec_command p f (insert_hook h) checked

unfoldable pub apply_quarantine_chain :
    Programs → Family → List Text → Bool → Firewall → Status × Firewall
apply_quarantine_chain p f ips is_v6 fw =
    let (created, named) = exec_command p f new_chain fw in
    let (emptied, empty) = exec_command p f flush named in
    if not emptied
    then (failed, empty)
    else let (ruled, filled) = append_rules p f (chain_rules ips is_v6) empty in
      if not ruled
      then (failed, filled)
      else let (fine_in, hooked_in) = hook_chain p f input filled in
        let (fine_out, hooked) = hook_chain p f output hooked_in in
        (if fine_in && fine_out then success else failed, hooked)

-- Whether it adds no note.
unfoldable pub unhook_chain : Programs → Family → Hook → Firewall → Bool × Firewall
unhook_chain p f h fw =
    let (there_is, checked) = exec_command p f (check h) fw in
    if not there_is then (true, checked) else exec_command p f (delete_hook h) checked

unfoldable pub release_family : Programs → Family → Firewall → Bool × Firewall
release_family p f fw =
    if not (p.installed f)
    then (true, fw)
    else let (fine_in, unhooked_in) = unhook_chain p f input fw in
      let (fine_out, unhooked) = unhook_chain p f output unhooked_in in
      let (present, listed) = exec_command p f list_chain unhooked in
      let (flushed, emptied) = exec_command p f flush listed in
      let (deleted, gone) = exec_command p f delete_chain emptied in
      if not present
      then (fine_in && fine_out, listed)
      else ((fine_in && fine_out) && (flushed && deleted), gone)

unfoldable pub quarantine_release : Programs → Firewall → Status × Firewall
quarantine_release p fw =
    let (fine_v4, released_v4) = release_family p v4 fw in
    let (fine_v6, released) = release_family p v6 released_v4 in
    (if fine_v4 && fine_v6 then success else failed, released)

-- `ips` is what the name of the API's host resolves to.
unfoldable pub quarantine_enable : Programs → List Text → Firewall → Status × Firewall
quarantine_enable p ips fw =
    if not (p.installed v4)
    then (unsupported, fw)
    else let (ips_v4, ips_v6) = split_ip_families ips in
      let (status, applied) = apply_quarantine_chain p v4 ips_v4 false fw in
      elim status [
        | success ↦
            if p.installed v6
            then (let (status_v6, both) = apply_quarantine_chain p v6 ips_v6 true applied in
                elim status_v6 [
                  | success ↦ (success, both)
                  | failed ↦ (failed, (quarantine_release p both).1)
                  | unsupported ↦ (failed, (quarantine_release p both).1)
                ])
            else (success, applied)
        | failed ↦ (failed, applied)
        | unsupported ↦ (unsupported, applied)
      ]
