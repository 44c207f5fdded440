-- ===== src/Agent/Firewall/Isolation.antt =====
-- What agent/commander/quarantine_linux.go puts in place, and that a release takes it away.
use device_pulse.Prelude.{
  ◌-◌, ◌≤◌, Text, Bool, true, false, List, Bool-cases, ◌≡◌, refl, ap, ◌∙◌, ◌⊎◌, inl, inr,
}
use device_pulse.Agent.Firewall.{
  Status, success, failed, unsupported, Family, v4, v6, Hook, input, output, Rule, hooks, Firewall,
  tables, Programs, split_ip_families, chain_rules, apply_quarantine_chain, quarantine_release,
  quarantine_enable,
}
use device_pulse.Agent.Firewall.Release.{Truthful, hooks-quarantine_release}
use device_pulse.Agent.Firewall.Chain.{isolated, single, apply-tables, apply-other}

pub Status-cases : (s : Status) → (s ≡ success) ⊎ ((s ≡ failed) ⊎ (s ≡ unsupported))
Status-cases success = inl refl
Status-cases failed = inr (inl refl)
Status-cases unsupported = inr (inr refl)

-- The addresses of a family, and whether it is IPv6.
abbrev pub ips_for : Family → List Text → List Text
ips_for v4 ips = (split_ip_families ips).0
ips_for v6 ips = (split_ip_families ips).1

abbrev pub is_v6 : Family → Bool
is_v6 v4 = false
is_v6 v6 = true

one_less :
    (c : List Rule) (g : Hook)
    → hooks g (record { chain = c; input_hooks = 1; output_hooks = 1 }) - 1 ≡ 0
one_less c input = refl
one_less c output = refl

module _ (p : Programs) (truthful : Truthful p) where
  -- What an enabling that succeeds has gone through.
  enabled :
      (ips : List Text) (fw : Firewall)
      → (quarantine_enable p ips fw).0 ≡ success
      → let a4 = apply_quarantine_chain p v4 (ips_for v4 ips) false fw in
        let a6 = apply_quarantine_chain p v6 (ips_for v6 ips) true a4.1 in
        (a4.0 ≡ success)
        × (((p.installed v6 ≡ true) × (a6.0 ≡ success) × ((quarantine_enable p ips fw).1 ≡ a6.1))
            ⊎ ((p.installed v6 ≡ false) × ((quarantine_enable p ips fw).1 ≡ a4.1)))
  unfolding quarantine_enable
  enabled ips fw e =
      let a4 = apply_quarantine_chain p v4 (ips_for v4 ips) false fw in
      let a6 = apply_quarantine_chain p v6 (ips_for v6 ips) true a4.1 in
      elim (Bool-cases (p.installed v4)) [
        | inr n ↦ let a : ◌≡◌ {A = Status} unsupported success = rw n at e in cc a
        | inl i ↦ elim (Status-cases a4.0) [
          | inr (inl x) ↦
              let a : ◌≡◌ {A = Status} failed success = rw (i, x, quarantine_enable) at e in cc a
          | inr (inr x) ↦
              let a : ◌≡◌ {A = Status} unsupported success = rw (i, x, quarantine_enable) at e in
              cc a
          | inl x ↦ elim (Bool-cases (p.installed v6)) [
            | inr n ↦ (x, inr (n, rw (i, x, n, quarantine_enable) refl))
            | inl j ↦ elim (Status-cases a6.0) [
              | inr (inl y) ↦
                  let a : ◌≡◌ {A = Status} failed success =
                    rw (i, x, j, y, quarantine_enable) at e in
                  cc a
              | inr (inr y) ↦
                  let a : ◌≡◌ {A = Status} failed success =
                    rw (i, x, j, y, quarantine_enable) at e in
                  cc a
              | inl y ↦ (x, inl (j, y, rw (i, x, j, y, quarantine_enable) refl))
            ]
          ]
        ]
      ]

  -- An enabling that succeeds leaves, in each family whose program is installed, the whole chain and nothing else in it,
  -- and one jump to it from INPUT and one from OUTPUT, when there was at most one jump from each before.
  pub quarantine_enable-isolates :
      (f : Family) (ips : List Text) (fw : Firewall)
      → p.installed f ≡ true
      → (tables f fw).input_hooks ≤ 1
      → (tables f fw).output_hooks ≤ 1
      → (quarantine_enable p ips fw).0 ≡ success
      → tables f (quarantine_enable p ips fw).1 ≡ record {
        chain = chain_rules (ips_for f ips) (is_v6 f);
        input_hooks = 1;
        output_hooks = 1;
      }
  quarantine_enable-isolates v4 ips fw i one_in one_out e =
      let a4 = apply_quarantine_chain p v4 (ips_for v4 ips) false fw in
      let (fine, rest) = enabled ips fw e in
      let done =
        apply-tables p truthful v4 (ips_for v4 ips) false fw fine
        ∙ single p truthful (chain_rules (ips_for v4 ips) false) (tables v4 fw) one_in one_out in
      elim rest [
        | inl (j, also, same) ↦
            ap (tables v4) same ∙ apply-other p truthful v6 (ips_for v6 ips) true a4.1 ∙ done
        | inr (n, same) ↦ ap (tables v4) same ∙ done
      ]
  quarantine_enable-isolates v6 ips fw i one_in one_out e =
      let a4 = apply_quarantine_chain p v4 (ips_for v4 ips) false fw in
      let (fine, rest) = enabled ips fw e in
      elim rest [
        | inl (j, also, same) ↦
            ap (tables v6) same
            ∙ apply-tables p truthful v6 (ips_for v6 ips) true a4.1 also
            ∙ ap (isolated p truthful (chain_rules (ips_for v6 ips) true))
                (apply-other p truthful v4 (ips_for v4 ips) false fw)
            ∙ single p truthful (chain_rules (ips_for v6 ips) true) (tables v6 fw) one_in one_out
        | inr (n, same) ↦ cc (i, n)
      ]

  -- A release that succeeds after such an enabling leaves no jump to the chain, in each family whose program is installed.
  pub release-enable :
      (f : Family) (g : Hook) (ips : List Text) (fw : Firewall)
      → p.installed f ≡ true
      → (tables f fw).input_hooks ≤ 1
      → (tables f fw).output_hooks ≤ 1
      → (quarantine_enable p ips fw).0 ≡ success
      → (quarantine_release p (quarantine_enable p ips fw).1).0 ≡ success
      → hooks g (tables f (quarantine_release p (quarantine_enable p ips fw).1).1) ≡ 0
  release-enable f g ips fw i one_in one_out e r =
      hooks-quarantine_release p truthful f g (quarantine_enable p ips fw).1 i r
      ∙ ap (λ t. hooks g t - 1) (quarantine_enable-isolates f ips fw i one_in one_out e)
      ∙ one_less (chain_rules (ips_for f ips) (is_v6 f)) g
