-- ===== src/Agent/Firewall/Chain.antt =====
-- The chain of one family that agent/commander/quarantine_linux.go builds.
use device_pulse.Prelude.{
  ◌+◌, ◌≤◌, ◌<◌, max, Text, Bool, true, false, ◌&&◌, List, [], ◌∷◌, ◌++◌, ltb, if◌then◌else◌,
  Bool-cases, ◌≡◌, refl, sym, ap, ◌∙◌, inl, inr, arith,
}
use device_pulse.Agent.Firewall.{
  Status, success, failed, Family, Hook, input, output, Rule, Command, new_chain, append, flush,
  check, insert_hook, Tables, hooks, effect, Firewall, tables, Programs, exec_command, chain_rules,
  append_rules, hook_chain, apply_quarantine_chain, set_hooks,
}
use device_pulse.Agent.Firewall.Release.{
  other, tables-exec, tables-exec-other, checked, exec_command-answers, Truthful, both_fine,
}
use mathlib.Core.List.{append_assoc, append-nil}

exec_fine :
    (p : Programs) (f : Family) (c : Command) (fw : Firewall)
    → (exec_command p f c fw).0 ≡ true
    → tables f (exec_command p f c fw).1 ≡ effect c (tables f fw)
exec_fine p f c fw e =
    let fine : p.answers f c fw ≡ true = sym (exec_command-answers p f c fw) ∙ e in
    tables-exec p f c fw ∙ rw fine refl

new_chain-hooks :
    (p : Programs) (f : Family) (fw : Firewall)
    → ◌≡◌ {A = Tables}
        (record (tables f (exec_command p f new_chain fw).1) { chain = [] })
        (record (tables f fw) { chain = [] })
new_chain-hooks p f fw =
    ap (λ (u : Tables). record u { chain = [] }) (tables-exec p f new_chain fw)
    ∙ elim (Bool-cases (p.answers f new_chain fw)) [ inl e ↦ rw e refl | inr e ↦ rw e refl ]

append_rules-tables :
    (p : Programs) (f : Family) (rs : List Rule) (fw : Firewall)
    → (append_rules p f rs fw).0 ≡ true
    → tables f (append_rules p f rs fw).1
      ≡ record (tables f fw) { chain = (tables f fw).chain ++ rs }
unfolding append_rules
append_rules-tables p f [] fw e =
    ap (λ c. record (tables f fw) { chain = c }) (sym (append-nil (tables f fw).chain))
append_rules-tables p f (r ∷ rs) fw e =
    let t = exec_command p f (append r) fw in
    elim (Bool-cases t.0) [
      | inl y ↦
          let rest = append_rules-tables p f rs t.1 (rw y at e) in
          rw y (
            rest
            ∙ ap (λ (u : Tables). record u { chain = u.chain ++ rs })
                (exec_fine p f (append r) fw y)
            ∙ ap (λ c. record (tables f fw) { chain = c })
                (append_assoc (tables f fw).chain (r ∷ []) rs))
      | inr n ↦ let absent : ◌≡◌ {A = Bool} false true = rw n at e in cc absent
    ]

append_rules-other :
    (p : Programs) (f : Family) (rs : List Rule) (fw : Firewall)
    → tables (other f) (append_rules p f rs fw).1 ≡ tables (other f) fw
unfolding append_rules
append_rules-other p f [] fw = refl
append_rules-other p f (r ∷ rs) fw =
    let t = exec_command p f (append r) fw in
    elim (Bool-cases t.0) [
      | inl y ↦ rw y (append_rules-other p f rs t.1 ∙ tables-exec-other p f (append r) fw)
      | inr n ↦ rw n (tables-exec-other p f (append r) fw)
    ]

hook_chain-other :
    (p : Programs) (f : Family) (h : Hook) (fw : Firewall)
    → tables (other f) (hook_chain p f h fw).1 ≡ tables (other f) fw
unfolding hook_chain
hook_chain-other p f h fw =
    let t = exec_command p f (check h) fw in
    let same = tables-exec-other p f (check h) fw in
    elim (Bool-cases t.0) [
      | inl y ↦ rw y same
      | inr n ↦ rw n (tables-exec-other p f (insert_hook h) t.1 ∙ same)
    ]

set_hooks_there : (h : Hook) (t : Tables) → 0 < hooks h t → t ≡ set_hooks h (max (hooks h t) 1) t
set_hooks_there input t e =
    let same : t.input_hooks ≡ max t.input_hooks 1 = omega (arith, e) in
    ap (λ n. record t { input_hooks = n }) same
set_hooks_there output t e =
    let same : t.output_hooks ≡ max t.output_hooks 1 = omega (arith, e) in
    ap (λ n. record t { output_hooks = n }) same

set_hooks_new :
    (h : Hook) (t : Tables)
    → hooks h t ≡ 0
    → set_hooks h (hooks h t + 1) t ≡ set_hooks h (max (hooks h t) 1) t
set_hooks_new h t e = ap (λ n. set_hooks h n t) (omega (arith, e))

module _ (p : Programs) (truthful : Truthful p) where
  hook_chain-tables :
      (f : Family) (h : Hook) (fw : Firewall)
      → (hook_chain p f h fw).0 ≡ true
      → tables f (hook_chain p f h fw).1 ≡ set_hooks h (max (hooks h (tables f fw)) 1) (tables f fw)
  unfolding hook_chain
  hook_chain-tables f h fw e =
      let t = exec_command p f (check h) fw in
      let answer = exec_command-answers p f (check h) fw ∙ truthful f h fw in
      elim (Bool-cases (ltb 0 (hooks h (tables f fw)))) [
        | inl y ↦ rw (answer, y) (checked p f h fw ∙ set_hooks_there h (tables f fw) (ground arith))
        | inr n ↦
            let fine : (exec_command p f (insert_hook h) t.1).0 ≡ true = rw (answer, n) at e in
            rw (answer, n)
              (exec_fine p f (insert_hook h) t.1 fine
                ∙ rw (checked p f h fw) (set_hooks_new h (tables f fw) (ground arith)))
      ]

  -- The tables of a family that is isolated.
  abbrev pub isolated : List Rule → Tables → Tables
  isolated rules t = record {
    chain = rules;
    input_hooks = max t.input_hooks 1;
    output_hooks = max t.output_hooks 1;
  }

  pub single :
      (rules : List Rule) (t : Tables)
      → t.input_hooks ≤ 1
      → t.output_hooks ≤ 1
      → isolated rules t ≡ record { chain = rules; input_hooks = 1; output_hooks = 1 }
  single rules t one_in one_out =
      let same_in : max t.input_hooks 1 ≡ 1 = omega (arith, one_in) in
      let same_out : max t.output_hooks 1 ≡ 1 = omega (arith, one_out) in
      rw (same_in, same_out) refl

  hooked :
      (f : Family) (rules : List Rule) (fw : Firewall)
      → let h_in = hook_chain p f input fw in
        let h_out = hook_chain p f output h_in.1 in
        (tables f fw).chain ≡ rules
        → ◌≡◌ {A = Status} (if h_in.0 && h_out.0 then success else failed) success
        → tables f h_out.1 ≡ isolated rules (tables f fw)
  hooked f rules fw c e =
      let h_in = hook_chain p f input fw in
      let h_out = hook_chain p f output h_in.1 in
      let (fine_in, fine_out) = both_fine (h_in.0, h_out.0) e in
      hook_chain-tables f output h_in.1 fine_out
      ∙ ap (λ (u : Tables). set_hooks output (max u.output_hooks 1) u)
          (hook_chain-tables f input fw fine_in)
      ∙ ap (λ r. record (isolated rules (tables f fw)) { chain = r }) c

  pub apply-tables :
      (f : Family) (ips : List Text) (is_v6 : Bool) (fw : Firewall)
      → (apply_quarantine_chain p f ips is_v6 fw).0 ≡ success
      → tables f (apply_quarantine_chain p f ips is_v6 fw).1
        ≡ isolated (chain_rules ips is_v6) (tables f fw)
  unfolding apply_quarantine_chain
  apply-tables f ips is_v6 fw e =
      let named = exec_command p f new_chain fw in
      let empty = exec_command p f flush named.1 in
      let filled = append_rules p f (chain_rules ips is_v6) empty.1 in
      elim (Bool-cases empty.0) [
        | inr n ↦ let a : ◌≡◌ {A = Status} failed success = rw n at e in cc a
        | inl y ↦ elim (Bool-cases filled.0) [
          | inr n ↦ let a : ◌≡◌ {A = Status} failed success = rw (y, n) at e in cc a
          | inl z ↦
              let whole : tables f filled.1
                  ≡ record (tables f fw) { chain = chain_rules ips is_v6 } =
                append_rules-tables p f (chain_rules ips is_v6) empty.1 z
                ∙ ap (λ (u : Tables). record u { chain = u.chain ++ chain_rules ips is_v6 })
                    (exec_fine p f flush named.1 y)
                ∙ ap (λ (u : Tables). record u { chain = chain_rules ips is_v6 })
                    (new_chain-hooks p f fw) in
              rw (y, z)
                (hooked f (chain_rules ips is_v6) filled.1 (ap (λ (u : Tables). u.chain) whole)
                    (rw (y, z) at e)
                  ∙ ap (isolated (chain_rules ips is_v6)) whole)
        ]
      ]

  pub apply-other :
      (f : Family) (ips : List Text) (is_v6 : Bool) (fw : Firewall)
      → tables (other f) (apply_quarantine_chain p f ips is_v6 fw).1 ≡ tables (other f) fw
  unfolding apply_quarantine_chain
  apply-other f ips is_v6 fw =
      let named = exec_command p f new_chain fw in
      let empty = exec_command p f flush named.1 in
      let filled = append_rules p f (chain_rules ips is_v6) empty.1 in
      let hooked_in = hook_chain p f input filled.1 in
      let at_empty = tables-exec-other p f flush named.1 ∙ tables-exec-other p f new_chain fw in
      let at_filled = append_rules-other p f (chain_rules ips is_v6) empty.1 ∙ at_empty in
      elim (Bool-cases empty.0) [
        | inr n ↦ rw n at_empty
        | inl y ↦ elim (Bool-cases filled.0) [
          | inr n ↦ rw (y, n) at_filled
          | inl z ↦
              rw (y, z)
                (hook_chain-other p f output hooked_in.1
                  ∙ hook_chain-other p f input filled.1
                  ∙ at_filled)
        ]
      ]
