-- ===== src/Agent/Firewall/Release.antt =====
-- What the release of agent/commander/quarantine_linux.go does to the hooks.
use device_pulse.Prelude.{
  ◌-◌, Bool, true, false, ◌&&◌, ltb, if◌then◌else◌, Bool-cases, ◌≡◌, refl, sym, ap, ◌∙◌, ◌⊎◌, inl,
  inr, arith,
}
use device_pulse.Agent.Firewall.{
  Status, success, failed, Family, v4, v6, Hook, input, output, Command, check, delete_hook,
  list_chain, flush, delete_chain, Tables, hooks, effect, Firewall, tables, Programs, exec_command,
  unhook_chain, release_family, quarantine_release, set_hooks,
}

abbrev pub other : Family → Family
other v4 = v6
other v6 = v4

pub tables-exec :
    (p : Programs) (f : Family) (c : Command) (fw : Firewall)
    → tables f (exec_command p f c fw).1
      ≡ (if p.answers f c fw then effect c (tables f fw) else tables f fw)
unfolding exec_command
tables-exec p v4 c fw = refl
tables-exec p v6 c fw = refl

pub tables-exec-other :
    (p : Programs) (f : Family) (c : Command) (fw : Firewall)
    → tables (other f) (exec_command p f c fw).1 ≡ tables (other f) fw
unfolding exec_command
tables-exec-other p v4 c fw = refl
tables-exec-other p v6 c fw = refl

-- `-C` succeeds when the rule is there.
abbrev pub Truthful : Programs → Type 0
Truthful p =
    (f : Family) (h : Hook) (fw : Firewall)
    → p.answers f (check h) fw ≡ ltb 0 (hooks h (tables f fw))

set_hooks_none : (h : Hook) (t : Tables) → hooks h t ≡ 0 → t ≡ set_hooks h (hooks h t - 1) t
set_hooks_none input t e =
    let same : t.input_hooks ≡ t.input_hooks - 1 = omega (arith, e) in
    ap (λ n. record t { input_hooks = n }) same
set_hooks_none output t e =
    let same : t.output_hooks ≡ t.output_hooks - 1 = omega (arith, e) in
    ap (λ n. record t { output_hooks = n }) same

pub exec_command-answers :
    (p : Programs) (f : Family) (c : Command) (fw : Firewall)
    → (exec_command p f c fw).0 ≡ p.answers f c fw
unfolding exec_command
exec_command-answers p f c fw = refl

pub checked :
    (p : Programs) (f : Family) (h : Hook) (fw : Firewall)
    → tables f (exec_command p f (check h) fw).1 ≡ tables f fw
checked p f h fw =
    tables-exec p f (check h) fw
    ∙ elim (Bool-cases (p.answers f (check h) fw)) [ inl e ↦ rw e refl | inr e ↦ rw e refl ]

pub both_fine :
    (r : Bool × Bool)
    → ◌≡◌ {A = Status} (if r.0 && r.1 then success else failed) success
    → (r.0 ≡ true) × (r.1 ≡ true)
both_fine (true, true) e = (refl, refl)
both_fine (true, false) e = cc e
both_fine (false, b) e = cc e

module _ (p : Programs) (truthful : Truthful p) where
  tables-unhook :
      (f : Family) (h : Hook) (fw : Firewall)
      → (unhook_chain p f h fw).0 ≡ true
      → tables f (unhook_chain p f h fw).1 ≡ effect (delete_hook h) (tables f fw)
  unfolding unhook_chain
  tables-unhook f h fw e =
      let fw' = (exec_command p f (check h) fw).1 in
      let answer = exec_command-answers p f (check h) fw ∙ truthful f h fw in
      elim (Bool-cases (ltb 0 (hooks h (tables f fw)))) [
        | inr n ↦ rw (answer, n) (checked p f h fw ∙ set_hooks_none h (tables f fw) (ground arith))
        | inl y ↦
            let fine : p.answers f (delete_hook h) fw' ≡ true =
              sym (exec_command-answers p f (delete_hook h) fw') ∙ (rw (answer, y) at e) in
            rw (answer, y) (tables-exec p f (delete_hook h) fw' ∙ rw (fine, checked p f h fw) refl)
      ]

  tables-unhook-other :
      (f : Family) (h : Hook) (fw : Firewall)
      → tables (other f) (unhook_chain p f h fw).1 ≡ tables (other f) fw
  unfolding unhook_chain
  tables-unhook-other f h fw =
      let t = exec_command p f (check h) fw in
      let same = tables-exec-other p f (check h) fw in
      elim (Bool-cases t.0) [
        | inr n ↦ rw n same
        | inl y ↦ rw y (tables-exec-other p f (delete_hook h) t.1 ∙ same)
      ]

  -- The commands after the hooks leave the hooks alone.
  hooks-exec_kept :
      (f : Family) (c : Command) (g : Hook) (fw : Firewall)
      → ((t : Tables) → hooks g (effect c t) ≡ hooks g t)
      → hooks g (tables f (exec_command p f c fw).1) ≡ hooks g (tables f fw)
  hooks-exec_kept f c g fw keeps =
      ap (hooks g) (tables-exec p f c fw) ∙ elim (Bool-cases (p.answers f c fw)) [
        | inl e ↦ rw e (keeps (tables f fw))
        | inr e ↦ rw e refl
      ]

  chain_kept :
      (g : Hook) (c : Command)
      → (c ≡ list_chain) ⊎ ((c ≡ flush) ⊎ (c ≡ delete_chain))
      → (t : Tables) → hooks g (effect c t) ≡ hooks g t
  chain_kept input c (inl e) t = rw e refl
  chain_kept input c (inr (inl e)) t = rw e refl
  chain_kept input c (inr (inr e)) t = rw e refl
  chain_kept output c (inl e) t = rw e refl
  chain_kept output c (inr (inl e)) t = rw e refl
  chain_kept output c (inr (inr e)) t = rw e refl

  hooks-deleted :
      (g : Hook) (t : Tables)
      → hooks g (effect (delete_hook output) (effect (delete_hook input) t)) ≡ hooks g t - 1
  hooks-deleted input t = refl
  hooks-deleted output t = refl

  release_family-hooks :
      (f : Family) (g : Hook) (fw : Firewall)
      → p.installed f ≡ true
      → (release_family p f fw).0 ≡ true
      → hooks g (tables f (release_family p f fw).1) ≡ hooks g (tables f fw) - 1
  unfolding release_family
  release_family-hooks f g fw i e =
      let t_in = unhook_chain p f input fw in
      let t_out = unhook_chain p f output t_in.1 in
      let listed = exec_command p f list_chain t_out.1 in
      let emptied = exec_command p f flush listed.1 in
      let unhooked = λ (fine : (t_in.0 && t_out.0) ≡ true).
        let a : t_in.0 ≡ true = ground arith in
        let b : t_out.0 ≡ true = ground arith in
        ap (hooks g) (
          tables-unhook f output t_in.1 b
          ∙ ap (effect (delete_hook output)) (tables-unhook f input fw a))
        ∙ hooks-deleted g (tables f fw) in
      let kept_list = hooks-exec_kept f list_chain g t_out.1 (chain_kept g list_chain (inl refl)) in
      let kept_flush = hooks-exec_kept f flush g listed.1 (chain_kept g flush (inr (inl refl))) in
      let kept_delete =
        hooks-exec_kept f delete_chain g emptied.1 (chain_kept g delete_chain (inr (inr refl))) in
      elim (Bool-cases listed.0) [
        | inl l ↦
            let both : ((t_in.0 && t_out.0)
                  && (emptied.0 && (exec_command p f delete_chain emptied.1).0))
                ≡ true =
              rw (i, l) at e in
            rw (i, l) (kept_delete ∙ kept_flush ∙ kept_list ∙ unhooked (ground arith))
        | inr l ↦
            let both : (t_in.0 && t_out.0) ≡ true = rw (i, l) at e in
            rw (i, l) (kept_list ∙ unhooked both)
      ]

  release_family-other :
      (f : Family) (fw : Firewall)
      → tables (other f) (release_family p f fw).1 ≡ tables (other f) fw
  unfolding release_family
  release_family-other f fw = elim (Bool-cases (p.installed f)) [
    | inr n ↦ rw n refl
    | inl i ↦
        let t_in = unhook_chain p f input fw in
        let t_out = unhook_chain p f output t_in.1 in
        let listed = exec_command p f list_chain t_out.1 in
        let emptied = exec_command p f flush listed.1 in
        let same =
          tables-exec-other p f list_chain t_out.1
          ∙ tables-unhook-other f output t_in.1
          ∙ tables-unhook-other f input fw in
        elim (Bool-cases listed.0) [
          | inl l ↦
              rw (i, l)
                (tables-exec-other p f delete_chain emptied.1
                  ∙ tables-exec-other p f flush listed.1
                  ∙ same)
          | inr l ↦ rw (i, l) same
        ]
  ]

  -- What a release that succeeds does to each hook of each family whose program is installed.
  pub hooks-quarantine_release :
      (f : Family) (g : Hook) (fw : Firewall)
      → p.installed f ≡ true
      → (quarantine_release p fw).0 ≡ success
      → hooks g (tables f (quarantine_release p fw).1) ≡ hooks g (tables f fw) - 1
  unfolding quarantine_release
  hooks-quarantine_release v4 g fw i e =
      let r4 = release_family p v4 fw in
      let (fine, also) = both_fine (r4.0, (release_family p v6 r4.1).0) e in
      ap (hooks g) (release_family-other v6 r4.1) ∙ release_family-hooks v4 g fw i fine
  hooks-quarantine_release v6 g fw i e =
      let r4 = release_family p v4 fw in
      let (also, fine) = both_fine (r4.0, (release_family p v6 r4.1).0) e in
      release_family-hooks v6 g r4.1 i fine ∙ ap (λ t. hooks g t - 1) (release_family-other v4 fw)
