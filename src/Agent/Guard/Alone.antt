-- ===== src/Agent/Guard/Alone.antt =====
-- What the guard of agent/guard.go promises: one goroutine at a time, and honest answers.
use device_pulse.Prelude.{
  ℕ, zero, suc, ◌+◌, true, false, List, [], ◌∷◌, Option, none, some, if◌then◌else◌, All, ◌≡◌, ◌≢◌,
  refl, sym, ◌∙◌, ◌⊎◌, inl, inr, arith, Bool-cases,
}
use device_pulse.Agent.Guard.{
  Result, timed_out, skipped, returned, panicked, Routine, absent, working, releasing, ended, Call,
  Guard, Step, begin, finish, panic, release, receive, expire, is_working, is_releasing, change,
  sent, first, received, receives, expires, nth_releasing, end_routine, release_flag, begin_run,
  step, run,
}

-- A goroutine that has not taken the flag back.
abbrev pub alive : Routine → ℕ
alive absent = 0
alive working = 1
alive releasing = 1
alive ended = 0

working-alive : (t : Routine) → is_working t ≡ true → alive t ≡ 1
working-alive absent h = absurd (ground arith)
working-alive working h = refl
working-alive releasing h = refl
working-alive ended h = absurd (ground arith)

releasing-alive : (t : Routine) → is_releasing t ≡ true → alive t ≡ 1
releasing-alive absent h = absurd (ground arith)
releasing-alive working h = refl
releasing-alive releasing h = refl
releasing-alive ended h = absurd (ground arith)

alive-absent : (t : Routine) → alive t ≡ 1 → t ≢ absent
alive-absent t h e = absurd (ground (arith, h, e))

module _ {V : Type 0} where
  unfoldable pub alive_count : List (Call V) → ℕ
  alive_count [] = 0
  alive_count (c ∷ cs) = alive c.routine + alive_count cs

  -- An answer is what the call's own function has sent, or the time-out, or the refusal of a call
  -- that has started nothing.
  abbrev pub IsOwn : Call V → Result V → Type 0
  IsOwn c r = (c.channel ≡ some r) ⊎ ((r ≡ timed_out) ⊎ ((r ≡ skipped) × (c.routine ≡ absent)))

  abbrev pub IsHonest : Call V → Type 0
  IsHonest c =
      ((r : Result V) → c.answer ≡ some r → IsOwn c r)
      × (is_working c.routine ≡ true → c.channel ≡ none)

  alive_count-change :
      (i : ℕ) (f : Call V → Call V) (cs : List (Call V))
      → ((c : Call V) → alive (f c).routine ≡ alive c.routine)
      → alive_count (change i f cs) ≡ alive_count cs
  unfolding alive_count change
  alive_count-change i f [] keeps = refl
  alive_count-change zero f (c ∷ cs) keeps = rw (keeps c) refl
  alive_count-change (suc i) f (c ∷ cs) keeps = rw (alive_count-change i f cs keeps) refl

  alive_count-release :
      (i : ℕ) (cs : List (Call V))
      → nth_releasing i cs ≡ true
      → suc (alive_count (change i end_routine cs)) ≡ alive_count cs
  unfolding alive_count change nth_releasing
  alive_count-release i [] h = absurd (ground arith)
  alive_count-release zero (c ∷ cs) h = omega (arith, releasing-alive c.routine h)
  alive_count-release (suc i) (c ∷ cs) h = omega (arith, alive_count-release i cs h)

  All-change :
      (i : ℕ) (f : Call V → Call V) (cs : List (Call V))
      → ((c : Call V) → IsHonest c → IsHonest (f c))
      → All IsHonest cs
      → All IsHonest (change i f cs)
  unfolding change
  All-change i f [] keeps h = tt
  All-change zero f (c ∷ cs) keeps h = (keeps c h.0, h.1)
  All-change (suc i) f (c ∷ cs) keeps h = (h.0, All-change i f cs keeps h.1)

  abbrev IsFine : Guard V → Type 0
  IsFine g = (alive_count g.calls ≡ (if g.running then 1 else 0)) × All IsHonest g.calls

  sent-alive : (r : Result V) (c : Call V) → alive (sent r c).routine ≡ alive c.routine
  unfolding sent
  sent-alive r c = elim (Bool-cases (is_working c.routine)) [
    | inl w ↦ rw (w, working-alive c.routine w) refl
    | inr z ↦ rw z refl
  ]

  sent-IsHonest : (r : Result V) (c : Call V) → IsHonest c → IsHonest (sent r c)
  unfolding sent
  sent-IsHonest r c (own, empty) = elim (Bool-cases (is_working c.routine)) [
    | inl w ↦ rw w (
      (λ x e. elim (own x e) [
        | inl there_is ↦ absurd (ground (arith, empty w, there_is))
        | inr (inl late) ↦ inr (inl late)
        | inr (inr (same, none_started)) ↦
            absurd (alive-absent c.routine (working-alive c.routine w) none_started)
      ]),
      λ h. absurd (ground arith),
    )
    | inr z ↦ rw z (own, empty)
  ]

  received-own :
      (channel answer : Option (Result V)) (r : Result V)
      → received channel answer ≡ some r
      → (channel ≡ some r) ⊎ (answer ≡ some r)
  received-own none answer r e = inr e
  received-own (some x) none r e = inl e
  received-own (some x) (some a) r e = inr e

  receives-IsHonest : (c : Call V) → IsHonest c → IsHonest (receives c)
  unfolding receives
  receives-IsHonest c (own, empty) = (
    (λ r e. elim (received-own c.channel c.answer r e) [
      | inl sent_it ↦ inl sent_it
      | inr before ↦ own r before
    ]),
    empty,
  )

  first-own :
      (answer : Option (Result V)) (x r : Result V)
      → first answer x ≡ some r
      → (answer ≡ some r) ⊎ (x ≡ r)
  first-own none x r e = inr (ground arith)
  first-own (some a) x r e = inl e

  expires-IsHonest : (c : Call V) → IsHonest c → IsHonest (expires c)
  unfolding expires
  expires-IsHonest c (own, empty) = (
    (λ r e. elim (first-own c.answer timed_out r e) [
      | inl before ↦ own r before
      | inr late ↦ inr (inl (sym late))
    ]),
    empty,
  )

  end-IsHonest :
      (c : Call V) → IsHonest c → is_releasing c.routine ≡ true → IsHonest (end_routine c)
  end-IsHonest c (own, empty) h = (
    (λ r e. elim (own r e) [
      | inl sent_it ↦ inl sent_it
      | inr (inl late) ↦ inr (inl late)
      | inr (inr (same, none_started)) ↦
          absurd (alive-absent c.routine (releasing-alive c.routine h) none_started)
    ]),
    λ z. absurd (ground arith),
  )

  All-release :
      (i : ℕ) (cs : List (Call V))
      → nth_releasing i cs ≡ true
      → All IsHonest cs
      → All IsHonest (change i end_routine cs)
  unfolding change nth_releasing
  All-release i [] r h = tt
  All-release zero (c ∷ cs) r h = (end-IsHonest c h.0 r, h.1)
  All-release (suc i) (c ∷ cs) r h = (h.0, All-release i cs r h.1)

  begin-IsFine : (g : Guard V) → IsFine g → IsFine (begin_run g)
  unfolding begin_run alive_count
  begin-IsFine g (count, honest) = elim (Bool-cases g.running) [
    | inl busy ↦ rw busy (
      (ground (arith, count, busy)),
      (((λ r e. inr (inr (ground arith, refl))), λ h. absurd (ground arith)), honest),
    )
    | inr free ↦
        rw free
          ((ground (arith, count, free)), (((λ r e. absurd (ground arith)), λ h. refl), honest))
  ]

  release-IsFine : (i : ℕ) (g : Guard V) → IsFine g → IsFine (release_flag i g)
  unfolding release_flag
  release-IsFine i g (count, honest) = elim (Bool-cases (nth_releasing i g.calls)) [
    | inl there_is ↦
        let fewer = alive_count-release i g.calls there_is in
        rw there_is (ground (arith, count, fewer), All-release i g.calls there_is honest)
    | inr idle ↦ rw idle (count, honest)
  ]

  changed-IsFine :
      (i : ℕ) (f : Call V → Call V) (g : Guard V)
      → ((c : Call V) → alive (f c).routine ≡ alive c.routine)
      → ((c : Call V) → IsHonest c → IsHonest (f c))
      → IsFine g
      → IsFine (record g { calls = change i f g.calls })
  changed-IsFine i f g same keeps (count, honest) =
      (alive_count-change i f g.calls same ∙ count, All-change i f g.calls keeps honest)

  step-IsFine : (s : Step V) (g : Guard V) → IsFine g → IsFine (step s g)
  unfolding step receives expires
  step-IsFine begin g h = begin-IsFine g h
  step-IsFine (finish i v) g h =
      changed-IsFine i (sent (returned v)) g (sent-alive (returned v)) (sent-IsHonest (returned v))
        h
  step-IsFine (panic i) g h =
      changed-IsFine i (sent panicked) g (sent-alive panicked) (sent-IsHonest panicked) h
  step-IsFine (release i) g h = release-IsFine i g h
  step-IsFine (receive i) g h = changed-IsFine i receives g (λ c. refl) receives-IsHonest h
  step-IsFine (expire i) g h = changed-IsFine i expires g (λ c. refl) expires-IsHonest h

  run-IsFine : (ss : List (Step V)) (g : Guard V) → IsFine g → IsFine (run ss g)
  unfolding run
  run-IsFine [] g h = h
  run-IsFine (s ∷ ss) g h = run-IsFine ss (step s g) (step-IsFine s g h)

  -- In whatever order the calls of a new guard, their goroutines and their time-outs move on, at
  -- most one goroutine is alive, and exactly one while the flag is set; and a call answers with
  -- what its own function has sent, or with a time-out, or it is refused and has started nothing.
  pub run-IsHonest :
      (ss : List (Step V))
      → let g = run ss (record { running = false; calls = [] }) in
        (alive_count g.calls ≡ (if g.running then 1 else 0)) × All IsHonest g.calls
  unfolding alive_count
  run-IsHonest ss = run-IsFine ss (record { running = false; calls = [] }) (refl, tt)
