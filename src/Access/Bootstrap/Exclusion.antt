-- ===== src/Access/Bootstrap/Exclusion.antt =====
-- Registrations of api/main.go whose steps interleave.
use device_pulse.Prelude.{
  ℕ, Text, Bool, true, false, List, [], ◌∷◌, Option, none, some, ltb, ◌==◌, ==_iff, if◌then◌else◌,
  ◌≡◌, refl, sym, subst, ◌∙◌, ◌⊎◌, inl, inr, arith, Bool-cases, Option-cases,
}
use device_pulse.Db.{Driver}
use device_pulse.Access.{User}
use device_pulse.Access.Bootstrap.{
  Registration, Phase, validated, counted, locked, stored, answered, Shared, Answers, first_admin,
  unlock, count_users, take_lock, store_admin, advance,
}
use device_pulse.Access.Bootstrap.Turns.{Inserted-cases}

-- The requests by number; those that have not come yet are answered, as far as they matter.
pub record System : Type 0 where
  pub shared : Shared
  pub phases : ℕ → Phase

abbrev pub put : ℕ → Phase → (ℕ → Phase) → ℕ → Phase
put i p f j = if j == i then p else f j

-- Between the taking of the lock and its removal.
abbrev pub holding : Phase → Bool
holding (validated r) = false
holding (counted r) = false
holding (locked r) = true
holding stored = true
holding (answered code) = false

-- At most one request is there, and then the lock is taken.
pub record IsExclusive (s : System) : Type 0 where
  pub single : (i j : ℕ) → holding (s.phases i) ≡ true → holding (s.phases j) ≡ true → i ≡ j
  pub taken : (i : ℕ) → holding (s.phases i) ≡ true → s.shared.lock ≡ true

-- What one step does to the lock.
abbrev Moved : Phase → Shared → Phase × Shared → Type 0
Moved p s t =
    ((holding t.0 ≡ holding p) × (t.1.lock ≡ s.lock))
    ⊎ (((s.lock ≡ false) × (t.1.lock ≡ true)) ⊎ ((holding p ≡ true) × (holding t.0 ≡ false)))

module _ (db : Driver User (λ u. u.id)) where
  counting : (r : Registration) (s : Shared) → holding (count_users db r s) ≡ false
  unfolding count_users
  counting r s = elim (Option-cases (db.count (λ u. true) s.users)) [
    | inl e ↦ rw (e, count_users) refl
    | inr (n, e) ↦ elim (Bool-cases (ltb 0 n)) [
      | inl f ↦ rw (e, count_users, f) refl
      | inr f ↦ rw (e, count_users, f) refl
    ]
  ]

  taking : (a : Answers) (r : Registration) (s : Shared) → Moved (counted r) s (take_lock db a r s)
  unfolding take_lock
  taking a r s = elim (Bool-cases a.config_works) [
    | inr e ↦ rw e (inl (refl, refl))
    | inl e ↦ elim (Bool-cases s.lock) [
      | inl f ↦ rw (e, f) (inl (refl, refl))
      | inr f ↦ rw (e, f) (inr (inl (refl, refl)))
    ]
  ]

  storing :
      (a : Answers) (hash : Option Text) (r : Registration) (s : Shared)
      → Moved (locked r) s (store_admin db a hash r s)
  unfolding store_admin
  storing a none r s = inr (inr (refl, refl))
  storing a (some hash) r s =
      let becomes =
        λ (t : Phase × Shared) (q : store_admin db a (some hash) r s ≡ t)
            (h : Moved (locked r) s t).
          subst (Moved (locked r) s) (sym q) h in
      elim (Inserted-cases (db.insert_one (first_admin r hash a) s.users)) [
        | inl (users, f) ↦
            becomes (stored, record s { users = users }) (rw (f, store_admin) refl)
              (inl (refl, refl))
        | inr (inl f) ↦
            becomes (answered 409, unlock a s) (rw (f, store_admin) refl) (inr (inr (refl, refl)))
        | inr (inr f) ↦
            becomes (answered 500, unlock a s) (rw (f, store_admin) refl) (inr (inr (refl, refl)))
      ]

  advance-Moved : (a : Answers) (p : Phase) (s : Shared) → Moved p s (advance db a p s)
  unfolding advance
  advance-Moved a (validated r) s = inl (counting r s, refl)
  advance-Moved a (counted r) s = taking a r s
  advance-Moved a (locked r) s = storing a a.password_hash r s
  advance-Moved a stored s = inr (inr (refl, refl))
  advance-Moved a (answered code) s = inl (refl, refl)

  unfoldable pub turn : ℕ → Answers → System → System
  turn i a s =
      let (p, shared) = advance db a (s.phases i) s.shared in
      record { shared = shared; phases = put i p s.phases }

  -- Which request makes a step, and what its call of the database answers.
  unfoldable pub run : List (ℕ × Answers) → System → System
  run [] s = s
  run ((i, a) ∷ turns) s = run turns (turn i a s)

  held_before :
      (i j : ℕ) (p : Phase) (phases : ℕ → Phase)
      → holding (put i p phases j) ≡ true
      → ((j ≡ i) × (holding p ≡ true)) ⊎ (((j == i) ≡ false) × (holding (phases j) ≡ true))
  held_before i j p phases h = elim (Bool-cases (j == i)) [
    | inl e ↦ inl ((==_iff j i).0 e, rw e at h)
    | inr e ↦ inr (e, rw e at h)
  ]

  turn-IsExclusive : (i : ℕ) (a : Answers) (s : System) → IsExclusive s → IsExclusive (turn i a s)
  unfolding turn
  turn-IsExclusive i a s x =
      let t = advance db a (s.phases i) s.shared in
      let held = λ (j : ℕ). held_before i j t.0 s.phases in
      elim (advance-Moved a (s.phases i) s.shared) [
        | inl (same, lock) ↦
            let still : (j : ℕ)
                → holding (put i t.0 s.phases j) ≡ true
                → holding (s.phases j) ≡ true =
              λ j h. elim (held j h) [
                | inl (e, now) ↦ subst (λ k. holding (s.phases k) ≡ true) (sym e) (sym same ∙ now)
                | inr (e, before) ↦ before
              ] in
            record {
              single = λ j k hj hk. x.single j k (still j hj) (still k hk);
              taken = λ j hj. lock ∙ x.taken j (still j hj);
            }
        | inr (inl (free, lock)) ↦
            let only : (j : ℕ) → holding (put i t.0 s.phases j) ≡ true → j ≡ i = λ j h.
              elim (held j h) [
                | inl (e, now) ↦ e
                | inr (e, before) ↦
                    let b : ◌≡◌ {A = Bool} false true = sym free ∙ x.taken j before in cc b
              ] in
            record { single = λ j k hj hk. only j hj ∙ sym (only k hk); taken = λ j hj. lock }
        | inr (inr (was, left)) ↦
            let nobody : (j : ℕ)
                → holding (put i t.0 s.phases j) ≡ true
                → ◌≡◌ {A = Bool} false true =
              λ j h. elim (held j h) [
                | inl (e, now) ↦ sym left ∙ now
                | inr (e, before) ↦
                    let same : j ≡ i = x.single j i before was in absurd (ground (arith, same, e))
              ] in
            record {
              single = λ j k hj hk. let b = nobody j hj in cc b;
              taken = λ j hj. let b = nobody j hj in cc b;
            }
      ]

  -- However the steps of any number of registrations interleave, and whatever their calls of the database answer, no two of them are
  -- between the taking of the lock and its removal at once, and the lock is taken while one is there.
  pub run-IsExclusive :
      (turns : List (ℕ × Answers)) (s : System) → IsExclusive s → IsExclusive (run turns s)
  unfolding run
  run-IsExclusive [] s x = x
  run-IsExclusive ((i, a) ∷ turns) s x =
      run-IsExclusive turns (turn i a s) (turn-IsExclusive i a s x)
