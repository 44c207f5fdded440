-- ===== src/Commands/Lifecycle.antt =====
-- What the handlers do to the list of commands: ids stay unique, and a command that has left
-- `pending` never comes back to it.
use device_pulse.Prelude.{
  ℕ, Text, list_beq, Bool, true, false, List, [], ◌∷◌, ◌++◌, some, ◌==◌, text_eq, ◌≡◌, ◌≢◌, refl,
  arith, All, At, here, there, All-append, inl, inr, Bool-cases,
}
use device_pulse.Db.{Driver, inserted}
use device_pulse.Db.Unique.{
  UniqueIds, UniqueIds-append, UniqueIds-Updates, unique_document, Fresh, At-Updates, Updates-found,
}
use device_pulse.Commands.{
  DeviceCommand, pending, delivered, claimable, deliver, open_command, complete, is_outcome,
}

abbrev pub Unique : List DeviceCommand → Type 0
Unique = UniqueIds (λ c. c.id)

-- The command with the id is there, and is no longer pending.
pub record Settled (i : ℕ) (cs : List DeviceCommand) : Type 0 where
  pub command : DeviceCommand
  pub stored : At command cs
  pub identified : command.id ≡ i
  pub settled : text_eq.beq command.status pending ≡ false

delivered_ne : text_eq.beq delivered pending ≡ false
unfolding list_beq
delivered_ne = refl

outcome_ne : (status : Text) → is_outcome status ≡ true → text_eq.beq status pending ≡ false
unfolding list_beq
outcome_ne status h = elim (Bool-cases (text_eq.beq status pending)) [
  | inl e ↦ absurd (cc (subst_outcome status ((text_eq.beq_iff status pending).0 e) h))
  | inr e ↦ e
]
  where
    subst_outcome :
        (status : Text) → status ≡ pending → is_outcome status ≡ true → ◌≡◌ {A = Bool} false true
    subst_outcome status e h = rw e at h

At-append_left : {c : DeviceCommand} (cs ds : List DeviceCommand) → At c cs → At c (cs ++ ds)
At-append_left [] ds m = elim m [ ]
At-append_left (c ∷ cs) ds here = here
At-append_left (c ∷ cs) ds (there m) = there (At-append_left cs ds m)

module _ (db : Driver DeviceCommand (λ c. c.id)) where
  module _ (device_id : Text) (now : ℕ) {cs es : List DeviceCommand} {e : DeviceCommand}
      (unique : Unique cs)
      (claim : db.find_one_and_update (claimable device_id now) (deliver now) (λ c. c.created_at) cs
        ≡ some (e, es)) where
    pub claim-Unique : Unique es
    claim-Unique =
        let (d, m, t, same, u, least) = db.find_one_and_update_lem _ _ _ cs es e claim in
        UniqueIds-Updates (λ c. c.id) _ (deliver now) (λ c. refl) u unique

    -- What is settled stays so, and is not what the claim returns.
    pub claim-Settled : {i : ℕ} → Settled i cs → Settled i es × (e.id ≢ i)
    claim-Settled {i} s =
        let (d, m, t, same, u, least) = db.find_one_and_update_lem _ _ _ cs es e claim in
        (
          elim (At-Updates _ (deliver now) s.command u s.stored) [
            | inl k ↦ record {
              command = s.command;
              stored = k;
              identified = s.identified;
              settled = s.settled;
            }
            | inr (h, k) ↦ absurd (ground (arith, s.settled))
          ],
          λ id.
              let again : d ≡ s.command =
                unique_document (λ c. c.id) d s.command unique m s.stored
                  (ground (arith, s.identified)) in
              ground (arith, s.settled, again),
        )

    pub claim_settles : Settled e.id es
    claim_settles =
        let (d, m, t, same, u, least) = db.find_one_and_update_lem _ _ _ cs es e claim in
        let (x, n, h, k) = Updates-found _ (deliver now) u in
        record {
          command = deliver now x;
          stored = k;
          identified = ground (arith, same);
          settled = delivered_ne;
        }

  complete-Unique :
      (id now : ℕ) (device_id status detail : Text) (cs es : List DeviceCommand) (e : DeviceCommand)
      → Unique cs
      → db.find_one_and_update
          (open_command id device_id)
          (complete status detail now)
          (λ c. c.id)
          cs
        ≡ some (e, es)
      → Unique es
  complete-Unique id now device_id status detail cs es e unique done' =
      let (d, m, t, same, u, least) = db.find_one_and_update_lem _ _ _ cs es e done' in
      UniqueIds-Updates (λ c. c.id) _ (complete status detail now) (λ c. refl) u unique

  complete-Settled :
      (id now : ℕ) (device_id status detail : Text) (cs es : List DeviceCommand) (e : DeviceCommand)
      → is_outcome status ≡ true
      → db.find_one_and_update
          (open_command id device_id)
          (complete status detail now)
          (λ c. c.id)
          cs
        ≡ some (e, es)
      → {i : ℕ} → Settled i cs
      → Settled i es
  complete-Settled id now device_id status detail cs es e valid done' s =
      let (d, m, t, same, u, least) = db.find_one_and_update_lem _ _ _ cs es e done' in
      elim (At-Updates _ (complete status detail now) s.command u s.stored) [
        | inl k ↦ record {
          command = s.command;
          stored = k;
          identified = s.identified;
          settled = s.settled;
        }
        | inr (h, k) ↦ record {
          command = complete status detail now s.command;
          stored = k;
          identified = s.identified;
          settled = outcome_ne status valid;
        }
      ]

  -- What handlers do between two states of the commands: `out` is what they have handed out.
  pub record Lawful (cs out es : List DeviceCommand) : Type 0 where
    pub unique : Unique es
    pub still : (i : ℕ) → Settled i cs → Settled i es
    pub fresh : (i : ℕ) → Settled i cs → Fresh (λ c. c.id) i out
    pub once : Unique out
    pub settled : All (λ c. Settled c.id es) out

  pub Lawful-unchanged : (cs : List DeviceCommand) → Unique cs → Lawful cs [] cs
  Lawful-unchanged cs u = record {
    unique = u;
    still = λ i s. s;
    fresh = λ i s. tt;
    once = tt;
    settled = tt;
  }

  All-Settled :
      (out ds es : List DeviceCommand)
      → ((i : ℕ) → Settled i ds → Settled i es)
      → All (λ c. Settled c.id ds) out
      → All (λ c. Settled c.id es) out
  All-Settled [] ds es f a = tt
  All-Settled (c ∷ out) ds es f a = (f c.id a.0, All-Settled out ds es f a.1)

  Unique-append :
      (out more ds : List DeviceCommand)
      → Unique out
      → All (λ c. Settled c.id ds) out
      → ((i : ℕ) → Settled i ds → Fresh (λ c. c.id) i more)
      → Unique more
      → Unique (out ++ more)
  Unique-append [] more ds u a f v = v
  Unique-append (c ∷ out) more ds u a f v = (
    All-append (λ x. (x.id == c.id) ≡ false) out more u.0 (f c.id a.0),
    Unique-append out more ds u.1 a.1 f v,
  )

  pub Lawful-trans :
      (cs out ds more es : List DeviceCommand)
      → Lawful cs out ds
      → Lawful ds more es
      → Lawful cs (out ++ more) es
  Lawful-trans cs out ds more es l m = record {
    unique = m.unique;
    still = λ i s. m.still i (l.still i s);
    fresh = λ i s.
        All-append (λ x. (x.id == i) ≡ false) out more (l.fresh i s) (m.fresh i (l.still i s));
    once = Unique-append out more ds l.once l.settled m.fresh m.once;
    settled =
        All-append (λ c. Settled c.id es) out more (All-Settled out ds es m.still l.settled)
          m.settled;
  }

  pub claim-Lawful :
      (device_id : Text) (now : ℕ) (cs es : List DeviceCommand) (e : DeviceCommand)
      → Unique cs
      → db.find_one_and_update (claimable device_id now) (deliver now) (λ c. c.created_at) cs
        ≡ some (e, es)
      → Lawful cs (e ∷ []) es
  claim-Lawful device_id now cs es e u c = record {
    unique = claim-Unique device_id now u c;
    still = λ i s. (claim-Settled device_id now u c s).0;
    fresh =
        λ i s. let other : e.id ≢ i = (claim-Settled device_id now u c s).1 in (ground arith, tt);
    once = (tt, tt);
    settled = (claim_settles device_id now u c, tt);
  }

  pub insert-Lawful :
      (c : DeviceCommand) (cs es : List DeviceCommand)
      → Unique cs
      → db.insert_one c cs ≡ inserted es
      → Lawful cs [] es
  insert-Lawful c cs es u h =
      let (same, other) = db.insert_one_lem c cs es h in
      record {
        unique = rw same (UniqueIds-append (λ x. x.id) cs c u other);
        still = λ i s. record {
          command = s.command;
          stored = rw same (At-append_left cs (c ∷ []) s.stored);
          identified = s.identified;
          settled = s.settled;
        };
        fresh = λ i s. tt;
        once = tt;
        settled = tt;
      }

  pub complete-Lawful :
      (id now : ℕ) (device_id status detail : Text) (cs es : List DeviceCommand) (e : DeviceCommand)
      → is_outcome status ≡ true
      → Unique cs
      → db.find_one_and_update
          (open_command id device_id)
          (complete status detail now)
          (λ c. c.id)
          cs
        ≡ some (e, es)
      → Lawful cs [] es
  complete-Lawful id now device_id status detail cs es e valid u h = record {
    unique = complete-Unique id now device_id status detail cs es e u h;
    still = λ i s. complete-Settled id now device_id status detail cs es e valid h s;
    fresh = λ i s. tt;
    once = tt;
    settled = tt;
  }
