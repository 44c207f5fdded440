-- ===== src/Agent/Guard.antt =====
-- The guard of a collector, `collectGuard` in agent/guard.go: the calls of one guard, with their
-- goroutines, as steps in any order. A step that does not apply changes nothing.
pub mod Alone
use device_pulse.Prelude.{
  ℕ, zero, suc, Bool, true, false, not, List, [], ◌∷◌, Option, none, some, if◌then◌else◌,
}

-- What a call answers: the value of its function, or one of three errors.
pub data Result (V : Type 0) : Type 0 where
  returned : V → Result V
  panicked : Result V
  timed_out : Result V
  skipped : Result V

-- Where the goroutine of a call is: there is none, its function runs, or the result is sent and
-- the flag is not yet taken back.
pub data Routine : Type 0 where
  absent : Routine
  working : Routine
  releasing : Routine
  ended : Routine

-- A call with the channel of its result and its answer.
pub record Call (V : Type 0) : Type 0 where
  pub routine : Routine
  pub channel : Option (Result V)
  pub answer : Option (Result V)

-- The flag `running`, and the calls from the latest on.
pub record Guard (V : Type 0) : Type 0 where
  pub running : Bool
  pub calls : List (Call V)

pub data Step (V : Type 0) : Type 0 where
  begin : Step V
  finish : ℕ → V → Step V
  panic : ℕ → Step V
  release : ℕ → Step V
  receive : ℕ → Step V
  expire : ℕ → Step V

abbrev pub is_working : Routine → Bool
is_working absent = false
is_working working = true
is_working releasing = false
is_working ended = false

abbrev pub is_releasing : Routine → Bool
is_releasing absent = false
is_releasing working = false
is_releasing releasing = true
is_releasing ended = false

module _ {V : Type 0} where
  unfoldable pub change : ℕ → (Call V → Call V) → List (Call V) → List (Call V)
  change i f [] = []
  change zero f (c ∷ cs) = f c ∷ cs
  change (suc i) f (c ∷ cs) = c ∷ change i f cs

  -- The function of the call ends, and its result is sent; the channel has room for it.
  unfoldable pub sent : Result V → Call V → Call V
  sent r c = if is_working c.routine then record c { routine = releasing; channel = some r } else c

  abbrev pub first : Option (Result V) → Result V → Option (Result V)
  first none r = some r
  first (some a) r = some a

  abbrev pub received : Option (Result V) → Option (Result V) → Option (Result V)
  received none a = a
  received (some r) a = first a r

  -- The select of a call that still waits.
  unfoldable pub receives : Call V → Call V
  receives c = record c { answer = received c.channel c.answer }

  unfoldable pub expires : Call V → Call V
  expires c = record c { answer = first c.answer timed_out }

  unfoldable pub nth_releasing : ℕ → List (Call V) → Bool
  nth_releasing i [] = false
  nth_releasing zero (c ∷ cs) = is_releasing c.routine
  nth_releasing (suc i) (c ∷ cs) = nth_releasing i cs

  abbrev pub end_routine : Call V → Call V
  end_routine c = record c { routine = ended }

  -- `defer g.running.Store(false)`, the last thing that the goroutine does.
  unfoldable pub release_flag : ℕ → Guard V → Guard V
  release_flag i g =
      if nth_releasing i g.calls
      then record { running = false; calls = change i end_routine g.calls }
      else g

  abbrev pub refused_call : Call V
  refused_call = record { routine = absent; channel = none; answer = some skipped }

  abbrev pub started_call : Call V
  started_call = record { routine = working; channel = none; answer = none }

  -- The compare-and-swap of `run`, and the start of the goroutine.
  unfoldable pub begin_run : Guard V → Guard V
  begin_run g =
      if g.running
      then record g { calls = refused_call ∷ g.calls }
      else record { running = true; calls = started_call ∷ g.calls }

  unfoldable pub step : Step V → Guard V → Guard V
  step begin g = begin_run g
  step (finish i v) g = record g { calls = change i (sent (returned v)) g.calls }
  step (panic i) g = record g { calls = change i (sent panicked) g.calls }
  step (release i) g = release_flag i g
  step (receive i) g = record g { calls = change i receives g.calls }
  step (expire i) g = record g { calls = change i expires g.calls }

  unfoldable pub run : List (Step V) → Guard V → Guard V
  run [] g = g
  run (s ∷ ss) g = run ss (step s g)
