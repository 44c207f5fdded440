-- ===== src/Tests/Queue.antt =====
-- A queue of three rows, and statements that all succeed.
use device_pulse.Prelude.{ℕ, ◌≤◌, Bool, true, false, List, [], ◌∷◌, some, filter, ◌≡◌, refl, arith}
use device_pulse.Queue.{
  Row, Queue, TelemetryItem, Statement, is_recent, cutoff, prune_to, pop_batch,
}
use device_pulse.Queue.Order.{IsOrdered}
use device_pulse.Queue.Cap.{total, fitting, prune_to-fitting}

abbrev row : ℕ → ℕ → Row
row i t = record { id = i; payload = 7 ∷ 7 ∷ []; created_at = t }

abbrev queue : Queue
queue = record { rows = row 3 30 ∷ row 2 20 ∷ row 1 10 ∷ []; last_id = 3; pushes = 3 }

abbrev works : Statement → Bool
works s = false

queue-IsOrdered : IsOrdered queue
queue-IsOrdered = record {
  descending = ((omega arith, (omega arith, tt)), ((omega arith, tt), (tt, tt)));
  issued = (omega arith, (omega arith, (omega arith, tt)));
}

-- The oldest row is too old, and of the other two one fits into 3 bytes.
prunes : (prune_to works 3 25 40 queue).1.rows ≡ row 3 30 ∷ []
unfolding prune_to cutoff filter
prunes = refl

prune_to-fitting_example :
    let (fine, q') = prune_to works 3 25 40 queue in
    (fine ≡ true)
    × (q'.rows ≡ fitting 3 (filter (is_recent 25 40) queue.rows))
    × (total q'.rows ≤ 3)
prune_to-fitting_example = prune_to-fitting works 3 25 40 queue queue-IsOrdered refl refl refl

abbrev batch : List TelemetryItem
batch = record { id = 3; payload = 7 ∷ 7 ∷ [] } ∷ record { id = 2; payload = 7 ∷ 7 ∷ [] } ∷ []

pops : pop_batch works 2 queue ≡ some batch
unfolding pop_batch
pops = refl
