-- ===== src/Queue.antt =====
-- The agent's queue of unsent telemetry, agent/queue/queue.go. The table of SQLite is the list of
-- its rows from the newest id to the oldest, and each SQL statement is what its text says. A
-- statement may fail: `fails` says which of those a call makes do. A payload is its bytes, a time
-- is in seconds. The limits are arguments; `Prune` reads them from the environment.
pub mod Order
pub mod Cap
use device_pulse.Prelude.{
  ℕ, ◌+◌, ◌*◌, ◌-◌, ◌%◌, ◌^◌, ◌≤◌, ◌<◌, Text, Bool, true, false, not, ◌&&◌, ◌||◌, List, [], ◌∷◌,
  ◌++◌, Option, none, some, ltb, leb, ◌==◌, if◌then◌else◌, length, take, filter, map,
}

pub record Row : Type 0 where
  pub id : ℕ
  pub payload : Text
  pub created_at : ℕ

-- `last_id` is the counter of AUTOINCREMENT, `pushes` the 64 bits of the atomic counter.
pub record Queue : Type 0 where
  pub rows : List Row
  pub last_id : ℕ
  pub pushes : ℕ

pub record TelemetryItem : Type 0 where
  pub id : ℕ
  pub payload : Text

pub data Statement : Type 0 where
  insert_row : Statement
  delete_old : Statement
  select_cutoff : Statement
  delete_over_cap : Statement
  select_batch : Statement
  delete_sent : Statement

-- Whether the signed counter is a multiple of `pruneEveryNPushes`.
abbrev pub prune_due : ℕ → Bool
prune_due n = (if ltb n (2 ^ 63) then n % 100 else (2 ^ 64 - n) % 100) == 0

-- The newest row whose running total from the newest row on is over the cap.
unfoldable pub cutoff : ℕ → ℕ → List Row → Option ℕ
cutoff max_bytes running [] = none
cutoff max_bytes running (r ∷ rs) =
    let rest = cutoff max_bytes (running + length r.payload) rs in
    if ltb max_bytes (running + length r.payload) then some r.id else rest

abbrev pub is_recent : ℕ → ℕ → Row → Bool
is_recent max_age now r = not (ltb (r.created_at + max_age) now)

abbrev pub keep_rows : (Row → Bool) → Queue → Queue
keep_rows p q = record q { rows = filter p q.rows }

-- Whether it succeeds, and the queue that it leaves.
unfoldable pub prune_to : (Statement → Bool) → ℕ → ℕ → ℕ → Queue → Bool × Queue
unfolding cutoff
prune_to fails max_bytes max_age now q =
    if fails delete_old
    then (false, q)
    else let recent = keep_rows (is_recent max_age now) q in
      if fails select_cutoff then (false, recent) else elim (cutoff max_bytes 0 recent.rows) [
        | none ↦ (true, recent)
        | some i ↦
            if fails delete_over_cap
            then (false, recent)
            else (true, keep_rows (λ r. ltb i r.id) recent)
      ]

-- `payload` is what the JSON encoder returns. A failed prune is only logged.
unfoldable pub push : (Statement → Bool) → ℕ → ℕ → ℕ → Option Text → Queue → Bool × Queue
unfolding prune_to
push fails max_bytes max_age now none q = (false, q)
push fails max_bytes max_age now (some payload) q =
    if fails insert_row
    then (false, q)
    else let n = (q.pushes + 1) % 2 ^ 64 in
      let q' : Queue = record {
        rows = record { id = q.last_id + 1; payload = payload; created_at = now } ∷ q.rows;
        last_id = q.last_id + 1;
        pushes = n;
      } in
      (true, (if prune_due n then (prune_to fails max_bytes max_age now q').1 else q'))

unfoldable pub pop_batch : (Statement → Bool) → ℕ → Queue → Option (List TelemetryItem)
pop_batch fails limit q =
    if fails select_batch
    then none
    else some (map (λ r. record { id = r.id; payload = r.payload }) (take limit q.rows))

abbrev pub among : List ℕ → ℕ → Bool
among [] i = false
among (j ∷ js) i = (i == j) || among js i

unfoldable pub mark_sent : (Statement → Bool) → List ℕ → Queue → Bool × Queue
mark_sent fails [] q = (true, q)
mark_sent fails (i ∷ is) q =
    if fails delete_sent then (false, q) else (true, keep_rows (λ r. not (among (i ∷ is) r.id)) q)
