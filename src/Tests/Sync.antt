-- ===== src/Tests/Sync.antt =====
-- An agent with a stale key, and a server that knows another one.
use device_pulse.Prelude.{
  ℕ, Text, true, false, List, [], ◌∷◌, none, some, At, here, there, All, ◌⊎◌, if◌then◌else◌,
  list_beq, nat_eq, ◌≡◌, refl, arith,
}
use device_pulse.Queue.{Row, Queue}
use device_pulse.Queue.Order.{IsOrdered}
use device_pulse.Agent.Registration.{
  Fingerprint, Credentials, missing, no_reply, reply, Registered, is_complete,
  register_device_with_cache, enroll,
}
use device_pulse.Agent.Registration.Cached.{register_device_with_cache-cached}
use device_pulse.Agent.Sync.{Request, World, Agent, sync_round}
use device_pulse.Agent.Sync.Delivery.{Settled, sync_round-settles}
use device_pulse.Agent.Sync.Drain.{rounds, rounds-drain}

abbrev machine : Fingerprint
machine = record { hostname = 7 ∷ []; hardware_uuid = 8 ∷ []; mac_address = 9 ∷ [] }

abbrev stale : Credentials
stale = record { device_id = 1 ∷ []; api_key = 1 ∷ [] }

abbrev known : Credentials
known = record { device_id = 1 ∷ []; api_key = 2 ∷ [] }

abbrev registered : Registered
registered = record { credentials = stale; cache = missing }

register_device_with_cache-cached_example :
    let r = (register_device_with_cache false machine (reply 200 (some known)) true registered).1 in
    (is_complete r.credentials.device_id r.credentials.api_key ≡ true)
    × (register_device_with_cache true machine no_reply false r ≡ (none, r))
unfolding register_device_with_cache enroll list_beq
register_device_with_cache-cached_example =
    register_device_with_cache-cached machine (reply 200 (some known)) no_reply true false
      registered refl

abbrev world : World
world = record {
  fingerprint = machine;
  ingest = λ h key payload. if list_beq key (2 ∷ []) then 200 else 401;
  enrolls = λ h. reply 200 (some known);
  persists = λ h. true;
  fails = λ s. false;
}

abbrev agent : Agent
agent = record { registered = registered; requests = [] }

abbrev row : ℕ → Row
row i = record { id = i; payload = i ∷ i ∷ []; created_at = 10 }

abbrev queue : Queue
queue = record { rows = row 2 ∷ row 1 ∷ []; last_id = 2; pushes = 2 }

queue_in_order : IsOrdered queue
queue_in_order = record {
  descending = ((omega arith, tt), (tt, tt));
  issued = (omega arith, (omega arith, tt));
}

sync_round-settles_example :
    let (q, a) = sync_round world [] (queue, agent) in
    At (row 1) q.rows ⊎ Settled a.requests (1 ∷ 1 ∷ [])
sync_round-settles_example =
    sync_round-settles world [] queue agent (row 1) queue_in_order (there here) (there here)

accepts_known : (h : List Request) (p : Text) → world.ingest h (2 ∷ []) p ≡ 200
unfolding list_beq
accepts_known h p = refl

rejects_others :
    (h : List Request) (key p : Text) → list_beq key (2 ∷ []) ≡ false → world.ingest h key p ≡ 401
rejects_others h key p e = rw e refl

rounds-drain_example :
    let (q, a) = rounds world 1 (queue, agent) in
    (q.rows ≡ []) × All (λ (r : Row). Settled a.requests r.payload) queue.rows
unfolding list_beq
rounds-drain_example =
    rounds-drain world known accepts_known rejects_others (λ h. refl) (λ h. refl) refl 1 queue agent
      refl refl queue_in_order (omega arith)
