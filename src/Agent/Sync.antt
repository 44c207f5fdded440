-- ===== src/Agent/Sync.antt =====
-- The loop that uploads the queue, `syncEngine` of agent/main.go. The network outside is a `World`:
-- its answers may depend on all requests so far, newest first. A request that fails has status 0.
pub mod Delivery
pub mod Drain
use device_pulse.Prelude.{
  ℕ, ◌*◌, Text, Bool, true, false, List, [], ◌∷◌, Option, none, some, ltb, ◌==◌, if◌then◌else◌,
  length,
}
use device_pulse.Queue.{Queue, TelemetryItem, Statement, pop_batch, mark_sent}
use device_pulse.Queue.Order.{Call, calls}
use device_pulse.Agent.Registration.{
  Fingerprint, Reply, RegistrationError, Registered, register_device_with_cache,
}

abbrev pub max_telemetry_payload_bytes : ℕ
max_telemetry_payload_bytes = 5 * 1024 * 1024

abbrev pub batch_size : ℕ
batch_size = 50

-- An upload that was tried.
pub record Request : Type 0 where
  pub key : Text
  pub payload : Text
  pub status : ℕ

pub record World : Type 0 where
  pub fingerprint : Fingerprint
  pub ingest : List Request → Text → Text → ℕ
  pub enrolls : List Request → Reply
  pub persists : List Request → Bool
  pub fails : Statement → Bool

pub record Agent : Type 0 where
  pub registered : Registered
  pub requests : List Request

unfoldable pub upload_queued_item : World → TelemetryItem → Agent → (ℕ × Bool) × Agent
upload_queued_item w item a =
    let key = a.registered.credentials.api_key in
    let status = w.ingest a.requests key item.payload in
    (
      (status, status == 200),
      record a {
        requests = record { key = key; payload = item.payload; status = status } ∷ a.requests;
      },
    )

abbrev pub register_again : World → Agent → Option RegistrationError × Agent
register_again w a =
    let (failed, registered) =
      register_device_with_cache false w.fingerprint (w.enrolls a.requests) (w.persists a.requests)
        a.registered in
    (failed, record a { registered = registered })

-- The body of the loop over a batch: whether the item's id goes to `sentIDs`.
unfoldable pub try_item : World → TelemetryItem → Agent → Bool × Agent
unfolding upload_queued_item
try_item w item a =
    if ltb max_telemetry_payload_bytes (length item.payload)
    then (true, a)
    else let ((status, sent), tried) = upload_queued_item w item a in
      if sent
      then (true, tried)
      else if status == 401
      then (let (failed, known) = register_again w tried in
          elim failed [
            | some e ↦ (false, known)
            | none ↦
                let ((status_again, sent_again), again) = upload_queued_item w item known in
                (sent_again, again)
          ])
      else (false, tried)

unfoldable pub try_items : World → List TelemetryItem → Agent → List ℕ × Agent
unfolding try_item
try_items w [] a = ([], a)
try_items w (item ∷ items) a =
    let (sent, tried) = try_item w item a in
    let (ids, done) = try_items w items tried in ((if sent then item.id ∷ ids else ids), done)

-- One turn of the loop. Other goroutines and processes call the queue while the batch is uploaded.
unfoldable pub sync_round : World → List Call → Queue × Agent → Queue × Agent
unfolding try_items
sync_round w meanwhile (q, a) = elim (pop_batch w.fails batch_size q) [
  | none ↦ (calls meanwhile q, a)
  | some items ↦
      let (ids, done) = try_items w items a in ((mark_sent w.fails ids (calls meanwhile q)).1, done)
]
