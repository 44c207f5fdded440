-- ===== src/Agent/Sync/Drain.antt =====
-- The backlog of agent/main.go is drained when the server accepts what it is sent.
use device_pulse.Prelude.{
  ℕ, zero, suc, ◌*◌, ◌-◌, ◌≤◌, Text, true, false, List, [], ◌∷◌, none, some, ltb, ◌==◌, list_beq,
  list_beq_iff, nat_eq, length, take, map, All, All-map, Bool-cases, ◌≡◌, refl, sym, ap, subst, inl,
  inr, arith,
}
use device_pulse.Queue.{Row, Queue, TelemetryItem, pop_batch, select_batch, delete_sent}
use device_pulse.Queue.Order.{IsOrdered, drop, item_ids, mark_sent-pop_batch, mark_sent-IsOrdered}
use device_pulse.Agent.Registration.{Credentials, reply, is_complete, register_device_with_cache}
use device_pulse.Agent.Sync.{
  Agent, Request, World, max_telemetry_payload_bytes, batch_size, upload_queued_item,
  register_again, try_item, try_items, sync_round,
}
use device_pulse.Agent.Sync.Delivery.{
  Settled, Grown, try_item-Tried, try_items-Grown, batch_of, sync_round-read, sync_round-unread,
}

sync_round-Grown : (w : World) (s : Queue × Agent) → Grown s.1 (sync_round w [] s).1
sync_round-Grown w (q, a) p h = elim (Bool-cases (w.fails select_batch)) [
  | inl e ↦ rw (sync_round-unread w [] q a e) h
  | inr e ↦ rw (sync_round-read w [] q a e) (try_items-Grown w (batch_of q) a p h)
]

unfoldable pub rounds : World → ℕ → Queue × Agent → Queue × Agent
unfolding sync_round
rounds w zero s = s
rounds w (suc n) s = rounds w n (sync_round w [] s)

rounds-Grown : (w : World) (n : ℕ) (s : Queue × Agent) → Grown s.1 (rounds w n s).1
unfolding rounds
rounds-Grown w zero s p h = h
rounds-Grown w (suc n) s p h = rounds-Grown w n (sync_round w [] s) p (sync_round-Grown w s p h)

length-drop : (n : ℕ) (rs : List Row) → length (drop n rs) ≡ length rs - n
length-drop zero rs = omega arith
length-drop (suc n) [] = omega arith
length-drop (suc n) (r ∷ rs) = omega (arith, length-drop n rs)

length-zero : (rs : List Row) → length rs ≤ 0 → rs ≡ []
length-zero [] h = refl
length-zero (r ∷ rs) h = absurd (omega arith)

All-drop :
    (P : Text → Type 0) (n : ℕ) (rs : List Row)
    → All
        (λ (i : TelemetryItem). P i.payload)
        (map (λ r. record { id = r.id; payload = r.payload }) (take n rs))
    → All (λ (r : Row). P r.payload) (drop n rs)
    → All (λ (r : Row). P r.payload) rs
All-drop P zero rs a b = b
All-drop P (suc n) [] a b = tt
All-drop P (suc n) (r ∷ rs) a b = (a.0, All-drop P n rs a.1 b)

-- A server that knows one key of the device, and gives it on registration.
module _ (w : World) (known : Credentials)
    (accepts : (h : List Request) (p : Text) → w.ingest h known.api_key p ≡ 200)
    (rejects : (h : List Request) (key p : Text)
      → list_beq key known.api_key ≡ false
      → w.ingest h key p ≡ 401)
    (enrolls : (h : List Request) → w.enrolls h ≡ reply 200 (some known))
    (persists : (h : List Request) → w.persists h ≡ true)
    (complete : is_complete known.device_id known.api_key ≡ true) where
  register_again-known :
      (a : Agent)
      → ((register_again w a).0 ≡ none) × ((register_again w a).1.registered.credentials ≡ known)
  unfolding register_device_with_cache
  register_again-known a = rw (enrolls a.requests, persists a.requests, complete) (refl, refl)

  upload_known :
      (item : TelemetryItem) (a : Agent)
      → a.registered.credentials.api_key ≡ known.api_key
      → (upload_queued_item w item a).0.1 ≡ true
  unfolding upload_queued_item
  upload_known item a h = rw (h, accepts a.requests item.payload) refl

  upload_stale :
      (item : TelemetryItem) (a : Agent)
      → list_beq a.registered.credentials.api_key known.api_key ≡ false
      → (upload_queued_item w item a).0 ≡ (401, false)
  unfolding upload_queued_item
  upload_stale item a h =
      rw (rejects a.requests a.registered.credentials.api_key item.payload h) refl

  try_item-sends : (item : TelemetryItem) (a : Agent) → (try_item w item a).0 ≡ true
  unfolding try_item
  try_item-sends item a =
      elim (Bool-cases (ltb max_telemetry_payload_bytes (length item.payload))) [
        | inl e ↦ rw e refl
        | inr e ↦ elim (Bool-cases (list_beq a.registered.credentials.api_key known.api_key)) [
          | inl f ↦ rw (e, upload_known item a ((list_beq_iff _ _).0 f)) refl
          | inr f ↦
              let (fine, got) = register_again-known (upload_queued_item w item a).1 in
              let stale = upload_stale item a f in
              let status : ((upload_queued_item w item a).0.0 == 401) ≡ true =
                ap (λ u. u.0 == 401) stale in
              let unsent : (upload_queued_item w item a).0.1 ≡ false = ap (λ u. u.1) stale in
              rw (e, unsent, status, fine)
                (upload_known item (register_again w (upload_queued_item w item a).1).1
                  (ap (λ c. c.api_key) got))
        ]
      ]

  try_items-sends :
      (items : List TelemetryItem) (a : Agent)
      → ((try_items w items a).0 ≡ item_ids items)
        × All (λ (i : TelemetryItem). Settled (try_items w items a).1.requests i.payload) items
  unfolding try_items
  try_items-sends [] a = (refl, tt)
  try_items-sends (item ∷ items) a =
      let t = try_item w item a in
      let sent = try_item-sends item a in
      let (ids, all) = try_items-sends items t.1 in
      (
        rw sent (ap (λ is. item.id ∷ is) ids),
        (try_items-Grown w items t.1 item.payload ((try_item-Tried w item a).1 sent), all),
      )

  -- One round of a loop whose statements succeed.
  sync_round-drops :
      (q : Queue) (a : Agent)
      → w.fails select_batch ≡ false
      → w.fails delete_sent ≡ false
      → IsOrdered q
      → let (q', a') = sync_round w [] (q, a) in
        (q'.rows ≡ drop batch_size q.rows)
        × IsOrdered q'
        × All (λ (i : TelemetryItem). Settled a'.requests i.payload) (batch_of q)
  unfolding pop_batch batch_of
  sync_round-drops q a e f o =
      let t = try_items w (batch_of q) a in
      let (ids, all) = try_items-sends (batch_of q) a in
      let Fine : Queue × Agent → Type 0 = λ s.
        (s.0.rows ≡ drop batch_size q.rows)
        × IsOrdered s.0
        × All (λ (i : TelemetryItem). Settled s.1.requests i.payload) (batch_of q) in
      subst Fine (sym (sync_round-read w [] q a e)) (
        rw ids (mark_sent-pop_batch w.fails batch_size q (batch_of q) o f (rw e refl)),
        mark_sent-IsOrdered w.fails t.0 q o,
        all,
      )

  -- Once the server accepts the uploads of one key, answers 401 to every other key and gives that key on registration, rounds
  -- whose statements and cache writes succeed empty an ordered queue, 50 rows at a time, whatever key the agent starts with,
  -- and each row's payload has been accepted or is too large to be sent.
  pub rounds-drain :
      (n : ℕ) (q : Queue) (a : Agent)
      → w.fails select_batch ≡ false
      → w.fails delete_sent ≡ false
      → IsOrdered q
      → length q.rows ≤ n * batch_size
      → let (q', a') = rounds w n (q, a) in
        (q'.rows ≡ []) × All (λ (r : Row). Settled a'.requests r.payload) q.rows
  unfolding rounds batch_of
  rounds-drain zero q a e f o le =
      let none_left = length-zero q.rows (omega arith) in (none_left, rw none_left tt)
  rounds-drain (suc n) q a e f o le =
      let (q', a') = sync_round w [] (q, a) in
      let (rows, o', all) = sync_round-drops q a e f o in
      let shorter : length q'.rows ≤ n * batch_size =
        rw rows (omega (arith, length-drop batch_size q.rows)) in
      let (empty, rest) = rounds-drain n q' a' e f o' shorter in
      let final = (rounds w n (q', a')).1 in
      (
        empty,
        All-drop (Settled final.requests) batch_size q.rows
            (All-map (λ i. rounds-Grown w n (q', a') i.payload) (batch_of q) all)
            (subst (All (λ (r : Row). Settled final.requests r.payload)) rows rest),
      )
