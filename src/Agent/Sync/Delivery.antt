-- ===== src/Agent/Sync/Delivery.antt =====
-- What becomes of the rows of the queue in agent/main.go: none is lost.
use device_pulse.Prelude.{
  ℕ, zero, suc, ◌<◌, Text, Bool, true, false, not, List, [], ◌∷◌, ltb, ◌==◌, ==_iff, length, take,
  filter, map, At, here, there, All-at, Bool-cases, Option-cases, ◌≡◌, refl, sym, ap, subst, ◌∙◌,
  ◌⊎◌, inl, inr, arith,
}
use device_pulse.Queue.{
  Row, Queue, TelemetryItem, Statement, pop_batch, mark_sent, among, select_batch, delete_sent,
}
use device_pulse.Queue.Order.{IsOrdered, Descending, Call, calls}
use device_pulse.Agent.Sync.{
  Agent, Request, World, max_telemetry_payload_bytes, batch_size, upload_queued_item,
  register_again, try_item, try_items, sync_round,
}

-- The payload is too large to be sent, or the server has answered a request with it by 200.
abbrev pub Settled : List Request → Text → Type 0
Settled requests payload =
    (ltb max_telemetry_payload_bytes (length payload) ≡ true)
    ⊎ ((key : Text) × At (record { key = key; payload = payload; status = 200 }) requests)

Settled-grows : (x : Request) (rs : List Request) (p : Text) → Settled rs p → Settled (x ∷ rs) p
Settled-grows x rs p (inl big) = inl big
Settled-grows x rs p (inr (key, m)) = inr (key, there m)

upload-grows :
    (w : World) (item : TelemetryItem) (a : Agent) (p : Text)
    → Settled a.requests p
    → Settled (upload_queued_item w item a).1.requests p
unfolding upload_queued_item
upload-grows w item a p s = Settled-grows _ a.requests p s

upload-settles :
    (w : World) (item : TelemetryItem) (a : Agent)
    → (upload_queued_item w item a).0.1 ≡ true
    → Settled (upload_queued_item w item a).1.requests item.payload
unfolding upload_queued_item
upload-settles w item a sent =
    let key = a.registered.credentials.api_key in
    let status = w.ingest a.requests key item.payload in
    let fine : status ≡ 200 = (==_iff status 200).0 sent in
    inr (
      key,
      subst
          (λ n.
            At (record { key = key; payload = item.payload; status = 200 })
              (record { key = key; payload = item.payload; status = n } ∷ a.requests))
          (sym fine) here,
    )

At-cons {ℓ} : {A : Type ℓ} {a x : A} {xs : List A} → At a (x ∷ xs) → (a ≡ x) ⊎ At a xs
At-cons here = inl refl
At-cons (there m) = inr m

-- What a step does to the requests, whether or not it sends the item.
abbrev pub Grown : Agent → Agent → Type 0
Grown a a' = (p : Text) → Settled a.requests p → Settled a'.requests p

abbrev pub Tried : TelemetryItem → Agent → Bool × Agent → Type 0
Tried item a t = Grown a t.1 × ((t.0 ≡ true) → Settled t.1.requests item.payload)

pub try_item-Tried :
    (w : World) (item : TelemetryItem) (a : Agent) → Tried item a (try_item w item a)
unfolding try_item
try_item-Tried w item a =
    let tried = (upload_queued_item w item a).1 in
    let known = register_again w tried in
    let again = upload_queued_item w item known.1 in
    let becomes = λ (t : Bool × Agent) (q : try_item w item a ≡ t) (h : Tried item a t).
      subst (Tried item a) (sym q) h in
    elim (Bool-cases (ltb max_telemetry_payload_bytes (length item.payload))) [
      | inl e ↦ becomes (true, a) (rw e refl) ((λ p s. s), (λ sent. inl e))
      | inr e ↦ elim (Bool-cases (upload_queued_item w item a).0.1) [
        | inl f ↦
            becomes (true, tried) (rw (e, f) refl)
              (upload-grows w item a, (λ sent. upload-settles w item a f))
        | inr f ↦ elim (Bool-cases ((upload_queued_item w item a).0.0 == 401)) [
          | inr g ↦
              becomes (false, tried) (rw (e, f, g) refl) (upload-grows w item a, λ sent. cc sent)
          | inl g ↦ elim (Option-cases known.0) [
            | inl h ↦
                becomes (again.0.1, again.1) (rw (e, f, g, h) refl)
                  (
                    (λ p s. upload-grows w item known.1 p (upload-grows w item a p s)),
                    upload-settles w item known.1,
                  )
            | inr (x, h) ↦
                becomes (false, known.1) (rw (e, f, g, h) refl)
                  (upload-grows w item a, λ sent. cc sent)
          ]
        ]
      ]
    ]

pub try_items-Grown :
    (w : World) (items : List TelemetryItem) (a : Agent) → Grown a (try_items w items a).1
unfolding try_items
try_items-Grown w [] a p s = s
try_items-Grown w (item ∷ items) a p s =
    try_items-Grown w items _ p ((try_item-Tried w item a).0 p s)

-- An id that is to be marked is the id of an item that is settled.
try_items-settles :
    (w : World) (items : List TelemetryItem) (a : Agent) {i : ℕ}
    → At i (try_items w items a).0
    → (item : TelemetryItem) × At item items
      × (item.id ≡ i)
      × Settled (try_items w items a).1.requests item.payload
unfolding try_items
try_items-settles w [] a m = elim m [ ]
try_items-settles w (item ∷ items) a {i} m =
    let t = try_item w item a in
    let done = (try_items w items t.1).1 in
    let later : At i (try_items w items t.1).0
        → (x : TelemetryItem) × At x (item ∷ items) × (x.id ≡ i) × Settled done.requests x.payload =
      λ n. let (x, at_x, same, s) = try_items-settles w items t.1 n in (x, there at_x, same, s) in
    elim (Bool-cases t.0) [
      | inl e ↦ elim (At-cons (rw e at m)) [
        | inl same ↦ (
          item,
          here,
          sym same,
          try_items-Grown w items t.1 item.payload ((try_item-Tried w item a).1 e),
        )
        | inr n ↦ later n
      ]
      | inr e ↦ later (rw e at m)
    ]

at-among : (ids : List ℕ) (i : ℕ) → among ids i ≡ true → At i ids
at-among [] i h = cc h
at-among (j ∷ js) i h = elim (Bool-cases (i == j)) [
  | inl e ↦ subst (λ k. At i (k ∷ js)) ((==_iff i j).0 e) here
  | inr e ↦ there (at-among js i (rw e at h))
]

at-unmarked :
    (ids : List ℕ) {r : Row} (rs : List Row)
    → At r rs
    → among ids r.id ≡ false
    → At r (filter (λ x. not (among ids x.id)) rs)
unfolding filter
at-unmarked ids [] m h = elim m [ ]
at-unmarked ids (r ∷ rs) here h = rw h here
at-unmarked ids (x ∷ rs) (there m) h = elim (Bool-cases (among ids x.id)) [
  | inl e ↦ rw e (at-unmarked ids rs m h)
  | inr e ↦ rw e (there (at-unmarked ids rs m h))
]

at-mark_sent :
    (fails : Statement → Bool) (ids : List ℕ) (q : Queue) {r : Row}
    → At r q.rows
    → among ids r.id ≡ false
    → At r (mark_sent fails ids q).1.rows
unfolding mark_sent
at-mark_sent fails [] q m h = m
at-mark_sent fails (i ∷ is) q m h = elim (Bool-cases (fails delete_sent)) [
  | inl e ↦ rw e m
  | inr e ↦ rw e (at-unmarked (i ∷ is) q.rows m h)
]

-- An item of a batch is a row of the queue.
at-batch :
    (n : ℕ) (rs : List Row) {item : TelemetryItem}
    → At item (map (λ r. record { id = r.id; payload = r.payload }) (take n rs))
    → (x : Row) × At x rs × (x.id ≡ item.id) × (x.payload ≡ item.payload)
at-batch zero rs m = elim m [ ]
at-batch (suc n) [] m = elim m [ ]
at-batch (suc n) (r ∷ rs) {item} m = elim (At-cons m) [
  | inl same ↦ (r, here, ap (λ i. i.id) (sym same), ap (λ i. i.payload) (sym same))
  | inr rest ↦ let (x, at_x, ids, payloads) = at-batch n rs rest in (x, there at_x, ids, payloads)
]

Descending-unique :
    (rs : List Row) {r x : Row} → Descending rs → At r rs → At x rs → x.id ≡ r.id → x ≡ r
Descending-unique [] d m n same = elim m [ ]
Descending-unique (r ∷ rs) d here here same = refl
Descending-unique (r ∷ rs) d here (there m) same =
    let less = All-at (λ y. y.id < r.id) d.0 m in absurd (omega (arith, less, same))
Descending-unique (r ∷ rs) d (there m) here same =
    let less = All-at (λ y. y.id < r.id) d.0 m in absurd (omega (arith, less, same))
Descending-unique (r ∷ rs) d (there m) (there n) same = Descending-unique rs d.1 m n same

pub sync_round-unread :
    (w : World) (meanwhile : List Call) (q : Queue) (a : Agent)
    → w.fails select_batch ≡ true
    → sync_round w meanwhile (q, a) ≡ (calls meanwhile q, a)
unfolding sync_round pop_batch
sync_round-unread w meanwhile q a e = rw (e, sync_round) refl

unfoldable pub batch_of : Queue → List TelemetryItem
batch_of q = map (λ r. record { id = r.id; payload = r.payload }) (take batch_size q.rows)

pub sync_round-read :
    (w : World) (meanwhile : List Call) (q : Queue) (a : Agent)
    → w.fails select_batch ≡ false
    → let t = try_items w (batch_of q) a in
      sync_round w meanwhile (q, a) ≡ ((mark_sent w.fails t.0 (calls meanwhile q)).1, t.1)
unfolding sync_round pop_batch batch_of
sync_round-read w meanwhile q a e = rw (e, sync_round) refl

-- A row that is in an ordered queue at the start of a round, and that nobody else removes meanwhile, is still there at the end,
-- unless it is too large to be sent or the server has answered an upload of its payload by 200.
pub sync_round-settles :
    (w : World) (meanwhile : List Call) (q : Queue) (a : Agent) (r : Row)
    → IsOrdered q
    → At r q.rows
    → At r (calls meanwhile q).rows
    → let (q', a') = sync_round w meanwhile (q, a) in At r q'.rows ⊎ Settled a'.requests r.payload
unfolding batch_of
sync_round-settles w meanwhile q a r o before after =
    let Fine : Queue × Agent → Type 0 = λ s. At r s.0.rows ⊎ Settled s.1.requests r.payload in
    elim (Bool-cases (w.fails select_batch)) [
      | inl e ↦ subst Fine (sym (sync_round-unread w meanwhile q a e)) (inl after)
      | inr e ↦
          let t = try_items w (batch_of q) a in
          subst Fine (sym (sync_round-read w meanwhile q a e)) (elim (Bool-cases (among t.0 r.id)) [
            | inl f ↦
                let (item, at_item, ids, s) =
                  try_items-settles w (batch_of q) a (at-among t.0 r.id f) in
                let (x, at_x, same, payloads) = at-batch batch_size q.rows at_item in
                let row = Descending-unique q.rows o.descending before at_x (same ∙ ids) in
                inr (subst (Settled t.1.requests) (sym payloads ∙ ap (λ y. y.payload) row) s)
            | inr f ↦ inl (at-mark_sent w.fails t.0 (calls meanwhile q) after f)
          ])
    ]
