-- ===== src/Queue/Cap.antt =====
-- The size cap of agent/queue/queue.go: what a prune keeps.
use device_pulse.Prelude.{
  ℕ, suc, ◌+◌, ◌-◌, ◌%◌, ◌^◌, ◌≤◌, ◌<◌, Text, Bool, true, false, List, [], ◌∷◌, Option, none, some,
  ltb, leb, if◌then◌else◌, length, take, filter, map, All, Bool-cases, Option-cases, ◌≡◌, refl, sym,
  ap, subst, ◌∙◌, arith, inl, inr,
}
use device_pulse.Queue.{
  Row, Queue, TelemetryItem, Statement, prune_due, cutoff, is_recent, keep_rows, prune_to, push,
  pop_batch, delete_old, select_cutoff, delete_over_cap, insert_row, select_batch,
}
use device_pulse.Queue.Order.{Descending, IsOrdered, keep_rows-IsOrdered, push_row-IsOrdered}

abbrev pub total : List Row → ℕ
total [] = 0
total (r ∷ rs) = length r.payload + total rs

-- The longest run of the newest rows whose payloads fit into `room` bytes.
unfoldable pub fitting : ℕ → List Row → List Row
fitting room [] = []
fitting room (r ∷ rs) =
    let rest = fitting (room - length r.payload) rs in
    if leb (length r.payload) room then r ∷ rest else []

total-fitting-le : (room : ℕ) (rs : List Row) → total (fitting room rs) ≤ room
unfolding fitting
total-fitting-le room [] = omega arith
total-fitting-le room (r ∷ rs) = elim (Bool-cases (leb (length r.payload) room)) [
  | inl e ↦ rw e (let h = total-fitting-le (room - length r.payload) rs in ground arith)
  | inr e ↦ rw e (omega arith)
]

fitting-cons :
    (room : ℕ) (r : Row) (rs : List Row)
    → leb (length r.payload) room ≡ true
    → fitting room (r ∷ rs) ≡ r ∷ fitting (room - length r.payload) rs
unfolding fitting
fitting-cons room r rs e = rw e refl

cutoff-below :
    (max_bytes running : ℕ) (rs : List Row) (i b : ℕ)
    → cutoff max_bytes running rs ≡ some i
    → All (λ x. x.id < b) rs
    → i < b
unfolding cutoff
cutoff-below max_bytes running [] i b h a = ground arith
cutoff-below max_bytes running (r ∷ rs) i b h a =
    ground (arith, cutoff-below max_bytes (running + length r.payload) rs i b)

filter-All : (i : ℕ) (rs : List Row) → All (λ x. x.id < i) rs → filter (λ r. ltb i r.id) rs ≡ []
unfolding filter
filter-All i [] a = refl
filter-All i (r ∷ rs) a =
    let no' : ltb i r.id ≡ false = ground arith in ground (arith, filter-All i rs a.1)

cut-fitting :
    (max_bytes running : ℕ) (rs : List Row) (i : ℕ)
    → running ≤ max_bytes
    → Descending rs
    → cutoff max_bytes running rs ≡ some i
    → filter (λ r. ltb i r.id) rs ≡ fitting (max_bytes - running) rs
unfolding filter fitting cutoff
cut-fitting max_bytes running [] i le d h = ground arith
cut-fitting max_bytes running (r ∷ rs) i le d h =
    elim (Bool-cases (ltb max_bytes (running + length r.payload))) [
      | inl e ↦
          let found : ◌≡◌ {A = Option ℕ} (some r.id) (some i) = rw e at h in
          let same : r.id ≡ i = ground arith in
          let big : leb (length r.payload) (max_bytes - running) ≡ false = ground arith in
          let self : ltb i r.id ≡ false = ground arith in
          let gone : filter (λ x. ltb i x.id) rs ≡ [] =
            subst (λ n. filter (λ x. ltb n x.id) rs ≡ []) same (filter-All r.id rs d.0) in
          rw (big, self) gone
      | inr e ↦
          let rest : cutoff max_bytes (running + length r.payload) rs ≡ some i = rw e at h in
          let small : leb (length r.payload) (max_bytes - running) ≡ true = ground arith in
          let above : ltb i r.id ≡ true =
            let lt = cutoff-below max_bytes (running + length r.payload) rs i r.id rest d.0 in
            ground arith in
          let room : max_bytes - (running + length r.payload)
              ≡ max_bytes - running - length r.payload =
            omega arith in
          let keeps : r ∷ filter (λ x. ltb i x.id) rs
              ≡ r ∷ fitting (max_bytes - running - length r.payload) rs =
            ap (λ xs. r ∷ xs)
              (cut-fitting max_bytes (running + length r.payload) rs i (ground arith) d.1 rest
                ∙ ap (λ n. fitting n rs) room) in
          rw (small, above) keeps
    ]

uncut-fitting :
    (max_bytes running : ℕ) (rs : List Row)
    → running ≤ max_bytes
    → cutoff max_bytes running rs ≡ none
    → rs ≡ fitting (max_bytes - running) rs
unfolding fitting cutoff
uncut-fitting max_bytes running [] le h = refl
uncut-fitting max_bytes running (r ∷ rs) le h =
    elim (Bool-cases (ltb max_bytes (running + length r.payload))) [
      | inl e ↦ let found : ◌≡◌ {A = Option ℕ} (some r.id) none = rw e at h in ground arith
      | inr e ↦
          let rest : cutoff max_bytes (running + length r.payload) rs ≡ none = rw e at h in
          let small : leb (length r.payload) (max_bytes - running) ≡ true = ground arith in
          let room : max_bytes - (running + length r.payload)
              ≡ max_bytes - running - length r.payload =
            omega arith in
          let keeps : r ∷ rs ≡ r ∷ fitting (max_bytes - running - length r.payload) rs =
            ap (λ xs. r ∷ xs)
              (uncut-fitting max_bytes (running + length r.payload) rs (ground arith) rest
                ∙ ap (λ n. fitting n rs) room) in
          rw small keeps
    ]

cut-whole :
    (max_bytes : ℕ) (rs : List Row) (i : ℕ)
    → Descending rs
    → cutoff max_bytes 0 rs ≡ some i
    → filter (λ r. ltb i r.id) rs ≡ fitting max_bytes rs
cut-whole max_bytes rs i d h =
    let room : max_bytes - 0 ≡ max_bytes = omega arith in
    cut-fitting max_bytes 0 rs i (omega arith) d h ∙ ap (λ n. fitting n rs) room

uncut-whole :
    (max_bytes : ℕ) (rs : List Row) → cutoff max_bytes 0 rs ≡ none → rs ≡ fitting max_bytes rs
uncut-whole max_bytes rs h =
    let room : max_bytes - 0 ≡ max_bytes = omega arith in
    uncut-fitting max_bytes 0 rs (omega arith) h ∙ ap (λ n. fitting n rs) room

-- A prune whose statements all succeed on an ordered queue keeps, of the rows that are not too old,
-- exactly the longest run of the newest ones that fits into the cap, and so at most `max_bytes` of
-- payload.
pub prune_to-fitting :
    (fails : Statement → Bool) (max_bytes max_age now : ℕ) (q : Queue)
    → IsOrdered q
    → fails delete_old ≡ false
    → fails select_cutoff ≡ false
    → fails delete_over_cap ≡ false
    → let (fine, q') = prune_to fails max_bytes max_age now q in
      (fine ≡ true)
      × (q'.rows ≡ fitting max_bytes (filter (is_recent max_age now) q.rows))
      × (total q'.rows ≤ max_bytes)
unfolding prune_to
prune_to-fitting fails max_bytes max_age now q o e f h =
    let recent = keep_rows (is_recent max_age now) q in
    let d = (keep_rows-IsOrdered (is_recent max_age now) q o).descending in
    let le = total-fitting-le max_bytes recent.rows in
    elim (Option-cases (cutoff max_bytes 0 recent.rows)) [
      | inl g ↦
          let same = uncut-whole max_bytes recent.rows g in
          rw (e, f, g, prune_to) (refl, same, subst (λ rs. total rs ≤ max_bytes) (sym same) le)
      | inr (i, g) ↦
          let same = cut-whole max_bytes recent.rows i d g in
          rw (e, f, g, h, prune_to) (refl, same, subst (λ rs. total rs ≤ max_bytes) (sym same) le)
    ]

prune_newest :
    (fails : Statement → Bool) (max_bytes max_age : ℕ) (q : Queue) (r : Row) (rs : List Row)
    → length r.payload ≤ max_bytes
    → q.rows ≡ r ∷ rs
    → IsOrdered q
    → (kept : List Row) × ((prune_to fails max_bytes max_age r.created_at q).1.rows ≡ r ∷ kept)
unfolding prune_to filter cutoff
prune_newest fails max_bytes max_age q r rs fits same o =
    let ok : leb (length r.payload) max_bytes ≡ true = ground arith in
    let young : ltb (r.created_at + max_age) r.created_at ≡ false = ground arith in
    let recent = keep_rows (is_recent max_age r.created_at) q in
    let others = filter (is_recent max_age r.created_at) rs in
    let d : Descending q.rows = o.descending in
    let left : recent.rows ≡ r ∷ others = rw (same, young) refl in
    elim (Bool-cases (fails delete_old)) [
      | inl e ↦ (rs, rw (e, prune_to) same)
      | inr e ↦ elim (Bool-cases (fails select_cutoff)) [
        | inl f ↦ (others, rw (e, f, prune_to) left)
        | inr f ↦ elim (Option-cases (cutoff max_bytes 0 recent.rows)) [
          | inl g ↦ (others, rw (e, f, g, prune_to) left)
          | inr (i, g) ↦ elim (Bool-cases (fails delete_over_cap)) [
            | inl h ↦ (others, rw (e, f, g, h, prune_to) left)
            | inr h ↦
                let cut =
                  cut-whole max_bytes recent.rows i
                    (keep_rows-IsOrdered (is_recent max_age r.created_at) q o).descending g in
                let all : filter (λ x. ltb i x.id) recent.rows
                    ≡ r ∷ fitting (max_bytes - length r.payload) others =
                  cut ∙ ap (λ xs. fitting max_bytes xs) left ∙ fitting-cons max_bytes r others ok in
                (fitting (max_bytes - length r.payload) others, rw (e, f, g, h, prune_to) all)
          ]
        ]
      ]
    ]

-- A payload that is inserted into an ordered queue and fits into the cap is the first item of a
-- batch of at least one that is read next, whether or not the push has pruned, and however that
-- prune went.
pub push-pop_batch :
    (fails : Statement → Bool) (max_bytes max_age now limit : ℕ) (payload : Text) (q : Queue)
    → fails insert_row ≡ false
    → fails select_batch ≡ false
    → length payload ≤ max_bytes
    → IsOrdered q
    → (rest : List TelemetryItem) × (pop_batch fails
          (suc limit)
          (push fails max_bytes max_age now (some payload) q).1
        ≡ some (record { id = q.last_id + 1; payload = payload } ∷ rest))
unfolding push pop_batch
push-pop_batch fails max_bytes max_age now limit payload q e f fits o =
    elim (Bool-cases (prune_due ((q.pushes + 1) % 2 ^ 64))) [
      | inl d ↦
          let q' : Queue = record {
            rows = record { id = q.last_id + 1; payload = payload; created_at = now } ∷ q.rows;
            last_id = q.last_id + 1;
            pushes = (q.pushes + 1) % 2 ^ 64;
          } in
          let (rows, h) =
            prune_newest fails max_bytes max_age q' _ q.rows fits refl
              (push_row-IsOrdered payload now q o) in
          (
            map (λ r. record { id = r.id; payload = r.payload }) (take limit rows),
            rw (e, d, f)
                (ap
                  (λ rs.
                    some
                      (map (λ r. record { id = r.id; payload = r.payload }) (take (suc limit) rs)))
                  h),
          )
      | inr d ↦ (
        map (λ r. record { id = r.id; payload = r.payload }) (take limit q.rows),
        rw (e, d, f) refl,
      )
    ]
