-- ===== src/Queue/Order.antt =====
-- The rows of agent/queue/queue.go: their order, and that sending loses none.
use device_pulse.Prelude.{
  ℕ, zero, suc, ◌+◌, ◌%◌, ◌^◌, ◌≤◌, ◌<◌, Text, Bool, true, false, not, List, [], ◌∷◌, Option, none,
  some, ltb, ◌==◌, take, filter, map, All, All-filter, Bool-cases, Option-cases, ◌≡◌, refl, sym, ap,
  ◌∙◌, arith, inl, inr,
}
use device_pulse.Queue.{
  Row, Queue, TelemetryItem, Statement, prune_due, cutoff, is_recent, keep_rows, prune_to, push,
  pop_batch, among, mark_sent, delete_old, select_cutoff, delete_over_cap, insert_row, select_batch,
  delete_sent,
}

abbrev pub Descending : List Row → Type 0
Descending [] = Unit
Descending (r ∷ rs) = All (λ x. x.id < r.id) rs × Descending rs

-- The ids descend, and AUTOINCREMENT has issued them all.
pub record IsOrdered (q : Queue) : Type 0 where
  pub descending : Descending q.rows
  pub issued : All (λ r. r.id ≤ q.last_id) q.rows

Descending-filter : (p : Row → Bool) (rs : List Row) → Descending rs → Descending (filter p rs)
unfolding filter
Descending-filter p [] d = tt
Descending-filter p (r ∷ rs) d = elim (Bool-cases (p r)) [
  | inl e ↦ rw e (All-filter (λ x. x.id < r.id) p rs d.0, Descending-filter p rs d.1)
  | inr e ↦ rw e (Descending-filter p rs d.1)
]

pub keep_rows-IsOrdered : (p : Row → Bool) (q : Queue) → IsOrdered q → IsOrdered (keep_rows p q)
keep_rows-IsOrdered p q o = record {
  descending = Descending-filter p q.rows o.descending;
  issued = All-filter (λ r. r.id ≤ q.last_id) p q.rows o.issued;
}

pub prune_to-IsOrdered :
    (fails : Statement → Bool) (max_bytes max_age now : ℕ) (q : Queue)
    → IsOrdered q
    → IsOrdered (prune_to fails max_bytes max_age now q).1
unfolding prune_to
prune_to-IsOrdered fails max_bytes max_age now q o =
    let recent = keep_rows (is_recent max_age now) q in
    let ro = keep_rows-IsOrdered (is_recent max_age now) q o in
    elim (Bool-cases (fails delete_old)) [
      | inl e ↦ rw (e, prune_to) o
      | inr e ↦ elim (Bool-cases (fails select_cutoff)) [
        | inl f ↦ rw (e, f, prune_to) ro
        | inr f ↦ elim (Option-cases (cutoff max_bytes 0 recent.rows)) [
          | inl g ↦ rw (e, f, g, prune_to) ro
          | inr (i, g) ↦ elim (Bool-cases (fails delete_over_cap)) [
            | inl h ↦ rw (e, f, g, h, prune_to) ro
            | inr h ↦ rw (e, f, g, h, prune_to) (keep_rows-IsOrdered (λ r. ltb i r.id) recent ro)
          ]
        ]
      ]
    ]

All-suc :
    (n : ℕ) (rs : List Row)
    → All (λ r. r.id ≤ n) rs
    → All (λ r. r.id < n + 1) rs × All (λ r. r.id ≤ n + 1) rs
All-suc n [] a = (tt, tt)
All-suc n (r ∷ rs) a = let (b, c) = All-suc n rs a.1 in ((ground arith, b), (ground arith, c))

pub push_row-IsOrdered :
    (payload : Text) (now : ℕ) (q : Queue) {n : ℕ}
    → IsOrdered q
    → IsOrdered (record {
      rows = record { id = q.last_id + 1; payload = payload; created_at = now } ∷ q.rows;
      last_id = q.last_id + 1;
      pushes = n;
    })
push_row-IsOrdered payload now q o =
    let (below, issued) = All-suc q.last_id q.rows o.issued in
    record { descending = (below, o.descending); issued = (omega arith, issued) }

push-IsOrdered :
    (fails : Statement → Bool) (max_bytes max_age now : ℕ) (payload : Option Text) (q : Queue)
    → IsOrdered q
    → IsOrdered (push fails max_bytes max_age now payload q).1
unfolding push
push-IsOrdered fails max_bytes max_age now none q o = o
push-IsOrdered fails max_bytes max_age now (some payload) q o =
    let q' : Queue = record {
      rows = record { id = q.last_id + 1; payload = payload; created_at = now } ∷ q.rows;
      last_id = q.last_id + 1;
      pushes = (q.pushes + 1) % 2 ^ 64;
    } in
    let o' : IsOrdered q' = push_row-IsOrdered payload now q o in
    elim (Bool-cases (fails insert_row)) [
      | inl e ↦ rw e o
      | inr e ↦ elim (Bool-cases (prune_due q'.pushes)) [
        | inl f ↦ rw (e, f) (prune_to-IsOrdered fails max_bytes max_age now q' o')
        | inr f ↦ rw (e, f) o'
      ]
    ]

pub mark_sent-IsOrdered :
    (fails : Statement → Bool) (ids : List ℕ) (q : Queue)
    → IsOrdered q
    → IsOrdered (mark_sent fails ids q).1
unfolding mark_sent
mark_sent-IsOrdered fails [] q o = o
mark_sent-IsOrdered fails (i ∷ is) q o = elim (Bool-cases (fails delete_sent)) [
  | inl e ↦ rw e o
  | inr e ↦ rw e (keep_rows-IsOrdered (λ r. not (among (i ∷ is) r.id)) q o)
]

-- The calls that change the queue.
pub data Call : Type 0 where
  pushing : (Statement → Bool) → ℕ → ℕ → ℕ → Option Text → Call
  pruning : (Statement → Bool) → ℕ → ℕ → ℕ → Call
  marking : (Statement → Bool) → List ℕ → Call

abbrev pub calls : List Call → Queue → Queue
calls [] q = q
calls (pushing fails max_bytes max_age now payload ∷ cs) q =
    calls cs (push fails max_bytes max_age now payload q).1
calls (pruning fails max_bytes max_age now ∷ cs) q =
    calls cs (prune_to fails max_bytes max_age now q).1
calls (marking fails ids ∷ cs) q = calls cs (mark_sent fails ids q).1

-- Any sequence of pushes, prunes and marks, whichever statements fail, keeps the rows in strictly
-- descending order of ids that have been issued.
pub calls-IsOrdered : (cs : List Call) (q : Queue) → IsOrdered q → IsOrdered (calls cs q)
calls-IsOrdered [] q o = o
calls-IsOrdered (pushing fails max_bytes max_age now payload ∷ cs) q o =
    calls-IsOrdered cs _ (push-IsOrdered fails max_bytes max_age now payload q o)
calls-IsOrdered (pruning fails max_bytes max_age now ∷ cs) q o =
    calls-IsOrdered cs _ (prune_to-IsOrdered fails max_bytes max_age now q o)
calls-IsOrdered (marking fails ids ∷ cs) q o =
    calls-IsOrdered cs _ (mark_sent-IsOrdered fails ids q o)

abbrev pub drop : ℕ → List Row → List Row
drop zero rs = rs
drop (suc n) [] = []
drop (suc n) (r ∷ rs) = drop n rs

abbrev pub row_ids : List Row → List ℕ
row_ids = map (λ r. r.id)

filter-none :
    (i : ℕ) (is : List ℕ) (rs : List Row)
    → All (λ r. r.id < i) rs
    → filter (λ r. not (among (i ∷ is) r.id)) rs ≡ filter (λ r. not (among is r.id)) rs
unfolding filter
filter-none i is [] a = refl
filter-none i is (r ∷ rs) a =
    let other : (r.id == i) ≡ false = ground arith in ground (arith, other, filter-none i is rs a.1)

filter-unmarked : (rs : List Row) → filter (λ r. not (among [] r.id)) rs ≡ rs
unfolding filter
filter-unmarked [] = refl
filter-unmarked (r ∷ rs) = ap (λ xs. r ∷ xs) (filter-unmarked rs)

filter-unsent :
    (n : ℕ) (rs : List Row)
    → Descending rs
    → filter (λ r. not (among (row_ids (take n rs)) r.id)) rs ≡ drop n rs
unfolding filter
filter-unsent zero rs d = filter-unmarked rs
filter-unsent (suc n) [] d = refl
filter-unsent (suc n) (r ∷ rs) d =
    let same : (r.id == r.id) ≡ true = ground arith in
    ground (arith, same, filter-none r.id (row_ids (take n rs)) rs d.0, filter-unsent n rs d.1)

abbrev pub item_ids : List TelemetryItem → List ℕ
item_ids = map (λ i. i.id)

pub item_ids-items :
    (rs : List Row)
    → item_ids (map (λ r. record { id = r.id; payload = r.payload }) rs) ≡ row_ids rs
item_ids-items [] = refl
item_ids-items (r ∷ rs) = ap (λ xs. r.id ∷ xs) (item_ids-items rs)

marked-rows :
    (fails : Statement → Bool) (ids : List ℕ) (q : Queue)
    → fails delete_sent ≡ false
    → (mark_sent fails ids q).1.rows ≡ filter (λ r. not (among ids r.id)) q.rows
unfolding mark_sent filter
marked-rows fails [] q e = sym (filter-unmarked q.rows)
marked-rows fails (i ∷ is) q e = rw e refl

-- Marking as sent the whole batch that was popped removes exactly that batch: what stays is the
-- queue without its newest `limit` rows, when the queue is ordered and the statements succeed.
pub mark_sent-pop_batch :
    (fails : Statement → Bool) (limit : ℕ) (q : Queue) (items : List TelemetryItem)
    → IsOrdered q
    → fails delete_sent ≡ false
    → pop_batch fails limit q ≡ some items
    → (mark_sent fails (item_ids items) q).1.rows ≡ drop limit q.rows
unfolding pop_batch
mark_sent-pop_batch fails limit q items o e p = elim (Bool-cases (fails select_batch)) [
  | inl f ↦
      let none_is : ◌≡◌ {A = Option (List TelemetryItem)} none (some items) = rw f at p in
      ground arith
  | inr f ↦
      let some_is : ◌≡◌ {A = Option (List TelemetryItem)}
          (some (map (λ r. record { id = r.id; payload = r.payload }) (take limit q.rows)))
          (some items) =
        rw f at p in
      let same : map (λ r. record { id = r.id; payload = r.payload }) (take limit q.rows) ≡ items =
        ground arith in
      let ids : item_ids items ≡ row_ids (take limit q.rows) =
        ap item_ids (sym same) ∙ item_ids-items (take limit q.rows) in
      marked-rows fails (item_ids items) q e
      ∙ ap (λ is. filter (λ r. not (among is r.id)) q.rows) ids
      ∙ filter-unsent limit q.rows o.descending
]
