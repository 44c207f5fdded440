-- ===== src/Db.antt =====
-- The MongoDB driver, which the repository only calls. A collection is the list of its documents,
-- and the driver is a record of the operations that the code uses, with what the documentation
-- says of each as laws. Every operation may fail (`none`), for reasons that the code does not see.
pub mod InMemory
pub mod Latest
pub mod Removal
pub mod Unique
use device_pulse.Prelude.{
  ℕ, suc, ◌+◌, ◌≤◌, Bool, true, false, List, [], ◌∷◌, ◌++◌, Option, none, some, if◌then◌else◌, ◌≡◌,
  ◌⊎◌, All, At, filter, length, map, ◌==◌,
}

-- `ys` is `xs` with one document that satisfies the filter replaced by its update.
pub data Updates {ℓ} {D : Type ℓ} (p : D → Bool) (f : D → D) : List D → List D → Type ℓ where
  at : {d : D} {ds : List D} → p d ≡ true → Updates p f (d ∷ ds) (f d ∷ ds)
  past : {d : D} {ds es : List D} → Updates p f ds es → Updates p f (d ∷ ds) (d ∷ es)

abbrev pub update_all {ℓ} : {D : Type ℓ} → (D → Bool) → (D → D) → List D → List D
update_all p f = map (λ d. if p d then f d else d)

-- What an insertion did. A unique index refuses a second document with the same key.
pub data Inserted {ℓ} (D : Type ℓ) : Type ℓ where
  inserted : List D → Inserted D
  duplicate_key : Inserted D
  insert_failed : Inserted D

-- The operations on the documents `D`, of which `id` is the unique `_id`.
pub record Driver {ℓ} (D : Type ℓ) (id : D → ℕ) : Type ℓ where
  -- `FindOne(filter)`, with the sort that the call asks for left open.
  pub find_one : (D → Bool) → List D → Option D
  pub find_one_lem :
      (p : D → Bool) (ds : List D) (d : D) → find_one p ds ≡ some d → At d ds × (p d ≡ true)
  -- `FindOne(filter)` with a sort on a key from the greatest on.
  pub find_latest : (D → Bool) → (D → ℕ) → List D → Option D
  pub find_latest_lem :
      (p : D → Bool) (key : D → ℕ) (ds : List D) (d : D)
      → find_latest p key ds ≡ some d
      → At d ds × (p d ≡ true) × All (λ x. p x ≡ true → key x ≤ key d) ds
  -- `Find(filter)`, read to its end.
  pub find : (D → Bool) → List D → Option (List D)
  pub find_lem : (p : D → Bool) (ds es : List D) → find p ds ≡ some es → es ≡ filter p ds
  -- `CountDocuments(filter)`
  pub count : (D → Bool) → List D → Option ℕ
  pub count_lem :
      (p : D → Bool) (ds : List D) (n : ℕ) → count p ds ≡ some n → n ≡ length (filter p ds)
  -- `InsertOne(d)`
  pub insert_one : D → List D → Inserted D
  pub insert_one_lem :
      (d : D) (ds es : List D)
      → insert_one d ds ≡ inserted es
      → (es ≡ ds ++ d ∷ []) × All (λ x. (id x == id d) ≡ false) ds
  -- `UpdateOne(filter, update)`: the number of documents matched, and the collection.
  pub update_one : (D → Bool) → (D → D) → List D → Option (ℕ × List D)
  pub update_one_lem :
      (p : D → Bool) (f : D → D) (ds es : List D) (n : ℕ)
      → update_one p f ds ≡ some (n, es)
      → ((n ≡ 0) × (es ≡ ds) × All (λ d. p d ≡ false) ds) ⊎ ((n ≡ 1) × Updates p f ds es)
  -- `UpdateMany(filter, update)`
  pub update_many : (D → Bool) → (D → D) → List D → Option (ℕ × List D)
  pub update_many_lem :
      (p : D → Bool) (f : D → D) (ds es : List D) (n : ℕ)
      → update_many p f ds ≡ some (n, es)
      → (n ≡ length (filter p ds)) × (es ≡ update_all p f ds)
  -- `FindOneAndUpdate(filter, update)` with `SetSort` on a key and the document after the update.
  pub find_one_and_update : (D → Bool) → (D → D) → (D → ℕ) → List D → Option (D × List D)
  pub find_one_and_update_lem :
      (p : D → Bool) (f : D → D) (key : D → ℕ) (ds es : List D) (e : D)
      → find_one_and_update p f key ds ≡ some (e, es)
      → (d : D) × At d ds
        × (p d ≡ true)
        × (e ≡ f d)
        × Updates (λ x. if p x then id x == id d else false) f ds es
        × All (λ x. p x ≡ true → key d ≤ key x) ds

-- No call of `FindOne` fails: each finds a document where one passes.
abbrev pub IsReliable {ℓ} : {D : Type ℓ} {id : D → ℕ} → Driver D id → Type ℓ
IsReliable {D = D} driver =
    (p : D → Bool) (ds : List D) (d : D)
    → At d ds
    → p d ≡ true
    → (x : D) × (driver.find_one p ds ≡ some x)
