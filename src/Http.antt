-- ===== src/Http.antt =====
-- How a handler of api/main.go ends: it refuses with a status and a message (`http.Error`), or
-- goes on with a value. A handler is a chain of such steps; what it writes is the last value.
use device_pulse.Prelude.{
  ℕ, Bool, true, false, String, Option, none, some, text_eq, ◌≡◌, refl, subst, ap, arith,
}

pub data Checked {ℓ} (A : Type ℓ) : Type ℓ where
  ok : A → Checked A
  refuse : ℕ → String → Checked A

infixl 5 ◌>>=◌ ◌>>◌
unfoldable pub ◌>>=◌ {ℓ κ} : {A : Type ℓ} {B : Type κ} → Checked A → (A → Checked B) → Checked B
ok a >>= f = f a
refuse code message >>= f = refuse code message

unfoldable pub ◌>>◌ {ℓ} : {B : Type ℓ} → Checked (Unit {0}) → Checked B → Checked B
unfolding ◌>>=◌
m >> k = m >>= λ _. k

-- `if !test { http.Error(…); return }`
unfoldable pub require : Bool → ℕ → String → Checked (Unit {0})
require true code message = ok tt
require false code message = refuse code message

-- A value, or an early return where there is none.
unfoldable pub or_refuse {ℓ} : {A : Type ℓ} → Option A → ℕ → String → Checked A
or_refuse (some a) code message = ok a
or_refuse none code message = refuse code message

-- A value that has passed is the one that was there.
pub or_refuse-ok {ℓ} :
    {A : Type ℓ} (o : Option A) (code : ℕ) (message : String) (a : A)
    → or_refuse o code message ≡ ok a
    → {b : A} → o ≡ some b
    → b ≡ a
unfolding or_refuse
or_refuse-ok (some c) code message a e h = ground (arith, e, h)
or_refuse-ok none code message a e h = absurd (ground arith)

-- The reply of a handler with the state that it leaves: a refusal leaves the state alone.
pub data Reply : Type 0 where
  error : ℕ → String → Reply
  done : ℕ → Reply

unfoldable pub finish {ℓ} : {S : Type ℓ} → S → ℕ → Checked S → Reply × S
finish s code (ok s') = (done code, s')
finish s code (refuse c message) = (error c message, s)

-- A handler that answers with a value: a refusal leaves the state alone.
unfoldable pub outcome {ℓ κ} : {A : Type ℓ} {S : Type κ} → S → Checked (A × S) → Checked A × S
outcome s (ok (a, s')) = (ok a, s')
outcome s (refuse code message) = (refuse code message, s)

-- What holds of the value that a chain ends with, if it is not refused. The rules follow the
-- chain, and hand on what each step has found.
pub data Keeps {ℓ κ} {A : Type ℓ} (P : A → Type κ) : Checked A → Type (ℓ ⊔ κ) where
  kept : {a : A} → P a → Keeps P (ok a)
  refused : {code : ℕ} {message : String} → Keeps P (refuse code message)

pub Keeps-outcome {ℓ κ μ} :
    {A : Type ℓ} {S : Type κ} (P : S → Type μ) (s : S) (m : Checked (A × S))
    → P s
    → Keeps (λ r. P r.1) m
    → P (outcome s m).1
unfolding outcome
Keeps-outcome P s m p (kept h) = h
Keeps-outcome P s m p refused = p

pub outcome-ok {ℓ κ} :
    {A : Type ℓ} {S : Type κ} (s : S) (m : Checked (A × S)) {a : A} {s' : S}
    → outcome s m ≡ (ok a, s')
    → m ≡ ok (a, s')
unfolding outcome
outcome-ok s (ok (b, t)) e = ground arith
outcome-ok s (refuse code message) e = absurd (ground arith)

module _ {ℓ κ} {B : Type ℓ} (P : B → Type κ) where
  pub Keeps-require :
      (test : Bool) (code : ℕ) (message : String) (k : Checked B)
      → (test ≡ true → Keeps P k)
      → Keeps P (require test code message >> k)
  unfolding require ◌>>◌
  Keeps-require true code message k h = h refl
  Keeps-require false code message k h = refused

  pub Keeps-or_refuse {μ} :
      {A : Type μ} (o : Option A) (code : ℕ) (message : String) (f : A → Checked B)
      → ((a : A) → o ≡ some a → Keeps P (f a))
      → Keeps P (or_refuse o code message >>= f)
  unfolding or_refuse ◌>>=◌
  Keeps-or_refuse (some a) code message f h = h a refl
  Keeps-or_refuse none code message f h = refused

  pub Keeps-finish : (s : B) (code : ℕ) (m : Checked B) → P s → Keeps P m → P (finish s code m).1
  unfolding finish
  Keeps-finish s code m p (kept h) = h
  Keeps-finish s code m p refused = p

  pub Keeps-done :
      (s : B) (code : ℕ) (m : Checked B) {s' : B}
      → finish s code m ≡ (done code, s')
      → Keeps P m
      → P s'
  unfolding finish
  Keeps-done s code m e (kept {a = a} h) = subst P (ap (λ r. r.1) e) h
  Keeps-done s code m e refused = absurd (ground arith)

  pub Keeps-ok : {m : Checked B} {b : B} → m ≡ ok b → Keeps P m → P b
  Keeps-ok {b = b} e (kept {a = a} h) = let same : a ≡ b = ground arith in subst P same h
  Keeps-ok e refused = absurd (ground arith)

  pub Keeps-bind {μ ν} :
      {A : Type μ} (Q : A → Type ν) (m : Checked A) (f : A → Checked B)
      → Keeps Q m
      → ((a : A) → Q a → Keeps P (f a))
      → Keeps P (m >>= f)
  unfolding ◌>>=◌
  Keeps-bind Q m f (kept {a = a} q) h = h a q
  Keeps-bind Q m f refused h = refused

pub Keeps-map {ℓ κ μ} :
    {B : Type ℓ} (Q : B → Type κ) (P : B → Type μ) (m : Checked B)
    → ((b : B) → Q b → P b)
    → Keeps Q m
    → Keeps P m
Keeps-map Q P m f (kept {a = a} q) = kept (f a q)
Keeps-map Q P m f refused = refused
