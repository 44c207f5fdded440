-- ===== src/Tests/Accounts.antt =====
-- Two users, and encodings of session tokens that know the claims of one of them.
use device_pulse.Prelude.{
  ℕ, ◌+◌, ◌-◌, Text, codes, list_beq, text_eq, ◌==◌, Bool, true, false, ◌&&◌, if◌then◌else◌, List,
  [], ◌∷◌, Option, none, some, All, ◌≡◌, refl, arith, Bool-cases, inl, inr, subst,
}
use device_pulse.Db.{Driver}
use device_pulse.Db.InMemory.{in_memory}
use device_pulse.Access.{ObjectIds, User, active, role_admin, role_manager}
use device_pulse.Access.Users.{Admin}
use device_pulse.Access.Sessions.{SessionClaims, Signing, day_seconds}

unfoldable pub hex_number : Text → Option ℕ
hex_number [] = none
hex_number (c ∷ []) = some (c - 97)
hex_number (c ∷ d ∷ cs) = none

abbrev pub ids : ObjectIds
ids = record { to_hex = λ i. (i + 97) ∷ []; from_hex = hex_number }

abbrev pub user : ℕ → Text → User
user i role = record {
  id = i;
  email = codes "e";
  name = codes "n";
  password_hash = [];
  role = role;
  status = active;
  created_at = 0;
  updated_at = 0;
  token_epoch = 0;
}

abbrev pub ada : User
ada = user 0 role_admin

abbrev pub bob : User
bob = user 1 role_manager

abbrev pub claims : SessionClaims
claims = record {
  user_id = codes "b";
  email = codes "e";
  name = codes "n";
  role = role_manager;
  exp = day_seconds;
  epoch = 0;
}

abbrev pub is_claims : SessionClaims → Bool
is_claims c =
    text_eq.beq c.user_id (codes "b")
    && text_eq.beq c.email (codes "e")
    && text_eq.beq c.name (codes "n")
    && text_eq.beq c.role role_manager
    && c.exp == day_seconds
    && c.epoch == 0

abbrev pub encode : SessionClaims → Option Text
encode c = if is_claims c then some (codes "x") else none

pub is_claims_lem : (c : SessionClaims) → is_claims c ≡ true → claims ≡ c
is_claims_lem c h = ground (
  arith,
  text_eq.beq_iff c.user_id (codes "b"),
  text_eq.beq_iff c.email (codes "e"),
  text_eq.beq_iff c.name (codes "n"),
  text_eq.beq_iff c.role role_manager,
)

pub decodes : (c : SessionClaims) (t : Text) → encode c ≡ some t → some claims ≡ some c
decodes c t e = elim (Bool-cases (is_claims c)) [
  | inl h ↦ let same = is_claims_lem c h in rw same refl
  | inr h ↦ absurd (ground (arith, h))
]

pub encoded : (c : SessionClaims) (t : Text) → encode c ≡ some t → codes "x" ≡ t
encoded c t e = elim (Bool-cases (is_claims c)) [
  | inl h ↦ ground (arith, h)
  | inr h ↦ absurd (ground (arith, h))
]

pub encode_no_dot :
    (c : SessionClaims) (t : Text) → encode c ≡ some t → All (λ b. (b == 46) ≡ false) t
encode_no_dot c t e = subst (All (λ b. (b == 46) ≡ false)) (encoded c t e) (refl, tt)

pub encode_ne : (c : SessionClaims) (t : Text) → encode c ≡ some t → text_eq.beq t [] ≡ false
unfolding list_beq
encode_ne c t e = subst (λ t. text_eq.beq t [] ≡ false) (encoded c t e) refl

pub sign_ne : (t : Text) → text_eq.beq (codes "y") [] ≡ false
unfolding list_beq
sign_ne t = refl

abbrev pub signing : Signing
signing = record {
  encode = encode;
  decode = λ t. some claims;
  sign = λ t. codes "y";
  decode-encode = decodes;
  encode_no_dot = encode_no_dot;
  encode_ne = encode_ne;
  sign_no_dot = λ t. (refl, tt);
  sign_ne = sign_ne;
}

abbrev pub users_db : Driver User (λ u. u.id)
users_db = in_memory (λ u. u.id)

abbrev pub bcrypt : Text → Option Text
bcrypt t = some t

abbrev pub users : List User
users = ada ∷ bob ∷ []

abbrev pub state : Admin
state = record { users = users; audit = [] }

abbrev pub token : Text
token = codes "x.y"
