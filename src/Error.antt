-- ===== src/Error.antt =====
-- crates/rok-core/src/error.rs: the errors, and a computation that returns, fails or panics.
-- `panic` stands for a Rust panic (a slice out of range, `copy_from_slice` of unequal lengths).
use ethmumbai_rok.Common.{ℕ, ℤ, Bytes, String, ◌≡◌, refl, ◌⊎◌, inl, inr, List, Bool, true, false}

-- An argument of `format!`.
pub data Arg : Type 0 where
  num : ℕ → Arg
  int : ℤ → Arg
  str : Bytes → Arg

-- The message that an error carries: the template of its `format!` call and the call's arguments.
pub record Message : Type 0 where
  pub template : String
  pub args : List Arg

pub data RokError : Type 0 where
  derivation_error encryption_error decryption_error : Message → RokError
  signature_verification_failed : RokError
  invalid_scope : Message → RokError
  no_matching_access_entry key_not_found key_revoked : Bytes → RokError
  serialization_error : Message → RokError
  invalid_key_material : RokError
  scope_mismatch : Bytes → Bytes → RokError
  encoding_error : Message → RokError
  invalid_checksum : RokError
  storage_error : Message → RokError
  invalid_type_tag : ℕ → ℕ → RokError

pub data Result {ℓ} (A : Type ℓ) : Type ℓ where
  ok : A → Result A
  err : RokError → Result A
  panic : Result A

abbrev pub text : String → Message
text s = record { template = s; args = List.[] }

abbrev pub format : String → List Arg → Message
format s xs = record { template = s; args = xs }

-- `r?` and what follows it.
infixl 5 ◌>>=◌ ◌>>◌
abbrev pub ◌>>=◌ {ℓ κ} : {X : Type ℓ} {Y : Type κ} → Result X → (X → Result Y) → Result Y
panic >>= next = panic
err e >>= next = err e
ok x >>= next = next x

abbrev pub ◌>>◌ {κ} : {Y : Type κ} → Result (Unit {0}) → Result Y → Result Y
check >> r = check >>= λ done. r

-- `if bad { return Err(e); }`
abbrev pub refuse : Bool → RokError → Result (Unit {0})
refuse true e = err e
refuse false e = ok tt

abbrev pub is_ok {ℓ} : {A : Type ℓ} → Result A → Bool
is_ok (ok a) = true
is_ok (err e) = false
is_ok panic = false

-- A chain that succeeds has a first step that does.
pub >>=-eq-ok {ℓ κ} :
    {X : Type ℓ} {Y : Type κ} (r : Result X) (next : X → Result Y) {y : Y}
    → (r >>= next) ≡ ok y
    → (x : X) × (next x ≡ ok y) × (r ≡ ok x)
>>=-eq-ok panic next e = cc
>>=-eq-ok (err bad) next e = cc
>>=-eq-ok (ok x) next e = (x, e, refl)

pub ok-injective {ℓ} : {A : Type ℓ} {a b : A} → ok a ≡ ok b → a ≡ b
ok-injective h = cc

-- To split on a computed result and keep the equation.
pub Result-cases {ℓ} :
    {A : Type ℓ} (r : Result A)
    → ((a : A) × (r ≡ ok a)) ⊎ (((e : RokError) × (r ≡ err e)) ⊎ (r ≡ panic))
Result-cases (ok a) = inl (a, refl)
Result-cases (err e) = inr (inl (e, refl))
Result-cases panic = inr (inr refl)
