-- ===== src/Keys.antt =====
-- crates/rok-core/src/keys/{key_id,read,spend}.rs and sign.rs: key identifiers, read keys bound to a
-- scope and the spend key. A `KeyId` is its 8 bytes; zeroing and dropping of secrets is not modelled.
pub mod Delegation
mod Runs
use ethmumbai_rok.Common.{
  ℕ, Bytes, Bool, not, if◌then◌else◌, ◌||◌, Option, none, some, [], ◌∷◌, length, take, bytes_eq,
  ◌==◌,
}
use ethmumbai_rok.Error.{
  num, str, text, format, derivation_error, encoding_error, invalid_key_material,
  signature_verification_failed, Result, ok, err, ◌>>=◌, ◌>>◌, refuse,
}
use ethmumbai_rok.Crypto.{Crypto}
use ethmumbai_rok.Scope
use ethmumbai_rok.Scope.{Scope, root, is_ancestor_of}
use ethmumbai_rok.Derive.{derive_root_read_secret, derive_child_read_secret}

-- `secret` is what the `StaticSecret` keeps.
pub record ReadKeyPair : Type 0 where
  pub secret : Bytes
  pub public : Bytes
  pub scope : Scope
  pub parent_key_id : Option Bytes

pub record ExportedReadKey : Type 0 where
  pub secret_bytes : Bytes
  pub public_bytes : Bytes
  pub scope : Scope
  pub parent_key_id : Option Bytes

pub record SpendKeyPair : Type 0 where
  pub seed : Bytes

module _ (c : Crypto) where
  -- KeyId::from_public_bytes
  unfoldable pub from_public_bytes : Bytes → Bytes
  from_public_bytes public_key = take 8 (c.sha256 public_key)

  unfoldable pub to_base58 : Bytes → Bytes
  to_base58 key_id = c.base58_encode key_id

  unfoldable pub from_base58 : Bytes → Result Bytes
  from_base58 s = elim (c.base58_decode s) [
    | none ↦ err (encoding_error (text "invalid base58: {}"))
    | some bytes ↦
        if length bytes == 8
        then ok bytes
        else err
            (encoding_error (format "expected 8 bytes for KeyId, got {}" (num (length bytes) ∷ [])))
  ]

  unfoldable pub from_secret_bytes : Bytes → Scope → Option Bytes → ReadKeyPair
  from_secret_bytes secret_bytes scope parent_key_id =
      let kept = c.static_secret secret_bytes in
      record {
        secret = kept;
        public = c.x25519_public kept;
        scope = scope;
        parent_key_id = parent_key_id;
      }

  unfoldable pub key_id : ReadKeyPair → Bytes
  unfolding from_public_bytes
  key_id self = from_public_bytes self.public

  unfoldable pub can_access : ReadKeyPair → Scope → Bool
  can_access self target_scope = is_ancestor_of self.scope target_scope

  unfoldable pub derive_child : ReadKeyPair → Scope → Result ReadKeyPair
  derive_child self child_scope = do
    refuse
        (not (is_ancestor_of self.scope child_scope) || bytes_eq self.scope.path child_scope.path)
        (derivation_error (
          format "'{}' is not a proper descendant of '{}'"
            (str child_scope.path ∷ str self.scope.path ∷ [])))
    child_secret ← derive_child_read_secret c self.secret self.scope child_scope
    ok (from_secret_bytes child_secret child_scope (some (key_id self)))

  unfoldable pub derive_child_segment : ReadKeyPair → Bytes → Result ReadKeyPair
  derive_child_segment self segment = do
    child_scope ← Scope.child self.scope segment
    derive_child self child_scope

  -- `export` and `import` of read.rs
  unfoldable pub export_key : ReadKeyPair → ExportedReadKey
  export_key self = record {
    secret_bytes = self.secret;
    public_bytes = self.public;
    scope = self.scope;
    parent_key_id = self.parent_key_id;
  }

  unfoldable pub import_key : ExportedReadKey → Result ReadKeyPair
  import_key exported =
      let kept = c.static_secret exported.secret_bytes in
      let public = c.x25519_public kept in
      if bytes_eq public exported.public_bytes
      then ok (record {
        secret = kept;
        public = public;
        scope = exported.scope;
        parent_key_id = exported.parent_key_id;
      })
      else err invalid_key_material

  unfoldable pub derive_root_read_key : SpendKeyPair → ReadKeyPair
  derive_root_read_key self = from_secret_bytes (derive_root_read_secret c self.seed) root none

  unfoldable pub spend_key_id : SpendKeyPair → Bytes
  unfolding from_public_bytes
  spend_key_id self = from_public_bytes (c.verifying_key self.seed)

  -- sign.rs, and `sign_bytes` of spend.rs
  unfoldable pub sign : SpendKeyPair → Bytes → Bytes
  sign spend_key msg = c.sign spend_key.seed msg

  unfoldable pub verify : Bytes → Bytes → Bytes → Result (Unit {0})
  verify verifying_key msg signature_bytes =
      if c.verify verifying_key msg signature_bytes
      then ok tt
      else err signature_verification_failed
