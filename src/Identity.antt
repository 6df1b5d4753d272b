-- ===== src/Identity.antt =====
-- crates/rok-sdk/src/identity.rs: credentials whose attributes are encrypted one by one. The thread's
-- generator is an argument.
pub mod Disclosure
mod Runs
use ethmumbai_rok.Common.{ℕ, Bytes, not, List, [], ◌∷◌, map, length, if◌then◌else◌}
use ethmumbai_rok.Error.{no_matching_access_entry, RokError, Result, ok, err, panic, ◌>>=◌}
use ethmumbai_rok.Crypto.{Crypto, Rng}
use ethmumbai_rok.Scope.{Scope}
use ethmumbai_rok.Keys.{ReadKeyPair, SpendKeyPair, can_access}
use ethmumbai_rok.Envelope.{EncryptedEnvelope}
use ethmumbai_rok.Encrypt.{Recipient, encrypt, decrypt}
use ethmumbai_rok.Encrypt.Listed.{builder}

pub record EncryptedAttribute : Type 0 where
  pub name : Bytes
  pub scope : Scope
  pub envelope : EncryptedEnvelope

pub record Credential : Type 0 where
  pub issuer_verifying_key : Bytes
  pub subject_id : Bytes
  pub attributes : List EncryptedAttribute

-- An argument of `issue`: the tuple of a name, a scope and a value.
pub record Attribute : Type 0 where
  pub name : Bytes
  pub scope : Scope
  pub value : Bytes

module _ (c : Crypto) where
  -- The loop over the attributes.
  unfoldable pub encrypt_attributes :
      SpendKeyPair → List Attribute → List Recipient → Rng → Result (List EncryptedAttribute × Rng)
  encrypt_attributes spend_key [] recipients rng = ok ([], rng)
  encrypt_attributes spend_key (a ∷ attributes) recipients rng = do
    (envelope, rng') ← encrypt c (builder spend_key a.scope recipients) a.value rng
    (rest, rng'') ← encrypt_attributes spend_key attributes recipients rng'
    ok (record { name = a.name; scope = a.scope; envelope = envelope } ∷ rest, rng'')

  unfoldable pub issue :
      SpendKeyPair → Bytes → List Attribute → List Recipient → Rng → Result Credential
  unfolding encrypt_attributes
  issue spend_key subject_id attributes recipients rng = do
    (encrypted_attrs, rng') ← encrypt_attributes spend_key attributes recipients rng
    ok (record {
      issuer_verifying_key = c.verifying_key spend_key.seed;
      subject_id = subject_id;
      attributes = encrypted_attrs;
    })

  -- The arms of the `match` on a failed decryption.
  unfoldable pub skip_or_fail :
      RokError → Result (List (Bytes × Bytes)) → Result (List (Bytes × Bytes))
  skip_or_fail (no_matching_access_entry id) rest = rest
  skip_or_fail e rest = err e

  unfoldable pub disclosed :
      Bytes → Result Bytes → Result (List (Bytes × Bytes)) → Result (List (Bytes × Bytes))
  unfolding skip_or_fail
  disclosed name (ok plaintext) rest = rest >>= λ pairs. ok ((name, plaintext) ∷ pairs)
  disclosed name (err e) rest = skip_or_fail e rest
  disclosed name panic rest = panic

  -- The loop of `disclose`.
  unfoldable pub disclose_attributes :
      Bytes → ReadKeyPair → List EncryptedAttribute → Result (List (Bytes × Bytes))
  unfolding disclosed
  disclose_attributes vk read_key [] = ok []
  disclose_attributes vk read_key (attr ∷ attributes) =
      let rest = disclose_attributes vk read_key attributes in
      if not (can_access c read_key attr.scope)
      then rest
      else disclosed attr.name (decrypt c attr.envelope read_key vk) rest

  unfoldable pub disclose : Credential → ReadKeyPair → Result (List (Bytes × Bytes))
  unfolding disclose_attributes
  disclose self read_key = disclose_attributes self.issuer_verifying_key read_key self.attributes

unfoldable pub attribute_count : Credential → ℕ
attribute_count self = length self.attributes

unfoldable pub attribute_names : Credential → List (Bytes × Scope)
attribute_names self = map (λ a. (a.name, a.scope)) self.attributes
