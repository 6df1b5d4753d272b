-- ===== src/Encrypt.antt =====
-- crates/rok-core/src/encrypt.rs: the payload cipher, the wrapping of the data key for each
-- recipient, `EncryptBuilder::encrypt`, `decrypt` and `rekey_recipients`.
-- `&mut rng` is passed on in the result; a call that fails drops it. Zeroing is not modelled.
pub mod Wrapping
pub mod RoundTrip
pub mod Sizes
pub mod Stored
pub mod Access
pub mod Rekey
pub mod Listed
pub mod Sample
mod Runs
use ethmumbai_rok.Common.{
  ℕ, ◌-◌, Bytes, Bool, true, false, not, ◌&&◌, Option, none, some, List, [], ◌∷◌, ◌++◌, length,
  take, drop, bytes_eq, ltb, ◌==◌, if◌then◌else◌, replicate,
}
use ethmumbai_rok.Error.{
  text, encryption_error, decryption_error, signature_verification_failed, scope_mismatch,
  no_matching_access_entry, invalid_key_material, RokError, Result, ok, err, panic, ◌>>=◌, ◌>>◌,
  refuse,
}
use ethmumbai_rok.Crypto.{Crypto, Rng, fill_bytes}
use ethmumbai_rok.Scope.{Scope, root}
use ethmumbai_rok.Derive.{derive_wrapping_key}
use ethmumbai_rok.Keys.{
  ReadKeyPair, SpendKeyPair, key_id, can_access, derive_child, derive_root_read_key, to_base58,
}
use ethmumbai_rok.Envelope.{
  Algorithm, AccessMode, recipient, scope_based, AccessEntry, EncryptedEnvelope, signable_bytes,
  current_version,
}

pub record Recipient : Type 0 where
  pub read_public_key : Bytes
  pub key_id : Bytes

-- `is_scope_based` is the field `scope_based`.
pub record EncryptBuilder : Type 0 where
  pub algorithm : Algorithm
  pub scope : Scope
  pub recipients : List Recipient
  pub spend_key : Option SpendKeyPair
  pub is_scope_based : Bool

-- EncryptBuilder::new
unfoldable pub new : Algorithm → Scope → EncryptBuilder
new algorithm scope = record {
  algorithm = algorithm;
  scope = scope;
  recipients = [];
  spend_key = none;
  is_scope_based = false;
}

unfoldable pub add_recipient : EncryptBuilder → Recipient → EncryptBuilder
add_recipient self r = record self { recipients = self.recipients ++ r ∷ [] }

unfoldable pub add_recipients : EncryptBuilder → List Recipient → EncryptBuilder
add_recipients self rs = record self { recipients = self.recipients ++ rs }

unfoldable pub set_spend_key : EncryptBuilder → SpendKeyPair → EncryptBuilder
set_spend_key self spend_key = record self { spend_key = some spend_key }

unfoldable pub set_scope_based : EncryptBuilder → EncryptBuilder
set_scope_based self = record self { is_scope_based = true }

-- `e.read_key_id == my_key_id` in `access_entries.iter().find(..)`
unfoldable pub find_entry : Bytes → List AccessEntry → Option AccessEntry
find_entry id [] = none
find_entry id (e ∷ es) = if bytes_eq e.read_key_id id then some e else find_entry id es

unfoldable pub is_scope_based_mode : AccessMode → Bool
is_scope_based_mode scope_based = true
is_scope_based_mode recipient = false

-- `.map_err(|_| e)` and `.ok_or(e)`
abbrev pub or_error {ℓ} : {A : Type ℓ} → Option A → RokError → Result A
or_error none e = err e
or_error (some a) e = ok a

module _ (c : Crypto) where
  -- `split_at(len - 16)` panics on a result shorter than a tag.
  unfoldable pub split_tag : Bytes → Result (Bytes × Bytes)
  split_tag encrypted =
      if ltb (length encrypted) 16
      then panic
      else ok (take (length encrypted - 16) encrypted, drop (length encrypted - 16) encrypted)

  -- Returns the ciphertext, the nonce and the tag.
  unfoldable pub encrypt_payload : Bytes → Bytes → Rng → Result ((Bytes × Bytes × Bytes) × Rng)
  unfolding split_tag fill_bytes
  encrypt_payload data_key plaintext rng = do
    let drawn = fill_bytes 12 rng
    refuse (not (c.chacha_init data_key)) (encryption_error (text "ChaCha20 init: {}"))
    encrypted ←
        or_error (c.chacha_encrypt data_key drawn.0 plaintext)
          (encryption_error (text "ChaCha20 encrypt: {}"))
    parts ← split_tag encrypted
    ok ((parts.0, drawn.0, parts.1), drawn.1)

  unfoldable pub decrypt_payload : Bytes → Bytes → Bytes → Bytes → Result Bytes
  decrypt_payload data_key ciphertext nonce tag = do
    refuse (not (c.chacha_init data_key)) (decryption_error (text "ChaCha20 init: {}"))
    or_error (c.chacha_decrypt data_key nonce (ciphertext ++ tag))
        (decryption_error (text "ciphertext authentication failed"))

  unfoldable pub wrap_data_key : Bytes → Bytes → Bytes → Rng → Result (AccessEntry × Rng)
  unfolding fill_bytes derive_wrapping_key
  wrap_data_key data_key shared_secret id rng = do
    let wrapping_key = derive_wrapping_key c shared_secret id
    let drawn = fill_bytes 12 rng
    refuse (not (c.siv_init wrapping_key)) (encryption_error (text "AES-GCM-SIV init: {}"))
    wrapped ←
        or_error (c.siv_encrypt wrapping_key drawn.0 data_key)
          (encryption_error (text "key wrap: {}"))
    ok (record { read_key_id = id; wrapped_data_key = wrapped; wrap_nonce = drawn.0 }, drawn.1)

  unfoldable pub unwrap_data_key : AccessEntry → Bytes → Bytes → Result Bytes
  unfolding derive_wrapping_key
  unwrap_data_key entry shared_secret id = do
    let wrapping_key = derive_wrapping_key c shared_secret id
    refuse (not (c.siv_init wrapping_key)) (decryption_error (text "AES-GCM-SIV init: {}"))
    or_error (c.siv_decrypt wrapping_key entry.wrap_nonce entry.wrapped_data_key)
        (decryption_error (text "failed to unwrap data key"))

  -- The loop `for recipient in &recipients`, in `encrypt` and in `rekey_recipients`.
  unfoldable pub wrap_all : Bytes → Bytes → List Recipient → Rng → Result (List AccessEntry × Rng)
  wrap_all data_key ephemeral [] rng = ok ([], rng)
  wrap_all data_key ephemeral (r ∷ rs) rng = do
    (entry, rng') ←
        wrap_data_key data_key (c.diffie_hellman ephemeral r.read_public_key) r.key_id rng
    (entries, rng'') ← wrap_all data_key ephemeral rs rng'
    ok (entry ∷ entries, rng'')

  -- In scope-based mode the sole recipient is the scope's own read key.
  unfoldable pub choose_recipients :
      EncryptBuilder → SpendKeyPair → Result (List Recipient × AccessMode)
  choose_recipients self spend_key =
      if self.is_scope_based
      then (do
        let root_read = derive_root_read_key c spend_key
        scope_key ←
            (if bytes_eq self.scope.path root.path
              then ok root_read
              else derive_child c root_read self.scope)
        ok (
          record { read_public_key = scope_key.public; key_id = key_id c scope_key } ∷ [],
          scope_based,
        ))
      else elim self.recipients [
        | [] ↦ err (encryption_error (text "no recipients"))
        | r ∷ rs ↦ ok (r ∷ rs, recipient)
      ]

  -- Steps 5 and 6 of `encrypt`: the signature is over the envelope without one.
  unfoldable pub sign_envelope : SpendKeyPair → EncryptedEnvelope → EncryptedEnvelope
  sign_envelope spend_key envelope = record envelope {
    signature = c.sign spend_key.seed (signable_bytes envelope);
  }

  unfoldable pub encrypt : EncryptBuilder → Bytes → Rng → Result (EncryptedEnvelope × Rng)
  unfolding fill_bytes sign_envelope
  encrypt self plaintext rng = do
    spend_key ← or_error self.spend_key (encryption_error (text "spend key not set"))
    (recipients, access_mode) ← choose_recipients self spend_key
    let key_draw = fill_bytes 32 rng
    let ephemeral_draw = fill_bytes 32 key_draw.1
    let ephemeral = c.static_secret ephemeral_draw.0
    (payload, rng') ← encrypt_payload key_draw.0 plaintext ephemeral_draw.1
    (entries, rng'') ← wrap_all key_draw.0 ephemeral recipients rng'
    ok (
      sign_envelope spend_key (record {
        version = current_version;
        algorithm = self.algorithm;
        scope = self.scope;
        ephemeral_x25519_public = c.x25519_public ephemeral;
        ephemeral_mlkem_ciphertext = none;
        access_entries = entries;
        nonce = payload.1;
        ciphertext = payload.0;
        tag = payload.2;
        signature = replicate 64 0;
        spend_public_key = c.verifying_key spend_key.seed;
        access_mode = access_mode;
      }),
      rng'',
    )

  -- Steps 2 and 3 of `decrypt`: the key that opens the envelope.
  unfoldable pub decrypt_key : EncryptedEnvelope → ReadKeyPair → Result ReadKeyPair
  unfolding is_scope_based_mode
  decrypt_key envelope read_key = do
    refuse (is_scope_based_mode envelope.access_mode && not (can_access c read_key envelope.scope))
        (scope_mismatch read_key.scope.path envelope.scope.path)
    if is_scope_based_mode envelope.access_mode
          && not (bytes_eq read_key.scope.path envelope.scope.path)
        then derive_child c read_key envelope.scope
        else ok read_key

  -- Steps 4 to 6 of `decrypt`, and step 2 of `rekey_recipients`: the data key.
  unfoldable pub open_entry : EncryptedEnvelope → ReadKeyPair → Result Bytes
  open_entry envelope key = do
    let my_key_id = key_id c key
    entry ←
        or_error (find_entry my_key_id envelope.access_entries)
          (no_matching_access_entry (to_base58 c my_key_id))
    unwrap_data_key entry (c.diffie_hellman key.secret envelope.ephemeral_x25519_public) my_key_id

  unfoldable pub decrypt : EncryptedEnvelope → ReadKeyPair → Bytes → Result Bytes
  decrypt envelope read_key spend_verifying_key = do
    refuse (not (c.verify spend_verifying_key (signable_bytes envelope) envelope.signature))
        signature_verification_failed
    key ← decrypt_key envelope read_key
    data_key ← open_entry envelope key
    decrypt_payload data_key envelope.ciphertext envelope.nonce envelope.tag

  is_empty : List Recipient → Bool
  is_empty [] = true
  is_empty (r ∷ rs) = false

  -- `data_key.copy_from_slice(&data_key_vec)` into an array of 32 bytes.
  copy_32 : Bytes → Result Bytes
  copy_32 s = if length s == 32 then ok s else panic

  unfoldable pub rekey_recipients :
      EncryptedEnvelope
      → ReadKeyPair
      → List Recipient
      → SpendKeyPair
      → Rng
      → Result (EncryptedEnvelope × Rng)
  unfolding is_scope_based_mode is_empty copy_32 fill_bytes sign_envelope
  rekey_recipients envelope authorized_key new_recipients spend_key rng = do
    refuse (is_scope_based_mode envelope.access_mode)
        (encryption_error (text "rekey_recipients only applies to recipient-mode envelopes"))
    refuse (is_empty new_recipients) (encryption_error (text "new recipient list cannot be empty"))
    refuse (not (c.is_verifying_key envelope.spend_public_key)) invalid_key_material
    refuse (not (c.verify envelope.spend_public_key (signable_bytes envelope) envelope.signature))
        signature_verification_failed
    data_key_vec ← open_entry envelope authorized_key
    data_key ← copy_32 data_key_vec
    let ephemeral_draw = fill_bytes 32 rng
    let ephemeral = c.static_secret ephemeral_draw.0
    (new_entries, rng') ← wrap_all data_key ephemeral new_recipients ephemeral_draw.1
    ok (
      sign_envelope spend_key (record envelope {
        ephemeral_x25519_public = c.x25519_public ephemeral;
        ephemeral_mlkem_ciphertext = none;
        access_entries = new_entries;
        signature = replicate 64 0;
        spend_public_key = c.verifying_key spend_key.seed;
        access_mode = recipient;
      }),
      rng',
    )
