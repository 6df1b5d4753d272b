-- ===== src/Proto.antt =====
-- crates/rok-core/src/proto.rs: the conversions between the protobuf messages and the native types,
-- and `to_proto_bytes` and `from_proto_bytes`.
pub mod Messages
pub mod Container
pub mod RoundTrip
pub mod Accepted
pub mod Toy
mod Runs
use ethmumbai_rok.Common.{
  ℕ, ℤ, Bytes, Bool, not, Option, none, some, List, [], ◌∷◌, map, length, ◌==◌, if◌then◌else◌,
}
use ethmumbai_rok.Error.{
  num, int, text, format, RokError, serialization_error, invalid_key_material, Result, ok, err,
  ◌>>=◌, ◌>>◌, refuse,
}
use ethmumbai_rok.Crypto.{Crypto}
use ethmumbai_rok.Scope
use ethmumbai_rok.Scope.{Scope, is_empty}
use ethmumbai_rok.Keys.{ExportedReadKey, from_public_bytes}
use ethmumbai_rok.Envelope
use ethmumbai_rok.Envelope.{Algorithm, AccessMode, AccessEntry, EncryptedEnvelope}
use ethmumbai_rok.Encrypt.{or_error}
use ethmumbai_rok.Proto.Messages
use ethmumbai_rok.Proto.Messages.{Prost}

unfoldable pub algorithm_from : Algorithm → Messages.Algorithm
algorithm_from Envelope.ecies_x25519_chacha20 = Messages.ecies_x25519_chacha20
algorithm_from Envelope.hybrid_x25519_mlkem_chacha20 = Messages.hybrid_x25519_mlkem_chacha20

unfoldable pub algorithm_try_from : Messages.Algorithm → Result Algorithm
algorithm_try_from Messages.ecies_x25519_chacha20 = ok Envelope.ecies_x25519_chacha20
algorithm_try_from Messages.hybrid_x25519_mlkem_chacha20 = ok Envelope.hybrid_x25519_mlkem_chacha20
algorithm_try_from Messages.unspecified = err (serialization_error (text "unspecified algorithm"))

unfoldable pub access_mode_from : AccessMode → Messages.AccessMode
access_mode_from Envelope.recipient = Messages.recipient
access_mode_from Envelope.scope_based = Messages.scope_based

unfoldable pub access_mode_try_from : Messages.AccessMode → Result AccessMode
access_mode_try_from Messages.recipient = ok Envelope.recipient
access_mode_try_from Messages.scope_based = ok Envelope.scope_based

-- `parent.map(|p| p.as_bytes().to_vec()).unwrap_or_default()`, and the same of a `Vec`
unfoldable pub or_default : Option Bytes → Bytes
or_default none = []
or_default (some bytes) = bytes

-- A parent of another length than 8 is none.
unfoldable pub parent_of : Bytes → Option Bytes
parent_of bytes = if length bytes == 8 then some bytes else none

-- `if bytes.len() != n { return Err(..) }`; the copy into an array of `n` bytes cannot fail then.
unfoldable pub sized : Bytes → ℕ → RokError → Result (Unit {0})
sized bytes n e = refuse (not (length bytes == n)) e

module _ (c : Crypto) where
  unfoldable pub from_verifying_key : Bytes → Messages.SpendPublicKey
  from_verifying_key vk = record { key_bytes = vk; key_id = from_public_bytes c vk }

  unfoldable pub to_verifying_key : Messages.SpendPublicKey → Result Bytes
  to_verifying_key self = do
    sized self.key_bytes 32 (serialization_error (text "spend public key must be 32 bytes"))
    if c.is_verifying_key self.key_bytes then ok self.key_bytes else err invalid_key_material

  unfoldable pub from_parts : Bytes → Scope → Option Bytes → Messages.ReadPublicKey
  unfolding or_default
  from_parts key scope parent_key_id = record {
    key_bytes = key;
    scope = scope.path;
    key_id = from_public_bytes c key;
    parent_key_id = or_default parent_key_id;
  }

unfoldable pub to_parts : Messages.ReadPublicKey → Result (Bytes × Scope × Option Bytes)
unfolding parent_of
to_parts self = do
  sized self.key_bytes 32 (serialization_error (text "read public key must be 32 bytes"))
  scope ← Scope.new self.scope
  ok (self.key_bytes, scope, parent_of self.parent_key_id)

unfoldable pub exported_from : ExportedReadKey → Messages.ExportedReadKey
unfolding or_default
exported_from key = record {
  secret_bytes = key.secret_bytes;
  public_bytes = key.public_bytes;
  scope = key.scope.path;
  parent_key_id = or_default key.parent_key_id;
}

unfoldable pub exported_try_from : Messages.ExportedReadKey → Result ExportedReadKey
unfolding parent_of
exported_try_from key = do
  sized key.secret_bytes 32 (serialization_error (text "exported read key secret must be 32 bytes"))
  sized key.public_bytes 32 (serialization_error (text "exported read key public must be 32 bytes"))
  scope ← Scope.new key.scope
  ok (record {
    secret_bytes = key.secret_bytes;
    public_bytes = key.public_bytes;
    scope = scope;
    parent_key_id = parent_of key.parent_key_id;
  })

unfoldable pub entry_from : AccessEntry → Messages.AccessEntry
entry_from entry = record {
  read_key_id = entry.read_key_id;
  wrapped_data_key = entry.wrapped_data_key;
  wrap_nonce = entry.wrap_nonce;
}

unfoldable pub entry_try_from : Messages.AccessEntry → Result AccessEntry
entry_try_from entry = do
  sized entry.read_key_id 8 (
      serialization_error
        (format "expected 8-byte key_id, got {}" (num (length entry.read_key_id) ∷ [])))
  sized entry.wrap_nonce 12 (
      serialization_error
        (format "expected 12-byte wrap_nonce, got {}" (num (length entry.wrap_nonce) ∷ [])))
  ok (record {
    read_key_id = entry.read_key_id;
    wrapped_data_key = entry.wrapped_data_key;
    wrap_nonce = entry.wrap_nonce;
  })

-- The loop `for entry in &env.access_entries`.
unfoldable pub entries_try_from : List Messages.AccessEntry → Result (List AccessEntry)
unfolding entry_try_from
entries_try_from [] = ok []
entries_try_from (e ∷ es) = do
  entry ← entry_try_from e
  entries ← entries_try_from es
  ok (entry ∷ entries)

unfoldable pub envelope_from : EncryptedEnvelope → Messages.EncryptedEnvelope
unfolding algorithm_from access_mode_from or_default
envelope_from env = record {
  version = env.version;
  algorithm = Messages.algorithm_code (algorithm_from env.algorithm);
  scope = env.scope.path;
  ephemeral_x25519_public = env.ephemeral_x25519_public;
  ephemeral_mlkem_ciphertext = or_default env.ephemeral_mlkem_ciphertext;
  access_entries = map entry_from env.access_entries;
  nonce = env.nonce;
  ciphertext = env.ciphertext;
  tag = env.tag;
  spend_public_key = env.spend_public_key;
  signature = env.signature;
  access_mode = Messages.access_mode_code (access_mode_from env.access_mode);
}

-- An empty ciphertext of ML-KEM is none.
unfoldable pub mlkem_of : Bytes → Option Bytes
mlkem_of bytes = if is_empty bytes then none else some bytes

module _ (p : Prost) where
  unfoldable pub algorithm_of : ℤ → Result Algorithm
  algorithm_of value = do
    algorithm ←
        or_error (p.algorithm_try_from value)
          (serialization_error (format "unknown algorithm value: {}" (int value ∷ [])))
    algorithm_try_from algorithm

  unfoldable pub access_mode_of : ℤ → Result AccessMode
  access_mode_of value = do
    mode ←
        or_error (p.access_mode_try_from value)
          (serialization_error (format "unknown access mode value: {}" (int value ∷ [])))
    access_mode_try_from mode

  unfoldable pub envelope_try_from : Messages.EncryptedEnvelope → Result EncryptedEnvelope
  unfolding mlkem_of algorithm_of access_mode_of entries_try_from
  envelope_try_from env = do
    algorithm ← algorithm_of env.algorithm
    scope ← Scope.new env.scope
    sized env.ephemeral_x25519_public 32
        (serialization_error (text "ephemeral X25519 public key must be 32 bytes"))
    access_entries ← entries_try_from env.access_entries
    sized env.nonce 12 (serialization_error (text "nonce must be 12 bytes"))
    sized env.tag 16 (serialization_error (text "tag must be 16 bytes"))
    sized env.spend_public_key 32 (serialization_error (text "spend public key must be 32 bytes"))
    sized env.signature 64 (serialization_error (text "signature must be 64 bytes"))
    access_mode ← access_mode_of env.access_mode
    ok (record {
      version = env.version;
      algorithm = algorithm;
      scope = scope;
      ephemeral_x25519_public = env.ephemeral_x25519_public;
      ephemeral_mlkem_ciphertext = mlkem_of env.ephemeral_mlkem_ciphertext;
      access_entries = access_entries;
      nonce = env.nonce;
      ciphertext = env.ciphertext;
      tag = env.tag;
      signature = env.signature;
      spend_public_key = env.spend_public_key;
      access_mode = access_mode;
    })
