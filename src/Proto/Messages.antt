-- ===== src/Proto/Messages.antt =====
-- crates/rok-core/src/generated/rok.rs: the protobuf messages as records, and what prost derives for
-- them as parameters: the bytes of a message and the reading of an enumeration's number.
use ethmumbai_rok.Common.{ℕ, ℤ, pos, ◌^◌, ◌<◌, Bytes, ◌≡◌, true, Option, some, List, All}
use ethmumbai_rok.Text.Utf8.{is_utf8}

pub record SpendPublicKey : Type 0 where
  pub key_bytes : Bytes
  pub key_id : Bytes

pub record ReadPublicKey : Type 0 where
  pub key_bytes : Bytes
  pub scope : Bytes
  pub key_id : Bytes
  pub parent_key_id : Bytes

pub record ExportedReadKey : Type 0 where
  pub secret_bytes : Bytes
  pub public_bytes : Bytes
  pub scope : Bytes
  pub parent_key_id : Bytes

pub record AccessEntry : Type 0 where
  pub read_key_id : Bytes
  pub wrapped_data_key : Bytes
  pub wrap_nonce : Bytes

pub record EncryptedEnvelope : Type 0 where
  pub version : ℕ
  pub algorithm : ℤ
  pub scope : Bytes
  pub ephemeral_x25519_public : Bytes
  pub ephemeral_mlkem_ciphertext : Bytes
  pub access_entries : List AccessEntry
  pub nonce : Bytes
  pub ciphertext : Bytes
  pub tag : Bytes
  pub spend_public_key : Bytes
  pub signature : Bytes
  pub access_mode : ℤ

pub record SectionedSection : Type 0 where
  pub name : Bytes
  pub envelope : Option EncryptedEnvelope

pub record SectionedEnvelope : Type 0 where
  pub version : ℕ
  pub sections : List SectionedSection

pub data AccessMode : Type 0 where
  recipient scope_based : AccessMode

-- `mode as i32`
unfoldable pub access_mode_code : AccessMode → ℤ
access_mode_code recipient = pos 0
access_mode_code scope_based = pos 1

pub data Algorithm : Type 0 where
  unspecified ecies_x25519_chacha20 hybrid_x25519_mlkem_chacha20 : Algorithm

-- `algorithm as i32`
unfoldable pub algorithm_code : Algorithm → ℤ
algorithm_code unspecified = pos 0
algorithm_code ecies_x25519_chacha20 = pos 1
algorithm_code hybrid_x25519_mlkem_chacha20 = pos 2

pub record AccessRule : Type 0 where
  pub scope : Bytes
  pub recipient_key_ids : List Bytes
  pub expires_at : ℕ

pub record AccessPolicy : Type 0 where
  pub rules : List AccessRule

pub record RevocationEntry : Type 0 where
  pub key_id : Bytes
  pub revoked_at : ℕ
  pub reason : Bytes

pub record RevocationList : Type 0 where
  pub entries : List RevocationEntry

-- `encode_to_vec` and `decode` of prost, and the derived `TryFrom<i32>`.
pub record Prost : Type 0 where
  pub encode_envelope : EncryptedEnvelope → Bytes
  pub decode_envelope : Bytes → Option EncryptedEnvelope
  pub encode_sectioned : SectionedEnvelope → Bytes
  pub decode_sectioned : Bytes → Option SectionedEnvelope
  pub encode_policy : AccessPolicy → Bytes
  pub decode_policy : Bytes → Option AccessPolicy
  pub encode_revocations : RevocationList → Bytes
  pub decode_revocations : Bytes → Option RevocationList
  pub algorithm_try_from : ℤ → Option Algorithm
  pub access_mode_try_from : ℤ → Option AccessMode

-- A `String` is UTF-8, and an integer fits its type.
pub record IsEnvelope (e : EncryptedEnvelope) : Type 0 where
  pub version_size : e.version < 2 ^ 32
  pub scope_utf8 : is_utf8 e.scope ≡ true
  pub algorithm_value : (a : Algorithm) × (e.algorithm ≡ algorithm_code a)
  pub access_mode_value : (m : AccessMode) × (e.access_mode ≡ access_mode_code m)

pub record IsSection (s : SectionedSection) : Type 0 where
  pub name_utf8 : is_utf8 s.name ≡ true
  pub envelope_of : (e : EncryptedEnvelope) × (s.envelope ≡ some e) × IsEnvelope e

pub record IsSectioned (e : SectionedEnvelope) : Type 0 where
  pub version_size : e.version < 2 ^ 32
  pub all_sections : All IsSection e.sections

pub record IsRule (r : AccessRule) : Type 0 where
  pub scope_utf8 : is_utf8 r.scope ≡ true
  pub expires_size : r.expires_at < 2 ^ 64

-- What is decoded of the encoding of a message is the message, and of its number the value.
pub record ProstLaws (p : Prost) : Type 0 where
  pub envelope_round_trip :
      (e : EncryptedEnvelope) → IsEnvelope e → p.decode_envelope (p.encode_envelope e) ≡ some e
  pub sectioned_round_trip :
      (e : SectionedEnvelope) → IsSectioned e → p.decode_sectioned (p.encode_sectioned e) ≡ some e
  pub policy_round_trip :
      (a : AccessPolicy) → All IsRule a.rules → p.decode_policy (p.encode_policy a) ≡ some a
  pub algorithm_value : (a : Algorithm) → p.algorithm_try_from (algorithm_code a) ≡ some a
  pub access_mode_value : (m : AccessMode) → p.access_mode_try_from (access_mode_code m) ≡ some m
