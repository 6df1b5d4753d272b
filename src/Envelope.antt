-- ===== src/Envelope.antt =====
-- crates/rok-core/src/envelope.rs, with `Algorithm` and `AccessMode` of encrypt.rs: the envelope, the
-- bytes that are signed, and the binary format. Fixed-size arrays are byte lists of that length.
pub mod Valid
pub mod RoundTrip
pub mod Overflow
pub mod Sample
mod Runs
use ethmumbai_rok.Common.{
  ℕ, zero, suc, ◌+◌, ◌%◌, Bytes, Option, none, some, List, [], ◌∷◌, ◌++◌, map, codes, length,
  get_or, bytes_eq, not, ltb, leb, ◌==◌, if◌then◌else◌,
}
use ethmumbai_rok.Error.{num, text, format, serialization_error, Result, ok, err, panic, refuse}
use ethmumbai_rok.Text.Utf8.{from_utf8}
use ethmumbai_rok.Scope
use ethmumbai_rok.Scope.{Scope}
use ethmumbai_rok.Wire.{
  le_bytes, from_le_bytes, as_u16, as_u32, Reader, pure, ◌>>=◌, lift, read_all, read_bytes,
  read_uint,
}

pub data Algorithm : Type 0 where
  ecies_x25519_chacha20 hybrid_x25519_mlkem_chacha20 : Algorithm

-- `algorithm as u8`
unfoldable pub algorithm_code : Algorithm → ℕ
algorithm_code ecies_x25519_chacha20 = 1
algorithm_code hybrid_x25519_mlkem_chacha20 = 2

unfoldable pub algorithm_from_u8 : ℕ → Result Algorithm
algorithm_from_u8 v =
    if v == 1
    then ok ecies_x25519_chacha20
    else if v == 2
    then ok hybrid_x25519_mlkem_chacha20
    else err (serialization_error (format "unknown algorithm: {}" (num v ∷ [])))

pub data AccessMode : Type 0 where
  recipient scope_based : AccessMode

-- `access_mode as u8`
unfoldable pub access_mode_code : AccessMode → ℕ
access_mode_code recipient = 0
access_mode_code scope_based = 1

unfoldable pub access_mode_from_u8 : ℕ → Result AccessMode
access_mode_from_u8 v =
    if v == 0
    then ok recipient
    else if v == 1
    then ok scope_based
    else err (serialization_error (format "unknown access mode: {}" (num v ∷ [])))

pub record AccessEntry : Type 0 where
  pub read_key_id : Bytes
  pub wrapped_data_key : Bytes
  pub wrap_nonce : Bytes

pub record EncryptedEnvelope : Type 0 where
  pub version : ℕ
  pub algorithm : Algorithm
  pub scope : Scope
  pub ephemeral_x25519_public : Bytes
  pub ephemeral_mlkem_ciphertext : Option Bytes
  pub access_entries : List AccessEntry
  pub nonce : Bytes
  pub ciphertext : Bytes
  pub tag : Bytes
  pub signature : Bytes
  pub spend_public_key : Bytes
  pub access_mode : AccessMode

pub record EnvelopeMetadata : Type 0 where
  pub version : ℕ
  pub algorithm : Algorithm
  pub scope : Scope
  pub recipient_count : ℕ
  pub ciphertext_len : ℕ
  pub recipient_key_ids : List Bytes
  pub access_mode : AccessMode

abbrev pub current_version : ℕ
current_version = 2

-- The optional ML-KEM ciphertext behind its 32-bit length, which is 0 if there is none.
unfoldable pub mlkem_bytes : Option Bytes → Bytes
mlkem_bytes none = le_bytes 4 0
mlkem_bytes (some ct) = le_bytes 4 (as_u32 (length ct)) ++ ct

unfoldable pub signable_entries : List AccessEntry → Bytes
signable_entries [] = []
signable_entries (entry ∷ entries) =
    entry.read_key_id
    ++ (le_bytes 4 (as_u32 (length entry.wrapped_data_key))
        ++ (entry.wrapped_data_key ++ (entry.wrap_nonce ++ signable_entries entries)))

unfoldable pub signable_bytes : EncryptedEnvelope → Bytes
signable_bytes self =
    le_bytes 4 self.version
    ++ (algorithm_code self.algorithm
        ∷ access_mode_code self.access_mode
        ∷ (self.scope.path
            ++ (self.ephemeral_x25519_public
                ++ (mlkem_bytes self.ephemeral_mlkem_ciphertext
                    ++ (le_bytes 4 (as_u32 (length self.access_entries))
                        ++ (signable_entries self.access_entries
                            ++ (self.nonce
                                ++ (le_bytes 8 (length self.ciphertext)
                                    ++ (self.ciphertext
                                        ++ (self.tag ++ self.spend_public_key))))))))))

unfoldable pub metadata : EncryptedEnvelope → EnvelopeMetadata
metadata self = record {
  version = self.version;
  algorithm = self.algorithm;
  scope = self.scope;
  recipient_count = length self.access_entries;
  ciphertext_len = length self.ciphertext;
  recipient_key_ids = map (λ e. e.read_key_id) self.access_entries;
  access_mode = self.access_mode;
}

-- b"ROK\x01"
abbrev pub magic : Bytes
magic = b'R' ∷ b'O' ∷ b'K' ∷ 1 ∷ []

unfoldable pub entry_bytes : AccessEntry → Bytes
entry_bytes entry =
    entry.read_key_id
    ++ (le_bytes 2 (as_u16 (length entry.wrapped_data_key))
        ++ (entry.wrapped_data_key ++ entry.wrap_nonce))

unfoldable pub entries_bytes : List AccessEntry → Bytes
unfolding entry_bytes
entries_bytes [] = []
entries_bytes (entry ∷ entries) = entry_bytes entry ++ entries_bytes entries

-- The path of a scope behind its 16-bit length.
unfoldable pub scope_bytes : Scope → Bytes
scope_bytes scope = le_bytes 2 (as_u16 (length scope.path)) ++ scope.path

unfoldable pub to_bytes : EncryptedEnvelope → Bytes
to_bytes self =
    magic
    ++ (le_bytes 4 self.version
        ++ (algorithm_code self.algorithm ∷ []
            ++ (access_mode_code self.access_mode ∷ []
                ++ (scope_bytes self.scope
                    ++ (self.ephemeral_x25519_public
                        ++ (mlkem_bytes self.ephemeral_mlkem_ciphertext
                            ++ (le_bytes 2 (as_u16 (length self.access_entries))
                                ++ (entries_bytes self.access_entries
                                    ++ (self.nonce
                                        ++ (le_bytes 8 (length self.ciphertext)
                                            ++ (self.ciphertext
                                                ++ (self.tag
                                                    ++ (self.spend_public_key
                                                        ++ self.signature)))))))))))))

abbrev pub read_bytes_of : ℕ → Reader Bytes
read_bytes_of = read_bytes (text "unexpected end of data")

abbrev pub read_uint_of : ℕ → Reader ℕ
read_uint_of = read_uint (text "unexpected end of data")

-- `read_bytes(&mut pos, 1)?[0]`
unfoldable pub read_byte : Reader ℕ
read_byte = read_bytes_of 1 >>= λ s. pure (get_or s 0 0)

-- An envelope of version 1 has no byte for the access mode.
unfoldable pub read_access_mode : ℕ → Reader AccessMode
read_access_mode version =
    if leb 2 version
    then (do mode_byte ← read_byte; lift (access_mode_from_u8 mode_byte))
    else pure recipient

utf8_or_error : Option Bytes → Result Bytes
utf8_or_error none = err (serialization_error (text "invalid scope utf8"))
utf8_or_error (some s) = ok s

unfoldable pub read_scope : Reader Scope
unfolding utf8_or_error
read_scope = do
  scope_len ← read_uint_of 2
  scope_bytes ← read_bytes_of scope_len
  scope_str ← lift (utf8_or_error (from_utf8 scope_bytes))
  lift (Scope.new scope_str)

unfoldable pub read_mlkem : Reader (Option Bytes)
read_mlkem = do
  mlkem_len ← read_uint_of 4
  if ltb 0 mlkem_len then (do ct ← read_bytes_of mlkem_len; pure (some ct)) else pure none

unfoldable pub read_entry : Reader AccessEntry
read_entry = do
  key_id_bytes ← read_bytes_of 8
  wdk_len ← read_uint_of 2
  wrapped_data_key ← read_bytes_of wdk_len
  wrap_nonce ← read_bytes_of 12
  pure (record {
    read_key_id = key_id_bytes;
    wrapped_data_key = wrapped_data_key;
    wrap_nonce = wrap_nonce;
  })

-- The loop `for _ in 0..entry_count`.
unfoldable pub read_entries : ℕ → Reader (List AccessEntry)
read_entries zero = pure []
read_entries (suc n) = do entry ← read_entry; entries ← read_entries n; pure (entry ∷ entries)

-- `from_bytes` behind the scope.
unfoldable pub read_body : ℕ → Algorithm → AccessMode → Scope → Reader EncryptedEnvelope
read_body version algorithm access_mode scope = do
  ephemeral_x25519_public ← read_bytes_of 32
  ephemeral_mlkem_ciphertext ← read_mlkem
  entry_count ← read_uint_of 2
  access_entries ← read_entries entry_count
  nonce ← read_bytes_of 12
  ct_len ← read_uint_of 8
  ciphertext ← read_bytes_of ct_len
  tag ← read_bytes_of 16
  spend_public_key ← read_bytes_of 32
  signature ← read_bytes_of 64
  pure (record {
    version = version;
    algorithm = algorithm;
    scope = scope;
    ephemeral_x25519_public = ephemeral_x25519_public;
    ephemeral_mlkem_ciphertext = ephemeral_mlkem_ciphertext;
    access_entries = access_entries;
    nonce = nonce;
    ciphertext = ciphertext;
    tag = tag;
    signature = signature;
    spend_public_key = spend_public_key;
    access_mode = access_mode;
  })

unfoldable pub read_envelope : Reader EncryptedEnvelope
read_envelope = do
  found ← read_bytes_of 4
  checked ←
      lift (refuse (not (bytes_eq found magic)) (serialization_error (text "invalid magic bytes")))
  version ← read_uint_of 4
  algo_byte ← read_byte
  algorithm ← lift (algorithm_from_u8 algo_byte)
  access_mode ← read_access_mode version
  scope ← read_scope
  read_body version algorithm access_mode scope

unfoldable pub from_bytes : Bytes → Result EncryptedEnvelope
from_bytes bytes = read_all read_envelope bytes
