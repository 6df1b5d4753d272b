-- ===== src/Envelope/Valid.antt =====
-- The envelopes that the types of envelope.rs and the widths of the binary format admit.
use ethmumbai_rok.Common.{◌^◌, ◌<◌, Bytes, ◌≡◌, Option, none, some, List, length, All}
use ethmumbai_rok.Scope.{Scope}
use ethmumbai_rok.Scope.Segments.{IsSegment, of_segments}
use ethmumbai_rok.Envelope.{AccessEntry, EncryptedEnvelope}

-- A value that `Scope::new` made.
pub record IsScope (s : Scope) : Type 0 where
  pub segments : List Bytes
  pub all_segments : All IsSegment segments
  pub path_eq : s ≡ of_segments segments

-- [u8; 8], a wrapped key that a 16-bit length counts, [u8; 12].
pub record IsEntry (entry : AccessEntry) : Type 0 where
  pub id_size : length entry.read_key_id ≡ 8
  pub key_size : length entry.wrapped_data_key < 2 ^ 16
  pub nonce_size : length entry.wrap_nonce ≡ 12

-- No ciphertext, or one that is not empty and that a 32-bit length counts.
abbrev pub IsMlkem : Option Bytes → Type 0
IsMlkem none = Unit
IsMlkem (some ct) = (0 < length ct) × (length ct < 2 ^ 32)

-- The fields have the sizes of their types, and every length fits the width it is written in.
-- `total_size` is the bound of any byte vector in memory.
pub record IsValid (e : EncryptedEnvelope) : Type 0 where
  pub version_size : e.version < 2 ^ 32
  pub scope : IsScope e.scope
  pub scope_size : length e.scope.path < 2 ^ 16
  pub ephemeral_size : length e.ephemeral_x25519_public ≡ 32
  pub mlkem : IsMlkem e.ephemeral_mlkem_ciphertext
  pub entries : All IsEntry e.access_entries
  pub entries_size : length e.access_entries < 2 ^ 16
  pub nonce_size : length e.nonce ≡ 12
  pub ciphertext_size : length e.ciphertext < 2 ^ 64
  pub tag_size : length e.tag ≡ 16
  pub key_size : length e.spend_public_key ≡ 32
  pub signature_size : length e.signature ≡ 64
