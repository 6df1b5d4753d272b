-- ===== src/Sectioned.antt =====
-- crates/rok-core/src/sectioned.rs: a container of named envelopes, its builder and its binary
-- format. The protobuf format is not modelled here.
pub mod Builder
pub mod Rekeying
pub mod RoundTrip
pub mod Sample
mod Runs
use ethmumbai_rok.Common.{
  ℕ, zero, suc, Bytes, Bool, not, Option, none, some, List, [], ◌∷◌, ◌++◌, map, length, bytes_eq,
  any, if◌then◌else◌,
}
use ethmumbai_rok.Error.{
  str, text, format, serialization_error, Result, ok, err, ◌>>=◌ as ◌>>=?◌, ◌>>◌, refuse,
}
use ethmumbai_rok.Crypto.{Crypto, Rng}
use ethmumbai_rok.Text.Utf8.{from_utf8}
use ethmumbai_rok.Scope.{Scope}
use ethmumbai_rok.Keys.{ReadKeyPair, SpendKeyPair}
use ethmumbai_rok.Wire.{
  le_bytes, as_u16, as_u32, Reader, pure, ◌>>=◌, lift, read_bytes, read_uint, read_all,
}
use ethmumbai_rok.Envelope.{Algorithm, AccessMode, EncryptedEnvelope}
use ethmumbai_rok.Envelope
use ethmumbai_rok.Encrypt.{Recipient, or_error, rekey_recipients}

abbrev pub sectioned_magic : Bytes
sectioned_magic = b'R' ∷ b'O' ∷ b'K' ∷ b'S' ∷ []

abbrev pub sectioned_version : ℕ
sectioned_version = 1

pub record Section : Type 0 where
  pub name : Bytes
  pub envelope : EncryptedEnvelope

pub record SectionedEnvelope : Type 0 where
  pub version : ℕ
  pub sections : List Section

pub record SectionMetadataEntry : Type 0 where
  pub name : Bytes
  pub scope : Bytes
  pub algorithm : Algorithm
  pub access_mode : AccessMode
  pub ciphertext_len : ℕ
  pub recipient_count : ℕ

pub record SectionedMetadata : Type 0 where
  pub version : ℕ
  pub section_count : ℕ
  pub sections : List SectionMetadataEntry

unfoldable pub section_metadata : Section → SectionMetadataEntry
section_metadata s =
    let meta = Envelope.metadata s.envelope in
    record {
      name = s.name;
      scope = meta.scope.path;
      algorithm = meta.algorithm;
      access_mode = meta.access_mode;
      ciphertext_len = meta.ciphertext_len;
      recipient_count = meta.recipient_count;
    }

unfoldable pub metadata : SectionedEnvelope → SectionedMetadata
metadata self = record {
  version = self.version;
  section_count = length self.sections;
  sections = map section_metadata self.sections;
}

-- `sections.iter().find(|s| s.name == name)`
unfoldable pub find_section : Bytes → List Section → Option Section
find_section name [] = none
find_section name (s ∷ ss) = if bytes_eq s.name name then some s else find_section name ss

-- The assignment through the reference that `iter_mut().find(..)` returned.
unfoldable pub set_envelope : Bytes → EncryptedEnvelope → List Section → List Section
set_envelope name envelope [] = []
set_envelope name envelope (s ∷ ss) =
    if bytes_eq s.name name
    then record s { envelope = envelope } ∷ ss
    else s ∷ set_envelope name envelope ss

unfoldable pub rekey_section :
    Crypto
    → SectionedEnvelope
    → Bytes
    → ReadKeyPair
    → List Recipient
    → SpendKeyPair
    → Rng
    → Result (SectionedEnvelope × Rng)
rekey_section c self section_name authorized_key new_recipients spend_key rng =
    or_error (find_section section_name self.sections)
      (serialization_error (format "section not found: {}" (str section_name ∷ [])))
    >>=? λ section.
        rekey_recipients c section.envelope authorized_key new_recipients spend_key rng
        >>=? λ (envelope, rng').
            ok (record self { sections = set_envelope section_name envelope self.sections }, rng')

unfoldable pub section_bytes : Section → Bytes
section_bytes s =
    le_bytes 2 (as_u16 (length s.name))
    ++ (s.name
        ++ (le_bytes 4 (as_u32 (length (Envelope.to_bytes s.envelope)))
            ++ Envelope.to_bytes s.envelope))

unfoldable pub sections_bytes : List Section → Bytes
unfolding section_bytes
sections_bytes [] = []
sections_bytes (s ∷ ss) = section_bytes s ++ sections_bytes ss

unfoldable pub to_bytes : SectionedEnvelope → Bytes
to_bytes self =
    sectioned_magic
    ++ (le_bytes 4 self.version
        ++ (le_bytes 2 (as_u16 (length self.sections)) ++ sections_bytes self.sections))

abbrev pub read_bytes_of : ℕ → Reader Bytes
read_bytes_of = read_bytes (text "unexpected end of sectioned data")

abbrev pub read_uint_of : ℕ → Reader ℕ
read_uint_of = read_uint (text "unexpected end of sectioned data")

unfoldable pub read_section : Reader Section
read_section = do
  name_len ← read_uint_of 2
  name_bytes ← read_bytes_of name_len
  name ←
      lift
        (or_error (from_utf8 name_bytes) (serialization_error (text "invalid section name utf8")))
  envelope_len ← read_uint_of 4
  envelope_bytes ← read_bytes_of envelope_len
  envelope ← lift (Envelope.from_bytes envelope_bytes)
  pure (record { name = name; envelope = envelope })

-- The loop `for _ in 0..section_count`.
unfoldable pub read_sections : ℕ → Reader (List Section)
read_sections zero = pure []
read_sections (suc n) = do
  section ← read_section
  sections ← read_sections n
  pure (section ∷ sections)

unfoldable pub read_sectioned : Reader SectionedEnvelope
read_sectioned = do
  found ← read_bytes_of 4
  checked ← lift (
      refuse (not (bytes_eq found sectioned_magic))
        (serialization_error (text "invalid sectioned magic bytes (expected ROKS)")))
  version ← read_uint_of 4
  section_count ← read_uint_of 2
  sections ← read_sections section_count
  pure (record { version = version; sections = sections })

unfoldable pub from_bytes : Bytes → Result SectionedEnvelope
from_bytes bytes = read_all read_sectioned bytes

pub record SectionedEnvelopeBuilder : Type 0 where
  pub sections : List Section

unfoldable pub new : SectionedEnvelopeBuilder
new = record { sections = [] }

unfoldable pub add_section :
    SectionedEnvelopeBuilder → Bytes → EncryptedEnvelope → Result SectionedEnvelopeBuilder
add_section self name envelope =
    if any (λ s. bytes_eq s.name name) self.sections
    then err (serialization_error (format "duplicate section name: {}" (str name ∷ [])))
    else ok
        (record { sections = self.sections ++ record { name = name; envelope = envelope } ∷ [] })

unfoldable pub build : SectionedEnvelopeBuilder → Result SectionedEnvelope
build self = elim self.sections [
  | [] ↦ err (serialization_error (text "sectioned envelope must have at least one section"))
  | s ∷ ss ↦ ok (record { version = sectioned_version; sections = s ∷ ss })
]
