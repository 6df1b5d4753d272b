-- ===== src/Proto/Container.antt =====
-- crates/rok-core/src/proto.rs and sectioned.rs: the conversions of the sectioned envelope, and the
-- bytes of the messages.
use ethmumbai_rok.Common.{Bytes, some, List, [], ◌∷◌, map}
use ethmumbai_rok.Error.{text, serialization_error, RokError, Result, ok, ◌>>=◌}
use ethmumbai_rok.Envelope.{EncryptedEnvelope}
use ethmumbai_rok.Encrypt.{or_error}
use ethmumbai_rok.Sectioned.{Section, SectionedEnvelope}
use ethmumbai_rok.Proto.{envelope_from, envelope_try_from}
use ethmumbai_rok.Proto.Messages
use ethmumbai_rok.Proto.Messages.{Prost}

unfoldable pub section_from : Section → Messages.SectionedSection
section_from section = record {
  name = section.name;
  envelope = some (envelope_from section.envelope);
}

unfoldable pub sectioned_from : SectionedEnvelope → Messages.SectionedEnvelope
unfolding section_from
sectioned_from env = record { version = env.version; sections = map section_from env.sections }

-- What prost says of the bytes is left out of the message.
decode_error : RokError
decode_error = serialization_error (text "protobuf decode: {}")

module _ (p : Prost) where
  unfoldable pub section_try_from : Messages.SectionedSection → Result Section
  section_try_from section = do
    proto_env ←
        or_error section.envelope (serialization_error (text "sectioned section missing envelope"))
    envelope ← envelope_try_from p proto_env
    ok (record { name = section.name; envelope = envelope })

  -- The loop `for section in &env.sections`.
  unfoldable pub sections_try_from : List Messages.SectionedSection → Result (List Section)
  unfolding section_try_from
  sections_try_from [] = ok []
  sections_try_from (s ∷ ss) = do
    section ← section_try_from s
    sections ← sections_try_from ss
    ok (section ∷ sections)

  unfoldable pub sectioned_try_from : Messages.SectionedEnvelope → Result SectionedEnvelope
  unfolding sections_try_from
  sectioned_try_from env = do
    sections ← sections_try_from env.sections
    ok (record { version = env.version; sections = sections })

  -- `to_proto_bytes` and `from_proto_bytes` of an envelope, of a sectioned envelope, and of the
  -- messages for policies and revocations.
  unfoldable pub envelope_bytes : EncryptedEnvelope → Bytes
  envelope_bytes self = p.encode_envelope (envelope_from self)

  unfoldable pub envelope_from_bytes : Bytes → Result EncryptedEnvelope
  unfolding decode_error
  envelope_from_bytes bytes = do
    proto_env ← or_error (p.decode_envelope bytes) decode_error
    envelope_try_from p proto_env

  unfoldable pub sectioned_bytes : SectionedEnvelope → Bytes
  unfolding sectioned_from
  sectioned_bytes self = p.encode_sectioned (sectioned_from self)

  unfoldable pub sectioned_from_bytes : Bytes → Result SectionedEnvelope
  unfolding decode_error sectioned_try_from
  sectioned_from_bytes bytes = do
    proto_env ← or_error (p.decode_sectioned bytes) decode_error
    sectioned_try_from proto_env

  unfoldable pub policy_bytes : Messages.AccessPolicy → Bytes
  policy_bytes self = p.encode_policy self

  unfoldable pub policy_from_bytes : Bytes → Result Messages.AccessPolicy
  unfolding decode_error
  policy_from_bytes bytes = or_error (p.decode_policy bytes) decode_error

  unfoldable pub revocations_bytes : Messages.RevocationList → Bytes
  revocations_bytes self = p.encode_revocations self

  unfoldable pub revocations_from_bytes : Bytes → Result Messages.RevocationList
  unfolding decode_error
  revocations_from_bytes bytes = or_error (p.decode_revocations bytes) decode_error
