-- ===== src/Proto/RoundTrip.antt =====
-- crates/rok-core/src/proto.rs: what is converted to a message and back.
use ethmumbai_rok.Common.{
  ◌^◌, ◌<◌, Bytes, ◌≡◌, refl, sym, true, Option, none, some, List, [], ◌∷◌, map, arith, length, All,
  ◌∙◌, append-nil, Bool-cases, inl, inr,
}
use ethmumbai_rok.Error.{ok}
use ethmumbai_rok.Text.Utf8.{is_utf8, from_utf8}
use ethmumbai_rok.Scope.{Scope, is_empty}
use ethmumbai_rok.Keys.{ExportedReadKey}
use ethmumbai_rok.Envelope.{
  Algorithm, ecies_x25519_chacha20, hybrid_x25519_mlkem_chacha20, AccessMode, recipient,
  scope_based, AccessEntry, EncryptedEnvelope,
}
use ethmumbai_rok.Envelope.Valid.{IsScope, IsEntry, IsMlkem, IsValid}
use ethmumbai_rok.Envelope.RoundTrip.{scope_reads_back}
use ethmumbai_rok.Proto.{
  sized, algorithm_from, algorithm_try_from, access_mode_from, access_mode_try_from, or_default,
  mlkem_of, parent_of, entry_from, entry_try_from, entries_try_from, envelope_from,
  envelope_try_from, algorithm_of, access_mode_of, exported_from, exported_try_from,
}
use ethmumbai_rok.Encoding.RoundTrip.{IsParent, IsExported}
use ethmumbai_rok.Sectioned
use ethmumbai_rok.Sectioned.{Section, SectionedEnvelope}
use ethmumbai_rok.Sectioned.RoundTrip.{IsSection, IsSectioned, from_bytes-to_bytes_sectioned}
use ethmumbai_rok.Proto.Container.{
  section_from, sectioned_from, section_try_from, sections_try_from, sectioned_try_from,
  envelope_bytes, envelope_from_bytes, sectioned_bytes, sectioned_from_bytes,
}
use ethmumbai_rok.Proto.Messages
use ethmumbai_rok.Proto.Messages.{Prost, ProstLaws}

scope_utf8 : (s : Scope) → IsScope s → is_utf8 s.path ≡ true
unfolding from_utf8
scope_utf8 s h = elim (Bool-cases (is_utf8 s.path)) [
  | inl e ↦ e
  | inr e ↦ cc (rw e at (scope_reads_back s h).0)
]

mlkem_of-or_default : (ct : Option Bytes) → IsMlkem ct → mlkem_of (or_default ct) ≡ ct
unfolding mlkem_of or_default is_empty
mlkem_of-or_default none h = refl
mlkem_of-or_default (some []) (h, _) = absurd (omega (arith, h))
mlkem_of-or_default (some (b ∷ s)) h = refl

parent_of-or_default : (o : Option Bytes) → IsParent o → parent_of (or_default o) ≡ o
unfolding parent_of or_default
parent_of-or_default none h = refl
parent_of-or_default (some id) h = rw h refl

entry_try_from-entry_from : (e : AccessEntry) → IsEntry e → entry_try_from (entry_from e) ≡ ok e
unfolding entry_try_from entry_from sized
entry_try_from-entry_from e h = rw (h.id_size, h.nonce_size) refl

entries_try_from-entry_from :
    (es : List AccessEntry) → All IsEntry es → entries_try_from (map entry_from es) ≡ ok es
unfolding entries_try_from
entries_try_from-entry_from [] h = refl
entries_try_from-entry_from (e ∷ es) (he, h) =
    rw (entry_try_from-entry_from e he, entries_try_from-entry_from es h) refl

module _ (p : Prost) (laws : ProstLaws p) where
  algorithm_of-algorithm_from :
      (a : Algorithm) → algorithm_of p (Messages.algorithm_code (algorithm_from a)) ≡ ok a
  unfolding algorithm_of algorithm_try_from algorithm_from
  algorithm_of-algorithm_from ecies_x25519_chacha20 =
      rw (laws.algorithm_value Messages.ecies_x25519_chacha20) refl
  algorithm_of-algorithm_from hybrid_x25519_mlkem_chacha20 =
      rw (laws.algorithm_value Messages.hybrid_x25519_mlkem_chacha20) refl

  access_mode_of-access_mode_from :
      (m : AccessMode) → access_mode_of p (Messages.access_mode_code (access_mode_from m)) ≡ ok m
  unfolding access_mode_of access_mode_try_from access_mode_from
  access_mode_of-access_mode_from recipient = rw (laws.access_mode_value Messages.recipient) refl
  access_mode_of-access_mode_from scope_based =
      rw (laws.access_mode_value Messages.scope_based) refl

  pub envelope_try_from-envelope_from :
      (e : EncryptedEnvelope) → IsValid e → envelope_try_from p (envelope_from e) ≡ ok e
  unfolding envelope_try_from envelope_from sized
  envelope_try_from-envelope_from e h =
      rw
        (
          algorithm_of-algorithm_from e.algorithm,
          (scope_reads_back e.scope h.scope).1,
          h.ephemeral_size,
          entries_try_from-entry_from e.access_entries h.entries,
          h.nonce_size,
          h.tag_size,
          h.key_size,
          h.signature_size,
          access_mode_of-access_mode_from e.access_mode,
          mlkem_of-or_default e.ephemeral_mlkem_ciphertext h.mlkem,
        )
        refl

  envelope_from-IsEnvelope :
      (e : EncryptedEnvelope) → IsValid e → Messages.IsEnvelope (envelope_from e)
  unfolding envelope_from
  envelope_from-IsEnvelope e h = record {
    version_size = h.version_size;
    scope_utf8 = scope_utf8 e.scope h.scope;
    algorithm_value = (algorithm_from e.algorithm, refl);
    access_mode_value = (access_mode_from e.access_mode, refl);
  }

  -- An envelope whose lengths fit the binary format is read back whole from its protobuf bytes,
  -- under the laws of prost.
  pub envelope_from_bytes-envelope_bytes :
      (e : EncryptedEnvelope) → IsValid e → envelope_from_bytes p (envelope_bytes p e) ≡ ok e
  unfolding envelope_from_bytes envelope_bytes
  envelope_from_bytes-envelope_bytes e h =
      rw (laws.envelope_round_trip (envelope_from e) (envelope_from-IsEnvelope e h))
        (envelope_try_from-envelope_from e h)

  sections_try_from-section_from :
      (ss : List Section) → All IsSection ss → sections_try_from p (map section_from ss) ≡ ok ss
  unfolding sections_try_from section_try_from section_from
  sections_try_from-section_from [] h = refl
  sections_try_from-section_from (s ∷ ss) (hs, h) =
      rw (envelope_try_from-envelope_from s.envelope hs.valid, sections_try_from-section_from ss h)
        refl

  section_from-IsSection :
      (ss : List Section) → All IsSection ss → All Messages.IsSection (map section_from ss)
  unfolding section_from
  section_from-IsSection [] h = tt
  section_from-IsSection (s ∷ ss) (hs, h) = (
    record {
      name_utf8 = hs.name_utf8;
      envelope_of = (envelope_from s.envelope, refl, envelope_from-IsEnvelope s.envelope hs.valid);
    },
    section_from-IsSection ss h,
  )

  -- A container whose names are UTF-8 and whose envelopes fit the format is read back from its
  -- protobuf bytes, under the laws of prost.
  pub sectioned_from_bytes-sectioned_bytes :
      (e : SectionedEnvelope) → IsSectioned e → sectioned_from_bytes p (sectioned_bytes p e) ≡ ok e
  unfolding sectioned_from_bytes sectioned_bytes sectioned_from sectioned_try_from
  sectioned_from_bytes-sectioned_bytes e h =
      let message : Messages.IsSectioned (sectioned_from e) = record {
        version_size = h.version_size;
        all_sections = section_from-IsSection e.sections h.all_sections;
      } in
      rw
        (
          laws.sectioned_round_trip (sectioned_from e) message,
          sections_try_from-section_from e.sections h.all_sections,
        )
        refl

  -- For a container whose names are UTF-8 and whose envelopes and lengths fit the format, reading
  -- back its protobuf bytes and reading back its binary form, if that is shorter than the address
  -- space, give the same result, under the laws of prost.
  pub formats_agree :
      (e : SectionedEnvelope)
      → IsSectioned e
      → length (Sectioned.to_bytes e) < 2 ^ 64
      → sectioned_from_bytes p (sectioned_bytes p e) ≡ Sectioned.from_bytes (Sectioned.to_bytes e)
  formats_agree e h fits =
      sectioned_from_bytes-sectioned_bytes e h
      ∙ sym (rw append-nil at (from_bytes-to_bytes_sectioned e [] h (rw append-nil fits)))

-- An exported read key with fields of their sizes and a validated scope is converted to a message
-- and back.
pub exported_try_from-exported_from :
    (k : ExportedReadKey) → IsExported k → exported_try_from (exported_from k) ≡ ok k
unfolding exported_try_from exported_from sized
exported_try_from-exported_from k h =
    rw
      (
        h.secret_size,
        h.public_size,
        (scope_reads_back k.scope h.is_scope).1,
        parent_of-or_default k.parent_key_id h.parent_size,
      )
      refl
