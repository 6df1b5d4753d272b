-- ===== src/Sectioned/RoundTrip.antt =====
-- crates/rok-core/src/sectioned.rs: `from_bytes` on what `to_bytes` writes.
use ethmumbai_rok.Common.{
  ◌^◌, ◌≤◌, ◌<◌, Bytes, ◌≡◌, refl, sym, true, List, [], ◌∷◌, ◌++◌, arith, length, All, bytes_eq,
  append-nil,
}
use ethmumbai_rok.Error.{ok}
use ethmumbai_rok.Text.Utf8.{is_utf8, from_utf8-valid}
use ethmumbai_rok.Wire.{as_u16, as_u32}
use ethmumbai_rok.Wire.LittleEndian.{as_u16_id, as_u32_id, as_u16-lt, as_u32-lt}
use ethmumbai_rok.Wire.Reading.{
  Reads, Reads-pure, Reads-lift, Reads-bind, Reads-then, Reads-map, Reads-bytes, Reads-uint,
  read_all-Reads,
}
use ethmumbai_rok.Envelope
use ethmumbai_rok.Envelope.Valid.{IsValid}
use ethmumbai_rok.Envelope.RoundTrip.{from_bytes-to_bytes}
use ethmumbai_rok.Sectioned.{
  Section, SectionedEnvelope, sectioned_magic, section_bytes, sections_bytes, to_bytes,
  read_section, read_sections, read_sectioned, from_bytes,
}

-- A name that is a `String`, an envelope that the format can hold, and lengths that fit.
pub record IsSection (s : Section) : Type 0 where
  pub name_utf8 : is_utf8 s.name ≡ true
  pub name_size : length s.name < 2 ^ 16
  pub valid : IsValid s.envelope
  pub since_v2 : 2 ≤ s.envelope.version
  pub envelope_size : length (Envelope.to_bytes s.envelope) < 2 ^ 32

pub record IsSectioned (e : SectionedEnvelope) : Type 0 where
  pub version_size : e.version < 2 ^ 32
  pub section_count : length e.sections < 2 ^ 16
  pub all_sections : All IsSection e.sections

envelope_reads_back :
    (s : Section) → IsSection s → Envelope.from_bytes (Envelope.to_bytes s.envelope) ≡ ok s.envelope
envelope_reads_back s h = rw append-nil at (
    from_bytes-to_bytes s.envelope [] h.valid h.since_v2
      (rw append-nil (omega (arith, h.envelope_size))))

Reads-section : (s : Section) → IsSection s → Reads read_section (section_bytes s) s
unfolding read_section section_bytes
Reads-section s h =
    Reads-bind _ _ _ _ _ _ (Reads-uint _ 2 (as_u16 (length s.name)) (as_u16-lt (length s.name))) (
      Reads-bind _ _ _ _ _ _ (Reads-bytes _ s.name _ (sym (as_u16_id _ h.name_size))) (
        Reads-bind _ _ [] _ s.name _
          (Reads-lift _ s.name (rw (from_utf8-valid s.name h.name_utf8) refl))
          (Reads-bind _ _ _ _ _ _
            (Reads-uint _ 4 (as_u32 (length (Envelope.to_bytes s.envelope))) (as_u32-lt _))
            (Reads-then _ _ _ _ _
              (Reads-bytes _ (Envelope.to_bytes s.envelope) _ (sym (as_u32_id _ h.envelope_size)))
              (Reads-map _ _ [] _ (Reads-lift _ s.envelope (envelope_reads_back s h)))))))

Reads-sections :
    (ss : List Section)
    → All IsSection ss
    → Reads (read_sections (length ss)) (sections_bytes ss) ss
unfolding read_sections sections_bytes
Reads-sections [] h = Reads-pure []
Reads-sections (s ∷ ss) (hs, h) =
    Reads-bind _ _ _ _ _ _ (unfold section_bytes in Reads-section s hs)
      (Reads-map _ _ _ _ (Reads-sections ss h))

Reads-sectioned : (e : SectionedEnvelope) → IsSectioned e → Reads read_sectioned (to_bytes e) e
unfolding read_sectioned to_bytes bytes_eq
Reads-sectioned e h = Reads-bind _ _ _ _ _ _ (Reads-bytes _ sectioned_magic 4 refl) (
    Reads-bind _ _ [] _ tt _ (Reads-lift _ tt refl) (
      Reads-bind _ _ _ _ _ _ (Reads-uint _ 4 e.version h.version_size) (
        Reads-bind _ _ _ _ _ _
          (Reads-uint _ 2 (as_u16 (length e.sections)) (as_u16-lt (length e.sections)))
          (rw (as_u16_id (length e.sections) h.section_count)
            (Reads-map _ _ _ _ (Reads-sections e.sections h.all_sections))))))

-- A container whose names are UTF-8 and whose envelopes and lengths fit the format is read back
-- whole from what `to_bytes` wrote, whatever bytes follow, if the data is shorter than the
-- address space.
pub from_bytes-to_bytes_sectioned :
    (e : SectionedEnvelope) (rest : Bytes)
    → IsSectioned e
    → length (to_bytes e ++ rest) < 2 ^ 64
    → from_bytes (to_bytes e ++ rest) ≡ ok e
unfolding from_bytes
from_bytes-to_bytes_sectioned e rest h fits =
    read_all-Reads read_sectioned (to_bytes e) rest e (Reads-sectioned e h) fits
