-- ===== src/Sectioned/Sample.antt =====
-- A sectioned envelope of two sections: test data.
use ethmumbai_rok.Common.{refl, [], ◌∷◌, arith, codes}
use ethmumbai_rok.Scope.Segments.{render}
use ethmumbai_rok.Text.Utf8.{is_utf8}
use ethmumbai_rok.Text.Split.{spell}
use ethmumbai_rok.Wire.{le_bytes}
use ethmumbai_rok.Envelope
use ethmumbai_rok.Envelope.{mlkem_bytes, entries_bytes, scope_bytes}
use ethmumbai_rok.Envelope.Sample.{sample, sample-IsValid}
use ethmumbai_rok.Sectioned.{Section, SectionedEnvelope}
use ethmumbai_rok.Sectioned.RoundTrip.{IsSection, IsSectioned}

abbrev pub finance : Section
finance = record { name = codes "finance"; envelope = sample }

abbrev pub legal : Section
legal = record { name = codes "legal"; envelope = sample }

abbrev pub container : SectionedEnvelope
container = record { version = 1; sections = finance ∷ legal ∷ [] }

pub finance-IsSection : IsSection finance
unfolding is_utf8 Envelope.to_bytes le_bytes scope_bytes render spell entries_bytes mlkem_bytes
finance-IsSection = record {
  name_utf8 = refl;
  name_size = omega arith;
  valid = sample-IsValid;
  since_v2 = omega arith;
  envelope_size = omega arith;
}

legal-IsSection : IsSection legal
unfolding is_utf8
legal-IsSection = record {
  name_utf8 = refl;
  name_size = omega arith;
  valid = sample-IsValid;
  since_v2 = omega arith;
  envelope_size = finance-IsSection.envelope_size;
}

pub container-IsSectioned : IsSectioned container
container-IsSectioned = record {
  version_size = omega arith;
  section_count = omega arith;
  all_sections = (finance-IsSection, (legal-IsSection, tt));
}
