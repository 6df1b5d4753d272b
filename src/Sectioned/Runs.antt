-- ===== src/Sectioned/Runs.antt =====
-- The theorems on sectioned envelopes, on containers of one or two sections.
use ethmumbai_rok.Common.{◌≡◌, ◌≢◌, refl, ◌++◌, some, [], ◌∷◌, map, arith, codes, bytes_eq}
use ethmumbai_rok.Error.{ok}
use ethmumbai_rok.Scope.Segments.{render}
use ethmumbai_rok.Text.Split.{spell}
use ethmumbai_rok.Wire.{le_bytes}
use ethmumbai_rok.Envelope
use ethmumbai_rok.Envelope.{EncryptedEnvelope, recipient, mlkem_bytes, entries_bytes, scope_bytes}
use ethmumbai_rok.Envelope.Sample.{sample}
use ethmumbai_rok.Sectioned.{
  Section, SectionedEnvelope, SectionedEnvelopeBuilder, find_section, set_envelope, rekey_section,
  sections_bytes, to_bytes, from_bytes, new, add_section, build,
}
use ethmumbai_rok.Crypto.{Rng}
use ethmumbai_rok.Crypto.Toy.{toy, zeros, toy_laws}
use ethmumbai_rok.Encrypt.{rekey_recipients}
use ethmumbai_rok.Encrypt.Rekey.{rekey_recipients-Sealed}
use ethmumbai_rok.Encrypt.RoundTrip.{Sealed}
use ethmumbai_rok.Encrypt.Sample.{
  spend, root_key, reader, finance_reader, sealed, note, fills, genuine, found_reader,
}
use ethmumbai_rok.Sectioned.Rekeying.{rekey_section-changes_one}
use ethmumbai_rok.Sectioned.Builder.{Reached, started, added, Found, build-Found}
use ethmumbai_rok.Sectioned.Sample.{finance, legal, container, container-IsSectioned}
use ethmumbai_rok.Sectioned.RoundTrip.{from_bytes-to_bytes_sectioned}

from_bytes-to_bytes_sectioned_example : from_bytes (to_bytes container ++ 0 ∷ []) ≡ ok container
unfolding to_bytes sections_bytes Envelope.to_bytes le_bytes scope_bytes render spell entries_bytes
    mlkem_bytes
from_bytes-to_bytes_sectioned_example =
    from_bytes-to_bytes_sectioned container (0 ∷ []) container-IsSectioned (omega arith)

abbrev one_section : SectionedEnvelopeBuilder
one_section = record { sections = finance ∷ [] }

abbrev two_sections : SectionedEnvelopeBuilder
two_sections = record { sections = finance ∷ legal ∷ [] }

two_Reached : Reached two_sections
unfolding new add_section bytes_eq
two_Reached =
    added one_section two_sections (codes "legal") sample
      (added new one_section (codes "finance") sample started refl) refl

two_build : build two_sections ≡ ok container
unfolding build
two_build = refl

build-Found_example : (container.sections ≢ []) × Found container.sections container.sections
build-Found_example = build-Found two_sections container two_Reached two_build

-- The section `finance` holds what the reader reads, and is handed on to another key.
abbrev notes : Section
notes = record { name = codes "finance"; envelope = sealed.0 }

abbrev notebook : SectionedEnvelope
notebook = record { version = 1; sections = notes ∷ legal ∷ [] }

abbrev rekeyed :
    (env' : EncryptedEnvelope) × (rng' : Rng) × (rekey_recipients toy sealed.0 root_key
        (finance_reader ∷ [])
        spend
        zeros
      ≡ ok (env', rng'))
    × (env'.ciphertext ≡ sealed.0.ciphertext)
    × (env'.scope ≡ sealed.0.scope)
    × (env'.access_mode ≡ recipient)
    × Sealed toy spend.seed (finance_reader ∷ []) note env'
rekeyed =
    rekey_recipients-Sealed toy toy_laws spend spend (reader ∷ []) finance_reader [] note sealed.0
      root_key reader zeros fills sealed.4 sealed.5 genuine found_reader refl

abbrev renewed : SectionedEnvelope
renewed = record { version = 1; sections = record notes { envelope = rekeyed.0 } ∷ legal ∷ [] }

rekey_notes :
    rekey_section toy notebook (codes "finance") root_key (finance_reader ∷ []) spend zeros
    ≡ ok (renewed, rekeyed.1)
unfolding rekey_section find_section bytes_eq set_envelope
rekey_notes = rw rekeyed.2 refl

names_differ : codes "legal" ≢ codes "finance"
names_differ e = cc

rekey_section-changes_one_example :
    (s : Section) × (env : EncryptedEnvelope) × (find_section (codes "finance") notebook.sections
      ≡ some s)
    × (rekey_recipients toy s.envelope root_key (finance_reader ∷ []) spend zeros
        ≡ ok (env, rekeyed.1))
    × (find_section (codes "finance") renewed.sections ≡ some (record s { envelope = env }))
    × (find_section (codes "legal") renewed.sections
        ≡ find_section (codes "legal") notebook.sections)
    × (map (λ x. x.name) renewed.sections ≡ map (λ x. x.name) notebook.sections)
rekey_section-changes_one_example =
    rekey_section-changes_one toy notebook renewed (codes "finance") (codes "legal") root_key
      (finance_reader ∷ []) spend zeros rekeyed.1 rekey_notes names_differ
