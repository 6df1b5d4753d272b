-- ===== src/Sectioned/Builder.antt =====
-- crates/rok-core/src/sectioned.rs: the states that the builder can reach.
use ethmumbai_rok.Common.{
  Bytes, ◌≡◌, ◌≢◌, refl, Bool-cases, inl, inr, false, some, List, [], ◌∷◌, ◌++◌, All, All-append,
  any, bytes_eq, bytes_eq_refl,
}
use ethmumbai_rok.Error.{ok}
use ethmumbai_rok.Envelope.{EncryptedEnvelope}
use ethmumbai_rok.Sectioned.{
  Section, SectionedEnvelope, SectionedEnvelopeBuilder, find_section, new, add_section, build,
  sectioned_version,
}

-- The builders that a run of `add_section` calls can reach.
pub data Reached : SectionedEnvelopeBuilder → Type 0 where
  started : Reached new
  added :
      (b b' : SectionedEnvelopeBuilder) (name : Bytes) (envelope : EncryptedEnvelope)
      → Reached b
      → add_section b name envelope ≡ ok b'
      → Reached b'

-- Each section of `part` is what its name finds in `ss`.
abbrev pub Found : List Section → List Section → Type 0
Found ss part = All (λ s. find_section s.name ss ≡ some s) part

find_section-append :
    (name : Bytes) (ss ts : List Section) (s : Section)
    → find_section name ss ≡ some s
    → find_section name (ss ++ ts) ≡ some s
unfolding find_section
find_section-append name [] ts s h = cc
find_section-append name (x ∷ ss) ts s h = elim (Bool-cases (bytes_eq x.name name)) [
  | inl e ↦ rw e (rw e at h)
  | inr e ↦ rw e (find_section-append name ss ts s (rw e at h))
]

-- A name that no section has finds what comes behind them.
find_section-fresh :
    (name : Bytes) (ss : List Section) (envelope : EncryptedEnvelope)
    → any (λ s. bytes_eq s.name name) ss ≡ false
    → find_section name (ss ++ record { name = name; envelope = envelope } ∷ [])
      ≡ some (record { name = name; envelope = envelope })
unfolding find_section
find_section-fresh name [] envelope h = rw (bytes_eq_refl name) refl
find_section-fresh name (x ∷ ss) envelope h = elim (Bool-cases (bytes_eq x.name name)) [
  | inl e ↦ absurd (cc (rw e at h))
  | inr e ↦ rw e (find_section-fresh name ss envelope (rw e at h))
]

Found-append : (ss ts part : List Section) → Found ss part → Found (ss ++ ts) part
Found-append ss ts [] h = tt
Found-append ss ts (s ∷ part) (hs, h) =
    (find_section-append s.name ss ts s hs, Found-append ss ts part h)

add_section-Found :
    (b b' : SectionedEnvelopeBuilder) (name : Bytes) (envelope : EncryptedEnvelope)
    → Found b.sections b.sections
    → add_section b name envelope ≡ ok b'
    → Found b'.sections b'.sections
unfolding add_section
add_section-Found b b' name envelope f h =
    let s : Section = record { name = name; envelope = envelope } in
    elim (Bool-cases (any (λ x. bytes_eq x.name name) b.sections)) [
      | inl e ↦ absurd (cc (rw e at h))
      | inr e ↦
          let made : b' ≡ record { sections = b.sections ++ s ∷ [] } = cc (rw e at h) in
          rw made (
            All-append _ b.sections (s ∷ []) (Found-append b.sections (s ∷ []) b.sections f)
              (find_section-fresh name b.sections envelope e, tt))
    ]

Reached-Found : (b : SectionedEnvelopeBuilder) → Reached b → Found b.sections b.sections
unfolding new
Reached-Found b started = tt
Reached-Found _ (added b b' name envelope r h) =
    add_section-Found b b' name envelope (Reached-Found b r) h

-- A container that a builder in a reachable state has built has a section, and each of its
-- sections is the one found by its name.
pub build-Found :
    (b : SectionedEnvelopeBuilder) (e : SectionedEnvelope)
    → Reached b
    → build b ≡ ok e
    → (e.sections ≢ []) × Found e.sections e.sections
unfolding build
build-Found b e r h = built b.sections refl
  where
    built : (ss : List Section) → b.sections ≡ ss → (e.sections ≢ []) × Found e.sections e.sections
    built [] eq = absurd (cc (rw eq at h))
    built (s ∷ ss) eq =
        let made : e ≡ record { version = sectioned_version; sections = s ∷ ss } =
          cc (rw eq at h) in
        rw made (λ w. cc, rw eq at (Reached-Found b r))
