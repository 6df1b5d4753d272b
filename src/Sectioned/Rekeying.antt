-- ===== src/Sectioned/Rekeying.antt =====
-- crates/rok-core/src/sectioned.rs: `rekey_section`.
use ethmumbai_rok.Common.{
  Bytes, ◌≡◌, ◌≢◌, refl, sym, ap, ◌∙◌, Bool-cases, inl, inr, false, Option, none, some, List, [],
  ◌∷◌, map, bytes_eq, bytes_eq→eq, if◌then◌else◌,
}
use ethmumbai_rok.Error.{RokError, ok, >>=-eq-ok, ok-injective}
use ethmumbai_rok.Crypto.{Crypto, Rng}
use ethmumbai_rok.Keys.{ReadKeyPair, SpendKeyPair}
use ethmumbai_rok.Envelope.{EncryptedEnvelope}
use ethmumbai_rok.Encrypt.{Recipient, or_error, rekey_recipients}
use ethmumbai_rok.Sectioned.{Section, SectionedEnvelope, find_section, set_envelope, rekey_section}

find-set_envelope-same :
    (name : Bytes) (env : EncryptedEnvelope) (ss : List Section) (s : Section)
    → find_section name ss ≡ some s
    → find_section name (set_envelope name env ss) ≡ some (record s { envelope = env })
unfolding find_section set_envelope
find-set_envelope-same name env [] s h = cc
find-set_envelope-same name env (x ∷ ss) s h = elim (Bool-cases (bytes_eq x.name name)) [
  | inl e ↦ let same : x ≡ s = cc (rw e at h) in rw (← same) (rw (e, e) refl)
  | inr e ↦ rw (e, e) (find-set_envelope-same name env ss s (rw e at h))
]

find-set_envelope-other :
    (name other : Bytes) (env : EncryptedEnvelope) (ss : List Section)
    → other ≢ name
    → find_section other (set_envelope name env ss) ≡ find_section other ss
unfolding find_section set_envelope
find-set_envelope-other name other env [] d = refl
find-set_envelope-other name other env (x ∷ ss) d = elim (Bool-cases (bytes_eq x.name name)) [
  | inl e ↦
      let apart : bytes_eq x.name other ≡ false = elim (Bool-cases (bytes_eq x.name other)) [
        | inl f ↦ absurd (d (sym (bytes_eq→eq x.name other f) ∙ bytes_eq→eq x.name name e))
        | inr f ↦ f
      ] in
      rw (e, apart) refl
  | inr e ↦ rw e (
      ap (λ o. if bytes_eq x.name other then some x else o)
        (find-set_envelope-other name other env ss d))
]

names-set_envelope :
    (name : Bytes) (env : EncryptedEnvelope) (ss : List Section)
    → map (λ s. s.name) (set_envelope name env ss) ≡ map (λ s. s.name) ss
unfolding set_envelope
names-set_envelope name env [] = refl
names-set_envelope name env (x ∷ ss) = elim (Bool-cases (bytes_eq x.name name)) [
  | inl e ↦ rw e refl
  | inr e ↦ rw e (ap (λ ns. x.name ∷ ns) (names-set_envelope name env ss))
]

or_error-eq-ok :
    (o : Option Section) (e : RokError) (s : Section) → or_error o e ≡ ok s → o ≡ some s
or_error-eq-ok none e s h = cc
or_error-eq-ok (some x) e s h = ap some (ok-injective h)

-- A rekeying that succeeds replaced the envelope of the section found by the name by what
-- `rekey_recipients` made of it; every other name finds what it found, and the names stay in
-- order.
pub rekey_section-changes_one :
    (c : Crypto) (self t : SectionedEnvelope) (name other : Bytes) (k : ReadKeyPair)
    (rs : List Recipient) (sk : SpendKeyPair) (rng rng' : Rng)
    → rekey_section c self name k rs sk rng ≡ ok (t, rng')
    → other ≢ name
    → (s : Section) × (env : EncryptedEnvelope) × (find_section name self.sections ≡ some s)
      × (rekey_recipients c s.envelope k rs sk rng ≡ ok (env, rng'))
      × (find_section name t.sections ≡ some (record s { envelope = env }))
      × (find_section other t.sections ≡ find_section other self.sections)
      × (map (λ x. x.name) t.sections ≡ map (λ x. x.name) self.sections)
unfolding rekey_section
rekey_section-changes_one c self t name other k rs sk rng rng' h d =
    let (s, hr, hs) = >>=-eq-ok (or_error (find_section name self.sections) _) _ h in
    let ((env, r), ht, he) = >>=-eq-ok (rekey_recipients c s.envelope k rs sk rng) _ hr in
    let pair = ok-injective ht in
    let sections : t.sections ≡ set_envelope name env self.sections =
      sym (ap (λ p. p.0.sections) pair) in
    let is_found = or_error-eq-ok (find_section name self.sections) _ s hs in
    (
      s,
      env,
      is_found,
      he ∙ ap (λ p. ok (env, p.1)) pair,
      rw sections (find-set_envelope-same name env self.sections s is_found),
      rw sections (find-set_envelope-other name other env self.sections d),
      rw sections (names-set_envelope name env self.sections),
    )
