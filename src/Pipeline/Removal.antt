-- ===== src/Pipeline/Removal.antt =====
-- crates/rok-sdk/src/pipeline.rs: who reads a chunk after a consumer was removed.
use ethmumbai_rok.Common.{
  ◌^◌, ◌<◌, Bytes, ◌≡◌, refl, sym, ap, Bool, ◌∙◌, true, false, Bool-cases, inl, inr, Option, none,
  some, List, [], ◌∷◌, length, All, bytes_eq, bytes_eq→eq, bytes_eq_sym, if◌then◌else◌,
}
use ethmumbai_rok.Error.{ok}
use ethmumbai_rok.Crypto.{Crypto, CryptoLaws, Rng, Fills}
use ethmumbai_rok.Keys.{ReadKeyPair, key_id}
use ethmumbai_rok.Envelope.{EncryptedEnvelope}
use ethmumbai_rok.Encrypt.{Recipient}
use ethmumbai_rok.Encrypt.Wrapping.{find_recipient}
use ethmumbai_rok.Encrypt.Access.{answer}
use ethmumbai_rok.Encrypt.Sizes.{HasId}
use ethmumbai_rok.Encrypt.Listed.{Owns, encrypt-AnswersFor}
use ethmumbai_rok.Pipeline.{Pipeline, retain, remove_consumer, encrypt_chunk, decrypt_chunk}

-- The removed identifier finds none, and every other finds what it found.
find_recipient-retain :
    (id j : Bytes) (rs : List Recipient)
    → find_recipient j (retain id rs) ≡ (if bytes_eq j id then none else find_recipient j rs)
unfolding find_recipient retain
find_recipient-retain id j [] = elim (Bool-cases (bytes_eq j id)) [
  | inl h ↦ rw h refl
  | inr h ↦ rw h refl
]
find_recipient-retain id j (r ∷ rs) = elim (Bool-cases (bytes_eq r.key_id id)) [
  | inl h ↦ elim (Bool-cases (bytes_eq j id)) [
    | inl q ↦ rw (h, q) (rw q at (find_recipient-retain id j rs))
    | inr q ↦
        let ids : r.key_id ≡ id = bytes_eq→eq r.key_id id h in
        let apart : bytes_eq r.key_id j ≡ false = rw ids (bytes_eq_sym id j ∙ q) in
        rw (h, q, apart) (rw q at (find_recipient-retain id j rs))
  ]
  | inr h ↦ elim (Bool-cases (bytes_eq r.key_id j)) [
    | inl e ↦
        let off : bytes_eq j id ≡ false = rw⁻¹ (bytes_eq→eq r.key_id j e) h in rw (h, off, e) refl
    | inr e ↦ rw (h, e) (find_recipient-retain id j rs)
  ]
]

-- What is found in spite of a test.
kept_only :
    (b : Bool) (o : Option Recipient) (s : Recipient)
    → (if b then none else o) ≡ some s
    → (b ≡ false) × (o ≡ some s)
kept_only true o s h = cc
kept_only false o s h = (refl, h)

module _ (c : Crypto) (laws : CryptoLaws c) where
  -- A key stays the owner of its entry when a consumer is removed.
  Owns-retain :
      (self : Pipeline) (id : Bytes) (k : ReadKeyPair)
      → Owns c laws self.spend_key k self.consumers
      → Owns c laws self.spend_key k (retain id self.consumers)
  Owns-retain self id k (g, own) = (
    g,
    λ s h.
        let (off, kept) =
          kept_only (bytes_eq (key_id c k) id) (find_recipient (key_id c k) self.consumers) s
            (sym (find_recipient-retain id (key_id c k) self.consumers) ∙ h) in
        own s kept,
  )

  -- After the removal of a consumer that leaves some consumers, with identifiers of 8 bytes, a
  -- chunk of less than 2^36 bytes is encrypted, under the laws of the cryptography and a
  -- generator that fills its buffers. A genuine key with the removed identifier gets
  -- `no_matching_access_entry`, and every other genuine key is answered by the list before the
  -- removal, if the first consumer with its identifier has its public half.
  pub decrypt_chunk-removed :
      (self : Pipeline) (id : Bytes) (r : Recipient) (rs : List Recipient) (k : ReadKeyPair)
      (contents : Bytes) (rng : Rng)
      → Fills rng
      → length contents < 2 ^ 36
      → (remove_consumer self id).consumers ≡ r ∷ rs
      → All HasId (r ∷ rs)
      → Owns c laws self.spend_key k self.consumers
      → (env : EncryptedEnvelope) × (rng' : Rng) × (encrypt_chunk c
            (remove_consumer self id)
            contents
            rng
          ≡ ok (env, rng'))
        × (decrypt_chunk c env k (c.verifying_key self.spend_key.seed)
            ≡ answer c laws self.spend_key k contents (
                if bytes_eq (key_id c k) id
                then none
                else find_recipient (key_id c k) self.consumers))
  unfolding encrypt_chunk decrypt_chunk remove_consumer
  decrypt_chunk-removed self id r rs k contents rng hf small left hi own =
      let (env, rng', he, _, answers, _) =
        encrypt-AnswersFor c laws self.spend_key self.scope r rs contents rng hi small hf in
      (
        env,
        rng',
        rw left he,
        answers k (rw left at (Owns-retain self id k own))
            ∙ ap (answer c laws self.spend_key k contents)
                (rw left at (find_recipient-retain id (key_id c k) self.consumers)),
      )
