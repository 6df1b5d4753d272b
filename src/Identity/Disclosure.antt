-- ===== src/Identity/Disclosure.antt =====
-- crates/rok-sdk/src/identity.rs: `issue` followed by `disclose`.
use ethmumbai_rok.Common.{
  ◌^◌, ◌<◌, Bytes, ◌≡◌, refl, Bool-cases, inl, inr, Option, none, some, List, [], ◌∷◌, length, All,
  if◌then◌else◌,
}
use ethmumbai_rok.Error.{ok}
use ethmumbai_rok.Crypto.{Crypto, CryptoLaws, Rng, Fills}
use ethmumbai_rok.Keys.{ReadKeyPair, SpendKeyPair, key_id, can_access}
use ethmumbai_rok.Encrypt.{Recipient, decrypt}
use ethmumbai_rok.Envelope.{EncryptedEnvelope}
use ethmumbai_rok.Encrypt.Wrapping.{find_recipient}
use ethmumbai_rok.Encrypt.Access.{answer}
use ethmumbai_rok.Encrypt.Sizes.{HasId}
use ethmumbai_rok.Encrypt.Listed.{Owns, encrypt-AnswersFor}
use ethmumbai_rok.Identity.{
  EncryptedAttribute, Credential, Attribute, encrypt_attributes, issue, disclosed, skip_or_fail,
  disclose_attributes, disclose,
}

module _ (c : Crypto) where
  -- The names and values at the scopes that the key reaches.
  unfoldable pub reached : ReadKeyPair → List Attribute → List (Bytes × Bytes)
  reached k [] = []
  reached k (a ∷ attributes) =
      let rest = reached k attributes in
      if can_access c k a.scope then (a.name, a.value) ∷ rest else rest

  -- What a key is to see: nothing unless it is a recipient.
  abbrev pub visible : ReadKeyPair → List Attribute → Option Recipient → List (Bytes × Bytes)
  visible k attributes none = []
  visible k attributes (some r) = reached k attributes

  module _ (laws : CryptoLaws c) (sk : SpendKeyPair) where
    visible_nothing : (k : ReadKeyPair) (o : Option Recipient) → ok [] ≡ ok (visible k [] o)
    unfolding reached
    visible_nothing k none = refl
    visible_nothing k (some s) = refl

    disclose-step :
        (k : ReadKeyPair) (a : Attribute) (env : EncryptedEnvelope) (es : List EncryptedAttribute)
        (attributes : List Attribute) (o : Option Recipient)
        → decrypt c env k (c.verifying_key sk.seed) ≡ answer c laws sk k a.value o
        → disclose_attributes c (c.verifying_key sk.seed) k es ≡ ok (visible k attributes o)
        → disclose_attributes c
            (c.verifying_key sk.seed)
            k
            (record { name = a.name; scope = a.scope; envelope = env } ∷ es)
          ≡ ok (visible k (a ∷ attributes) o)
    unfolding disclose_attributes disclosed skip_or_fail reached
    disclose-step k a env es attributes none h rest = elim (Bool-cases (can_access c k a.scope)) [
      | inl b ↦ rw (b, h, rest) refl
      | inr b ↦ rw (b, rest) refl
    ]
    disclose-step k a env es attributes (some s) h rest =
        elim (Bool-cases (can_access c k a.scope)) [
          | inl b ↦ rw (b, h, rest) refl
          | inr b ↦ rw (b, rest) refl
        ]

    disclose_attributes-visible :
        (k : ReadKeyPair) (attributes : List Attribute) (r : Recipient) (rs : List Recipient)
        (rng : Rng)
        → Fills rng
        → All HasId (r ∷ rs)
        → All (λ a. length a.value < 2 ^ 36) attributes
        → Owns c laws sk k (r ∷ rs)
        → (es : List EncryptedAttribute) × (rng' : Rng) × (encrypt_attributes c sk attributes
              (r ∷ rs)
              rng
            ≡ ok (es, rng'))
          × (disclose_attributes c (c.verifying_key sk.seed) k es
              ≡ ok (visible k attributes (find_recipient (key_id c k) (r ∷ rs))))
    unfolding encrypt_attributes disclose_attributes
    disclose_attributes-visible k [] r rs rng hf hi small own =
        ([], rng, refl, visible_nothing k (find_recipient (key_id c k) (r ∷ rs)))
    disclose_attributes-visible k (a ∷ attributes) r rs rng hf hi (hs, small) own =
        let (env, rng1, he, _, answers, f) =
          encrypt-AnswersFor c laws sk a.scope r rs a.value rng hi hs hf in
        let (es, rng2, hes, hd) =
          disclose_attributes-visible k attributes r rs rng1 f hi small own in
        (
          record { name = a.name; scope = a.scope; envelope = env } ∷ es,
          rng2,
          rw (he, hes) refl,
          disclose-step k a env es attributes (find_recipient (key_id c k) (r ∷ rs)) (answers k own)
              hd,
        )

    -- Issuing attributes of less than 2^36 bytes each to a list of recipients that is not empty,
    -- with identifiers of 8 bytes, succeeds, under the laws of the cryptography and a generator
    -- that fills its buffers. `disclose` then returns, to a genuine key that the list names with
    -- its public half, exactly the names and values at the scopes that the key can access, in
    -- order, and nothing to a key whose identifier the list lacks.
    pub disclose-issue :
        (subject_id : Bytes) (k : ReadKeyPair) (attributes : List Attribute) (r : Recipient)
        (rs : List Recipient) (rng : Rng)
        → Fills rng
        → All HasId (r ∷ rs)
        → All (λ a. length a.value < 2 ^ 36) attributes
        → Owns c laws sk k (r ∷ rs)
        → (credential : Credential) × (issue c sk subject_id attributes (r ∷ rs) rng
            ≡ ok credential)
          × (disclose c credential k
              ≡ ok (visible k attributes (find_recipient (key_id c k) (r ∷ rs))))
    unfolding issue disclose
    disclose-issue subject_id k attributes r rs rng hf hi small own =
        let (es, rng', he, hd) =
          disclose_attributes-visible k attributes r rs rng hf hi small own in
        (
          record {
            issuer_verifying_key = c.verifying_key sk.seed;
            subject_id = subject_id;
            attributes = es;
          },
          rw he refl,
          hd,
        )
