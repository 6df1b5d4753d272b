-- ===== src/Encrypt/Listed.antt =====
-- crates/rok-core/src/encrypt.rs: the encryption to a list of recipients, as the SDK calls it.
use ethmumbai_rok.Common.{◌^◌, ◌<◌, Bytes, ◌≡◌, refl, some, List, ◌∷◌, length, All}
use ethmumbai_rok.Error.{ok}
use ethmumbai_rok.Crypto.{Crypto, CryptoLaws, Rng, Fills}
use ethmumbai_rok.Scope.{Scope}
use ethmumbai_rok.Keys.{ReadKeyPair, SpendKeyPair, key_id}
use ethmumbai_rok.Keys.Delegation.{IsGenuine}
use ethmumbai_rok.Envelope.{ecies_x25519_chacha20, recipient, EncryptedEnvelope}
use ethmumbai_rok.Encrypt.{
  Recipient, EncryptBuilder, new, add_recipients, set_spend_key, choose_recipients, encrypt,
  decrypt,
}
use ethmumbai_rok.Encrypt.Wrapping.{find_recipient}
use ethmumbai_rok.Encrypt.RoundTrip.{encrypt-Sealed}
use ethmumbai_rok.Encrypt.Access.{answer, decrypt-Sealed_for}
use ethmumbai_rok.Encrypt.Sizes.{HasId, encrypt-Sized}

-- The builder that the SDK makes for a scope and a list of recipients.
unfoldable pub builder : SpendKeyPair → Scope → List Recipient → EncryptBuilder
builder spend_key scope recipients =
    set_spend_key (add_recipients (new ecies_x25519_chacha20 scope) recipients) spend_key

module _ (c : Crypto) (laws : CryptoLaws c) (sk : SpendKeyPair) where
  -- A genuine key, and the first recipient with its identifier, if there is one, has its public half.
  abbrev pub Owns : ReadKeyPair → List Recipient → Type 0
  Owns k rs =
      IsGenuine c k
      × ((s : Recipient) → find_recipient (key_id c k) rs ≡ some s → s.read_public_key ≡ k.public)

  -- Every genuine key gets the plaintext or `no_matching_access_entry`, by the list of recipients.
  abbrev pub AnswersFor : List Recipient → Bytes → EncryptedEnvelope → Type 0
  AnswersFor rs plaintext env =
      (k : ReadKeyPair)
      → Owns k rs
      → decrypt c env k (c.verifying_key sk.seed)
        ≡ answer c laws sk k plaintext (find_recipient (key_id c k) rs)

  pub encrypt-AnswersFor :
      (scope : Scope) (r : Recipient) (rs : List Recipient) (plaintext : Bytes) (rng : Rng)
      → All HasId (r ∷ rs)
      → length plaintext < 2 ^ 36
      → Fills rng
      → (env : EncryptedEnvelope) × (rng' : Rng) × (encrypt c
            (builder sk scope (r ∷ rs))
            plaintext
            rng
          ≡ ok (env, rng'))
        × (env.scope ≡ scope)
        × AnswersFor (r ∷ rs) plaintext env
        × Fills rng'
  unfolding builder new add_recipients set_spend_key choose_recipients
  encrypt-AnswersFor scope r rs plaintext rng hi small hf =
      let self = builder sk scope (r ∷ rs) in
      let (env, rng', he, scope_kept, mode_kept, z) =
        encrypt-Sealed c laws self plaintext rng sk (r ∷ rs) recipient hf refl refl small in
      let (_, f) =
        encrypt-Sized c laws self plaintext rng sk (r ∷ rs) recipient env rng' hf refl refl hi small
          he in
      (
        env,
        rng',
        he,
        scope_kept,
        λ k (g, own). decrypt-Sealed_for c laws sk (r ∷ rs) plaintext env k mode_kept g own z,
        f,
      )
