-- ===== src/Encrypt/Rekey.antt =====
-- crates/rok-core/src/encrypt.rs: `rekey_recipients`.
use ethmumbai_rok.Common.{Bytes, ◌≡◌, refl, none, some, List, ◌∷◌, replicate, length}
use ethmumbai_rok.Error.{ok}
use ethmumbai_rok.Crypto.{Crypto, CryptoLaws, Rng, fill_bytes, Fills}
use ethmumbai_rok.Keys.{ReadKeyPair, SpendKeyPair, key_id}
use ethmumbai_rok.Keys.Delegation.{IsGenuine}
use ethmumbai_rok.Envelope.{recipient, EncryptedEnvelope}
use ethmumbai_rok.Encrypt.{
  Recipient, is_scope_based_mode, is_empty, copy_32, sign_envelope, decrypt, rekey_recipients,
}
use ethmumbai_rok.Encrypt.Wrapping.{find_recipient, wrap_all-Wrapped}
use ethmumbai_rok.Encrypt.RoundTrip.{Sealed, verify-sign_envelope, open_entry-Sealed}
use ethmumbai_rok.Encrypt.Access.{answer, decrypt-Sealed_for}

module _ (c : Crypto) (laws : CryptoLaws c) where
  copy_32-key : (s : Bytes) → length s ≡ 32 → copy_32 c s ≡ ok s
  unfolding copy_32
  copy_32-key s h = rw h refl

  -- A listed key can rekey, and what results is sealed for the new recipients.
  pub rekey_recipients-Sealed :
      (sk new_sk : SpendKeyPair) (rs : List Recipient) (n : Recipient) (ns : List Recipient)
      (plaintext : Bytes) (env : EncryptedEnvelope) (k : ReadKeyPair) (r : Recipient) (rng : Rng)
      → Fills rng
      → env.access_mode ≡ recipient
      → Sealed c sk.seed rs plaintext env
      → IsGenuine c k
      → find_recipient (key_id c k) rs ≡ some r
      → r.read_public_key ≡ k.public
      → (env' : EncryptedEnvelope) × (rng' : Rng) × (rekey_recipients c env k (n ∷ ns) new_sk rng
          ≡ ok (env', rng'))
        × (env'.ciphertext ≡ env.ciphertext)
        × (env'.scope ≡ env.scope)
        × (env'.access_mode ≡ recipient)
        × Sealed c new_sk.seed (n ∷ ns) plaintext env'
  unfolding rekey_recipients is_scope_based_mode is_empty sign_envelope fill_bytes
  rekey_recipients-Sealed sk new_sk rs n ns plaintext env k r rng hf em z g hr hp =
      let eph = c.static_secret (fill_bytes 32 rng).0 in
      let (es, rng', hw, w) =
        wrap_all-Wrapped c laws z.data_key eph (n ∷ ns) (fill_bytes 32 rng).1 z.data_key_length in
      let unsigned : EncryptedEnvelope = record env {
        ephemeral_x25519_public = c.x25519_public eph;
        ephemeral_mlkem_ciphertext = none;
        access_entries = es;
        signature = replicate 64 0;
        spend_public_key = c.verifying_key new_sk.seed;
        access_mode = recipient;
      } in
      (
        sign_envelope c new_sk unsigned,
        rng',
        simp (
          em,
          z.names_signer,
          laws.is_verifying_key-of_seed sk.seed,
          z.verifies,
          open_entry-Sealed c laws sk.seed plaintext rs env z k r g hr hp,
          copy_32-key z.data_key z.data_key_length,
          hw,
        ),
        refl,
        refl,
        refl,
        record {
          data_key = z.data_key;
          ephemeral = eph;
          data_key_length = z.data_key_length;
          verifies = verify-sign_envelope c laws new_sk unsigned;
          names_signer = refl;
          names_ephemeral = refl;
          entries_open = w;
          payload_opens = z.payload_opens;
        },
      )

  -- Under the laws of the cryptography and a generator that fills its buffers, a listed genuine
  -- key can always rekey a sealed envelope in recipient mode to a list that is not empty. The
  -- ciphertext stays as it is, and `decrypt` under the new signer answers the plaintext to a
  -- genuine key that the new list names with its public half, and `no_matching_access_entry` to a
  -- key whose identifier the new list lacks, though the old list may have it.
  pub decrypt-rekey_recipients :
      (sk new_sk : SpendKeyPair) (rs : List Recipient) (n : Recipient) (ns : List Recipient)
      (plaintext : Bytes) (env : EncryptedEnvelope) (k j : ReadKeyPair) (r : Recipient) (rng : Rng)
      → Fills rng
      → env.access_mode ≡ recipient
      → Sealed c sk.seed rs plaintext env
      → IsGenuine c k
      → find_recipient (key_id c k) rs ≡ some r
      → r.read_public_key ≡ k.public
      → IsGenuine c j
      → ((s : Recipient)
          → find_recipient (key_id c j) (n ∷ ns) ≡ some s
          → s.read_public_key ≡ j.public)
      → (env' : EncryptedEnvelope) × (rng' : Rng) × (rekey_recipients c env k (n ∷ ns) new_sk rng
          ≡ ok (env', rng'))
        × (env'.ciphertext ≡ env.ciphertext)
        × (decrypt c env' j (c.verifying_key new_sk.seed)
            ≡ answer c laws new_sk j plaintext (find_recipient (key_id c j) (n ∷ ns)))
  decrypt-rekey_recipients sk new_sk rs n ns plaintext env k j r rng hf em z g hr hp gj own =
      let (env', rng', h, same, scope_kept, mode, z') =
        rekey_recipients-Sealed sk new_sk rs n ns plaintext env k r rng hf em z g hr hp in
      (
        env',
        rng',
        h,
        same,
        decrypt-Sealed_for c laws new_sk (n ∷ ns) plaintext env' j mode gj own z',
      )
