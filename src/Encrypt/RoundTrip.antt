-- ===== src/Encrypt/RoundTrip.antt =====
-- crates/rok-core/src/encrypt.rs: `encrypt` followed by `decrypt`. `Sealed` says what an envelope of
-- `encrypt` holds.
use ethmumbai_rok.Common.{
  ℕ, ◌+◌, ◌^◌, ◌<◌, Bytes, ◌≡◌, refl, sym, true, none, some, List, arith, length, take, drop,
  replicate, take-append-drop,
}
use ethmumbai_rok.Error.{ok}
use ethmumbai_rok.Crypto.{Crypto, CryptoLaws, Rng, fill_bytes, Fills}
use ethmumbai_rok.Keys.{ReadKeyPair, SpendKeyPair, key_id}
use ethmumbai_rok.Keys.Delegation.{IsGenuine}
use ethmumbai_rok.Envelope.{AccessMode, EncryptedEnvelope, signable_bytes, current_version}
use ethmumbai_rok.Encrypt.{
  Recipient, EncryptBuilder, split_tag, encrypt_payload, decrypt_payload, choose_recipients,
  sign_envelope, encrypt, decrypt_key, open_entry, decrypt,
}
use ethmumbai_rok.Encrypt.Wrapping.{find_recipient, Wrapped, wrap_all-Wrapped, find_entry-some}

module _ (c : Crypto) where
  pub split_tag-append :
      (a : Bytes) (n : ℕ) → length a ≡ n + 16 → split_tag c a ≡ ok (take n a, drop n a)
  unfolding split_tag
  split_tag-append a n h = ground (arith)

  -- The payload is enciphered without failure, and deciphered again.
  pub decrypt_payload-encrypt_payload :
      CryptoLaws c
      → (data_key plaintext : Bytes) (rng : Rng) → length data_key ≡ 32
      → length plaintext < 2 ^ 36
      → (ct : Bytes) × (nonce : Bytes) × (tag : Bytes) × (rng' : Rng) × (encrypt_payload c data_key
            plaintext rng
          ≡ ok ((ct, nonce, tag), rng'))
        × (decrypt_payload c data_key ct nonce tag ≡ ok plaintext)
  unfolding encrypt_payload decrypt_payload
  decrypt_payload-encrypt_payload laws data_key plaintext rng h small =
      let nonce = (fill_bytes 12 rng).0 in
      let n = length plaintext in
      let (e, he, hl, hd) = laws.chacha_round_trip data_key nonce plaintext h small in
      let init = laws.chacha_init-key data_key h in
      (
        take n e,
        nonce,
        drop n e,
        (fill_bytes 12 rng).1,
        rw (init, he, split_tag-append e n hl) refl,
        rw (init, take-append-drop n e, hd) refl,
      )

  -- A signed envelope verifies, since what is signed leaves the signature out.
  pub verify-sign_envelope :
      CryptoLaws c
      → (sk : SpendKeyPair) (env : EncryptedEnvelope)
      → c.verify
          (c.verifying_key sk.seed)
          (signable_bytes (sign_envelope c sk env))
          (sign_envelope c sk env).signature
        ≡ true
  unfolding sign_envelope signable_bytes
  verify-sign_envelope laws sk env = laws.verify-sign sk.seed (signable_bytes env)

  -- What an envelope of `encrypt` holds: the signature verifies, and each recipient has an entry
  -- that opens to the data key, under which the payload deciphers.
  pub record Sealed (seed : Bytes) (rs : List Recipient) (plaintext : Bytes)
      (env : EncryptedEnvelope) : Type 0 where
    pub data_key : Bytes
    pub ephemeral : Bytes
    pub data_key_length : length data_key ≡ 32
    pub verifies : c.verify (c.verifying_key seed) (signable_bytes env) env.signature ≡ true
    pub names_signer : env.spend_public_key ≡ c.verifying_key seed
    pub names_ephemeral : env.ephemeral_x25519_public ≡ c.x25519_public ephemeral
    pub entries_open : Wrapped c data_key ephemeral rs env.access_entries
    pub payload_opens : decrypt_payload c data_key env.ciphertext env.nonce env.tag ≡ ok plaintext

  -- `encrypt` succeeds whenever the spend key is set and the recipients can be chosen.
  pub encrypt-Sealed :
      CryptoLaws c
      → (self : EncryptBuilder) (plaintext : Bytes) (rng : Rng) (sk : SpendKeyPair)
        (rs : List Recipient) (mode : AccessMode)
      → Fills rng
      → self.spend_key ≡ some sk
      → choose_recipients c self sk ≡ ok (rs, mode)
      → length plaintext < 2 ^ 36
      → (env : EncryptedEnvelope) × (rng' : Rng) × (encrypt c self plaintext rng ≡ ok (env, rng'))
        × (env.scope ≡ self.scope)
        × (env.access_mode ≡ mode)
        × Sealed sk.seed rs plaintext env
  unfolding encrypt sign_envelope fill_bytes
  encrypt-Sealed laws self plaintext rng sk rs mode hf hs hr small =
      let key_draw = fill_bytes 32 rng in
      let eph_draw = fill_bytes 32 key_draw.1 in
      let eph = c.static_secret eph_draw.0 in
      let (ct, nonce, tag, rng1, hp, hd) =
        decrypt_payload-encrypt_payload laws key_draw.0 plaintext eph_draw.1 (hf rng.next 32)
          small in
      let (es, rng2, hw, w) = wrap_all-Wrapped c laws key_draw.0 eph rs rng1 (hf rng.next 32) in
      let unsigned : EncryptedEnvelope = record {
        version = current_version;
        algorithm = self.algorithm;
        scope = self.scope;
        ephemeral_x25519_public = c.x25519_public eph;
        ephemeral_mlkem_ciphertext = none;
        access_entries = es;
        nonce = nonce;
        ciphertext = ct;
        tag = tag;
        signature = replicate 64 0;
        spend_public_key = c.verifying_key sk.seed;
        access_mode = mode;
      } in
      (
        sign_envelope c sk unsigned,
        rng2,
        simp (hs, hr, hp, hw),
        refl,
        refl,
        record {
          data_key = key_draw.0;
          ephemeral = eph;
          data_key_length = hf rng.next 32;
          verifies = verify-sign_envelope laws sk unsigned;
          names_signer = refl;
          names_ephemeral = refl;
          entries_open = w;
          payload_opens = hd;
        },
      )

  -- The data key is unwrapped by the key of a recipient, and by no other part of the envelope.
  pub open_entry-Sealed :
      CryptoLaws c
      → (seed plaintext : Bytes) (rs : List Recipient) (env : EncryptedEnvelope)
        (z : Sealed seed rs plaintext env) (k : ReadKeyPair) (r : Recipient)
      → IsGenuine c k
      → find_recipient (key_id c k) rs ≡ some r
      → r.read_public_key ≡ k.public
      → open_entry c env k ≡ ok z.data_key
  unfolding open_entry
  open_entry-Sealed laws seed plaintext rs env z k r (gs, gp) hr hp =
      let (e, f, i, o) =
        find_entry-some c z.data_key z.ephemeral (key_id c k) rs env.access_entries r z.entries_open
          hr in
      let shared : c.diffie_hellman k.secret env.ephemeral_x25519_public
          ≡ c.diffie_hellman z.ephemeral r.read_public_key =
        rw (z.names_ephemeral, hp, gp) (laws.diffie_hellman_comm k.secret z.ephemeral) in
      rw (f, shared, sym i) o.1

  -- A key that opens the data key of a sealed envelope deciphers it.
  pub decrypt-Sealed :
      CryptoLaws c
      → (seed plaintext : Bytes) (rs : List Recipient) (env : EncryptedEnvelope)
        (z : Sealed seed rs plaintext env) (k k' : ReadKeyPair) (r : Recipient)
      → decrypt_key c env k ≡ ok k'
      → IsGenuine c k'
      → find_recipient (key_id c k') rs ≡ some r
      → r.read_public_key ≡ k'.public
      → decrypt c env k (c.verifying_key seed) ≡ ok plaintext
  unfolding decrypt
  decrypt-Sealed laws seed plaintext rs env z k k' r hd g hr hp =
      rw
        (
          z.verifies,
          hd,
          open_entry-Sealed laws seed plaintext rs env z k' r g hr hp,
          z.payload_opens,
        )
        refl
