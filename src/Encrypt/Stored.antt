-- ===== src/Encrypt/Stored.antt =====
-- crates/rok-core/src/encrypt.rs and envelope.rs: what `encrypt` makes, in its binary form.
use ethmumbai_rok.Common.{
  ℕ, ◌+◌, ◌*◌, ◌^◌, ◌<◌, Bytes, ◌≡◌, some, List, [], ◌∷◌, arith, length, All, length-append,
  length-take, append-nil,
}
use ethmumbai_rok.Error.{ok}
use ethmumbai_rok.Crypto.{Crypto, CryptoLaws, Rng, Fills}
use ethmumbai_rok.Keys.{ReadKeyPair, SpendKeyPair, key_id, from_public_bytes}
use ethmumbai_rok.Wire.LittleEndian.{length-le_bytes}
use ethmumbai_rok.Envelope.{
  AccessMode, AccessEntry, EncryptedEnvelope, mlkem_bytes, entry_bytes, entries_bytes, scope_bytes,
  to_bytes, from_bytes,
}
use ethmumbai_rok.Envelope.Valid.{IsScope, IsEntry, IsValid}
use ethmumbai_rok.Envelope.RoundTrip.{from_bytes-to_bytes}
use ethmumbai_rok.Encrypt.{Recipient, EncryptBuilder, choose_recipients, encrypt}
use ethmumbai_rok.Encrypt.RoundTrip.{Sealed, encrypt-Sealed}
use ethmumbai_rok.Encrypt.Sizes.{IsWrapped, HasId, Sized, encrypt-Sized}

IsWrapped-IsEntry : (es : List AccessEntry) → All IsWrapped es → All IsEntry es
IsWrapped-IsEntry [] h = tt
IsWrapped-IsEntry (e ∷ es) ((hi, hw, hn), h) =
    (record { id_size = hi; key_size = omega (arith, hw); nonce_size = hn }, IsWrapped-IsEntry es h)

pub Sized-IsValid :
    (n m : ℕ) (env : EncryptedEnvelope)
    → Sized n m env
    → IsScope env.scope
    → length env.scope.path < 2 ^ 16
    → n < 2 ^ 16
    → m < 2 ^ 36
    → IsValid env
Sized-IsValid n m env z s hs hn hm = record {
  version_size = omega (arith, z.version);
  scope = s;
  scope_size = hs;
  ephemeral_size = z.ephemeral;
  mlkem = rw z.mlkem tt;
  entries = IsWrapped-IsEntry env.access_entries z.entries;
  entries_size = rw z.entry_count hn;
  nonce_size = z.nonce;
  ciphertext_size = omega (arith, z.ciphertext, hm);
  tag_size = z.tag;
  key_size = z.key;
  signature_size = z.signature;
}

length-entries_bytes :
    (es : List AccessEntry) → All IsWrapped es → length (entries_bytes es) ≡ 70 * length es
unfolding entries_bytes entry_bytes
length-entries_bytes [] h = omega arith
length-entries_bytes (e ∷ es) ((hi, hw, hn), h) =
    let rest = length-entries_bytes es h in
    simp (length-append, length-le_bytes, hi, hw, hn) (omega (arith, rest))

length-to_bytes :
    (n m : ℕ) (env : EncryptedEnvelope)
    → Sized n m env
    → length (to_bytes env) ≡ 182 + length env.scope.path + 70 * n + m
unfolding to_bytes scope_bytes mlkem_bytes
length-to_bytes n m env z =
    let es = length-entries_bytes env.access_entries z.entries in
    simp
      (
        z.mlkem, length-append, length-le_bytes, z.ephemeral, z.nonce, z.tag, z.key, z.signature,
        es, z.entry_count, z.ciphertext,
      )
      (omega arith)

module _ (c : Crypto) (laws : CryptoLaws c) where
  pub length-key_id : (k : ReadKeyPair) → length (key_id c k) ≡ 8
  unfolding key_id from_public_bytes
  length-key_id k = length-take 8 (c.sha256 k.public) (omega (arith, laws.length-sha256 k.public))

  -- What `encrypt` made, and what its binary form is.
  pub record Stored (self : EncryptBuilder) (sk : SpendKeyPair) (rs : List Recipient)
      (mode : AccessMode) (plaintext : Bytes) (rng rng' : Rng) (env : EncryptedEnvelope)
      : Type 0 where
    pub encrypted : encrypt c self plaintext rng ≡ ok (env, rng')
    pub same_scope : env.scope ≡ self.scope
    pub same_mode : env.access_mode ≡ mode
    pub opens : Sealed c sk.seed rs plaintext env
    pub size :
        length (to_bytes env) ≡ 182 + length self.scope.path + 70 * length rs + length plaintext
    pub reads_back : from_bytes (to_bytes env) ≡ ok env
    pub still_fills : Fills rng'

  pub encrypt-Stored :
      (self : EncryptBuilder) (plaintext : Bytes) (rng : Rng) (sk : SpendKeyPair)
      (rs : List Recipient) (mode : AccessMode)
      → Fills rng
      → self.spend_key ≡ some sk
      → choose_recipients c self sk ≡ ok (rs, mode)
      → All HasId rs
      → IsScope self.scope
      → length self.scope.path < 2 ^ 16
      → length rs < 2 ^ 16
      → length plaintext < 2 ^ 36
      → (env : EncryptedEnvelope) × (rng' : Rng) × Stored self sk rs mode plaintext rng rng' env
  encrypt-Stored self plaintext rng sk rs mode hf hs hr hi sc scl hn small =
      let (env, rng', he, scope_kept, mode_kept, opens) =
        encrypt-Sealed c laws self plaintext rng sk rs mode hf hs hr small in
      let (z, f) =
        encrypt-Sized c laws self plaintext rng sk rs mode env rng' hf hs hr hi small he in
      let valid =
        Sized-IsValid (length rs) (length plaintext) env z (rw scope_kept sc) (rw scope_kept scl) hn
          small in
      let size = length-to_bytes (length rs) (length plaintext) env z in
      (
        env,
        rng',
        record {
          encrypted = he;
          same_scope = scope_kept;
          same_mode = mode_kept;
          opens = opens;
          size = rw⁻¹ scope_kept size;
          reads_back = rw append-nil at (
              from_bytes-to_bytes env [] valid (omega (arith, z.version))
                (rw (append-nil, size, scope_kept) (omega (arith, scl, hn, small))));
          still_fills = f;
        },
      )

  -- For a builder with a spend key, recipients that can be chosen, at most 65535 of them, with
  -- identifiers of 8 bytes, a validated scope of less than 2^16 bytes and less than 2^36 bytes of
  -- plaintext, `encrypt` succeeds, under the laws of the cryptography and a generator that fills
  -- its buffers. The envelope is read back whole from its binary form, which has exactly 182
  -- bytes, the bytes of the scope's path, 70 for each recipient, and those of the plaintext.
  pub encrypt-from_bytes :
      (self : EncryptBuilder) (plaintext : Bytes) (rng : Rng) (sk : SpendKeyPair)
      (rs : List Recipient) (mode : AccessMode)
      → Fills rng
      → self.spend_key ≡ some sk
      → choose_recipients c self sk ≡ ok (rs, mode)
      → All HasId rs
      → IsScope self.scope
      → length self.scope.path < 2 ^ 16
      → length rs < 2 ^ 16
      → length plaintext < 2 ^ 36
      → (env : EncryptedEnvelope) × (rng' : Rng) × (encrypt c self plaintext rng ≡ ok (env, rng'))
        × (from_bytes (to_bytes env) ≡ ok env)
        × (length (to_bytes env) ≡ 182 + length self.scope.path + 70 * length rs + length plaintext)
  encrypt-from_bytes self plaintext rng sk rs mode hf hs hr hi sc scl hn small =
      let (env, rng', z) =
        encrypt-Stored self plaintext rng sk rs mode hf hs hr hi sc scl hn small in
      (env, rng', z.encrypted, z.reads_back, z.size)
