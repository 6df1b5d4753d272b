-- ===== src/Encrypt/Sizes.antt =====
-- crates/rok-core/src/encrypt.rs and envelope.rs: the sizes of the fields that `encrypt` makes, and
-- the size of the binary form.
use ethmumbai_rok.Common.{
  ℕ, suc, ◌^◌, ◌<◌, Bytes, ◌≡◌, refl, ap, none, some, List, [], ◌∷◌, arith, length, All,
  length-take, length-drop,
}
use ethmumbai_rok.Error.{ok, ok-injective, >>=-eq-ok}
use ethmumbai_rok.Crypto.{Crypto, CryptoLaws, Rng, fill_bytes, Fills}
use ethmumbai_rok.Derive.{derive_wrapping_key}
use ethmumbai_rok.Keys.{SpendKeyPair}
use ethmumbai_rok.Envelope.{AccessMode, AccessEntry, EncryptedEnvelope}
use ethmumbai_rok.Encrypt.{
  Recipient, EncryptBuilder, encrypt_payload, wrap_data_key, wrap_all, choose_recipients,
  sign_envelope, encrypt,
}
use ethmumbai_rok.Encrypt.Wrapping.{length-derive_wrapping_key}
use ethmumbai_rok.Encrypt.RoundTrip.{split_tag-append}

-- An entry whose wrapped key is a data key with its tag.
abbrev pub IsWrapped : AccessEntry → Type 0
IsWrapped e =
    (length e.read_key_id ≡ 8) × (length e.wrapped_data_key ≡ 48) × (length e.wrap_nonce ≡ 12)

abbrev pub HasId : Recipient → Type 0
HasId r = length r.key_id ≡ 8

-- The sizes in an envelope for `n` recipients, of a plaintext of `m` bytes.
pub record Sized (n m : ℕ) (env : EncryptedEnvelope) : Type 0 where
  pub version : env.version ≡ 2
  pub ephemeral : length env.ephemeral_x25519_public ≡ 32
  pub mlkem : env.ephemeral_mlkem_ciphertext ≡ none
  pub entries : All IsWrapped env.access_entries
  pub entry_count : length env.access_entries ≡ n
  pub nonce : length env.nonce ≡ 12
  pub ciphertext : length env.ciphertext ≡ m
  pub tag : length env.tag ≡ 16
  pub key : length env.spend_public_key ≡ 32
  pub signature : length env.signature ≡ 64

module _ (c : Crypto) (laws : CryptoLaws c) where
  wrap_data_key-IsWrapped :
      (data_key shared id : Bytes) (rng : Rng) (e : AccessEntry) (rng' : Rng)
      → length data_key ≡ 32
      → length id ≡ 8
      → Fills rng
      → wrap_data_key c data_key shared id rng ≡ ok (e, rng')
      → IsWrapped e × Fills rng'
  unfolding wrap_data_key fill_bytes
  wrap_data_key-IsWrapped data_key shared id rng e rng' hk hi hf h =
      let key = derive_wrapping_key c shared id in
      let hl = length-derive_wrapping_key c laws shared id in
      let (w, es, n, _) =
        laws.siv_round_trip key (rng.draw rng.next 12) data_key hl (omega (arith, hk)) in
      let made = ok-injective (rw (laws.siv_init-key key hl, es) at h) in
      let entry = ap (λ x. x.0) made in
      (rw⁻¹ entry (hi, omega (arith, n, hk), hf rng.next 12), rw⁻¹ (ap (λ x. x.1) made) hf)

  wrap_all-IsWrapped :
      (data_key ephemeral : Bytes) (rs : List Recipient) (rng : Rng) (es : List AccessEntry)
      (rng' : Rng)
      → length data_key ≡ 32
      → All HasId rs
      → Fills rng
      → wrap_all c data_key ephemeral rs rng ≡ ok (es, rng')
      → All IsWrapped es × (length es ≡ length rs) × Fills rng'
  unfolding wrap_all
  wrap_all-IsWrapped data_key ephemeral [] rng es rng' hk hi hf h =
      let made = ok-injective h in
      (rw⁻¹ (ap (λ x. x.0) made) tt, rw⁻¹ (ap (λ x. x.0) made) refl, rw⁻¹ (ap (λ x. x.1) made) hf)
  wrap_all-IsWrapped data_key ephemeral (r ∷ rs) rng es rng' hk (hi, his) hf h =
      let ((e, rng1), h1, he) = >>=-eq-ok _ _ h in
      let ((es', rng2), h2, hes) = >>=-eq-ok _ _ h1 in
      let (we, f1) =
        wrap_data_key-IsWrapped data_key (c.diffie_hellman ephemeral r.read_public_key) r.key_id rng
          e rng1 hk hi hf he in
      let (wes, n, f2) = wrap_all-IsWrapped data_key ephemeral rs rng1 es' rng2 hk his f1 hes in
      let made = ok-injective h2 in
      (
        rw⁻¹ (ap (λ x. x.0) made) (we, wes),
        rw⁻¹ (ap (λ x. x.0) made) (ap suc n),
        rw⁻¹ (ap (λ x. x.1) made) f2,
      )

  encrypt_payload-sizes :
      (data_key plaintext : Bytes) (rng : Rng) (ct nonce tag : Bytes) (rng' : Rng)
      → length data_key ≡ 32
      → length plaintext < 2 ^ 36
      → Fills rng
      → encrypt_payload c data_key plaintext rng ≡ ok ((ct, nonce, tag), rng')
      → (length ct ≡ length plaintext) × (length nonce ≡ 12) × (length tag ≡ 16) × Fills rng'
  unfolding encrypt_payload fill_bytes
  encrypt_payload-sizes data_key plaintext rng ct nonce tag rng' hk small hf h =
      let m = length plaintext in
      let (e, he, hl, _) =
        laws.chacha_round_trip data_key (rng.draw rng.next 12) plaintext hk small in
      let made =
        ok-injective (rw (laws.chacha_init-key data_key hk, he, split_tag-append c e m hl) at h) in
      (
        rw⁻¹ (ap (λ x. x.0.0) made) (length-take m e (omega (arith, hl))),
        rw⁻¹ (ap (λ x. x.0.1) made) (hf rng.next 12),
        rw⁻¹ (ap (λ x. x.0.2) made) (omega (arith, hl, length-drop m e)),
        rw⁻¹ (ap (λ x. x.1) made) hf,
      )

  -- What `encrypt` returns has fields of their sizes, and the generator still fills its buffers.
  pub encrypt-Sized :
      (self : EncryptBuilder) (plaintext : Bytes) (rng : Rng) (sk : SpendKeyPair)
      (rs : List Recipient) (mode : AccessMode) (env : EncryptedEnvelope) (rng' : Rng)
      → Fills rng
      → self.spend_key ≡ some sk
      → choose_recipients c self sk ≡ ok (rs, mode)
      → All HasId rs
      → length plaintext < 2 ^ 36
      → encrypt c self plaintext rng ≡ ok (env, rng')
      → Sized (length rs) (length plaintext) env × Fills rng'
  unfolding encrypt sign_envelope fill_bytes
  encrypt-Sized self plaintext rng sk rs mode env rng' hf hs hr hi small h =
      let key = rng.draw rng.next 32 in
      let (((ct, nonce, tag), rng1), h1, hp) = >>=-eq-ok _ _ (simp (hs, hr) at h) in
      let ((es, rng2), h2, hw) = >>=-eq-ok _ _ h1 in
      let (lc, ln, lt, f1) =
        encrypt_payload-sizes key plaintext _ ct nonce tag rng1 (hf rng.next 32) small hf hp in
      let (we, n, f2) = wrap_all-IsWrapped key _ rs rng1 es rng2 (hf rng.next 32) hi f1 hw in
      let made = ok-injective h2 in
      (
        rw⁻¹ (ap (λ x. x.0) made) (record {
          version = refl;
          ephemeral = laws.length-x25519_public _;
          mlkem = refl;
          entries = we;
          entry_count = n;
          nonce = ln;
          ciphertext = lc;
          tag = lt;
          key = laws.length-verifying_key sk.seed;
          signature = laws.length-sign sk.seed _;
        }),
        rw⁻¹ (ap (λ x. x.1) made) f2,
      )
