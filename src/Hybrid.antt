-- ===== src/Hybrid.antt =====
-- crates/rok-pq/src: kem.rs, pq_derive.rs, hybrid.rs and envelope.rs, the scope-based encryption that
-- combines X25519 with ML-KEM-768. ml-kem and rand_chacha are parameters. `&mut rng` is passed on in
-- the result. Zeroing is not modelled.
pub mod RoundTrip
pub mod Toy
mod Runs
use ethmumbai_rok.Common.{
  ℕ, Bytes, ◌≡◌, ◌^◌, ◌<◌, Bool, true, false, not, Option, none, some, List, [], ◌∷◌, length,
  replicate, bytes_eq, ◌==◌, if◌then◌else◌,
}
use ethmumbai_rok.Error.{
  num, text, format, decryption_error, signature_verification_failed, scope_mismatch,
  no_matching_access_entry, Result, ok, err, panic, ◌>>=◌, ◌>>◌, refuse,
}
use ethmumbai_rok.Crypto.{Crypto, Rng, fill_bytes}
use ethmumbai_rok.Scope.{Scope, root}
use ethmumbai_rok.Derive.{derive_pq_key_seed, combine_hybrid_secrets}
use ethmumbai_rok.Keys.{
  ReadKeyPair, SpendKeyPair, key_id, can_access, derive_child, derive_root_read_key, to_base58,
}
use ethmumbai_rok.Envelope.{
  Algorithm, ecies_x25519_chacha20, hybrid_x25519_mlkem_chacha20, scope_based, EncryptedEnvelope,
  signable_bytes, current_version,
}
use ethmumbai_rok.Encrypt.{
  or_error, encrypt_payload, decrypt_payload, wrap_data_key, unwrap_data_key, sign_envelope,
  find_entry,
}

-- ml-kem and rand_chacha, on bytes.
pub record MlKem : Type 0 where
  -- ChaCha20Rng::from_seed
  pub from_seed : Bytes → Rng
  -- MlKem768::generate: the decapsulation key and the encapsulation key, and the generator after it.
  pub generate : Rng → (Bytes × Bytes) × Rng
  -- `ek.encapsulate(rng)`: the ciphertext and the shared secret, unless it fails.
  pub encapsulate : Bytes → Rng → Option ((Bytes × Bytes) × Rng)
  -- The number of bytes of a ciphertext, which `try_into` tests.
  pub ciphertext_size : ℕ
  pub decapsulate : Bytes → Bytes → Option Bytes

-- Encapsulation to a generated key succeeds, and decapsulation recovers its secret.
pub record MlKemLaws (ml : MlKem) : Type 0 where
  pub kem_round_trip :
      (seeded rng : Rng)
      → (ct ss : Bytes) × (rng' : Rng) × (ml.encapsulate (ml.generate seeded).0.1 rng
          ≡ some ((ct, ss), rng'))
        × (length ct ≡ ml.ciphertext_size)
        × (ml.decapsulate (ml.generate seeded).0.0 ct ≡ some ss)

pub record PqKeyPair : Type 0 where
  pub decapsulation_key : Bytes
  pub encapsulation_key : Bytes

pub record HybridRecipient : Type 0 where
  pub x25519_public : Bytes
  pub mlkem_encapsulation_key : Bytes
  pub key_id : Bytes

pub record HybridEncapsulation : Type 0 where
  pub combined_shared_secret : Bytes
  pub mlkem_ciphertext : Bytes

unfoldable pub is_hybrid : Algorithm → Bool
is_hybrid ecies_x25519_chacha20 = false
is_hybrid hybrid_x25519_mlkem_chacha20 = true

module _ (ml : MlKem) where
  -- PqKeyPair::generate
  unfoldable pub generate : Rng → PqKeyPair × Rng
  generate rng =
      let made = ml.generate rng in
      (record { decapsulation_key = made.0.0; encapsulation_key = made.0.1 }, made.1)

  -- The shared secret and the ciphertext; `unwrap` panics on a failure.
  unfoldable pub encapsulate : Rng → Bytes → Result ((Bytes × Bytes) × Rng)
  encapsulate rng ek = elim (ml.encapsulate ek rng) [
    | none ↦ panic
    | some ((ct, ss), rng') ↦ ok ((ss, ct), rng')
  ]

  unfoldable pub decapsulate : Bytes → Bytes → Result Bytes
  decapsulate dk ciphertext = do
    refuse (not (length ciphertext == ml.ciphertext_size)) (
        decryption_error
          (format "invalid ML-KEM ciphertext length: {}" (num (length ciphertext) ∷ [])))
    or_error (ml.decapsulate dk ciphertext) (decryption_error (text "ML-KEM decapsulation failed"))

module _ (c : Crypto) (ml : MlKem) where
  unfoldable pub derive_pq_keypair : Bytes → Scope → PqKeyPair
  unfolding generate
  derive_pq_keypair read_secret scope =
      (generate ml (ml.from_seed (derive_pq_key_seed c read_secret scope))).0

  unfoldable pub hybrid_encapsulate :
      Rng → HybridRecipient → Bytes → Result (HybridEncapsulation × Rng)
  unfolding encapsulate
  hybrid_encapsulate rng recipient ephemeral_x25519_secret = do
    let x25519_shared = c.diffie_hellman ephemeral_x25519_secret recipient.x25519_public
    (secrets, rng') ← encapsulate ml rng recipient.mlkem_encapsulation_key
    ok (
      record {
        combined_shared_secret = combine_hybrid_secrets c x25519_shared secrets.0;
        mlkem_ciphertext = secrets.1;
      },
      rng',
    )

  unfoldable pub hybrid_decapsulate : Bytes → Bytes → Bytes → Bytes → Result Bytes
  unfolding decapsulate
  hybrid_decapsulate x25519_secret ephemeral_x25519_public dk mlkem_ciphertext = do
    let x25519_shared = c.diffie_hellman x25519_secret ephemeral_x25519_public
    mlkem_ss ← decapsulate ml dk mlkem_ciphertext
    ok (combine_hybrid_secrets c x25519_shared mlkem_ss)

  -- Step 1 of `hybrid_encrypt`.
  unfoldable pub scope_key : SpendKeyPair → Scope → Result ReadKeyPair
  scope_key spend_key scope =
      let root_read = derive_root_read_key c spend_key in
      if bytes_eq scope.path root.path then ok root_read else derive_child c root_read scope

  unfoldable pub hybrid_encrypt :
      Bytes → Scope → SpendKeyPair → Rng → Result (EncryptedEnvelope × Rng)
  unfolding scope_key hybrid_encapsulate derive_pq_keypair fill_bytes sign_envelope
  hybrid_encrypt plaintext scope spend_key rng = do
    own_key ← scope_key spend_key scope
    let pq_keypair = derive_pq_keypair own_key.secret scope
    let key_draw = fill_bytes 32 rng
    let ephemeral_draw = fill_bytes 32 key_draw.1
    let ephemeral = c.static_secret ephemeral_draw.0
    (encap, rng1) ←
        hybrid_encapsulate ephemeral_draw.1
          (record {
            x25519_public = own_key.public;
            mlkem_encapsulation_key = pq_keypair.encapsulation_key;
            key_id = key_id c own_key;
          })
          ephemeral
    (payload, rng2) ← encrypt_payload c key_draw.0 plaintext rng1
    (entry, rng3) ← wrap_data_key c key_draw.0 encap.combined_shared_secret (key_id c own_key) rng2
    ok (
      sign_envelope c spend_key (record {
        version = current_version;
        algorithm = hybrid_x25519_mlkem_chacha20;
        scope = scope;
        ephemeral_x25519_public = c.x25519_public ephemeral;
        ephemeral_mlkem_ciphertext = some encap.mlkem_ciphertext;
        access_entries = entry ∷ [];
        nonce = payload.1;
        ciphertext = payload.0;
        tag = payload.2;
        signature = replicate 64 0;
        spend_public_key = c.verifying_key spend_key.seed;
        access_mode = scope_based;
      }),
      rng3,
    )

  -- Step 3 of `hybrid_decrypt`: the key at the envelope's scope.
  unfoldable pub hybrid_key : EncryptedEnvelope → ReadKeyPair → Result ReadKeyPair
  hybrid_key envelope read_key = do
    refuse (not (can_access c read_key envelope.scope))
        (scope_mismatch read_key.scope.path envelope.scope.path)
    if not (bytes_eq read_key.scope.path envelope.scope.path)
        then derive_child c read_key envelope.scope
        else ok read_key

  -- Steps 4 to 8 of `hybrid_decrypt`: the data key.
  unfoldable pub hybrid_open : EncryptedEnvelope → ReadKeyPair → Result Bytes
  unfolding derive_pq_keypair hybrid_decapsulate
  hybrid_open envelope key = do
    let my_key_id = key_id c key
    entry ←
        or_error (find_entry my_key_id envelope.access_entries)
          (no_matching_access_entry (to_base58 c my_key_id))
    let pq_keypair = derive_pq_keypair key.secret envelope.scope
    mlkem_ct ←
        or_error envelope.ephemeral_mlkem_ciphertext
          (decryption_error (text "hybrid envelope missing ML-KEM ciphertext"))
    combined_secret ←
        hybrid_decapsulate key.secret envelope.ephemeral_x25519_public pq_keypair.decapsulation_key
          mlkem_ct
    unwrap_data_key c entry combined_secret my_key_id

  -- The message about the algorithm leaves out its name.
  unfoldable pub hybrid_decrypt : EncryptedEnvelope → ReadKeyPair → Bytes → Result Bytes
  unfolding is_hybrid hybrid_key hybrid_open
  hybrid_decrypt envelope read_key spend_verifying_key = do
    refuse (not (is_hybrid envelope.algorithm))
        (decryption_error (text "expected hybrid algorithm, got {:?}"))
    refuse (not (c.verify spend_verifying_key (signable_bytes envelope) envelope.signature))
        signature_verification_failed
    key ← hybrid_key envelope read_key
    data_key ← hybrid_open envelope key
    decrypt_payload c data_key envelope.ciphertext envelope.nonce envelope.tag
