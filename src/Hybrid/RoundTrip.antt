-- ===== src/Hybrid/RoundTrip.antt =====
-- crates/rok-pq/src/envelope.rs: `hybrid_encrypt` followed by `hybrid_decrypt`.
use ethmumbai_rok.Common.{
  ◌^◌, ◌<◌, Bytes, ◌≡◌, refl, sym, ap, ◌∙◌, subst, true, false, Bool-cases, inl, inr, some, List,
  [], ◌∷◌, length, All, replicate, bytes_eq, bytes_eq_refl, ==_refl, if◌then◌else◌,
}
use ethmumbai_rok.Error.{ok, err, scope_mismatch}
use ethmumbai_rok.Crypto.{Crypto, CryptoLaws, Rng, fill_bytes, Fills}
use ethmumbai_rok.Scope.{root, is_ancestor_of}
use ethmumbai_rok.Scope.Segments.{IsSegment, of_segments, render, render-ne-root}
use ethmumbai_rok.Scope.Ancestry.{is_ancestor_of_iff}
use ethmumbai_rok.Derive.{derive_pq_key_seed, combine_hybrid_secrets}
use ethmumbai_rok.Keys.{ReadKeyPair, SpendKeyPair, key_id, can_access, derive_root_read_key}
use ethmumbai_rok.Envelope.{
  AccessEntry, scope_based, hybrid_x25519_mlkem_chacha20, EncryptedEnvelope, signable_bytes,
  current_version,
}
use ethmumbai_rok.Encrypt.{
  decrypt_payload, sign_envelope, decrypt_key, is_scope_based_mode, find_entry, unwrap_data_key,
}
use ethmumbai_rok.Encrypt.Wrapping.{unwrap-wrap}
use ethmumbai_rok.Encrypt.RoundTrip.{decrypt_payload-encrypt_payload, verify-sign_envelope}
use ethmumbai_rok.Encrypt.Access.{
  HeldAt, root-HeldAt, derive_child-HeldAt, decrypt_key-HeldAt, HeldAt-public,
}
use ethmumbai_rok.Hybrid.{
  MlKem, MlKemLaws, HybridEncapsulation, encapsulate, decapsulate, generate, derive_pq_keypair,
  hybrid_encapsulate, hybrid_decapsulate, scope_key, hybrid_encrypt, hybrid_key, hybrid_open,
  hybrid_decrypt, is_hybrid,
}

module _ (c : Crypto) (laws : CryptoLaws c) (ml : MlKem) (kem : MlKemLaws ml)
    (sk : SpendKeyPair) where
  scope_key-HeldAt :
      (vs : List Bytes)
      → All IsSegment vs
      → (t : ReadKeyPair) × (scope_key c ml sk (of_segments vs) ≡ ok t) × HeldAt c laws sk vs t
  unfolding scope_key root
  scope_key-HeldAt [] hv =
      (derive_root_read_key c sk, unfold render bytes_eq in refl, root-HeldAt c laws sk)
  scope_key-HeldAt (v ∷ vs) (hw, hv) =
      let (t, ht, held) =
        derive_child-HeldAt c laws sk [] v vs (derive_root_read_key c sk) (root-HeldAt c laws sk) tt
          (hw, hv) in
      (t, rw (render-ne-root v vs hw.0, ht) refl, held)

  -- The key at the scope of a scope-based envelope is the one that `decrypt` takes.
  hybrid_key-decrypt_key :
      (env : EncryptedEnvelope) (k : ReadKeyPair)
      → env.access_mode ≡ scope_based
      → hybrid_key c ml env k ≡ decrypt_key c env k
  unfolding hybrid_key decrypt_key is_scope_based_mode
  hybrid_key-decrypt_key env k em = rw em refl

  -- What the key pair encapsulates is decapsulated under the other half of either exchange.
  hybrid_decapsulate-hybrid_encapsulate :
      (rng : Rng) (ephemeral secret public pq_secret : Bytes) (vs : List Bytes) (id : Bytes)
      → public ≡ c.x25519_public secret
      → (e : HybridEncapsulation) × (rng' : Rng) × (hybrid_encapsulate c ml rng
            (record {
              x25519_public = public;
              mlkem_encapsulation_key =
                  (derive_pq_keypair c ml pq_secret (of_segments vs)).encapsulation_key;
              key_id = id;
            })
            ephemeral
          ≡ ok (e, rng'))
        × (hybrid_decapsulate c ml secret
              (c.x25519_public ephemeral)
              (derive_pq_keypair c ml pq_secret (of_segments vs)).decapsulation_key
              e.mlkem_ciphertext
            ≡ ok e.combined_shared_secret)
  unfolding hybrid_encapsulate hybrid_decapsulate encapsulate decapsulate derive_pq_keypair generate
  hybrid_decapsulate-hybrid_encapsulate rng ephemeral secret public pq_secret vs id hp =
      let seeded = ml.from_seed (derive_pq_key_seed c pq_secret (of_segments vs)) in
      let (ct, ss, rng', he, hl, hd) = kem.kem_round_trip seeded rng in
      (
        record {
          combined_shared_secret = combine_hybrid_secrets c (c.diffie_hellman ephemeral public) ss;
          mlkem_ciphertext = ct;
        },
        rng',
        rw (hybrid_encapsulate, encapsulate, he) refl,
        rw
            (
              hybrid_decapsulate,
              decapsulate,
              hl,
              ==_refl ml.ciphertext_size,
              hd,
              hp,
              laws.diffie_hellman_comm secret ephemeral,
            )
            refl,
      )

  -- A key held at the scope opens what was made for the key there.
  held_reads :
      (vs : List Bytes) (t u : ReadKeyPair) (env : EncryptedEnvelope) (data_key : Bytes)
      (e : HybridEncapsulation) (entry : AccessEntry) (ephemeral : Bytes)
      → HeldAt c laws sk vs t
      → HeldAt c laws sk vs u
      → env.scope ≡ of_segments vs
      → env.access_entries ≡ entry ∷ []
      → env.ephemeral_mlkem_ciphertext ≡ some e.mlkem_ciphertext
      → env.ephemeral_x25519_public ≡ c.x25519_public ephemeral
      → entry.read_key_id ≡ key_id c t
      → unwrap_data_key c entry e.combined_shared_secret (key_id c t) ≡ ok data_key
      → hybrid_decapsulate c ml t.secret
          (c.x25519_public ephemeral)
          (derive_pq_keypair c ml t.secret (of_segments vs)).decapsulation_key
          e.mlkem_ciphertext
        ≡ ok e.combined_shared_secret
      → hybrid_open c ml env u ≡ ok data_key
  unfolding hybrid_open
  held_reads vs t u env data_key e entry ephemeral ht hu es ee em ex hi ho hd =
      let secret : u.secret ≡ t.secret = hu.walked ∙ sym ht.walked in
      let public = HeldAt-public c laws sk vs u t hu ht in
      let same_id : key_id c t ≡ key_id c u = unfold key_id in rw public refl in
      let hit : bytes_eq entry.read_key_id (key_id c u) ≡ true =
        rw (hi, same_id) (bytes_eq_refl (key_id c u)) in
      let found : find_entry (key_id c u) env.access_entries ≡ some entry =
        unfold find_entry in rw (ee, hit) refl in
      let opened : hybrid_decapsulate c ml u.secret env.ephemeral_x25519_public
            (derive_pq_keypair c ml u.secret env.scope).decapsulation_key e.mlkem_ciphertext
          ≡ ok e.combined_shared_secret =
        rw (secret, es, ex) hd in
      rw (found, em, opened) (rw same_id at ho)

  -- The steps of `hybrid_decrypt`, each of which succeeds.
  hybrid_decrypt-steps :
      (env : EncryptedEnvelope) (k u : ReadKeyPair) (vk data_key plaintext : Bytes)
      → env.algorithm ≡ hybrid_x25519_mlkem_chacha20
      → c.verify vk (signable_bytes env) env.signature ≡ true
      → hybrid_key c ml env k ≡ ok u
      → hybrid_open c ml env u ≡ ok data_key
      → decrypt_payload c data_key env.ciphertext env.nonce env.tag ≡ ok plaintext
      → hybrid_decrypt c ml env k vk ≡ ok plaintext
  unfolding hybrid_decrypt is_hybrid
  hybrid_decrypt-steps env k u vk data_key plaintext ha hv hk ho hp =
      let is_so : is_hybrid env.algorithm ≡ true = rw ha refl in rw (is_so, hv, hk, ho, hp) refl

  -- A key that does not reach the envelope's scope.
  hybrid_decrypt-elsewhere :
      (env : EncryptedEnvelope) (k : ReadKeyPair) (vk : Bytes)
      → env.algorithm ≡ hybrid_x25519_mlkem_chacha20
      → c.verify vk (signable_bytes env) env.signature ≡ true
      → is_ancestor_of k.scope env.scope ≡ false
      → hybrid_decrypt c ml env k vk ≡ err (scope_mismatch k.scope.path env.scope.path)
  unfolding hybrid_decrypt is_hybrid hybrid_key can_access
  hybrid_decrypt-elsewhere env k vk ha hv hn =
      let is_so : is_hybrid env.algorithm ≡ true = rw ha refl in rw (is_so, hv, hn) refl

  -- Hybrid encryption of less than 2^36 bytes at a validated scope always succeeds, under the
  -- laws of the cryptography and of ML-KEM and a generator that fills its buffers. A key held
  -- below the same root at a validated scope then gets the plaintext back if its scope is an
  -- ancestor of the envelope's scope or the same, and otherwise the error `scope_mismatch`.
  pub hybrid_decrypt-hybrid_encrypt :
      (us vs : List Bytes) (k : ReadKeyPair) (plaintext : Bytes) (rng : Rng)
      → Fills rng
      → length plaintext < 2 ^ 36
      → All IsSegment us
      → All IsSegment vs
      → HeldAt c laws sk us k
      → (env : EncryptedEnvelope) × (rng' : Rng) × (hybrid_encrypt c ml plaintext
            (of_segments vs)
            sk
            rng
          ≡ ok (env, rng'))
        × (hybrid_decrypt c ml env k (c.verifying_key sk.seed) ≡ (
            if is_ancestor_of k.scope (of_segments vs)
            then ok plaintext
            else err (scope_mismatch k.scope.path (render vs))))
  unfolding hybrid_encrypt sign_envelope fill_bytes
  hybrid_decrypt-hybrid_encrypt us vs k plaintext rng hf small hu hv hk =
      let (t, ht, held) = scope_key-HeldAt vs hv in
      let key_draw = fill_bytes 32 rng in
      let ephemeral_draw = fill_bytes 32 key_draw.1 in
      let ephemeral = c.static_secret ephemeral_draw.0 in
      let (e, rng1, he, hd) =
        hybrid_decapsulate-hybrid_encapsulate ephemeral_draw.1 ephemeral t.secret t.public t.secret
          vs (key_id c t) held.is_public in
      let (ct, nonce, tag, rng2, hp, hq) =
        decrypt_payload-encrypt_payload c laws key_draw.0 plaintext rng1 (hf rng.next 32) small in
      let (entry, rng3, hw, hi, ho) =
        unwrap-wrap c laws key_draw.0 e.combined_shared_secret (key_id c t) rng2 (hf rng.next 32) in
      let unsigned : EncryptedEnvelope = record {
        version = current_version;
        algorithm = hybrid_x25519_mlkem_chacha20;
        scope = of_segments vs;
        ephemeral_x25519_public = c.x25519_public ephemeral;
        ephemeral_mlkem_ciphertext = some e.mlkem_ciphertext;
        access_entries = entry ∷ [];
        nonce = nonce;
        ciphertext = ct;
        tag = tag;
        signature = replicate 64 0;
        spend_public_key = c.verifying_key sk.seed;
        access_mode = scope_based;
      } in
      let env = sign_envelope c sk unsigned in
      let made : hybrid_encrypt c ml plaintext (of_segments vs) sk rng ≡ ok (env, rng3) =
        rw (ht, he, hp, hw) refl in
      let verifies : c.verify (c.verifying_key sk.seed) (signable_bytes env) env.signature ≡ true =
        verify-sign_envelope c laws sk unsigned in
      (
        env,
        rng3,
        made,
        elim (Bool-cases (is_ancestor_of k.scope (of_segments vs))) [
          | inl a ↦
              let (rest, er) = (is_ancestor_of_iff us vs hu hv).0 (rw hk.at_scope at a) in
              let (u, hu', held') =
                decrypt_key-HeldAt c laws sk us rest k env hk hu (rw er at hv) refl
                  (ap of_segments er) in
              let opened =
                held_reads vs t u env key_draw.0 e entry ephemeral held
                  (subst (λ ws. HeldAt c laws sk ws u) (sym er) held') refl refl refl refl hi ho
                  hd in
              rw a (
                hybrid_decrypt-steps env k u (c.verifying_key sk.seed) key_draw.0 plaintext refl
                  verifies (hybrid_key-decrypt_key env k refl ∙ hu') opened hq)
          | inr b ↦ rw b (hybrid_decrypt-elsewhere env k (c.verifying_key sk.seed) refl verifies b)
        ],
      )
