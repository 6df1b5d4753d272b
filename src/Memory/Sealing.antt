-- ===== src/Memory/Sealing.antt =====
-- crates/rok-sdk/src/memory.rs: the envelope that `write` stores, and who reads it.
use ethmumbai_rok.Common.{
  ◌^◌, ◌<◌, Bytes, ◌≡◌, refl, sym, ap, ◌∙◌, List, arith, length, All, if◌then◌else◌,
}
use ethmumbai_rok.Error.{Result, ok, err, ok-injective, scope_mismatch}
use ethmumbai_rok.Crypto.{Crypto, CryptoLaws, Rng, Fills}
use ethmumbai_rok.Scope.{Scope, is_ancestor_of}
use ethmumbai_rok.Scope.Segments.{IsSegment, of_segments, render}
use ethmumbai_rok.Keys.{ReadKeyPair, SpendKeyPair}
use ethmumbai_rok.Envelope.{EncryptedEnvelope, to_bytes, from_bytes, scope_based}
use ethmumbai_rok.Encrypt.{new, set_scope_based, set_spend_key, encrypt, decrypt}
use ethmumbai_rok.Encrypt.Access.{HeldAt, choose_recipients-HeldAt, decrypt-encrypt_scope_based}
use ethmumbai_rok.Encrypt.Stored.{encrypt-Stored, length-key_id}
use ethmumbai_rok.Memory.{builder}

module _ (c : Crypto) (laws : CryptoLaws c) (sk : SpendKeyPair) where
  -- What a key gets to read of something at a scope.
  abbrev pub reads {ℓ} : {A : Type ℓ} → ReadKeyPair → Scope → A → Result A
  reads k scope content =
      if is_ancestor_of k.scope scope
      then ok content
      else err (scope_mismatch k.scope.path scope.path)

  -- Every key held below the root gets the content if its scope is an ancestor, and only then.
  abbrev pub OpensFor : List Bytes → Bytes → EncryptedEnvelope → Type 0
  OpensFor vs content env =
      (us : List Bytes) (k : ReadKeyPair)
      → All IsSegment us
      → HeldAt c laws sk us k
      → decrypt c env k (c.verifying_key sk.seed) ≡ reads k (of_segments vs) content

  pub encrypt-OpensFor :
      (vs : List Bytes) (content : Bytes) (rng : Rng)
      → All IsSegment vs
      → length (render vs) < 2 ^ 16
      → length content < 2 ^ 36
      → Fills rng
      → (env : EncryptedEnvelope) × (rng' : Rng) × (encrypt c
            (builder sk (of_segments vs))
            content
            rng
          ≡ ok (env, rng'))
        × (from_bytes (to_bytes env) ≡ ok env)
        × OpensFor vs content env
        × Fills rng'
  unfolding builder new set_scope_based set_spend_key
  encrypt-OpensFor vs content rng hv scl small hf =
      let self = builder sk (of_segments vs) in
      let (t, ht, held) = choose_recipients-HeldAt c laws sk vs self hv refl refl in
      let (env, rng', z) =
        encrypt-Stored c laws self content rng sk _ scope_based hf refl ht
          (length-key_id c laws t, tt) (record { segments = vs; all_segments = hv; path_eq = refl })
          scl (omega arith) small in
      (
        env,
        rng',
        z.encrypted,
        z.reads_back,
        λ us k hu hk.
            let (env2, rng2, he, answer) =
              decrypt-encrypt_scope_based c laws sk us vs self k content rng hf small refl refl refl
                hu hv hk in
            let same : env ≡ env2 = ap (λ x. x.0) (ok-injective (sym z.encrypted ∙ he)) in
            rw same answer,
        z.still_fills,
      )
