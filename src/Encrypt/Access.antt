-- ===== src/Encrypt/Access.antt =====
-- crates/rok-core/src/encrypt.rs: who can read, by scope and by list of recipients. `HeldAt` is a key
-- held at a scope below the spend key's root, whichever way it was derived.
use ethmumbai_rok.Common.{
  length, ◌^◌, ◌<◌, Bytes, ◌≡◌, refl, ap, sym, ◌∙◌, true, false, Bool-cases, inl, inr, Option, none,
  some, List, [], ◌∷◌, ◌++◌, append-nil, All, bytes_eq, bytes_eq_refl, if◌then◌else◌,
}
use ethmumbai_rok.Error.{Result, ok, err, scope_mismatch, no_matching_access_entry}
use ethmumbai_rok.Crypto.{Crypto, CryptoLaws, Rng, Fills}
use ethmumbai_rok.Scope.{root, is_ancestor_of}
use ethmumbai_rok.Scope.Segments.{IsSegment, render, of_segments, render-ne-root}
use ethmumbai_rok.Scope.Ancestry.{is_ancestor_of_iff, is_ancestor_of-append}
use ethmumbai_rok.Derive.Stepwise.{descend, descend-append, render-ne-longer}
use ethmumbai_rok.Keys.{
  ReadKeyPair, SpendKeyPair, from_secret_bytes, key_id, can_access, derive_child,
  derive_root_read_key, to_base58,
}
use ethmumbai_rok.Keys.Delegation.{IsGenuine, derive_child-segments}
use ethmumbai_rok.Envelope.{recipient, scope_based, EncryptedEnvelope}
use ethmumbai_rok.Encrypt.{
  Recipient, EncryptBuilder, is_scope_based_mode, choose_recipients, encrypt, decrypt_key,
  open_entry, decrypt,
}
use ethmumbai_rok.Encrypt.Wrapping.{find_recipient, find_entry-none}
use ethmumbai_rok.Encrypt.RoundTrip.{Sealed, encrypt-Sealed, decrypt-Sealed}

module _ (c : Crypto) (laws : CryptoLaws c) (sk : SpendKeyPair) where
  -- The read key of the scope of `us`, whichever way it was derived from the root read key.
  pub record HeldAt (us : List Bytes) (k : ReadKeyPair) : Type 0 where
    pub at_scope : k.scope ≡ of_segments us
    pub walked : k.secret ≡ descend c (derive_root_read_key c sk).secret [] us
    pub is_public : k.public ≡ c.x25519_public k.secret

  pub HeldAt-IsGenuine : (us : List Bytes) (k : ReadKeyPair) → HeldAt us k → IsGenuine c k
  HeldAt-IsGenuine us k h = (sym (laws.static_secret_id k.secret), h.is_public)

  -- All holders have the same key pair at a scope.
  pub HeldAt-public :
      (us : List Bytes) (k t : ReadKeyPair) → HeldAt us k → HeldAt us t → k.public ≡ t.public
  HeldAt-public us k t hk ht = rw (hk.is_public, ht.is_public, hk.walked, ht.walked) refl

  pub root-HeldAt : HeldAt [] (derive_root_read_key c sk)
  unfolding derive_root_read_key from_secret_bytes descend root render
  root-HeldAt = record { at_scope = refl; walked = refl; is_public = refl }

  -- Derivation from a held key makes the key held at the descendant.
  pub derive_child-HeldAt :
      (us : List Bytes) (v : Bytes) (vs : List Bytes) (k : ReadKeyPair)
      → HeldAt us k
      → All IsSegment us
      → All IsSegment (us ++ v ∷ vs)
      → (t : ReadKeyPair) × (derive_child c k (of_segments (us ++ v ∷ vs)) ≡ ok t)
        × HeldAt (us ++ v ∷ vs) t
  derive_child-HeldAt us v vs k h hu hv =
      let walked =
        laws.static_secret_id (descend c k.secret us (v ∷ vs))
        ∙ ap (λ s. descend c s us (v ∷ vs)) h.walked
        ∙ sym (descend-append c (derive_root_read_key c sk).secret [] us (v ∷ vs)) in
      (
        _,
        derive_child-segments c k us v vs h.at_scope hu hv,
        record {
          at_scope = unfold from_secret_bytes in refl;
          walked = unfold from_secret_bytes in walked;
          is_public = unfold from_secret_bytes in refl;
        },
      )

  -- Step 3 of `decrypt`: a key held at an ancestor is brought to the envelope's scope.
  pub decrypt_key-HeldAt :
      (us rest : List Bytes) (k : ReadKeyPair) (env : EncryptedEnvelope)
      → HeldAt us k
      → All IsSegment us
      → All IsSegment (us ++ rest)
      → env.access_mode ≡ scope_based
      → env.scope ≡ of_segments (us ++ rest)
      → (t : ReadKeyPair) × (decrypt_key c env k ≡ ok t) × HeldAt (us ++ rest) t
  unfolding decrypt_key can_access is_scope_based_mode
  decrypt_key-HeldAt us [] k env h hu hv em es = (
    k,
    rw
        (
          em,
          es,
          h.at_scope,
          is_ancestor_of-append us [] hu,
          append-nil us,
          bytes_eq_refl (render us),
        )
        refl,
    rw (append-nil us) h,
  )
  decrypt_key-HeldAt us (v ∷ vs) k env h hu hv em es =
      let (t, ht, held) = derive_child-HeldAt us v vs k h hu hv in
      (
        t,
        simp (
          em,
          es,
          h.at_scope,
          is_ancestor_of-append us (v ∷ vs) hu,
          render-ne-longer c us v vs hu hv,
          ht,
        ),
        held,
      )

  -- In scope-based mode the recipient is the key held at the scope.
  pub choose_recipients-HeldAt :
      (vs : List Bytes) (self : EncryptBuilder)
      → All IsSegment vs
      → self.is_scope_based ≡ true
      → self.scope ≡ of_segments vs
      → (t : ReadKeyPair) × (choose_recipients c self sk
          ≡ ok (record { read_public_key = t.public; key_id = key_id c t } ∷ [], scope_based))
        × HeldAt vs t
  unfolding choose_recipients root
  choose_recipients-HeldAt [] self hv hb es =
      (derive_root_read_key c sk, rw (hb, es) (unfold render bytes_eq in refl), root-HeldAt)
  choose_recipients-HeldAt (v ∷ vs) self (hw, hv) hb es =
      let (t, ht, held) =
        derive_child-HeldAt [] v vs (derive_root_read_key c sk) root-HeldAt tt (hw, hv) in
      (t, rw (hb, es, render-ne-root v vs hw.0, ht) refl, held)

  -- A key held at an ancestor reads what is sealed for the key held at the scope.
  scope_based_reads :
      (us rest : List Bytes) (self : EncryptBuilder) (k : ReadKeyPair) (plaintext : Bytes)
      (env : EncryptedEnvelope) (r : ReadKeyPair)
      → HeldAt us k
      → All IsSegment us
      → All IsSegment (us ++ rest)
      → env.access_mode ≡ scope_based
      → env.scope ≡ of_segments (us ++ rest)
      → HeldAt (us ++ rest) r
      → Sealed c sk.seed
          (record { read_public_key = r.public; key_id = key_id c r } ∷ [])
          plaintext
          env
      → decrypt c env k (c.verifying_key sk.seed) ≡ ok plaintext
  unfolding key_id
  scope_based_reads us rest self k plaintext env r hk hu hv em es hr z =
      let (t, ht, held) = decrypt_key-HeldAt us rest k env hk hu hv em es in
      let same = HeldAt-public (us ++ rest) r t hr held in
      decrypt-Sealed c laws sk.seed plaintext _ env z k t
        (record { read_public_key = r.public; key_id = key_id c r }) ht
        (HeldAt-IsGenuine (us ++ rest) t held)
        (unfold find_recipient in rw (same, bytes_eq_refl) refl) same

  -- With the spend key set, scope-based encryption of less than 2^36 bytes at a validated scope
  -- always succeeds, under the laws of the cryptography and a generator that fills its buffers. A
  -- key held below the same root at a validated scope then gets the plaintext back if its scope
  -- is an ancestor of the envelope's scope or the same, and otherwise the error `scope_mismatch`.
  pub decrypt-encrypt_scope_based :
      (us vs : List Bytes) (self : EncryptBuilder) (k : ReadKeyPair) (plaintext : Bytes) (rng : Rng)
      → Fills rng
      → length plaintext < 2 ^ 36
      → self.spend_key ≡ some sk
      → self.is_scope_based ≡ true
      → self.scope ≡ of_segments vs
      → All IsSegment us
      → All IsSegment vs
      → HeldAt us k
      → (env : EncryptedEnvelope) × (rng' : Rng) × (encrypt c self plaintext rng ≡ ok (env, rng'))
        × (decrypt c env k (c.verifying_key sk.seed) ≡ (
            if is_ancestor_of k.scope self.scope
            then ok plaintext
            else err (scope_mismatch k.scope.path self.scope.path)))
  decrypt-encrypt_scope_based us vs self k plaintext rng hf small hs hb es hu hv hk =
      let (r, hr, held) = choose_recipients-HeldAt vs self hv hb es in
      let (env, rng', he, scope_kept, mode_kept, z) =
        encrypt-Sealed c laws self plaintext rng sk _ scope_based hf hs hr small in
      (
        env,
        rng',
        he,
        elim (Bool-cases (is_ancestor_of k.scope self.scope)) [
          | inl a ↦
              let (rest, e) = (is_ancestor_of_iff us vs hu hv).0 (rw (hk.at_scope, es) at a) in
              rw a (
                scope_based_reads us rest self k plaintext env r hk hu (rw e at hv) mode_kept
                  (scope_kept ∙ es ∙ ap of_segments e) (rw e at held) z)
          | inr b ↦
              unfold decrypt decrypt_key can_access is_scope_based_mode in
              simp (b, z.verifies, mode_kept, scope_kept)
        ],
      )

  -- What `decrypt` answers, by the first recipient that has the key's identifier.
  abbrev pub answer : ReadKeyPair → Bytes → Option Recipient → Result Bytes
  answer k plaintext none = err (no_matching_access_entry (to_base58 c (key_id c k)))
  answer k plaintext (some r) = ok plaintext

  pub decrypt-Sealed_for :
      (rs : List Recipient) (plaintext : Bytes) (env : EncryptedEnvelope) (k : ReadKeyPair)
      → env.access_mode ≡ recipient
      → IsGenuine c k
      → ((s : Recipient) → find_recipient (key_id c k) rs ≡ some s → s.read_public_key ≡ k.public)
      → Sealed c sk.seed rs plaintext env
      → decrypt c env k (c.verifying_key sk.seed)
        ≡ answer k plaintext (find_recipient (key_id c k) rs)
  decrypt-Sealed_for rs plaintext env k em g own z = found (find_recipient (key_id c k) rs) refl
    where
      found :
          (o : Option Recipient)
          → find_recipient (key_id c k) rs ≡ o
          → decrypt c env k (c.verifying_key sk.seed) ≡ answer k plaintext o
      found none h =
          unfold decrypt decrypt_key is_scope_based_mode open_entry in
          rw
            (
              z.verifies,
              em,
              find_entry-none c z.data_key z.ephemeral (key_id c k) rs env.access_entries
                  z.entries_open h,
            )
            refl
      found (some s) h =
          decrypt-Sealed c laws sk.seed plaintext rs env z k k s
            (unfold decrypt_key is_scope_based_mode in rw em refl) g h (own s h)

  -- With the spend key set and at least one recipient, encryption of less than 2^36 bytes to
  -- recipients always succeeds, under the laws of the cryptography and a generator that fills its
  -- buffers. A genuine key whose identifier no recipient has then gets
  -- `no_matching_access_entry`, and a key whose identifier a recipient has gets the plaintext
  -- back, if the first such recipient has the key's public half.
  pub decrypt-encrypt :
      (self : EncryptBuilder) (r : Recipient) (rs : List Recipient) (k : ReadKeyPair)
      (plaintext : Bytes) (rng : Rng)
      → Fills rng
      → length plaintext < 2 ^ 36
      → self.spend_key ≡ some sk
      → self.is_scope_based ≡ false
      → self.recipients ≡ r ∷ rs
      → IsGenuine c k
      → ((s : Recipient)
          → find_recipient (key_id c k) self.recipients ≡ some s
          → s.read_public_key ≡ k.public)
      → (env : EncryptedEnvelope) × (rng' : Rng) × (encrypt c self plaintext rng ≡ ok (env, rng'))
        × (decrypt c env k (c.verifying_key sk.seed)
            ≡ answer k plaintext (find_recipient (key_id c k) self.recipients))
  decrypt-encrypt self r rs k plaintext rng hf small hs hb hr g own =
      let chosen : choose_recipients c self sk ≡ ok (self.recipients, recipient) =
        unfold choose_recipients in simp (hb, hr) in
      let (env, rng', he, scope_kept, mode_kept, z) =
        encrypt-Sealed c laws self plaintext rng sk self.recipients recipient hf hs chosen small in
      (env, rng', he, decrypt-Sealed_for self.recipients plaintext env k mode_kept g own z)
