-- ===== src/Memory/Answers.antt =====
-- crates/rok-sdk/src/memory.rs: `write`, `read` and `grant_access` over any storage backend.
use ethmumbai_rok.Common.{
  ℕ, ◌^◌, ◌<◌, Bytes, ◌≡◌, refl, sym, ap, ◌∙◌, some, List, [], ◌∷◌, ◌++◌, length, All, bytes_eq,
}
use ethmumbai_rok.Error.{ok, ◌>>=◌, ok-injective}
use ethmumbai_rok.Crypto.{Crypto, CryptoLaws, Rng, Fills}
use ethmumbai_rok.Scope.{slash, root}
use ethmumbai_rok.Scope.Segments.{IsSegment, of_segments, render, render-ne-root}
use ethmumbai_rok.Keys.{
  key_id, ReadKeyPair, SpendKeyPair, ExportedReadKey, import_key, export_key, derive_root_read_key,
  derive_child, from_secret_bytes,
}
use ethmumbai_rok.Keys.Delegation.{import-export, derive_child-segments}
use ethmumbai_rok.Encrypt.Access.{HeldAt, HeldAt-IsGenuine, root-HeldAt, derive_child-HeldAt}
use ethmumbai_rok.Derive.{derive_root_read_secret, domain_spend_to_root, domain_read_child}
use ethmumbai_rok.Derive.Stepwise.{descend}
use ethmumbai_rok.Encoding.RoundTrip.{IsParent, IsExported}
use ethmumbai_rok.Encrypt.Stored.{length-key_id}
use ethmumbai_rok.Envelope.{to_bytes}
use ethmumbai_rok.Storage.Backend.{StorageBackend, StorageLaws}
use ethmumbai_rok.Memory.{MemoryStore, write, read, grant_access, read_from}
use ethmumbai_rok.Memory.Sealing.{reads, encrypt-OpensFor}

module _ (c : Crypto) (laws : CryptoLaws c) (b : StorageBackend) (bl : StorageLaws b) where
  -- Over any backend that fulfils the laws of storage, `write` at a validated scope with a path
  -- shorter than 2^16 bytes and less than 2^36 bytes of content gets as far as the backend's
  -- `put` and ends as that does, under the laws of the cryptography and a generator that fills
  -- its buffers. After a `put` that succeeds, `read` answers a key held at a validated scope with
  -- the content if its scope is an ancestor of the memory's scope or the same, and with
  -- `scope_mismatch` otherwise.
  pub read-write :
      (self : MemoryStore b) (us vs : List Bytes) (k : ReadKeyPair) (key content : Bytes) (now : ℕ)
      (rng : Rng)
      → All IsSegment us
      → All IsSegment vs
      → HeldAt c laws self.spend_key us k
      → length (render vs) < 2 ^ 16
      → length content < 2 ^ 36
      → Fills rng
      → (stored : Bytes) × (rng' : Rng) × (write c b self (of_segments vs) key content now rng ≡ (
          b.put self.backend (render vs) key stored now >>= λ put.
          ok (put.0, record self { backend = put.1 }, rng')))
        × ((id : Bytes) (next : b.State)
            → b.put self.backend (render vs) key stored now ≡ ok (id, next)
            → read c b (record self { backend = next }) k (of_segments vs) key
              ≡ reads c laws self.spend_key k (of_segments vs) content)
  unfolding write read read_from
  read-write self us vs k key content now rng hu hv hk scl small hf =
      let (env, rng', he, back, opens, _) =
        encrypt-OpensFor c laws self.spend_key vs content rng hv scl small hf in
      (
        to_bytes env,
        rng',
        rw he refl,
        λ id next hput.
            let (e, got, (_, _, kept)) =
              bl.get_by_key-put self.backend next (render vs) key (to_bytes env) id now hput in
            rw (got, kept, back) (opens us k hu hk),
      )

  length-descend :
      (vs us : List Bytes) (s : Bytes) → length s ≡ 32 → length (descend c s us vs) ≡ 32
  unfolding descend
  length-descend [] us s h = h
  length-descend (v ∷ vs) us s h =
      length-descend vs (us ++ v ∷ []) _ (laws.length-hkdf domain_read_child s _)

  derived-IsParent :
      (k t : ReadKeyPair) (v : Bytes) (vs : List Bytes)
      → k.scope ≡ of_segments []
      → All IsSegment (v ∷ vs)
      → derive_child c k (of_segments (v ∷ vs)) ≡ ok t
      → IsParent t.parent_key_id
  unfolding from_secret_bytes
  derived-IsParent k t v vs hs hv h =
      let made = derive_child-segments c k [] v vs hs tt hv in
      let parent : t.parent_key_id ≡ some (key_id c k) =
        ap (λ x. x.parent_key_id) (ok-injective (sym h ∙ made)) in
      rw parent (length-key_id c laws k)

  -- The export of a derived key has the sizes of its type.
  export-IsExported :
      (sk : SpendKeyPair) (us : List Bytes) (k : ReadKeyPair)
      → All IsSegment us
      → HeldAt c laws sk us k
      → IsParent k.parent_key_id
      → IsExported (export_key c k)
  unfolding export_key derive_root_read_key from_secret_bytes derive_root_read_secret
  export-IsExported sk us k hu h hp = record {
    secret_size =
        rw
          (
            h.walked,
            length-descend us [] (derive_root_read_key c sk).secret (
                rw laws.static_secret_id
                  (laws.length-hkdf domain_spend_to_root sk.seed (slash ∷ []))),
          )
          refl;
    public_size = rw (h.is_public, laws.length-x25519_public k.secret) refl;
    parent_size = hp;
    is_scope = record { segments = us; all_segments = hu; path_eq = h.at_scope };
  }

  -- The scoped key that `grant_access` exports, held at the scope, and imported again.
  pub grant_access-HeldAt :
      (self : MemoryStore b) (us : List Bytes)
      → All IsSegment us
      → (x : ExportedReadKey) × (k : ReadKeyPair) × (grant_access c b self (of_segments us) ≡ ok x)
        × (import_key c x ≡ ok k)
        × HeldAt c laws self.spend_key us k
        × IsExported x
  unfolding grant_access root
  grant_access-HeldAt self [] hu =
      let k = derive_root_read_key c self.spend_key in
      let held = root-HeldAt c laws self.spend_key in
      (
        export_key c k,
        k,
        unfold render bytes_eq in refl,
        import-export c k (HeldAt-IsGenuine c laws self.spend_key [] k held),
        held,
        export-IsExported self.spend_key [] k tt held
            (unfold derive_root_read_key from_secret_bytes in tt),
      )
  grant_access-HeldAt self (v ∷ vs) (hw, hv) =
      let root_key = derive_root_read_key c self.spend_key in
      let (k, hk, held) =
        derive_child-HeldAt c laws self.spend_key [] v vs root_key
          (root-HeldAt c laws self.spend_key) tt (hw, hv) in
      (
        export_key c k,
        k,
        rw (render-ne-root v vs hw.0, hk) refl,
        import-export c k (HeldAt-IsGenuine c laws self.spend_key (v ∷ vs) k held),
        held,
        export-IsExported self.spend_key (v ∷ vs) k (hw, hv) held
            (derived-IsParent root_key k v vs (root-HeldAt c laws self.spend_key).at_scope (hw, hv)
              hk),
      )
