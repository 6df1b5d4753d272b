-- ===== src/Memory/Listing.antt =====
-- crates/rok-sdk/src/memory.rs: `list` on the stores that `write` reaches.
use ethmumbai_rok.Common.{
  ℕ, ◌^◌, ◌<◌, Bytes, ◌≡◌, refl, sym, ap, ◌∙◌, subst, true, List, [], ◌∷◌, length, All,
}
use ethmumbai_rok.Error.{ok, ok-injective, >>=-eq-ok}
use ethmumbai_rok.Crypto.{Crypto, CryptoLaws, Rng, Fills}
use ethmumbai_rok.Scope.Segments.{IsSegment, of_segments, render}
use ethmumbai_rok.Scope.Validity.{new-render}
use ethmumbai_rok.Keys.{ReadKeyPair, SpendKeyPair}
use ethmumbai_rok.Envelope.{EncryptedEnvelope, to_bytes, from_bytes}
use ethmumbai_rok.Encrypt.{decrypt}
use ethmumbai_rok.Encrypt.Access.{HeldAt}
use ethmumbai_rok.Storage.{StorageEntry, is_listed}
use ethmumbai_rok.Storage.Listing.{is_listed-is_ancestor_of}
use ethmumbai_rok.Storage.Backend.{StorageBackend, StorageLaws}
use ethmumbai_rok.Memory.{
  MemoryEntry, MemoryStore, bad_scope, keep, new, write, collect, list, list_from,
}
use ethmumbai_rok.Memory.Sealing.{OpensFor, encrypt-OpensFor}

module _ (c : Crypto) (laws : CryptoLaws c) (b : StorageBackend) (sk : SpendKeyPair) where
  -- The stores of a spend key that writes lead to, from a backend that lists nothing.
  pub data Reached : MemoryStore b → Type 0 where
    started :
        (backend : b.State)
        → ((prefix : Bytes) (es : List StorageEntry) → b.list backend prefix ≡ ok es → es ≡ [])
        → Reached (new c b sk backend)
    wrote :
        (s s' : MemoryStore b) (vs : List Bytes) (key content id : Bytes) (now : ℕ) (rng rng' : Rng)
        → Reached s
        → All IsSegment vs
        → length (render vs) < 2 ^ 16
        → length content < 2 ^ 36
        → Fills rng
        → write c b s (of_segments vs) key content now rng ≡ ok (id, s', rng')
        → Reached s'

  -- The memory is the decrypted entry.
  pub Decrypted : ReadKeyPair → StorageEntry → MemoryEntry → Type 0
  Decrypted k e m =
      (m.scope.path ≡ e.scope)
      × (m.key ≡ e.key)
      × (env : EncryptedEnvelope) × (from_bytes e.contents ≡ ok env)
      × (decrypt c env k (c.verifying_key sk.seed) ≡ ok m.content)

  -- A memory for every entry, in the same order.
  pub Pairwise : ReadKeyPair → List StorageEntry → List MemoryEntry → Type 0
  unfolding Decrypted
  Pairwise k [] [] = Unit {0}
  Pairwise k [] (m ∷ ms) = ⊥
  Pairwise k (e ∷ es) [] = ⊥
  Pairwise k (e ∷ es) (m ∷ ms) = Decrypted k e m × Pairwise k es ms

  -- An entry that `write` stored.
  record IsMemory (e : StorageEntry) : Type 0 where
    pub segments : List Bytes
    pub all_segments : All IsSegment segments
    pub at_scope : e.scope ≡ render segments
    pub content : Bytes
    pub env : EncryptedEnvelope
    pub reads_back : from_bytes e.contents ≡ ok env
    pub opens : OpensFor c laws sk segments content env

  AllMemories : b.State → Type 0
  AllMemories backend =
      (prefix : Bytes) (es : List StorageEntry) → b.list backend prefix ≡ ok es → All IsMemory es

  write-AllMemories :
      (bl : StorageLaws b) (s s' : MemoryStore b) (vs : List Bytes) (key content id : Bytes)
      (now : ℕ) (rng rng' : Rng)
      → s.spend_key ≡ sk
      → AllMemories s.backend
      → All IsSegment vs
      → length (render vs) < 2 ^ 16
      → length content < 2 ^ 36
      → Fills rng
      → write c b s (of_segments vs) key content now rng ≡ ok (id, s', rng')
      → (s'.spend_key ≡ sk) × AllMemories s'.backend
  unfolding write AllMemories
  write-AllMemories bl s s' vs key content id now rng rng' hs old hv scl small hf h =
      let (env, rng1, he, back, opens, _) =
        encrypt-OpensFor c laws s.spend_key vs content rng hv scl small hf in
      let ((i, next), h1, hput) = >>=-eq-ok _ _ (rw he at h) in
      let made = ap (λ x. x.1) (ok-injective h1) in
      (
        rw⁻¹ made hs,
        rw⁻¹ made (λ prefix es hlist.
            bl.list-put IsMemory s.backend next (render vs) key (to_bytes env) i now prefix es hput
              (λ e (at_scope, _, kept). record {
                segments = vs;
                all_segments = hv;
                at_scope = at_scope;
                content = content;
                env = env;
                reads_back = rw kept back;
                opens = subst (λ q. OpensFor c laws q vs content env) hs opens;
              })
              (old prefix) hlist),
      )

  Reached-AllMemories :
      (bl : StorageLaws b) (s : MemoryStore b)
      → Reached s
      → (s.spend_key ≡ sk) × AllMemories s.backend
  unfolding new AllMemories
  Reached-AllMemories bl _ (started backend none) = (refl, λ prefix es h. rw (none prefix es h) tt)
  Reached-AllMemories bl _ (wrote s s' vs key content id now rng rng' r hv scl small hf h) =
      let (hs, old) = Reached-AllMemories bl s r in
      unfold AllMemories in
      write-AllMemories bl s s' vs key content id now rng rng' hs old hv scl small hf h

  -- Every memory below the key's scope is decrypted, and none passed over.
  collect-Pairwise :
      (us : List Bytes) (k : ReadKeyPair) (es : List StorageEntry)
      → All IsSegment us
      → HeldAt c laws sk us k
      → All IsMemory es
      → All (λ e. is_listed k.scope.path e.scope ≡ true) es
      → (ms : List MemoryEntry) × (collect c b (c.verifying_key sk.seed) k es ≡ ok ms)
        × Pairwise k es ms
  unfolding collect keep Pairwise Decrypted bad_scope
  collect-Pairwise us k [] hu hk hm hl = ([], refl, tt)
  collect-Pairwise us k (e ∷ es) hu hk (h, hm) (l, hl) =
      let (ms, hms, p) = collect-Pairwise us k es hu hk hm hl in
      let above =
        sym (is_listed-is_ancestor_of k.scope (of_segments h.segments)) ∙ (rw h.at_scope at l) in
      let opened : decrypt c h.env k (c.verifying_key sk.seed) ≡ ok h.content =
        rw above at (h.opens us k hu hk) in
      (
        record { scope = of_segments h.segments; key = e.key; content = h.content } ∷ ms,
        rw (h.reads_back, opened, h.at_scope, new-render h.segments h.all_segments, hms) refl,
        ((sym h.at_scope, refl, h.env, h.reads_back, opened), p),
      )

  -- In a store that writes at validated scopes lead to, from a backend that lists nothing,
  -- whatever key held below the root at a validated scope asks, `list` succeeds when the
  -- backend's `list` does, and returns one memory for each entry of the backend, in the same
  -- order, with the scope and the key of the entry and its decrypted content: none is passed
  -- over.
  pub list-Reached :
      (bl : StorageLaws b) (s : MemoryStore b) (us : List Bytes) (k : ReadKeyPair)
      (es : List StorageEntry)
      → Reached s
      → All IsSegment us
      → HeldAt c laws sk us k
      → b.list s.backend k.scope.path ≡ ok es
      → (ms : List MemoryEntry) × (list c b s k ≡ ok ms) × Pairwise k es ms
  unfolding list list_from AllMemories
  list-Reached bl s us k es r hu hk h =
      let (hs, memories) = Reached-AllMemories bl s r in
      let (ms, hms, p) =
        collect-Pairwise us k es hu hk (memories k.scope.path es h)
          (bl.list-is_listed s.backend k.scope.path es h) in
      (ms, rw (hs, h, hms) refl, p)
