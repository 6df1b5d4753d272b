-- ===== src/Service/Resynced.antt =====
-- crates/rok-mcp/src/tools.rs: `sync` called twice in an owner's session.
use ethmumbai_rok.Common.{
  Bytes, ◌≡◌, ◌≢◌, refl, sym, ap, subst, ◌∙◌, some, List, [], ◌∷◌, length, All, bytes_eq,
}
use ethmumbai_rok.Error.{panic}
use ethmumbai_rok.Crypto.{Crypto, CryptoLaws}
use ethmumbai_rok.Scope.{root}
use ethmumbai_rok.Scope.Segments.{IsSegment, render, render-ne-root}
use ethmumbai_rok.Keys.{ReadKeyPair, derive_root_read_key}
use ethmumbai_rok.Encrypt.Access.{HeldAt, root-HeldAt, derive_child-HeldAt}
use ethmumbai_rok.Storage.Backend.{StorageBackend, StorageLaws}
use ethmumbai_rok.Memory.{reader_new}
use ethmumbai_rok.Session.{
  Session, done, read_key, owner_read_key, spend_key, memory_reader_with, spend_verifying_key,
  owner_verifying_key,
}
use ethmumbai_rok.Service.{Reply, reply, RokService, or_invalid, no_session, ◌>>=◌}
use ethmumbai_rok.Service.Sync.{SyncEntry, Counts, no_counts, sync_loop, sync_with, sync}
use ethmumbai_rok.Service.Synced.{
  IsOwner, Accepts, AllApart, Saved, all_skipped, IsEntry, found, sync_loop-Saved, sync_loop-Stored,
}

done-injective : {X : Type 0} {x y : X} → done x ≡ done y → x ≡ y
done-injective h = cc

module _ (c : Crypto) (laws : CryptoLaws c) where
  owner_read_key-HeldAt :
      (seed : Bytes) (us : List Bytes) (session : Session)
      → IsOwner seed us session
      → All IsSegment us
      → (k : ReadKeyPair) × (read_key c session ≡ done k)
        × HeldAt c laws (record { seed = seed }) us k
  unfolding read_key owner_read_key spend_key root
  owner_read_key-HeldAt seed [] session h hu = (
    derive_root_read_key c (record { seed = seed }),
    rw (h.is_owner, h.has_seed, h.at_scope) (unfold render bytes_eq in refl),
    root-HeldAt c laws (record { seed = seed }),
  )
  owner_read_key-HeldAt seed (v ∷ vs) session h (hw, hv) =
      let (k, hk, held) =
        derive_child-HeldAt c laws (record { seed = seed }) [] v vs
          (derive_root_read_key c (record { seed = seed }))
          (root-HeldAt c laws (record { seed = seed })) tt (hw, hv) in
      (k, rw (h.is_owner, h.has_seed, h.at_scope, render-ne-root v vs hw.0, hk) refl, held)

  module _ (b : StorageBackend) (bl : StorageLaws b) where
    opened :
        (seed : Bytes) (us : List Bytes) (session : Session) (s : b.State)
        → IsOwner seed us session
        → memory_reader_with c b session s ≡ done (reader_new c b (c.verifying_key seed) s)
    unfolding memory_reader_with spend_verifying_key owner_verifying_key spend_key
    opened seed us session s h = rw (h.is_owner, h.has_seed) refl

    sync-opened :
        (seed : Bytes) (us : List Bytes) (session : Session) (self : RokService b) (k : ReadKeyPair)
        (entries : List SyncEntry) (n : Counts) (next : b.State)
        → IsOwner seed us session
        → self.session ≡ some session
        → read_key c session ≡ done k
        → sync_loop c b session (c.verifying_key seed) k entries self.backend ≡ (reply n, next)
        → sync c b self entries ≡ (reply n, record self { backend = next })
    unfolding sync sync_with reader_new
    sync-opened seed us session self k [] n next ho hs hr loop =
        let run : Reply Counts × b.State → Reply Counts × RokService b =
          λ x. (x.0, record self { backend = x.1 }) in
        let first : (or_invalid self.session no_session >>= λ s. reply no_counts)
            ≡ reply no_counts =
          rw hs refl in
        ap (λ r. (r, self)) first ∙ ap run (unfold sync_loop in loop)
    sync-opened seed us session self k (e ∷ es) n next ho hs hr loop =
        ap (sync_with c b self (e ∷ es)) {y = reply (session, c.verifying_key seed, k)}
          (rw (hs, opened seed us session self.backend ho, hr) refl)
        ∙ ap (λ x. (x.0, record self { backend = x.1 })) loop

    -- Over a backend that fulfils the laws of storage and stores whatever it is given, `sync` in
    -- the session of an owner always replies, for entries at different scopes or keys, at
    -- validated scopes at or below the session's with paths shorter than 2^16 bytes, with less
    -- than 2^36 bytes of content, with keys that the backend tells apart, and such that reading
    -- what is stored there does not panic, under the laws of the cryptography and generators that
    -- fill their buffers. It counts each entry as written or unchanged, and reports no error. The
    -- same `sync` once more counts all entries as unchanged and leaves the backend as it is.
    pub sync-again :
        (seed : Bytes) (us : List Bytes) (session : Session) (self : RokService b) (k : ReadKeyPair)
        (entries : List SyncEntry)
        → Accepts b
        → IsOwner seed us session
        → self.session ≡ some session
        → read_key c session ≡ done k
        → All IsSegment us
        → All (IsEntry c laws b bl us) entries
        → AllApart entries
        → All (λ e. found c laws b bl seed k self.backend e ≢ panic) entries
        → (n : Counts) × (next : b.State) × (sync c b self entries
            ≡ (reply n, record self { backend = next }))
          × Saved n (length entries)
          × (sync c b (record self { backend = next }) entries
              ≡ (reply (all_skipped (length entries)), record self { backend = next }))
    sync-again seed us session self k entries accepts ho hs hr hu hi ha hc =
        let (key, hkey, held) = owner_read_key-HeldAt seed us session ho hu in
        let same : key ≡ k = done-injective (sym hkey ∙ hr) in
        let held_k = subst (HeldAt c laws (record { seed = seed }) us) same held in
        let (n, next, loop, saved, stored, _) =
          sync_loop-Saved c laws b bl seed us session k entries self.backend accepts ho hu held_k hi
            ha hc in
        let after : RokService b = record self { backend = next } in
        let again = sync_loop-Stored c laws b bl seed us session k entries next hi stored in
        (
          n,
          next,
          sync-opened seed us session self k entries n next ho hs hr loop,
          saved,
          sync-opened seed us session after k entries (all_skipped (length entries)) next ho hs hr
              again,
        )
