-- ===== src/Keyring/Revocation.antt =====
-- crates/rok-sdk/src/keyring.rs: what is loaded after keys were stored, revoked and deleted.
use ethmumbai_rok.Common.{
  ℕ, Bytes, Bool-cases, inl, inr, true, ◌≡◌, ◌≢◌, refl, Option, none, some, List, [], ◌∷◌, All,
  bytes_eq, bytes_eq→eq,
}
use ethmumbai_rok.Error.{Result, ok, err, panic, ok-injective}
use ethmumbai_rok.Crypto.{Crypto}
use ethmumbai_rok.Keys.{ReadKeyPair, SpendKeyPair, key_id}
use ethmumbai_rok.Keys.Delegation.{IsGenuine, import-export}
use ethmumbai_rok.Table.{
  get, ne-bytes_eq, get-insert-same, get-insert-other, get-remove-same, get-remove-other,
}
use ethmumbai_rok.Keyring.{
  ReadKeyEntry, MemoryKeyring, store_spend_key, store_read_key, find_key, load_read_key, revoke_key,
  delete_key,
}

-- A call that changes a keyring.
pub data Call : Type 0 where
  store_spend : Bytes → SpendKeyPair → Call
  store_read : ReadKeyPair → ℕ → Call
  revoke delete : Bytes → Call

module _ (c : Crypto) where
  unfoldable pub call : MemoryKeyring → Call → Result MemoryKeyring
  call self (store_spend label key) = store_spend_key self label key
  call self (store_read key now) = store_read_key c self key now
  call self (revoke id) = revoke_key c self id
  call self (delete id) = delete_key c self id

  -- A call that fails leaves the keyring as it was.
  abbrev pub after : MemoryKeyring → Result MemoryKeyring → MemoryKeyring
  after self (ok next) = next
  after self (err e) = self
  after self panic = self

  unfoldable pub calls : MemoryKeyring → List Call → MemoryKeyring
  calls self [] = self
  calls self (o ∷ os) = calls (after self (call self o)) os

  -- The call does not store a key under `id`.
  abbrev pub NotStoring : Bytes → Call → Type 0
  NotStoring id (store_read key now) = id ≢ key_id c key
  NotStoring id (store_spend label key) = Unit {0}
  NotStoring id (revoke i) = Unit {0}
  NotStoring id (delete i) = Unit {0}

  abbrev pub Blocked : Option ReadKeyEntry → Type 0
  Blocked none = Unit {0}
  Blocked (some e) = e.info.revoked ≡ true

  call-Blocked :
      (self : MemoryKeyring) (id : Bytes) (o : Call)
      → NotStoring id o
      → Blocked (get id self.read_keys)
      → Blocked (get id (after self (call self o)).read_keys)
  unfolding call store_spend_key store_read_key revoke_key delete_key find_key
  call-Blocked self id (store_spend label key) d b = b
  call-Blocked self id (store_read key now) d b =
      rw (get-insert-other (key_id c key) id _ self.read_keys d) b
  call-Blocked self id (revoke i) d b = revoked (get i self.read_keys) refl
    where
      revoked :
          (o : Option ReadKeyEntry)
          → get i self.read_keys ≡ o
          → Blocked (get id (after self (call self (revoke i))).read_keys)
      revoked none h = rw h b
      revoked (some e) h = elim (Bool-cases (bytes_eq id i)) [
        | inl s ↦ rw (h, bytes_eq→eq id i s, get-insert-same) refl
        | inr s ↦ rw (h, get-insert-other i id _ self.read_keys (ne-bytes_eq id i s)) b
      ]
  call-Blocked self id (delete i) d b = deleted (get i self.read_keys) refl
    where
      deleted :
          (o : Option ReadKeyEntry)
          → get i self.read_keys ≡ o
          → Blocked (get id (after self (call self (delete i))).read_keys)
      deleted none h = rw h b
      deleted (some e) h = elim (Bool-cases (bytes_eq id i)) [
        | inl s ↦ rw (h, bytes_eq→eq id i s, get-remove-same) tt
        | inr s ↦ rw (h, get-remove-other i id self.read_keys (ne-bytes_eq id i s)) b
      ]

  calls-Blocked :
      (self : MemoryKeyring) (id : Bytes) (os : List Call)
      → All (NotStoring id) os
      → Blocked (get id self.read_keys)
      → Blocked (get id (calls self os).read_keys)
  unfolding calls
  calls-Blocked self id [] d b = b
  calls-Blocked self id (o ∷ os) (d, ds) b =
      calls-Blocked (after self (call self o)) id os ds (call-Blocked self id o d b)

  load-Blocked :
      (self : MemoryKeyring) (id : Bytes) (k : ReadKeyPair)
      → Blocked (get id self.read_keys)
      → load_read_key c self id ≢ ok k
  unfolding load_read_key find_key
  load-Blocked self id k b h = blocked (get id self.read_keys) refl
    where
      blocked : (o : Option ReadKeyEntry) → get id self.read_keys ≡ o → ⊥
      blocked none g = cc (rw g at h)
      blocked (some e) g = cc (rw (g, rw g at b) at h)

  revoke_key-Blocked :
      (self t : MemoryKeyring) (id : Bytes)
      → revoke_key c self id ≡ ok t
      → Blocked (get id t.read_keys)
  unfolding revoke_key find_key
  revoke_key-Blocked self t id h = revoked (get id self.read_keys) refl
    where
      revoked : (o : Option ReadKeyEntry) → get id self.read_keys ≡ o → Blocked (get id t.read_keys)
      revoked none g = absurd (cc (rw g at h))
      revoked (some e) g = let made = ok-injective (rw g at h) in rw (← made, get-insert-same) refl

  -- After a key identifier was revoked, no sequence of stores, revocations and deletions loads a
  -- key under it, failed calls included, as long as no key with that identifier is stored again.
  pub revoked_stays :
      (self t : MemoryKeyring) (id : Bytes) (os : List Call) (k : ReadKeyPair)
      → revoke_key c self id ≡ ok t
      → All (NotStoring id) os
      → load_read_key c (calls t os) id ≢ ok k
  revoked_stays self t id os k h d =
      load-Blocked (calls t os) id k (calls-Blocked t id os d (revoke_key-Blocked self t id h))

  -- A genuine key that was stored is loaded again whole under its identifier, and what every
  -- other identifier loads stays the same.
  pub load_read_key-store :
      (self : MemoryKeyring) (k : ReadKeyPair) (now : ℕ) (other : Bytes)
      → IsGenuine c k
      → other ≢ key_id c k
      → (t : MemoryKeyring) × (store_read_key c self k now ≡ ok t)
        × (load_read_key c t (key_id c k) ≡ ok k)
        × (load_read_key c t other ≡ load_read_key c self other)
  unfolding store_read_key load_read_key find_key
  load_read_key-store self k now other g d = (
    _,
    refl,
    rw (get-insert-same) (import-export c k g),
    rw (get-insert-other (key_id c k) other _ self.read_keys d) refl,
  )
