-- ===== src/Storage/Keyed.antt =====
-- crates/rok-sdk/src/storage/mod.rs: `put`, `get_by_key` and `delete` on composite keys.
use ethmumbai_rok.Common.{
  ℕ, ◌⊎◌, inl, inr, Bytes, ◌≡◌, ◌≢◌, refl, sym, some, [], ◌∷◌, ◌++◌, subst, append_assoc,
}
use ethmumbai_rok.Error.{ok}
use ethmumbai_rok.Text.Split.{Free}
use ethmumbai_rok.Scope.{slash}
use ethmumbai_rok.Table
use ethmumbai_rok.Table.{
  insert, remove, get-insert-same, get-insert-other, get-remove-same, get-remove-other,
}
use ethmumbai_rok.Storage.{
  StorageEntry, MemoryStorage, composite_key, new_entry, put, get, get_by_key,
}

-- A text without slashes does not hold one.
Free-slash : (s k : Bytes) → Free slash (s ++ slash ∷ k) → ⊥
Free-slash [] k (h, _) = h refl
Free-slash (b ∷ s) k (_, h) = Free-slash s k h

-- Under keys without slashes, the composite key determines the scope and the key.
pub composite_key-injective :
    (s t k j : Bytes)
    → Free slash k
    → Free slash j
    → composite_key s k ≡ composite_key t j
    → (s ≡ t) × (k ≡ j)
unfolding composite_key
composite_key-injective [] [] k j hk hj e = (refl, cc)
composite_key-injective [] (b ∷ t) k j hk hj e =
    let same : k ≡ t ++ slash ∷ j = cc in absurd (Free-slash t j (rw same at hk))
composite_key-injective (b ∷ s) [] k j hk hj e =
    let same : j ≡ s ++ slash ∷ k = cc in absurd (Free-slash s k (rw same at hj))
composite_key-injective (a ∷ s) (b ∷ t) k j hk hj e =
    let (p, q) = composite_key-injective s t k j hk hj cc in (cc (p, e), q)

-- Under keys without slashes, what was put is got back with its scope, key, contents and time,
-- and every other scope and key gets what it got before.
pub get_by_key-put :
    (entries : MemoryStorage) (s k contents : Bytes) (now : ℕ) (t j : Bytes)
    → Free slash k
    → Free slash j
    → (s ≢ t) ⊎ (k ≢ j)
    → (next : MemoryStorage) × (e : StorageEntry) × (put entries s k contents now
        ≡ ok (composite_key s k, next))
      × (get_by_key next s k ≡ ok e)
      × ((e.scope ≡ s) × (e.key ≡ k) × (e.contents ≡ contents) × (e.updated_at ≡ now))
      × (get_by_key next t j ≡ get_by_key entries t j)
unfolding put get_by_key get new_entry
get_by_key-put entries s k contents now t j hk hj d =
    let apart : composite_key t j ≢ composite_key s k = λ e.
      let (p, q) = composite_key-injective t s j k hj hk e in
      elim d [ inl ne ↦ ne (sym p) | inr ne ↦ ne (sym q) ] in
    (
      insert (composite_key s k) (new_entry entries s k contents now) entries,
      new_entry entries s k contents now,
      refl,
      rw (get-insert-same) refl,
      (refl, refl, refl, refl),
      rw (get-insert-other (composite_key s k) (composite_key t j) _ entries apart) refl,
    )

-- An entry put under a key with a slash, at a scope, is overwritten by one put under the rest of
-- the key at the scope that the first part of the key extends, and the first scope and key then
-- get the second entry.
pub put_collides :
    (entries : MemoryStorage) (s w k first second : Bytes) (n m : ℕ)
    → (one two : MemoryStorage) × (e : StorageEntry) × (put entries s (w ++ slash ∷ k) first n
        ≡ ok (composite_key s (w ++ slash ∷ k), one))
      × (put one (s ++ slash ∷ w) k second m ≡ ok (composite_key (s ++ slash ∷ w) k, two))
      × (get_by_key two s (w ++ slash ∷ k) ≡ ok e)
      × ((e.key ≡ k) × (e.contents ≡ second))
unfolding put get_by_key get new_entry
put_collides entries s w k first second n m =
    let same : composite_key (s ++ slash ∷ w) k ≡ composite_key s (w ++ slash ∷ k) =
      unfold composite_key in append_assoc s (slash ∷ w) (slash ∷ k) in
    let one =
      insert (composite_key s (w ++ slash ∷ k)) (new_entry entries s (w ++ slash ∷ k) first n)
        entries in
    let e = new_entry one (s ++ slash ∷ w) k second m in
    let two = insert (composite_key (s ++ slash ∷ w) k) e one in
    let hit : Table.get (composite_key s (w ++ slash ∷ k)) two ≡ some e =
      subst (λ i. Table.get i two ≡ some e) same
        (get-insert-same (composite_key (s ++ slash ∷ w) k) e one) in
    (one, two, e, refl, refl, rw hit refl, (refl, refl))
