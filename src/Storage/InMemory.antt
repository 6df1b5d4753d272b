-- ===== src/Storage/InMemory.antt =====
-- crates/rok-sdk/src/storage/mod.rs: `MemoryStorage` fulfils the laws of a backend.
use ethmumbai_rok.Common.{
  Bytes, ◌≡◌, refl, sym, ap, ◌∙◌, true, [], ◌∷◌, All, Bool-cases, inl, inr, bytes_eq,
}
use ethmumbai_rok.Error.{ok-injective}
use ethmumbai_rok.Scope.{slash}
use ethmumbai_rok.Text.Split.{Free}
use ethmumbai_rok.Table.{remove, insert, get-insert-same}
use ethmumbai_rok.Storage.{
  StorageEntry, MemoryStorage, is_listed, composite_key, new_entry, filter_entries, list, put, get,
  get_by_key,
}
use ethmumbai_rok.Storage.Keyed.{get_by_key-put}
use ethmumbai_rok.Storage.Backend.{StorageLaws, memory_storage}

filter_entries-is_listed :
    (p : Bytes) (s : MemoryStorage) → All (λ e. is_listed p e.scope ≡ true) (filter_entries p s)
unfolding filter_entries
filter_entries-is_listed p [] = tt
filter_entries-is_listed p ((k, e) ∷ s) = elim (Bool-cases (is_listed p e.scope)) [
  | inl h ↦ rw h (h, filter_entries-is_listed p s)
  | inr h ↦ rw h (filter_entries-is_listed p s)
]

filter_entries-remove :
    (P : StorageEntry → Type 0) (p k : Bytes) (s : MemoryStorage)
    → All P (filter_entries p s)
    → All P (filter_entries p (remove k s))
unfolding filter_entries remove
filter_entries-remove P p k [] h = tt
filter_entries-remove P p k ((j, e) ∷ s) h = elim (Bool-cases (is_listed p e.scope)) [
  | inl l ↦
      let (he, hs) = rw l at h in
      elim (Bool-cases (bytes_eq j k)) [
        | inl i ↦ rw i (filter_entries-remove P p k s hs)
        | inr i ↦ rw (i, l) (he, filter_entries-remove P p k s hs)
      ]
  | inr l ↦
      let hs = rw l at h in
      elim (Bool-cases (bytes_eq j k)) [
        | inl i ↦ rw i (filter_entries-remove P p k s hs)
        | inr i ↦ rw (i, l) (filter_entries-remove P p k s hs)
      ]
]

filter_entries-put :
    (P : StorageEntry → Type 0) (p : Bytes) (s : MemoryStorage) (k : Bytes) (e : StorageEntry)
    → P e
    → All P (filter_entries p s)
    → All P (filter_entries p (insert k e s))
unfolding filter_entries insert
filter_entries-put P p s k e he h = elim (Bool-cases (is_listed p e.scope)) [
  | inl l ↦ rw l (he, filter_entries-remove P p k s h)
  | inr l ↦ rw l (filter_entries-remove P p k s h)
]

-- The keys without slashes are told apart.
pub memory_storage_laws : StorageLaws memory_storage
unfolding memory_storage put get_by_key get list new_entry
memory_storage_laws = record {
  IsKey = Free slash;
  get_by_key-put = λ s s' scope key contents id now h.
      let e = new_entry s scope key contents now in
      let kept = ap (λ x. x.1) (ok-injective h) in
      (e, rw (sym kept, get-insert-same (composite_key scope key) e s) refl, (refl, refl, refl));
  get_by_key-put_other = λ s s' scope key contents id now t j h hk hj d.
      let (next, e, put_ok, got, fields, same) =
        get_by_key-put s scope key contents now t j hk hj d in
      let kept : s' ≡ next = ap (λ x. x.1) (ok-injective (sym h ∙ put_ok)) in rw kept same;
  list-is_listed = λ s prefix es h. rw⁻¹ (ok-injective h) (filter_entries-is_listed prefix s);
  list-put = λ P s s' scope key contents id now prefix es hput own old hlist.
      let kept = ap (λ x. x.1) (ok-injective hput) in
      let e = new_entry s scope key contents now in
      let all =
        filter_entries-put P prefix s (composite_key scope key) e (own e (refl, refl, refl))
          (old (filter_entries prefix s) refl) in
      rw⁻¹ (ok-injective hlist) (rw⁻¹ kept all);
}

pub Free-IsKey : (key : Bytes) → Free slash key → memory_storage_laws.IsKey key
unfolding memory_storage_laws
Free-IsKey key h = h
