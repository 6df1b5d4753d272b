-- ===== src/Storage/Backend.antt =====
-- crates/rok-sdk/src/storage/mod.rs: the trait `StorageBackend`, what its clients rely on, and the
-- in-memory storage as a backend.
use ethmumbai_rok.Common.{ℕ, Bytes, ◌≡◌, ◌≢◌, ◌⊎◌, true, List, All}
use ethmumbai_rok.Error.{Result, ok}
use ethmumbai_rok.Storage
use ethmumbai_rok.Storage.{StorageEntry, MemoryStorage, is_listed}

-- The operations go through `&self`: `put` and `delete` return the state they leave, and the clock
-- is an argument of `put`.
pub record StorageBackend : Type 1 where
  pub State : Type 0
  pub put : State → Bytes → Bytes → Bytes → ℕ → Result (Bytes × State)
  pub get : State → Bytes → Result StorageEntry
  pub get_by_key : State → Bytes → Bytes → Result StorageEntry
  pub list : State → Bytes → Result (List StorageEntry)
  pub delete : State → Bytes → Result State

-- An entry with the scope, the key and the data of a call of `put`.
abbrev pub IsPut : Bytes → Bytes → Bytes → StorageEntry → Type 0
IsPut scope key contents e = (e.scope ≡ scope) × (e.key ≡ key) × (e.contents ≡ contents)

-- What the documentation of the trait says, but for the prefix of `list`: there both implementations
-- test whole segments, where the documentation says that the scope starts with the prefix. `IsKey`
-- holds of the keys that the backend tells apart.
pub record StorageLaws (b : StorageBackend) : Type 1 where
  pub IsKey : Bytes → Type 0
  pub get_by_key-put :
      (s s' : b.State) (scope key contents id : Bytes) (now : ℕ)
      → b.put s scope key contents now ≡ ok (id, s')
      → (e : StorageEntry) × (b.get_by_key s' scope key ≡ ok e) × IsPut scope key contents e
  pub get_by_key-put_other :
      (s s' : b.State) (scope key contents id : Bytes) (now : ℕ) (t j : Bytes)
      → b.put s scope key contents now ≡ ok (id, s')
      → IsKey key
      → IsKey j
      → (scope ≢ t) ⊎ (key ≢ j)
      → b.get_by_key s' t j ≡ b.get_by_key s t j
  -- Both implementations of `list` select the entries by this test.
  pub list-is_listed :
      (s : b.State) (prefix : Bytes) (es : List StorageEntry)
      → b.list s prefix ≡ ok es
      → All (λ e. is_listed prefix e.scope ≡ true) es
  -- `put` adds no entry to a listing but its own.
  pub list-put :
      (P : StorageEntry → Type 0) (s s' : b.State) (scope key contents id : Bytes) (now : ℕ)
      (prefix : Bytes) (es : List StorageEntry)
      → b.put s scope key contents now ≡ ok (id, s')
      → ((e : StorageEntry) → IsPut scope key contents e → P e)
      → ((old : List StorageEntry) → b.list s prefix ≡ ok old → All P old)
      → b.list s' prefix ≡ ok es
      → All P es

unfoldable pub memory_storage : StorageBackend
memory_storage = record {
  State = MemoryStorage;
  put = Storage.put;
  get = Storage.get;
  get_by_key = Storage.get_by_key;
  list = Storage.list;
  delete = Storage.delete;
}
