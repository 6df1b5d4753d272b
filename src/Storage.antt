-- ===== src/Storage.antt =====
-- crates/rok-sdk/src/storage/mod.rs: `MemoryStorage`. The clock is an argument; an operation through
-- the lock returns the new entries. No thread panics while it holds the lock, which is never poisoned.
pub mod Keyed
pub mod Listing
pub mod Backend
pub mod InMemory
mod Runs
use ethmumbai_rok.Common.{
  ℕ, Bytes, Bool, ◌||◌, Option, none, some, List, [], ◌∷◌, ◌++◌, map, bytes_eq, if◌then◌else◌,
}
use ethmumbai_rok.Error.{str, format, storage_error, Result, ok, err, ◌>>=◌}
use ethmumbai_rok.Text.{starts_with}
use ethmumbai_rok.Scope.{slash}
use ethmumbai_rok.Encrypt.{or_error}
use ethmumbai_rok.Table
use ethmumbai_rok.Table.{insert, remove}

-- `contents` is the field `data`.
pub record StorageEntry : Type 0 where
  pub id : Bytes
  pub scope : Bytes
  pub key : Bytes
  pub contents : Bytes
  pub created_at : ℕ
  pub updated_at : ℕ

-- What the lock guards: the entries by their composite keys.
abbrev pub MemoryStorage : Type 0
MemoryStorage = List (Bytes × StorageEntry)

unfoldable pub new : MemoryStorage
new = []

unfoldable pub composite_key : Bytes → Bytes → Bytes
composite_key scope key = scope ++ slash ∷ key

-- The time of creation of an entry that is replaced is kept.
unfoldable pub created : Option StorageEntry → ℕ → ℕ
created none now = now
created (some existing) now = existing.created_at

unfoldable pub new_entry : MemoryStorage → Bytes → Bytes → Bytes → ℕ → StorageEntry
unfolding created
new_entry entries scope key contents now =
    let composite = composite_key scope key in
    record {
      id = composite;
      scope = scope;
      key = key;
      contents = contents;
      created_at = created (Table.get composite entries) now;
      updated_at = now;
    }

unfoldable pub put : MemoryStorage → Bytes → Bytes → Bytes → ℕ → Result (Bytes × MemoryStorage)
unfolding new_entry
put entries scope key contents now =
    let composite = composite_key scope key in
    ok (composite, insert composite (new_entry entries scope key contents now) entries)

unfoldable pub get : MemoryStorage → Bytes → Result StorageEntry
get entries id =
    or_error (Table.get id entries) (storage_error (format "entry not found: {}" (str id ∷ [])))

unfoldable pub get_by_key : MemoryStorage → Bytes → Bytes → Result StorageEntry
unfolding get
get_by_key entries scope key = get entries (composite_key scope key)

-- The filter of `list`.
unfoldable pub is_listed : Bytes → Bytes → Bool
is_listed scope_prefix scope =
    bytes_eq scope scope_prefix
    || starts_with scope (scope_prefix ++ slash ∷ [])
    || bytes_eq scope_prefix (slash ∷ [])

unfoldable pub filter_entries : Bytes → MemoryStorage → List StorageEntry
unfolding is_listed
filter_entries scope_prefix [] = []
filter_entries scope_prefix ((k, e) ∷ t) =
    let rest = filter_entries scope_prefix t in
    if is_listed scope_prefix e.scope then e ∷ rest else rest

unfoldable pub list : MemoryStorage → Bytes → Result (List StorageEntry)
unfolding filter_entries
list entries scope_prefix = ok (filter_entries scope_prefix entries)

unfoldable pub delete : MemoryStorage → Bytes → Result MemoryStorage
unfolding get
delete entries id = get entries id >>= λ entry. ok (remove id entries)
