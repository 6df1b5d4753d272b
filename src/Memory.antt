-- ===== src/Memory.antt =====
-- crates/rok-sdk/src/memory.rs: `MemoryStore`, the owner's encrypted memories over a storage backend,
-- and `MemoryReader`, the view of an agent. `&self` reaches the backend's state, so that an operation
-- that stores returns the store it leaves. The clock and the thread's generator are arguments.
pub mod Sealing
pub mod Answers
pub mod Listing
mod Runs
use ethmumbai_rok.Common.{ℕ, Bytes, List, [], ◌∷◌, bytes_eq, if◌then◌else◌}
use ethmumbai_rok.Error.{text, storage_error, Result, ok, err, panic, ◌>>=◌}
use ethmumbai_rok.Crypto.{Crypto, Rng}
use ethmumbai_rok.Scope
use ethmumbai_rok.Scope.{Scope, root}
use ethmumbai_rok.Keys.{
  ReadKeyPair, SpendKeyPair, ExportedReadKey, derive_child, derive_root_read_key, export_key,
}
use ethmumbai_rok.Envelope.{ecies_x25519_chacha20, to_bytes, from_bytes}
use ethmumbai_rok.Encrypt
use ethmumbai_rok.Encrypt.{EncryptBuilder, set_spend_key, set_scope_based, encrypt, decrypt}
use ethmumbai_rok.Storage.{StorageEntry}
use ethmumbai_rok.Storage.Backend.{StorageBackend}

-- `content` is the field `data`.
pub record MemoryEntry : Type 0 where
  pub scope : Scope
  pub key : Bytes
  pub content : Bytes

pub record Proposal : Type 0 where
  pub scope : Scope
  pub key : Bytes
  pub plaintext : Bytes
  pub proposed_by : Bytes

pub record MemoryStore (b : StorageBackend) : Type 0 where
  pub spend_key : SpendKeyPair
  pub backend : b.State

pub record MemoryReader (b : StorageBackend) : Type 0 where
  pub spend_vk : Bytes
  pub backend : b.State

-- The builder that `write` makes for a scope.
unfoldable pub builder : SpendKeyPair → Scope → EncryptBuilder
builder spend_key scope =
    set_scope_based (set_spend_key (Encrypt.new ecies_x25519_chacha20 scope) spend_key)

module _ (c : Crypto) (b : StorageBackend) where
  -- MemoryStore::new
  unfoldable pub new : SpendKeyPair → b.State → MemoryStore b
  new spend_key backend = record { spend_key = spend_key; backend = backend }

  unfoldable pub write :
      MemoryStore b → Scope → Bytes → Bytes → ℕ → Rng → Result (Bytes × MemoryStore b × Rng)
  unfolding builder
  write self scope key content now rng = do
    (envelope, rng') ← encrypt c (builder self.spend_key scope) content rng
    (id, backend) ← b.put self.backend scope.path key (to_bytes envelope) now
    ok (id, record self { backend = backend }, rng')

  -- The body of `read`, of both the store and the reader.
  unfoldable pub read_from : b.State → Bytes → ReadKeyPair → Scope → Bytes → Result Bytes
  read_from backend vk read_key scope key = do
    entry ← b.get_by_key backend scope.path key
    envelope ← from_bytes entry.contents
    decrypt c envelope read_key vk

  -- `Scope::new(&entry.scope).map_err(..)`; the message leaves out the error in it.
  bad_scope : Result Scope → Result Scope
  bad_scope (ok s) = ok s
  bad_scope (err e) = err (storage_error (text "bad scope in storage: {}"))
  bad_scope panic = panic

  -- The `match` on the decrypted entry: what does not decrypt is passed over.
  unfoldable pub keep :
      StorageEntry → Result (List MemoryEntry) → Result Bytes → Result (List MemoryEntry)
  unfolding bad_scope
  keep entry rest (ok content) = do
    entry_scope ← bad_scope (Scope.new entry.scope)
    memories ← rest
    ok (record { scope = entry_scope; key = entry.key; content = content } ∷ memories)
  keep entry rest (err e) = rest
  keep entry rest panic = panic

  -- The loop over the entries, in `list` of both.
  unfoldable pub collect : Bytes → ReadKeyPair → List StorageEntry → Result (List MemoryEntry)
  unfolding keep
  collect vk read_key [] = ok []
  collect vk read_key (entry ∷ entries) =
      let rest = collect vk read_key entries in
      from_bytes entry.contents >>= λ envelope. keep entry rest (decrypt c envelope read_key vk)

  -- The body of `list`, of both the store and the reader.
  unfoldable pub list_from : b.State → Bytes → ReadKeyPair → Result (List MemoryEntry)
  list_from backend vk read_key = do
    entries ← b.list backend read_key.scope.path
    collect vk read_key entries

  -- MemoryStore::read, MemoryStore::list
  unfoldable pub read : MemoryStore b → ReadKeyPair → Scope → Bytes → Result Bytes
  unfolding read_from
  read self read_key scope key =
      read_from self.backend (c.verifying_key self.spend_key.seed) read_key scope key

  unfoldable pub list : MemoryStore b → ReadKeyPair → Result (List MemoryEntry)
  unfolding list_from
  list self read_key = list_from self.backend (c.verifying_key self.spend_key.seed) read_key

  unfoldable pub accept_proposal :
      MemoryStore b → Proposal → ℕ → Rng → Result (Bytes × MemoryStore b × Rng)
  unfolding write
  accept_proposal self proposal now rng =
      write self proposal.scope proposal.key proposal.plaintext now rng

  unfoldable pub grant_access : MemoryStore b → Scope → Result ExportedReadKey
  grant_access self scope =
      let root_key = derive_root_read_key c self.spend_key in
      if bytes_eq scope.path root.path
      then ok (export_key c root_key)
      else (derive_child c root_key scope >>= λ scoped_key. ok (export_key c scoped_key))

  -- MemoryReader::new, MemoryReader::read, MemoryReader::list
  unfoldable pub reader_new : Bytes → b.State → MemoryReader b
  reader_new spend_vk backend = record { spend_vk = spend_vk; backend = backend }

  unfoldable pub reader_read : MemoryReader b → ReadKeyPair → Scope → Bytes → Result Bytes
  unfolding read_from
  reader_read self read_key scope key = read_from self.backend self.spend_vk read_key scope key

  unfoldable pub reader_list : MemoryReader b → ReadKeyPair → Result (List MemoryEntry)
  unfolding list_from
  reader_list self read_key = list_from self.backend self.spend_vk read_key
