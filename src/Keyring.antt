-- ===== src/Keyring.antt =====
-- crates/rok-sdk/src/keyring.rs, and the interface `KeyStore` of crates/rok-core/src/keyring.rs: the
-- in-memory keyring. The clock is an argument; an operation on `&mut self` returns the new keyring.
pub mod Revocation
mod Runs
use ethmumbai_rok.Common.{
  ℕ, Bytes, Bool, true, false, Option, none, some, List, [], ◌∷◌, map, if◌then◌else◌,
}
use ethmumbai_rok.Error.{key_not_found, key_revoked, Result, ok, err, ◌>>=◌, ◌>>◌, refuse}
use ethmumbai_rok.Crypto.{Crypto}
use ethmumbai_rok.Scope.{Scope}
use ethmumbai_rok.Keys.{
  ReadKeyPair, ExportedReadKey, SpendKeyPair, key_id, to_base58, export_key, import_key,
}
use ethmumbai_rok.Encrypt.{or_error}
use ethmumbai_rok.Table
use ethmumbai_rok.Table.{get, insert, remove}

pub record ReadKeyInfo : Type 0 where
  pub key_id : Bytes
  pub scope : Scope
  pub parent_key_id : Option Bytes
  pub created_at : ℕ
  pub revoked : Bool
  pub label : Option Bytes

pub record ReadKeyEntry : Type 0 where
  pub exported : ExportedReadKey
  pub info : ReadKeyInfo

pub record MemoryKeyring : Type 0 where
  pub spend_keys : List (Bytes × Bytes)
  pub read_keys : List (Bytes × ReadKeyEntry)

unfoldable pub new : MemoryKeyring
new = record { spend_keys = []; read_keys = [] }

unfoldable pub store_spend_key : MemoryKeyring → Bytes → SpendKeyPair → Result MemoryKeyring
store_spend_key self label key =
    ok (record self { spend_keys = insert label key.seed self.spend_keys })

unfoldable pub load_spend_key : MemoryKeyring → Bytes → Result SpendKeyPair
load_spend_key self label = do
  seed ← or_error (get label self.spend_keys) (key_not_found label)
  ok (record { seed = seed })

module _ (c : Crypto) where
  unfoldable pub store_read_key : MemoryKeyring → ReadKeyPair → ℕ → Result MemoryKeyring
  store_read_key self key now =
      let id = key_id c key in
      let info : ReadKeyInfo = record {
        key_id = id;
        scope = key.scope;
        parent_key_id = key.parent_key_id;
        created_at = now;
        revoked = false;
        label = none;
      } in
      ok (record self {
        read_keys = insert id (record { exported = export_key c key; info = info }) self.read_keys;
      })

  -- `self.read_keys.get(..).ok_or_else(..)?`
  unfoldable pub find_key : MemoryKeyring → Bytes → Result ReadKeyEntry
  find_key self id = or_error (get id self.read_keys) (key_not_found (to_base58 c id))

  unfoldable pub load_read_key : MemoryKeyring → Bytes → Result ReadKeyPair
  unfolding find_key
  load_read_key self id = do
    entry ← find_key self id
    refuse entry.info.revoked (key_revoked (to_base58 c id))
    import_key c entry.exported

  unfoldable pub list_read_keys : MemoryKeyring → Result (List ReadKeyInfo)
  list_read_keys self = ok (map (λ e. e.1.info) self.read_keys)

  -- The assignment through `get_mut` puts the entry back under its key.
  unfoldable pub revoke_key : MemoryKeyring → Bytes → Result MemoryKeyring
  unfolding find_key
  revoke_key self id = do
    entry ← find_key self id
    let revoked : ReadKeyEntry = record entry { info = record entry.info { revoked = true } }
    ok (record self { read_keys = insert id revoked self.read_keys })

  unfoldable pub is_revoked : MemoryKeyring → Bytes → Result Bool
  unfolding find_key
  is_revoked self id = do entry ← find_key self id; ok entry.info.revoked

  unfoldable pub delete_key : MemoryKeyring → Bytes → Result MemoryKeyring
  unfolding find_key
  delete_key self id = do
    entry ← find_key self id
    ok (record self { read_keys = remove id self.read_keys })
