-- ===== src/Keyring/Runs.antt =====
-- The theorems on the keyring, over the toy cryptography.
use ethmumbai_rok.Common.{
  Bytes, Bool, true, false, ◌≡◌, ◌≢◌, refl, none, List, [], ◌∷◌, All, bytes_eq, bytes_eq_refl,
}
use ethmumbai_rok.Error.{ok}
use ethmumbai_rok.Crypto.Toy.{toy}
use ethmumbai_rok.Derive.{derive_root_read_secret}
use ethmumbai_rok.Keys.{
  key_id, export_key, from_public_bytes, from_secret_bytes, derive_root_read_key,
}
use ethmumbai_rok.Encrypt.Sample.{root_key, finance_key}
use ethmumbai_rok.Table.{get, insert, remove, ne-bytes_eq}
use ethmumbai_rok.Keyring.{ReadKeyEntry, MemoryKeyring, find_key, load_read_key, revoke_key}
use ethmumbai_rok.Keyring.Revocation.{Call, store_read, delete, calls, NotStoring, revoked_stays}

abbrev root_id : Bytes
root_id = key_id toy root_key

abbrev finance_id : Bytes
finance_id = key_id toy finance_key

ids_differ : bytes_eq root_id finance_id ≡ false
unfolding bytes_eq key_id from_public_bytes from_secret_bytes derive_root_read_key toy
    derive_root_read_secret
ids_differ = refl

root_ne_finance : root_id ≢ finance_id
root_ne_finance = ne-bytes_eq root_id finance_id ids_differ

-- A keyring that holds the root key, and the same with the key revoked.
abbrev entry : Bool → ReadKeyEntry
entry revoked = record {
  exported = export_key toy root_key;
  info = record {
    key_id = root_id;
    scope = root_key.scope;
    parent_key_id = none;
    created_at = 7;
    revoked = revoked;
    label = none;
  };
}

abbrev ring : MemoryKeyring
ring = record { spend_keys = []; read_keys = (root_id, entry false) ∷ [] }

abbrev revoked_ring : MemoryKeyring
revoked_ring = record { spend_keys = []; read_keys = (root_id, entry true) ∷ [] }

revoke_root : revoke_key toy ring root_id ≡ ok revoked_ring
unfolding revoke_key find_key get insert remove
revoke_root = rw (bytes_eq_refl root_id) refl

abbrev later : List Call
later = store_read finance_key 8 ∷ delete finance_id ∷ []

later_ok : All (NotStoring toy root_id) later
later_ok = (root_ne_finance, (tt, tt))

revoked_stays_example : load_read_key toy (calls toy revoked_ring later) root_id ≢ ok root_key
revoked_stays_example =
    revoked_stays toy ring revoked_ring root_id later root_key revoke_root later_ok
