-- ===== src/Vault.antt =====
-- crates/rok-sdk/src/vault.rs: documents by name, each encrypted for a list of recipients. The thread's
-- generator is an argument. What `rekey` changed before it failed stays, so that it returns the vault
-- beside its result.
pub mod Stored
pub mod Rekeyed
mod Runs
use ethmumbai_rok.Common.{
  ℕ, Bytes, Bool, true, false, Option, none, some, List, [], ◌∷◌, ◌++◌, length, if◌then◌else◌,
}
use ethmumbai_rok.Error.{key_not_found, Result, ok, err, panic, ◌>>=◌}
use ethmumbai_rok.Common
use ethmumbai_rok.Crypto.{Crypto, Rng}
use ethmumbai_rok.Scope.{Scope, is_ancestor_of}
use ethmumbai_rok.Keys.{ReadKeyPair, SpendKeyPair}
use ethmumbai_rok.Envelope.{EncryptedEnvelope}
use ethmumbai_rok.Encrypt.{Recipient, or_error, encrypt, decrypt}
use ethmumbai_rok.Encrypt.Listed.{builder}
use ethmumbai_rok.Table.{get, insert}

pub record VaultEntry : Type 0 where
  pub name : Bytes
  pub scope : Scope
  pub size : ℕ
  pub recipient_count : ℕ

pub record Vault : Type 0 where
  pub spend_key : SpendKeyPair
  pub documents : List (Bytes × EncryptedEnvelope)

unfoldable pub new : SpendKeyPair → Vault
new spend_key = record { spend_key = spend_key; documents = [] }

-- `format!("document '{}' not found", name)`
unfoldable pub not_found : Bytes → Bytes
not_found name = Common.codes "document '" ++ (name ++ Common.codes "' not found")

-- The closure of the filter in `list`.
unfoldable pub is_selected : Option Scope → EncryptedEnvelope → Bool
is_selected none env = true
is_selected (some filter) env = is_ancestor_of filter env.scope

unfoldable pub list_documents : Option Scope → List (Bytes × EncryptedEnvelope) → List VaultEntry
unfolding is_selected
list_documents scope_filter [] = []
list_documents scope_filter ((name, env) ∷ documents) =
    let rest = list_documents scope_filter documents in
    if is_selected scope_filter env
    then record {
      name = name;
      scope = env.scope;
      size = length env.ciphertext;
      recipient_count = length env.access_entries;
    }
      ∷ rest
    else rest

unfoldable pub list : Vault → Option Scope → List VaultEntry
unfolding list_documents
list self scope_filter = list_documents scope_filter self.documents

unfoldable pub names_to_rekey : Scope → List (Bytes × EncryptedEnvelope) → List Bytes
names_to_rekey scope [] = []
names_to_rekey scope ((name, env) ∷ documents) =
    let rest = names_to_rekey scope documents in
    if is_ancestor_of scope env.scope then name ∷ rest else rest

unfoldable pub len : Vault → ℕ
len self = length self.documents

unfoldable pub is_empty : Vault → Bool
is_empty self = elim self.documents [ [] ↦ true | d ∷ ds ↦ false ]

module _ (c : Crypto) where
  unfoldable pub verifying_key : Vault → Bytes
  verifying_key self = c.verifying_key self.spend_key.seed

  unfoldable pub store : Vault → Bytes → Scope → Bytes → List Recipient → Rng → Result (Vault × Rng)
  store self name scope contents recipients rng = do
    (envelope, rng') ← encrypt c (builder self.spend_key scope recipients) contents rng
    ok (record self { documents = insert name envelope self.documents }, rng')

  unfoldable pub retrieve : Vault → Bytes → ReadKeyPair → Result Bytes
  unfolding not_found verifying_key
  retrieve self name read_key = do
    envelope ← or_error (get name self.documents) (key_not_found (not_found name))
    decrypt c envelope read_key (verifying_key self)

  -- One round of the loop in `rekey`; `unwrap` panics on a name that is not there.
  unfoldable pub rekey_document :
      Vault → ReadKeyPair → List Recipient → Bytes → Rng → Result (EncryptedEnvelope × Rng)
  unfolding verifying_key
  rekey_document self root_read_key new_recipients name rng = elim (get name self.documents) [
    | none ↦ panic
    | some envelope ↦ decrypt c envelope root_read_key (verifying_key self) >>= λ plaintext.
        encrypt c (builder self.spend_key envelope.scope new_recipients) plaintext rng
  ]

  unfoldable pub put_document : Vault → Bytes → EncryptedEnvelope → Vault
  put_document self name envelope = record self { documents = insert name envelope self.documents }

  unfoldable pub rekey_loop :
      Vault → ReadKeyPair → List Recipient → List Bytes → Rng → Result (Unit {0}) × Vault
  unfolding rekey_document put_document
  rekey_loop self root_read_key new_recipients [] rng = (ok tt, self)
  rekey_loop self root_read_key new_recipients (name ∷ names) rng =
      elim (rekey_document self root_read_key new_recipients name rng) [
        | ok (envelope, rng') ↦
            rekey_loop (put_document self name envelope) root_read_key new_recipients names rng'
        | err e ↦ (err e, self)
        | panic ↦ (panic, self)
      ]

  unfoldable pub rekey : Vault → Scope → ReadKeyPair → List Recipient → Rng → Result ℕ × Vault
  unfolding names_to_rekey rekey_loop
  rekey self scope root_read_key new_recipients rng =
      let names = names_to_rekey scope self.documents in
      let done = rekey_loop self root_read_key new_recipients names rng in
      (done.0 >>= (λ finished. ok (length names)), done.1)
