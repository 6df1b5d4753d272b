-- ===== src/Vault/Stored.antt =====
-- crates/rok-sdk/src/vault.rs: `store` followed by `retrieve`.
use ethmumbai_rok.Common.{◌^◌, ◌<◌, Bytes, ◌≡◌, ◌≢◌, refl, List, ◌∷◌, length, All}
use ethmumbai_rok.Error.{ok}
use ethmumbai_rok.Crypto.{Crypto, CryptoLaws, Rng, Fills}
use ethmumbai_rok.Scope.{Scope}
use ethmumbai_rok.Keys.{ReadKeyPair, key_id}
use ethmumbai_rok.Encrypt.{Recipient}
use ethmumbai_rok.Encrypt.Wrapping.{find_recipient}
use ethmumbai_rok.Encrypt.Access.{answer}
use ethmumbai_rok.Encrypt.Sizes.{HasId}
use ethmumbai_rok.Encrypt.Listed.{Owns, encrypt-AnswersFor}
use ethmumbai_rok.Table.{insert, get-insert-same, get-insert-other}
use ethmumbai_rok.Vault.{Vault, store, retrieve, verifying_key}

module _ (c : Crypto) (laws : CryptoLaws c) where
  -- Storing less than 2^36 bytes for a list of recipients that is not empty, with identifiers of
  -- 8 bytes, succeeds, under the laws of the cryptography and a generator that fills its buffers.
  -- The document then answers a genuine key, whatever its scope and that of the document, with
  -- the contents if the list names the key with its public half, and with
  -- `no_matching_access_entry` if the list lacks its identifier; every other name answers as
  -- before.
  pub retrieve-store :
      (self : Vault) (name other : Bytes) (scope : Scope) (contents : Bytes) (r : Recipient)
      (rs : List Recipient) (k : ReadKeyPair) (rng : Rng)
      → Fills rng
      → length contents < 2 ^ 36
      → All HasId (r ∷ rs)
      → Owns c laws self.spend_key k (r ∷ rs)
      → other ≢ name
      → (next : Vault) × (rng' : Rng) × (store c self name scope contents (r ∷ rs) rng
          ≡ ok (next, rng'))
        × (retrieve c next name k
            ≡ answer c laws self.spend_key k contents (find_recipient (key_id c k) (r ∷ rs)))
        × (retrieve c next other k ≡ retrieve c self other k)
  unfolding store retrieve verifying_key
  retrieve-store self name other scope contents r rs k rng hf small hi own apart =
      let (env, rng', he, _, answers, _) =
        encrypt-AnswersFor c laws self.spend_key scope r rs contents rng hi small hf in
      (
        record self { documents = insert name env self.documents },
        rng',
        rw he refl,
        rw (get-insert-same name env self.documents) (answers k own),
        rw (get-insert-other name other env self.documents apart) refl,
      )
