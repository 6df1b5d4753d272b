-- ===== src/Pipeline.antt =====
-- crates/rok-sdk/src/pipeline.rs: chunks encrypted for a changing list of consumers. `&mut self`
-- returns the new pipeline; the thread's generator is an argument.
pub mod Removal
mod Runs
use ethmumbai_rok.Common.{ℕ, Bytes, not, List, [], ◌∷◌, ◌++◌, length, bytes_eq, if◌then◌else◌}
use ethmumbai_rok.Error.{Result}
use ethmumbai_rok.Crypto.{Crypto, Rng}
use ethmumbai_rok.Scope.{Scope}
use ethmumbai_rok.Keys.{ReadKeyPair, SpendKeyPair}
use ethmumbai_rok.Envelope.{EncryptedEnvelope}
use ethmumbai_rok.Encrypt.{Recipient, encrypt, decrypt}
use ethmumbai_rok.Encrypt.Listed.{builder}

pub record Pipeline : Type 0 where
  pub scope : Scope
  pub spend_key : SpendKeyPair
  pub consumers : List Recipient

unfoldable pub new : Scope → SpendKeyPair → Pipeline
new scope spend_key = record { scope = scope; spend_key = spend_key; consumers = [] }

unfoldable pub add_consumer : Pipeline → Recipient → Pipeline
add_consumer self r = record self { consumers = self.consumers ++ r ∷ [] }

-- `self.consumers.retain(|r| r.key_id != *key_id)`
unfoldable pub retain : Bytes → List Recipient → List Recipient
retain id [] = []
retain id (r ∷ rs) = if not (bytes_eq r.key_id id) then r ∷ retain id rs else retain id rs

unfoldable pub remove_consumer : Pipeline → Bytes → Pipeline
unfolding retain
remove_consumer self id = record self { consumers = retain id self.consumers }

unfoldable pub consumer_count : Pipeline → ℕ
consumer_count self = length self.consumers

module _ (c : Crypto) where
  unfoldable pub encrypt_chunk : Pipeline → Bytes → Rng → Result (EncryptedEnvelope × Rng)
  encrypt_chunk self contents rng =
      encrypt c (builder self.spend_key self.scope self.consumers) contents rng

  -- Pipeline::decrypt_chunk
  unfoldable pub decrypt_chunk : EncryptedEnvelope → ReadKeyPair → Bytes → Result Bytes
  decrypt_chunk envelope read_key spend_verifying_key =
      decrypt c envelope read_key spend_verifying_key
