-- ===== src/Session.antt =====
-- crates/rok-mcp/src/session.rs: the session of the MCP server, of an owner or an agent, and what it
-- makes of its credentials. The Fileverse backend and the configuration file are left out; texts
-- are byte strings.
pub mod Delegated
mod Runs
use ethmumbai_rok.Common.{ℕ, Bytes, Option, none, some, bytes_eq, if◌then◌else◌}
use ethmumbai_rok.Error.{Message, text, RokError, Result, ok, err, panic}
use ethmumbai_rok.Crypto.{Crypto}
use ethmumbai_rok.Scope.{Scope, root}
use ethmumbai_rok.Keys.{ReadKeyPair, SpendKeyPair, derive_child, derive_root_read_key, import_key}
use ethmumbai_rok.Encoding.{decode_exported_read_key, decode_spend_public}
use ethmumbai_rok.Storage.Backend.{StorageBackend}
use ethmumbai_rok.Memory
use ethmumbai_rok.Memory.{MemoryStore, MemoryReader, reader_new}

-- `anyhow::Error`: a message, or the text of an error of rok-core.
pub data Anyhow : Type 0 where
  message : Message → Anyhow
  wrapped : RokError → Anyhow

-- `anyhow::Result`, of a computation that may panic.
pub data Outcome (A : Type 0) : Type 0 where
  done : A → Outcome A
  failed : Anyhow → Outcome A
  panicked : Outcome A

infixl 5 ◌>>=◌
abbrev pub ◌>>=◌ : {X Y : Type 0} → Outcome X → (X → Outcome Y) → Outcome Y
done x >>= next = next x
failed e >>= next = failed e
panicked >>= next = panicked

-- `r.map_err(|e| anyhow!("{e}"))`
abbrev pub or_anyhow : {X : Type 0} → Result X → Outcome X
or_anyhow (ok x) = done x
or_anyhow (err e) = failed (wrapped e)
or_anyhow panic = panicked

-- `o.ok_or_else(|| anyhow!(..))`
abbrev pub or_message : {X : Type 0} → Option X → Message → Outcome X
or_message none m = failed (message m)
or_message (some x) m = done x

pub data Role : Type 0 where
  owner agent : Role

pub record Credentials : Type 0 where
  pub fileverse_url : Bytes
  pub api_key : Bytes
  pub spend_seed : Option Bytes
  pub read_key_encoded : Option Bytes
  pub spend_public_encoded : Option Bytes

pub record Session : Type 0 where
  pub role : Role
  pub scope : Scope
  pub credentials : Credentials
  pub memory_count : ℕ

unfoldable pub new_owner : Bytes → Scope → Bytes → Bytes → Session
new_owner spend_seed scope fileverse_url api_key = record {
  role = owner;
  scope = scope;
  credentials = record {
    fileverse_url = fileverse_url;
    api_key = api_key;
    spend_seed = some spend_seed;
    read_key_encoded = none;
    spend_public_encoded = none;
  };
  memory_count = 0;
}

unfoldable pub new_agent : Bytes → Bytes → Scope → Bytes → Bytes → Session
new_agent read_key_encoded spend_public_encoded scope fileverse_url api_key = record {
  role = agent;
  scope = scope;
  credentials = record {
    fileverse_url = fileverse_url;
    api_key = api_key;
    spend_seed = none;
    read_key_encoded = some read_key_encoded;
    spend_public_encoded = some spend_public_encoded;
  };
  memory_count = 0;
}

unfoldable pub spend_key : Session → Outcome SpendKeyPair
spend_key self = do
  seed ← or_message self.credentials.spend_seed (text "no spend seed — session is agent role")
  done (record { seed = seed })

module _ (c : Crypto) where
  unfoldable pub owner_read_key : Session → Outcome ReadKeyPair
  owner_read_key self = do
    spend ← spend_key self
    let root_key = derive_root_read_key c spend
    if bytes_eq self.scope.path root.path
        then done root_key
        else or_anyhow (derive_child c root_key self.scope)

  unfoldable pub agent_read_key : Session → Outcome ReadKeyPair
  agent_read_key self = do
    encoded ← or_message self.credentials.read_key_encoded (text "no read key in agent session")
    exported ← or_anyhow (decode_exported_read_key c encoded)
    or_anyhow (import_key c exported)

  unfoldable pub read_key : Session → Outcome ReadKeyPair
  unfolding owner_read_key agent_read_key
  read_key self = elim self.role [ owner ↦ owner_read_key self | agent ↦ agent_read_key self ]

  unfoldable pub owner_verifying_key : Session → Outcome Bytes
  owner_verifying_key self = do spend ← spend_key self; done (c.verifying_key spend.seed)

  unfoldable pub agent_verifying_key : Session → Outcome Bytes
  agent_verifying_key self = do
    encoded ←
        or_message self.credentials.spend_public_encoded (text "no spend public in agent session")
    or_anyhow (decode_spend_public c encoded)

  unfoldable pub spend_verifying_key : Session → Outcome Bytes
  unfolding owner_verifying_key agent_verifying_key
  spend_verifying_key self = elim self.role [
    | owner ↦ owner_verifying_key self
    | agent ↦ agent_verifying_key self
  ]

  module _ (b : StorageBackend) where
    unfoldable pub memory_store_with : Session → b.State → Outcome (MemoryStore b)
    memory_store_with self backend = do spend ← spend_key self; done (Memory.new c b spend backend)

    unfoldable pub memory_reader_with : Session → b.State → Outcome (MemoryReader b)
    memory_reader_with self backend = do
      vk ← spend_verifying_key self
      done (reader_new c b vk backend)
