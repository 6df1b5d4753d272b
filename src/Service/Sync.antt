-- ===== src/Service/Sync.antt =====
-- crates/rok-mcp/src/tools.rs: `sync`, which writes the memories that have changed. Each entry comes
-- with the clock and the generator of its write.
use ethmumbai_rok.Common.{ℕ, Bytes, String, Bool, true, false, List, [], ◌∷◌, suc, bytes_eq}
use ethmumbai_rok.Error.{RokError, Result, ok, err, panic}
use ethmumbai_rok.Crypto.{Crypto, Rng}
use ethmumbai_rok.Scope
use ethmumbai_rok.Scope.{Scope}
use ethmumbai_rok.Keys.{ReadKeyPair}
use ethmumbai_rok.Storage.Backend.{StorageBackend}
use ethmumbai_rok.Memory.{MemoryStore, write, reader_new, reader_read}
use ethmumbai_rok.Session.{owner, agent, Session, read_key, memory_store_with, memory_reader_with}
use ethmumbai_rok.Service.{
  Reply, reply, refused, crashed, ◌>>=◌, or_internal, or_invalid, no_session, RokService,
}

pub record SyncEntry : Type 0 where
  pub scope : Bytes
  pub key : Bytes
  pub content : Bytes
  pub now : ℕ
  pub rng : Rng

-- A line of `errors`: what failed, for which entry.
pub record SyncError : Type 0 where
  pub template : String
  pub scope : Bytes
  pub key : Bytes
  pub cause : RokError

-- The counters of the loop, and `errors` in order.
pub record Counts : Type 0 where
  pub written : ℕ
  pub skipped : ℕ
  pub proposed : ℕ
  pub errors : List SyncError

abbrev pub no_counts : Counts
no_counts = record { written = 0; skipped = 0; proposed = 0; errors = [] }

-- How an entry adds to the counts.
pub data Turn : Type 0 where
  wrote unchanged staged : Turn
  failed_with : SyncError → Turn

unfoldable pub count : Turn → Counts → Counts
count wrote n = record n { written = suc n.written }
count unchanged n = record n { skipped = suc n.skipped }
count staged n = record n { proposed = suc n.proposed }
count (failed_with e) n = record n { errors = e ∷ n.errors }

-- Whether the stored contents are the entry's; an entry that cannot be read is not.
unfoldable pub is_stored : Result Bytes → Bytes → Reply Bool
is_stored (ok existing) content = reply (bytes_eq existing content)
is_stored (err e) content = reply false
is_stored panic content = crashed

module _ (c : Crypto) (b : StorageBackend) where
  -- The `match` on the outcome of the write; a failed write leaves the backend.
  unfoldable pub settle :
      SyncEntry → b.State → Result (Bytes × MemoryStore b × Rng) → Reply Turn × b.State
  settle entry backend (ok (id, store, rng)) = (reply wrote, store.backend)
  settle entry backend (err e) = (
    reply (
        failed_with (record {
          template = "{}:{} — write failed: {e}";
          scope = entry.scope;
          key = entry.key;
          cause = e;
        })),
    backend,
  )
  settle entry backend panic = (crashed, backend)

  unfoldable pub write_with :
      Scope → SyncEntry → b.State → Reply (MemoryStore b) → Reply Turn × b.State
  unfolding settle
  write_with scope entry backend (reply store) =
      settle entry backend (write c b store scope entry.key entry.content entry.now entry.rng)
  write_with scope entry backend (refused e) = (refused e, backend)
  write_with scope entry backend crashed = (crashed, backend)

  -- The body of the loop behind the test for an unchanged entry.
  unfoldable pub upsert : Session → Scope → SyncEntry → b.State → Reply Bool → Reply Turn × b.State
  unfolding write_with
  upsert session scope entry backend (reply true) = (reply unchanged, backend)
  upsert session scope entry backend (reply false) = elim session.role [
    | owner ↦
        write_with scope entry backend (or_internal "{e}" (memory_store_with c b session backend))
    | agent ↦ (reply staged, backend)
  ]
  upsert session scope entry backend (refused e) = (refused e, backend)
  upsert session scope entry backend crashed = (crashed, backend)

  -- The body of the loop, with the reader that `vk` makes on the backend as it is by then.
  unfoldable pub sync_scoped :
      Session → Bytes → ReadKeyPair → SyncEntry → b.State → Result Scope → Reply Turn × b.State
  unfolding upsert is_stored
  sync_scoped session vk key entry backend (ok scope) =
      upsert session scope entry backend
        (is_stored (reader_read c b (reader_new c b vk backend) key scope entry.key) entry.content)
  sync_scoped session vk key entry backend (err e) = (
    reply (
        failed_with (record {
          template = "{}:{} — invalid scope: {e}";
          scope = entry.scope;
          key = entry.key;
          cause = e;
        })),
    backend,
  )
  sync_scoped session vk key entry backend panic = (crashed, backend)

  unfoldable pub sync_entry :
      Session → Bytes → ReadKeyPair → SyncEntry → b.State → Reply Turn × b.State
  unfolding sync_scoped
  sync_entry session vk key entry backend =
      sync_scoped session vk key entry backend (Scope.new entry.scope)

  -- What a turn and the rest of the loop come to: an entry that refuses or panics ends it, with
  -- what was stored before.
  unfoldable pub then_rest : Reply Turn → b.State → Reply Counts × b.State → Reply Counts × b.State
  unfolding count
  then_rest (reply t) backend (r, last) = (r >>= λ n. reply (count t n), last)
  then_rest (refused e) backend rest = (refused e, backend)
  then_rest crashed backend rest = (crashed, backend)

  unfoldable pub sync_loop :
      Session → Bytes → ReadKeyPair → List SyncEntry → b.State → Reply Counts × b.State
  unfolding sync_entry then_rest
  sync_loop session vk key [] backend = (reply no_counts, backend)
  sync_loop session vk key (entry ∷ entries) backend =
      let turn = sync_entry session vk key entry backend in
      then_rest turn.0 turn.1 (sync_loop session vk key entries turn.1)

  unfoldable pub sync_with :
      RokService b
      → List SyncEntry
      → Reply (Session × Bytes × ReadKeyPair)
      → Reply Counts × RokService b
  unfolding sync_loop
  sync_with self entries (reply (session, vk, key)) =
      let run = sync_loop session vk key entries self.backend in
      (run.0, record self { backend = run.1 })
  sync_with self entries (refused e) = (refused e, self)
  sync_with self entries crashed = (crashed, self)

  -- Without an entry, the reply is "nothing to sync", here the counts 0.
  unfoldable pub sync : RokService b → List SyncEntry → Reply Counts × RokService b
  unfolding sync_with
  sync self [] = (or_invalid self.session no_session >>= λ session. reply no_counts, self)
  sync self (entry ∷ entries) = sync_with self (entry ∷ entries) (do
    session ← or_invalid self.session no_session
    reader ← or_internal "{e}" (memory_reader_with c b session self.backend)
    key ← or_internal "{e}" (read_key c session)
    reply (session, reader.spend_vk, key))
