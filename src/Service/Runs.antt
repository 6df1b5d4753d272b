-- ===== src/Service/Runs.antt =====
-- The theorems on the service, over the in-memory storage and the toy cryptography.
use ethmumbai_rok.Common.{
  Bytes, ◌≡◌, ◌≢◌, refl, sym, ◌∙◌, some, bytes_eq, false, List, [], ◌∷◌, length, codes, arith,
}
use ethmumbai_rok.Error.{panic, err, storage_error, format, str}
use ethmumbai_rok.Crypto.Toy.{toy, toy_laws, zeros}
use ethmumbai_rok.Scope.{root, slash, is_ancestor_of, has_byte_at}
use ethmumbai_rok.Text.{starts_with}
use ethmumbai_rok.Text.Split.{Free, spell}
use ethmumbai_rok.Scope.Segments.{of_segments, render}
use ethmumbai_rok.Encrypt.Sample.{finance, finance_ok, finance_short, spend, note, fills, root_key}
use ethmumbai_rok.Table
use ethmumbai_rok.Storage
use ethmumbai_rok.Storage.{put, get_by_key, composite_key}
use ethmumbai_rok.Storage.Backend.{memory_storage}
use ethmumbai_rok.Storage.InMemory.{memory_storage_laws, Free-IsKey}
use ethmumbai_rok.Memory.{read_from}
use ethmumbai_rok.Session.{Session, done, new_owner, new_agent, read_key, owner_read_key, spend_key}
use ethmumbai_rok.Service.{reply, RokService}
use ethmumbai_rok.Service.Sync.{SyncEntry, Counts, sync}
use ethmumbai_rok.Service.Requests.{
  Request, write_call, propose_call, sync_call, logout_call, NoOwner, as_agent, handle_all,
  handle_all-agent,
}
use ethmumbai_rok.Service.Synced.{IsOwner, Accepts, Saved, all_skipped, IsEntry, found}
use ethmumbai_rok.Service.Resynced.{sync-again}

abbrev empty : memory_storage.State
unfolding memory_storage
empty = Storage.new

abbrev url : Bytes
url = codes "http://localhost:8001"

abbrev q1 : Bytes
q1 = codes "q1"

abbrev agent_session : Session
agent_session = new_agent (codes "key") (codes "spend") (of_segments finance) url (codes "api")

abbrev agent_service : RokService memory_storage
agent_service = record { session = some agent_session; auto_load = false; backend = empty }

abbrev entry : SyncEntry
entry = record { scope = render finance; key = q1; content = note; now = 7; rng = zeros }

abbrev calls : List Request
calls =
    write_call (record { scope = render finance; key = q1; content = note }) 7 zeros
    ∷ propose_call
        (record { scope = render finance; key = q1; content = note; agent_id = codes "agent" }) 7
        zeros
    ∷ sync_call (entry ∷ [])
    ∷ logout_call
    ∷ []

handle_all-agent_example :
    ((handle_all toy memory_storage agent_service calls).backend ≡ empty)
    × NoOwner toy memory_storage (handle_all toy memory_storage agent_service calls)
handle_all-agent_example =
    handle_all-agent toy memory_storage agent_service calls
      (as_agent agent_service agent_session refl (unfold new_agent in refl))

abbrev owner_session : Session
owner_session = new_owner spend.seed (of_segments []) url (codes "api")

abbrev owner_service : RokService memory_storage
owner_service = record { session = some owner_session; auto_load = false; backend = empty }

accepts : Accepts memory_storage
unfolding memory_storage put
accepts s scope key contents now = (_, _, refl)

owner_session-IsOwner : IsOwner spend.seed [] owner_session
unfolding new_owner
owner_session-IsOwner = record { is_owner = refl; has_seed = refl; at_scope = refl }

owner_key : read_key toy owner_session ≡ done root_key
unfolding read_key owner_read_key spend_key new_owner
owner_key = unfold render bytes_eq root in refl

q1-Free : Free slash q1
q1-Free = (omega arith, (omega arith, tt))

entry-IsEntry : IsEntry toy toy_laws memory_storage memory_storage_laws [] entry
unfolding bytes_eq
entry-IsEntry = record {
  segments = finance;
  all_segments = finance_ok;
  path_eq = refl;
  below = (unfold is_ancestor_of render has_byte_at starts_with spell in refl);
  scope_size = finance_short;
  content_size = omega arith;
  is_key = Free-IsKey q1 q1-Free;
  fills = fills;
}

absent :
    found toy toy_laws memory_storage memory_storage_laws spend.seed root_key empty entry
    ≡ err (
        storage_error (format "entry not found: {}" (str (composite_key (render finance) q1) ∷ [])))
unfolding read_from memory_storage get_by_key Storage.new Storage.get Table.get
absent = refl

calm : found toy toy_laws memory_storage memory_storage_laws spend.seed root_key empty entry ≢ panic
calm h = cc (sym absent ∙ h)

sync-again_example :
    (n : Counts) × (next : memory_storage.State) × (sync toy memory_storage owner_service
        (entry ∷ [])
      ≡ (reply n, record owner_service { backend = next }))
    × Saved n (length (entry ∷ []))
    × (sync toy memory_storage (record owner_service { backend = next }) (entry ∷ [])
        ≡ (reply (all_skipped (length (entry ∷ []))), record owner_service { backend = next }))
sync-again_example =
    sync-again toy toy_laws memory_storage memory_storage_laws spend.seed [] owner_session
      owner_service root_key (entry ∷ []) accepts owner_session-IsOwner refl owner_key tt
      (entry-IsEntry, tt) (tt, tt) (calm, tt)
