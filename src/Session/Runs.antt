-- ===== src/Session/Runs.antt =====
-- The theorem on sessions, over the in-memory storage and the toy cryptography.
use ethmumbai_rok.Common.{Bytes, ◌≡◌, codes, arith, if◌then◌else◌}
use ethmumbai_rok.Error.{ok, err, scope_mismatch, ◌>>=◌ as ◌>>=?◌}
use ethmumbai_rok.Crypto.{Rng}
use ethmumbai_rok.Crypto.Toy.{toy, toy_laws, zeros}
use ethmumbai_rok.Scope.{root, is_ancestor_of}
use ethmumbai_rok.Scope.Segments.{of_segments, render}
use ethmumbai_rok.Keys.{ReadKeyPair, ExportedReadKey}
use ethmumbai_rok.Encrypt.Sample.{finance, finance_ok, finance_short, spend, note, fills}
use ethmumbai_rok.Storage
use ethmumbai_rok.Storage.Backend.{memory_storage}
use ethmumbai_rok.Storage.InMemory.{memory_storage_laws}
use ethmumbai_rok.Memory.{MemoryStore, MemoryReader, write, grant_access, reader_read}
use ethmumbai_rok.Session.{done, new_owner, read_key, memory_store_with, memory_reader_with}
use ethmumbai_rok.Session.Delegated.{agent_of, agent-reads}

abbrev empty : memory_storage.State
unfolding memory_storage
empty = Storage.new

abbrev url : Bytes
url = codes "http://localhost:8001"

abbrev api_key : Bytes
api_key = codes "key"

abbrev q1 : Bytes
q1 = codes "q1"

agent-reads_example :
    (store : MemoryStore memory_storage) × (x : ExportedReadKey) × (k : ReadKeyPair)
    × (stored : Bytes) × (rng' : Rng) × (memory_store_with toy memory_storage
          (new_owner spend.seed root url api_key)
          empty
        ≡ done store)
    × (grant_access toy memory_storage store (of_segments finance) ≡ ok x)
    × (read_key toy (
          agent_of toy toy_laws memory_storage memory_storage_laws spend.seed x
            (of_segments finance)
            url
            api_key)
        ≡ done k)
    × (write toy memory_storage store (of_segments finance) q1 note 7 zeros ≡ (
        memory_storage.put empty (render finance) q1 stored 7 >>=? λ put.
        ok (put.0, record store { backend = put.1 }, rng')))
    × ((id : Bytes) (next : memory_storage.State)
        → memory_storage.put empty (render finance) q1 stored 7 ≡ ok (id, next)
        → (reader : MemoryReader memory_storage) × (memory_reader_with toy memory_storage
              (agent_of toy toy_laws memory_storage memory_storage_laws spend.seed x
                (of_segments finance)
                url
                api_key)
              next
            ≡ done reader)
          × (reader_read toy memory_storage reader k (of_segments finance) q1 ≡ (
              if is_ancestor_of (of_segments finance) (of_segments finance)
              then ok note
              else err (scope_mismatch (render finance) (render finance)))))
agent-reads_example =
    agent-reads toy toy_laws memory_storage memory_storage_laws spend.seed url api_key url api_key
      root empty finance finance q1 note 7 zeros finance_ok finance_ok finance_short (omega arith)
      fills
