-- ===== src/Memory/Runs.antt =====
-- The theorems on memories, over the in-memory storage and the toy cryptography.
use ethmumbai_rok.Common.{Bytes, ◌≡◌, refl, sym, List, [], codes, arith}
use ethmumbai_rok.Error.{ok, ok-injective, ◌>>=◌}
use ethmumbai_rok.Crypto.{Rng}
use ethmumbai_rok.Crypto.Toy.{toy, toy_laws, zeros}
use ethmumbai_rok.Scope.Segments.{of_segments, render}
use ethmumbai_rok.Encrypt.Access.{root-HeldAt}
use ethmumbai_rok.Encrypt.Sample.{finance, finance_ok, finance_short, spend, root_key, note, fills}
use ethmumbai_rok.Storage
use ethmumbai_rok.Storage.{StorageEntry, put, filter_entries}
use ethmumbai_rok.Storage.Backend.{memory_storage}
use ethmumbai_rok.Storage.InMemory.{memory_storage_laws}
use ethmumbai_rok.Memory.{MemoryEntry, MemoryStore, new, write, read, list}
use ethmumbai_rok.Memory.Sealing.{reads}
use ethmumbai_rok.Memory.Answers.{read-write}
use ethmumbai_rok.Memory.Listing.{Reached, started, wrote, Pairwise, list-Reached}

abbrev q1 : Bytes
q1 = codes "q1"

abbrev empty : memory_storage.State
unfolding memory_storage
empty = Storage.new

abbrev store : MemoryStore memory_storage
store = new toy memory_storage spend empty

read-write_example :
    (stored : Bytes) × (rng' : Rng) × (write toy memory_storage store
        (of_segments finance)
        q1
        note
        7
        zeros
      ≡ (memory_storage.put store.backend (render finance) q1 stored 7 >>= λ put.
          ok (put.0, record store { backend = put.1 }, rng')))
    × ((id : Bytes) (next : memory_storage.State)
        → memory_storage.put store.backend (render finance) q1 stored 7 ≡ ok (id, next)
        → read toy memory_storage
            (record store { backend = next })
            root_key
            (of_segments finance)
            q1
          ≡ reads toy toy_laws store.spend_key root_key (of_segments finance) note)
unfolding new
read-write_example =
    read-write toy toy_laws memory_storage memory_storage_laws store [] finance root_key q1 note 7
      zeros tt finance_ok (root-HeldAt toy toy_laws spend) finance_short (omega arith) fills

-- The store after one write.
abbrev written :
    (id : Bytes) × (next : MemoryStore memory_storage) × (rng' : Rng) × (write toy memory_storage
        store
        (of_segments finance)
        q1
        note
        7
        zeros
      ≡ ok (id, next, rng'))
unfolding memory_storage put
written = let (stored, rng', hw, _) = read-write_example in (_, _, rng', hw)

written-Reached : Reached toy toy_laws memory_storage spend written.1
unfolding memory_storage Storage.new Storage.list filter_entries new
written-Reached =
    wrote store written.1 finance q1 note written.0 7 zeros written.2
      (started empty (λ prefix es h. sym (ok-injective h))) finance_ok finance_short (omega arith)
      fills written.3

abbrev listed : List StorageEntry
unfolding memory_storage
listed = filter_entries root_key.scope.path written.1.backend

listed_eq : memory_storage.list written.1.backend root_key.scope.path ≡ ok listed
unfolding memory_storage Storage.list
listed_eq = refl

list-Reached_example :
    (ms : List MemoryEntry) × (list toy memory_storage written.1 root_key ≡ ok ms)
    × Pairwise toy toy_laws memory_storage spend root_key listed ms
list-Reached_example =
    list-Reached toy toy_laws memory_storage spend memory_storage_laws written.1 [] root_key listed
      written-Reached tt (root-HeldAt toy toy_laws spend) listed_eq
