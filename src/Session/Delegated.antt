-- ===== src/Session/Delegated.antt =====
-- crates/rok-mcp/src/session.rs: an agent session made of what an owner session hands over.
use ethmumbai_rok.Common.{ℕ, ◌^◌, ◌<◌, Bytes, ◌≡◌, refl, List, length, All, if◌then◌else◌}
use ethmumbai_rok.Error.{ok, err, scope_mismatch, ◌>>=◌ as ◌>>=?◌}
use ethmumbai_rok.Crypto.{Crypto, CryptoLaws, Rng, Fills}
use ethmumbai_rok.Scope.{Scope, is_ancestor_of}
use ethmumbai_rok.Scope.Segments.{IsSegment, of_segments, render}
use ethmumbai_rok.Keys.{ReadKeyPair, ExportedReadKey}
use ethmumbai_rok.Encoding.{encode_exported_read_key, encode_spend_public}
use ethmumbai_rok.Encoding.RoundTrip.{decode_exported_read_key-encode, decode_spend_public-encode}
use ethmumbai_rok.Storage.Backend.{StorageBackend, StorageLaws}
use ethmumbai_rok.Memory
use ethmumbai_rok.Memory.{MemoryStore, MemoryReader, write, grant_access, reader_new, reader_read}
use ethmumbai_rok.Memory.Answers.{read-write, grant_access-HeldAt}
use ethmumbai_rok.Session.{
  Session, done, new_owner, new_agent, spend_key, read_key, spend_verifying_key, memory_store_with,
  memory_reader_with, agent_read_key, agent_verifying_key,
}

module _ (c : Crypto) (laws : CryptoLaws c) (b : StorageBackend) (bl : StorageLaws b) where
  -- The session of an agent who got the two texts.
  abbrev pub agent_of : Bytes → ExportedReadKey → Scope → Bytes → Bytes → Session
  agent_of seed x scope url api_key =
      new_agent (encode_exported_read_key c x) (encode_spend_public c (c.verifying_key seed)) scope
        url api_key

  agent_verifying_key-encode :
      (seed : Bytes) (x : ExportedReadKey) (scope : Scope) (url api_key : Bytes)
      → spend_verifying_key c (agent_of seed x scope url api_key) ≡ done (c.verifying_key seed)
  unfolding spend_verifying_key agent_verifying_key new_agent
  agent_verifying_key-encode seed x scope url api_key =
      rw
        (decode_spend_public-encode c laws (c.verifying_key seed) (laws.length-verifying_key seed)
          (laws.is_verifying_key-of_seed seed))
        refl

  -- For any seed and any backend that fulfils the laws of storage, the owner session makes a
  -- store that grants the key of a validated scope, and the agent session of the encoded grant
  -- and the encoded spend public key gets a read key and a reader. What the store then writes at
  -- a validated scope, if the backend's `put` succeeds, the agent's reader returns under that key
  -- if the granted scope is an ancestor of the memory's scope or the same, and refuses with
  -- `scope_mismatch` otherwise. Paths are shorter than 2^16 bytes, the content is less than 2^36
  -- bytes, and the cryptography's laws and a generator that fills its buffers are assumed.
  pub agent-reads :
      (seed url api_key agent_url agent_api_key : Bytes) (scope : Scope) (backend : b.State)
      (us vs : List Bytes) (key content : Bytes) (now : ℕ) (rng : Rng)
      → All IsSegment us
      → All IsSegment vs
      → length (render vs) < 2 ^ 16
      → length content < 2 ^ 36
      → Fills rng
      → (store : MemoryStore b) × (x : ExportedReadKey) × (k : ReadKeyPair) × (stored : Bytes)
        × (rng' : Rng) × (memory_store_with c b (new_owner seed scope url api_key) backend
            ≡ done store)
        × (grant_access c b store (of_segments us) ≡ ok x)
        × (read_key c (agent_of seed x (of_segments us) agent_url agent_api_key) ≡ done k)
        × (write c b store (of_segments vs) key content now rng ≡ (
            b.put backend (render vs) key stored now >>=? λ put.
            ok (put.0, record store { backend = put.1 }, rng')))
        × ((id : Bytes) (next : b.State)
            → b.put backend (render vs) key stored now ≡ ok (id, next)
            → (reader : MemoryReader b) × (memory_reader_with c b
                  (agent_of seed x (of_segments us) agent_url agent_api_key)
                  next
                ≡ done reader)
              × (reader_read c b reader k (of_segments vs) key ≡ (
                  if is_ancestor_of (of_segments us) (of_segments vs)
                  then ok content
                  else err (scope_mismatch (render us) (render vs)))))
  unfolding memory_store_with spend_key new_owner memory_reader_with reader_new reader_read
      Memory.read Memory.new
  agent-reads seed url api_key agent_url agent_api_key scope backend us vs key content now rng hu hv
        scl small hf =
      let store : MemoryStore b = record {
        spend_key = record { seed = seed };
        backend = backend;
      } in
      let (x, k, hg, hi, held, exported) = grant_access-HeldAt c laws b bl store us hu in
      let (stored, rng', hw, answer) =
        read-write c laws b bl store us vs k key content now rng hu hv held scl small hf in
      let agent_key : read_key c (agent_of seed x (of_segments us) agent_url agent_api_key)
          ≡ done k =
        unfold read_key agent_read_key new_agent in
        rw (decode_exported_read_key-encode c laws x exported, hi) refl in
      (
        store,
        x,
        k,
        stored,
        rng',
        refl,
        hg,
        agent_key,
        hw,
        λ id next hput. (
          record { spend_vk = c.verifying_key seed; backend = next },
          rw (agent_verifying_key-encode seed x (of_segments us) agent_url agent_api_key) refl,
          rw held.at_scope at (answer id next hput),
        ),
      )
