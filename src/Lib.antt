-- ===== src/Lib.antt =====
-- Verification of the ROK key hierarchy and its envelopes: crates/rok-core, crates/rok-pq,
-- crates/rok-sdk without its remote storage, and the sessions and tools of crates/rok-mcp.
--
-- A spend key (Ed25519) signs, and is the root from which read keys (X25519) are derived along a
-- tree of scopes such as `/finance/q1`. Data is encrypted under a fresh data key, which is wrapped
-- for each recipient, or for the one read key of the data's scope; the envelope is signed by the
-- spend key and travels in a binary format or as a protobuf message. A sectioned envelope is a
-- container of named envelopes. A memory store keeps scope-based envelopes in a storage backend, and
-- hands out read keys to agents; vault, pipeline and credentials encrypt to lists of recipients.
--
-- Which module models which part; a path without a crate is below crates/rok-core/src:
--   Scope      keys/scope.rs. `Scope` keeps the bytes of its path; the children of the module relate
--              it to a list of segments (Scope.Segments).
--   Derive     derive.rs. The loop of `derive_child_read_secret` is `derive_loop`, which recurses on
--              the number of rounds left, `child_components.len() - parent_components.len()`.
--   Keys       keys/key_id.rs, keys/read.rs, keys/spend.rs, sign.rs.
--   Envelope   envelope.rs, and `Algorithm` and `AccessMode` of encrypt.rs. `to_bytes` and
--              `from_bytes` are split into one writer and one reader for each part of the format.
--   Encrypt    encrypt.rs. The loops over recipients are `wrap_all`; the random generator is a
--              sequence of draws that is passed on. Encrypt.Listed holds the call of the builder
--              that vault, pipeline and identity of crates/rok-sdk make.
--   Encoding   encoding.rs.
--   Sectioned  sectioned.rs; its protobuf format is in Proto.Container.
--   Proto      proto.rs, with the messages of generated/rok.rs as records (Proto.Messages). What
--              prost derives is a record `Prost` of functions, with the round trips as `ProstLaws`.
--   Hybrid     crates/rok-pq/src: kem.rs, pq_derive.rs, hybrid.rs and envelope.rs. ML-KEM is a
--              record `MlKem` of functions, with its round trip as `MlKemLaws`.
--   Keyring    crates/rok-sdk/src/keyring.rs, with the interface of keyring.rs.
--   Policy     crates/rok-sdk/src/policy.rs, without JSON; Policy.Exchange is its protobuf form.
--   Storage    crates/rok-sdk/src/storage/mod.rs: `MemoryStorage`, and the trait `StorageBackend` as
--              a record of operations with laws (Storage.Backend), which `MemoryStorage` fulfils.
--   Memory     crates/rok-sdk/src/memory.rs, over any backend; `self` is the record of the spend key
--              and the backend's state, and an operation that stores returns the next one.
--   Vault      crates/rok-sdk/src/vault.rs. The loop of `rekey` is `rekey_loop`, over the names.
--              Documents are encrypted to lists of recipients, where `decrypt` has no test of scopes.
--   Pipeline   crates/rok-sdk/src/pipeline.rs.
--   Identity   crates/rok-sdk/src/identity.rs.
--   Session    crates/rok-mcp/src/session.rs, without the configuration file and Fileverse.
--   Service    crates/rok-mcp/src/tools.rs: the handlers of the tools login, logout, list, read, write,
--              grant, propose, sync (Service.Sync) and status, and the resources, with their
--              URIs of resources.rs (Service.Resources). All sessions reach one backend, and a
--              handler that changes something returns its reply and the service it leaves.
--   Error      error.rs, with a result that is a value, an error or a panic.
--   Wire       the closure `read_bytes` and the conversions of integers to little-endian bytes,
--              which envelope.rs and sectioned.rs share.
--   Text       the functions of Rust's `str` that the code calls, over lists of bytes.
--   Table      `HashMap` with byte strings as keys, an association list.
--   Crypto     what the code calls of other crates: hashes, key agreement, ciphers, signatures and
--              base58 are fields of a record `Crypto`, a parameter of the model. `CryptoLaws` holds
--              what the code relies on (round trips, sizes, agreement of the two sides of X25519).
--              Nothing is assumed about what an attacker cannot compute.
--   Common     shared names, list functions and tests over the native numbers.
--
-- The components call each other's functions: Encrypt derives the scope's key by Keys, Keys walks
-- the scopes by Derive, Sectioned stores the bytes of Envelope, Keyring keeps keys of Keys in a
-- Table, and Policy tests the scopes of its rules by Scope. Memory writes the bytes of Envelope to a
-- backend of Storage, Session makes the stores and readers of Memory from the texts of Encoding, and
-- Service keeps a Session and calls what it makes.
--
-- Bounds: `usize` has 64 bits, and the sum in `read_bytes` wraps at 2^64 as in a release build. The
-- casts `as u16` and `as u32` are remainders. No definition needs fuel: readers recurse on the count
-- that was read. A fixed-size array is a byte list; where its size matters, a hypothesis states it.
--
-- The clock and the thread's generator are arguments, and the lock of the storage is never poisoned.
--
-- Not modelled: rok-cli, and the setup and the transport of rok-mcp (command lines,
-- JSON-RPC and files), the remote storage of rok-sdk, which is a client of an HTTP service, JSON, and the zeroing of
-- secrets, which has no effect on results.
pub mod Common
pub mod Error
pub mod Text
pub mod Scope
pub mod Crypto
pub mod Derive
pub mod Keys
pub mod Wire
pub mod Envelope
pub mod Encrypt
pub mod Encoding
pub mod Sectioned
pub mod Table
pub mod Keyring
pub mod Storage
pub mod Policy
pub mod Memory
pub mod Proto
pub mod Hybrid
pub mod Vault
pub mod Pipeline
pub mod Identity
pub mod Session
pub mod Service
