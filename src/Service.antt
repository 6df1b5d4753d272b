-- ===== src/Service.antt =====
-- crates/rok-mcp/src/tools.rs: the MCP service, its session and the handlers of its tools but `setup`.
-- All sessions reach one storage backend: the connection that `Session::backend` makes of the URL
-- and the API key is left out. A handler that changes something returns its reply and the service it
-- leaves. The clock and the thread's generator are arguments; `hex::decode` and
-- `String::from_utf8_lossy` are parameters. A text is its template and arguments.
pub mod Sync
pub mod Requests
pub mod Synced
pub mod Resynced
pub mod Resources
mod Runs
use ethmumbai_rok.Common.{
  ℕ, Bytes, String, ◌≡◌, refl, ◌⊎◌, inl, inr, Option, none, some, Bool, true, false, List, [], ◌∷◌,
  ◌++◌, length, leb, ltb, ◌==◌, codes, get_elem?, take, if◌then◌else◌,
}
use ethmumbai_rok.Error.{Message, text, format, str, num, RokError, Result, ok, err, panic}
use ethmumbai_rok.Crypto.{Crypto, Rng}
use ethmumbai_rok.Scope
use ethmumbai_rok.Scope.{Scope, root}
use ethmumbai_rok.Encoding.{encode_exported_read_key, encode_spend_public}
use ethmumbai_rok.Storage.Backend.{StorageBackend}
use ethmumbai_rok.Memory.{
  MemoryEntry, MemoryStore, write, grant_access, accept_proposal, reader_read, reader_list,
}
use ethmumbai_rok.Session.{
  Anyhow, message, wrapped, Outcome, done, failed, panicked, Role, owner, agent, Session, new_owner,
  new_agent, spend_key, read_key, memory_store_with, memory_reader_with, ◌>>=◌ as ◌>>=!◌,
}

-- `McpError`, with the template of its text: of a message, or of an error put in for `{e}`.
pub data McpError : Type 0 where
  invalid_params : Message → McpError
  invalid_because : String → RokError → McpError
  internal_error : String → Anyhow → McpError

-- `Result<_, McpError>`, of a handler that may panic.
pub data Reply (A : Type 0) : Type 0 where
  reply : A → Reply A
  refused : McpError → Reply A
  crashed : Reply A

infixl 5 ◌>>=◌
abbrev pub ◌>>=◌ : {X Y : Type 0} → Reply X → (X → Reply Y) → Reply Y
reply x >>= next = next x
refused e >>= next = refused e
crashed >>= next = crashed

-- To split on a computed reply and keep the equation.
pub Reply-cases :
    {A : Type 0} (r : Reply A)
    → ((x : A) × (r ≡ reply x)) ⊎ (((e : McpError) × (r ≡ refused e)) ⊎ (r ≡ crashed))
Reply-cases (reply x) = inl (x, refl)
Reply-cases (refused e) = inr (inl (e, refl))
Reply-cases crashed = inr (inr refl)

-- `r.map_err(|e| McpError::internal_error(format!(..), None))`
abbrev pub or_internal : {X : Type 0} → String → Outcome X → Reply X
or_internal s (done x) = reply x
or_internal s (failed e) = refused (internal_error s e)
or_internal s panicked = crashed

abbrev pub of_result : {X : Type 0} → Result X → Outcome X
of_result (ok x) = done x
of_result (err e) = failed (wrapped e)
of_result panic = panicked

-- `Scope::new(&params.scope).map_err(..)`
abbrev pub scope_param : Result Scope → Reply Scope
scope_param (ok s) = reply s
scope_param (err e) = refused (invalid_because "invalid scope: {e}" e)
scope_param panic = crashed

abbrev pub or_invalid : {X : Type 0} → Option X → String → Reply X
or_invalid none s = refused (invalid_params (text s))
or_invalid (some x) s = reply x

pub record LoginParams : Type 0 where
  pub api_key : Bytes
  pub fileverse_url : Bytes
  pub spend_seed : Option Bytes
  pub read_key : Option Bytes
  pub spend_public : Option Bytes
  pub scope : Bytes

pub record WriteParams : Type 0 where
  pub scope : Bytes
  pub key : Bytes
  pub content : Bytes

pub record ReadParams : Type 0 where
  pub scope : Bytes
  pub key : Bytes

pub record ProposeParams : Type 0 where
  pub scope : Bytes
  pub key : Bytes
  pub content : Bytes
  pub agent_id : Bytes

-- What `rok_memory:list` prints: the count, and a line for each memory.
pub record MemoryLine : Type 0 where
  pub scope : Scope
  pub key : Bytes
  pub preview : Bytes

pub record RokService (b : StorageBackend) : Type 0 where
  pub session : Option Session
  pub auto_load : Bool
  pub backend : b.State

abbrev pub no_session : String
no_session = "no active session — call rok_memory:login first"

-- `if session.role != Role::Owner { return Err(..) }`
unfoldable pub owner_only : Session → String → Reply (Unit {0})
owner_only session s = elim session.role [
  | owner ↦ reply tt
  | agent ↦ refused (invalid_params (text s))
]

-- Whether a text of more than `i` bytes can be cut there: not in front of a continuation byte.
unfoldable pub is_char_boundary : ℕ → Bytes → Bool
is_char_boundary i s = elim (get_elem? s i) [
  | none ↦ false
  | some byte ↦ if leb 128 byte then leb 192 byte else true
]

-- The preview of a memory, in `list`; slicing inside of a character panics.
unfoldable pub preview : Bytes → Reply Bytes
preview s =
    if ltb 120 (length s)
    then (if is_char_boundary 120 s then reply (take 120 s ++ 226 ∷ 128 ∷ 166 ∷ []) else crashed)
    else reply s

module _ (c : Crypto) (b : StorageBackend) where
  unfoldable pub count_memories : Session → b.State → Outcome ℕ
  count_memories session backend = memory_reader_with c b session backend >>=! λ reader.
      read_key c session >>=! λ key.
      of_result (reader_list c b reader key) >>=! λ entries. done (length entries)

  unfoldable pub start : RokService b → Reply Session → Reply Session × RokService b
  start self (reply session) = (reply session, record self { session = some session })
  start self (refused e) = (refused e, self)
  start self crashed = (crashed, self)

  unfoldable pub logout : RokService b → Reply Message × RokService b
  logout self = elim self.session [
    | none ↦ (refused (invalid_params (text "no active session")), self)
    | some s ↦
        (reply (text "rok session ended, credentials cleared"), record self { session = none })
  ]

  -- A write that succeeded leaves its store's backend.
  unfoldable pub commit :
      RokService b → Reply (Bytes × MemoryStore b × Rng) → Reply Bytes × RokService b
  commit self (reply (id, store, rng)) = (reply id, record self { backend = store.backend })
  commit self (refused e) = (refused e, self)
  commit self crashed = (crashed, self)

  unfoldable pub write_stored :
      RokService b → WriteParams → ℕ → Rng → Reply (Bytes × MemoryStore b × Rng)
  unfolding owner_only
  write_stored self params now rng = do
    session ← or_invalid self.session no_session
    checked ←
        owner_only session
          "write requires owner role — use rok_memory:propose to stage changes as agent"
    scope ← scope_param (Scope.new params.scope)
    store ← or_internal "{e}" (memory_store_with c b session self.backend)
    or_internal "write failed: {e}"
        (of_result (write c b store scope params.key params.content now rng))

  -- The reply is the identifier of the memory.
  unfoldable pub write_memory : RokService b → WriteParams → ℕ → Rng → Reply Bytes × RokService b
  unfolding write_stored commit
  write_memory self params now rng = commit self (write_stored self params now rng)

  -- The reply holds the two texts for the agent: the read key and the spend public key.
  unfoldable pub grant : RokService b → Bytes → Reply (Bytes × Bytes)
  unfolding owner_only
  grant self scope_text = do
    session ← or_invalid self.session no_session
    checked ← owner_only session "grant requires owner role (spend seed)"
    scope ← scope_param (Scope.new scope_text)
    store ← or_internal "{e}" (memory_store_with c b session self.backend)
    exported ← or_internal "grant failed: {e}" (of_result (grant_access c b store scope))
    spend ← or_internal "{e}" (spend_key session)
    reply (encode_exported_read_key c exported, encode_spend_public c (c.verifying_key spend.seed))

  unfoldable pub accept :
      RokService b → Session → Scope → ProposeParams → ℕ → Rng → Reply (Bytes × MemoryStore b × Rng)
  accept self session scope params now rng = do
    store ← or_internal "{e}" (memory_store_with c b session self.backend)
    or_internal "accept failed: {e}" (
        of_result (
          accept_proposal c b store
            (record {
              scope = scope;
              key = params.key;
              plaintext = params.content;
              proposed_by = params.agent_id;
            })
            now rng))

  -- The identifier of an accepted memory, or none for a proposal that is only staged.
  unfoldable pub accepted : Reply Bytes × RokService b → Reply (Option Bytes) × RokService b
  accepted (r, next) = (r >>= λ id. reply (some id), next)

  unfoldable pub propose_as :
      RokService b
      → ProposeParams
      → ℕ
      → Rng
      → Reply (Session × Scope)
      → Reply (Option Bytes) × RokService b
  unfolding accept commit accepted
  propose_as self params now rng (reply (session, scope)) = elim session.role [
    | owner ↦ accepted (commit self (accept self session scope params now rng))
    | agent ↦ (reply none, self)
  ]
  propose_as self params now rng (refused e) = (refused e, self)
  propose_as self params now rng crashed = (crashed, self)

  unfoldable pub propose :
      RokService b → ProposeParams → ℕ → Rng → Reply (Option Bytes) × RokService b
  unfolding propose_as
  propose self params now rng = propose_as self params now rng (do
    session ← or_invalid self.session no_session
    scope ← scope_param (Scope.new params.scope)
    reply (session, scope))

  -- The role, the scope and the count of the active session.
  unfoldable pub status : RokService b → Option (Role × Scope × ℕ)
  status self = elim self.session [
    | none ↦ none
    | some session ↦ some (session.role, session.scope, session.memory_count)
  ]

  module _ (hex_decode : Bytes → Option Bytes) where
    -- The session that `login` makes of its parameters.
    unfoldable pub login_session : LoginParams → Scope → Reply Session
    login_session params scope = elim params.spend_seed [
      | some seed_hex ↦ or_invalid (hex_decode seed_hex) "invalid hex: {e}" >>= λ seed.
          if length seed == 32
          then reply (new_owner seed scope params.fileverse_url params.api_key)
          else refused (
              invalid_params (
                format "spend seed must be 32 bytes (64 hex chars), got {}"
                  (num (length seed) ∷ [])))
      | none ↦ elim params.read_key [
        | some rk ↦ elim params.spend_public [
          | some sp ↦ reply (new_agent rk sp scope params.fileverse_url params.api_key)
          | none ↦ refused (
              invalid_params
                (text "provide either spend_seed (owner) or read_key + spend_public (agent)"))
        ]
        | none ↦ refused (
            invalid_params
              (text "provide either spend_seed (owner) or read_key + spend_public (agent)"))
      ]
    ]

    -- `login`, up to the session that it stores.
    unfoldable pub login_counted : LoginParams → b.State → Reply Session
    unfolding login_session count_memories
    login_counted params backend = do
      scope ← scope_param (Scope.new params.scope)
      session ← login_session params scope
      count ← or_internal "login failed: {e}" (count_memories session backend)
      reply (record session { memory_count = count })

    -- The reply is the session whose role, scope and count the text names.
    unfoldable pub login : RokService b → LoginParams → Reply Session × RokService b
    unfolding login_counted start
    login self params = start self (login_counted params self.backend)

  module _ (from_utf8_lossy : Bytes → Bytes) where
    unfoldable pub lines : List MemoryEntry → Reply (List MemoryLine)
    unfolding preview
    lines [] = reply []
    lines (e ∷ es) =
        let rest = lines es in
        preview (from_utf8_lossy e.content) >>= λ shown.
        rest >>= λ others. reply (record { scope = e.scope; key = e.key; preview = shown } ∷ others)

    unfoldable pub list : RokService b → Reply (List MemoryLine)
    unfolding lines
    list self = do
      session ← or_invalid self.session no_session
      reader ← or_internal "{e}" (memory_reader_with c b session self.backend)
      key ← or_internal "{e}" (read_key c session)
      entries ← or_internal "list failed: {e}" (of_result (reader_list c b reader key))
      lines entries

    unfoldable pub read : RokService b → ReadParams → Reply Bytes
    read self params = do
      session ← or_invalid self.session no_session
      scope ← scope_param (Scope.new params.scope)
      reader ← or_internal "{e}" (memory_reader_with c b session self.backend)
      key ← or_internal "{e}" (read_key c session)
      contents ←
          or_internal "read failed: {e}" (of_result (reader_read c b reader key scope params.key))
      reply (from_utf8_lossy contents)
