-- ===== src/Service/Requests.antt =====
-- crates/rok-mcp/src/tools.rs: the tool calls of a session, one after the other.
use ethmumbai_rok.Common.{
  ℕ, Bytes, Bool, true, false, ◌≡◌, refl, ap, ◌∙◌, inl, inr, Option-cases, none, some, List, [],
  ◌∷◌,
}
use ethmumbai_rok.Error.{Result-cases}
use ethmumbai_rok.Crypto.{Crypto, Rng}
use ethmumbai_rok.Scope
use ethmumbai_rok.Scope.{Scope}
use ethmumbai_rok.Keys.{ReadKeyPair}
use ethmumbai_rok.Storage.Backend.{StorageBackend}
use ethmumbai_rok.Session.{Session, agent, read_key, memory_reader_with}
use ethmumbai_rok.Service.{
  Reply, reply, refused, crashed, or_internal, Reply-cases, owner_only, WriteParams, ReadParams,
  ProposeParams, RokService, logout, write_memory, write_stored, commit, propose, propose_as,
}
use ethmumbai_rok.Service.Sync.{
  SyncEntry, upsert, sync_scoped, sync_entry, then_rest, sync_loop, sync_with, sync,
}

-- A call of a tool that does not start a session. A call that writes comes with the clock and the
-- generator.
pub data Request : Type 0 where
  list_call status_call logout_call : Request
  read_call : ReadParams → Request
  write_call : WriteParams → ℕ → Rng → Request
  grant_call : Bytes → Request
  propose_call : ProposeParams → ℕ → Rng → Request
  sync_call : List SyncEntry → Request

module _ (c : Crypto) (b : StorageBackend) where
  -- The service that a call leaves.
  unfoldable pub handle : RokService b → Request → RokService b
  handle self list_call = self
  handle self status_call = self
  handle self logout_call = (logout c b self).1
  handle self (read_call params) = self
  handle self (write_call params now rng) = (write_memory c b self params now rng).1
  handle self (grant_call scope) = self
  handle self (propose_call params now rng) = (propose c b self params now rng).1
  handle self (sync_call entries) = (sync c b self entries).1

  unfoldable pub handle_all : RokService b → List Request → RokService b
  handle_all self [] = self
  handle_all self (r ∷ rs) = handle_all (handle self r) rs

  -- No session, or one of an agent.
  pub data NoOwner : RokService b → Type 0 where
    without : (s : RokService b) → s.session ≡ none → NoOwner s
    as_agent :
        (s : RokService b) (session : Session)
        → s.session ≡ some session
        → session.role ≡ agent
        → NoOwner s

  -- What a call of an agent leaves.
  abbrev Kept : RokService b → RokService b → Type 0
  Kept self next = (next.backend ≡ self.backend) × NoOwner next

  commit-refused :
      (self : RokService b) (params : WriteParams) (now : ℕ) (rng : Rng)
      → NoOwner self
      → (write_memory c b self params now rng).1 ≡ self
  unfolding write_memory write_stored commit owner_only
  commit-refused self params now rng (without s h) = rw h refl
  commit-refused self params now rng (as_agent s session h r) = rw (h, r) refl

  propose_as-agent :
      (self : RokService b) (params : ProposeParams) (now : ℕ) (rng : Rng) (session : Session)
      (scope : Scope)
      → session.role ≡ agent
      → (propose_as c b self params now rng (reply (session, scope))).1 ≡ self
  unfolding propose_as
  propose_as-agent self params now rng session scope r = rw r refl

  propose-agent :
      (self : RokService b) (params : ProposeParams) (now : ℕ) (rng : Rng)
      → NoOwner self
      → (propose c b self params now rng).1 ≡ self
  unfolding propose propose_as
  propose-agent self params now rng (without s h) = rw h refl
  propose-agent self params now rng (as_agent s session h r) =
      let next : Reply (Session × Scope) → RokService b =
        λ x. (propose_as c b self params now rng x).1 in
      elim (Result-cases (Scope.new params.scope)) [
        | inl (scope, e) ↦
            ap next {y = reply (session, scope)} (rw (h, e) refl)
            ∙ propose_as-agent self params now rng session scope r
        | inr (inl (bad, e)) ↦ rw (h, e) refl
        | inr (inr e) ↦ rw (h, e) refl
      ]

  upsert-agent :
      (session : Session) (scope : Scope) (entry : SyncEntry) (backend : b.State)
      (stored : Reply Bool)
      → session.role ≡ agent
      → (upsert c b session scope entry backend stored).1 ≡ backend
  unfolding upsert
  upsert-agent session scope entry backend (reply true) r = refl
  upsert-agent session scope entry backend (reply false) r = rw r refl
  upsert-agent session scope entry backend (refused e) r = refl
  upsert-agent session scope entry backend crashed r = refl

  sync_entry-agent :
      (session : Session) (vk : Bytes) (key : ReadKeyPair) (entry : SyncEntry) (backend : b.State)
      → session.role ≡ agent
      → (sync_entry c b session vk key entry backend).1 ≡ backend
  unfolding sync_entry sync_scoped
  sync_entry-agent session vk key entry backend r = elim (Result-cases (Scope.new entry.scope)) [
    | inl (scope, e) ↦ rw e (upsert-agent session scope entry backend _ r)
    | inr (inl (bad, e)) ↦ rw e refl
    | inr (inr e) ↦ rw e refl
  ]

  sync_loop-agent :
      (session : Session) (vk : Bytes) (key : ReadKeyPair) (entries : List SyncEntry)
      (backend : b.State)
      → session.role ≡ agent
      → (sync_loop c b session vk key entries backend).1 ≡ backend
  unfolding sync_loop then_rest
  sync_loop-agent session vk key [] backend r = refl
  sync_loop-agent session vk key (entry ∷ entries) backend r =
      let kept = sync_entry-agent session vk key entry backend r in
      let rest =
        sync_loop-agent session vk key entries (sync_entry c b session vk key entry backend).1 r in
      elim (Reply-cases (sync_entry c b session vk key entry backend).0) [
        | inl (t, e) ↦ rw (then_rest, e) (rest ∙ kept)
        | inr (inl (bad, e)) ↦ rw (then_rest, e) kept
        | inr (inr e) ↦ rw (then_rest, e) kept
      ]

  sync-agent :
      (self : RokService b) (entries : List SyncEntry)
      → NoOwner self
      → (sync c b self entries).1 ≡ self
  unfolding sync sync_with
  sync-agent self [] h = refl
  sync-agent self (entry ∷ entries) (without s h) = rw h refl
  sync-agent self (entry ∷ entries) (as_agent s session h r) =
      let next : Reply (Session × Bytes × ReadKeyPair) → RokService b =
        λ x. (sync_with c b self (entry ∷ entries) x).1 in
      elim (Reply-cases (or_internal "{e}" (memory_reader_with c b session self.backend))) [
        | inl (reader, e) ↦ elim (Reply-cases (or_internal "{e}" (read_key c session))) [
          | inl (key, k) ↦
              ap next {y = reply (session, reader.spend_vk, key)} (rw (h, e, k) refl)
              ∙ ap (λ backend. record self { backend = backend })
                  (sync_loop-agent session reader.spend_vk key (entry ∷ entries) self.backend r)
          | inr (inl (bad, k)) ↦ ap next {y = refused bad} (rw (h, e, k) refl)
          | inr (inr k) ↦ ap next {y = crashed} (rw (h, e, k) refl)
        ]
        | inr (inl (bad, e)) ↦ ap next {y = refused bad} (rw (h, e) refl)
        | inr (inr e) ↦ ap next {y = crashed} (rw (h, e) refl)
      ]

  logout-ended :
      (self : RokService b)
      → ((logout c b self).1.backend ≡ self.backend) × ((logout c b self).1.session ≡ none)
  unfolding logout
  logout-ended self = elim (Option-cases self.session) [
    | inl (session, e) ↦ rw e (refl, refl)
    | inr e ↦ rw e (refl, refl)
  ]

  handle-Kept : (self : RokService b) (r : Request) → NoOwner self → Kept self (handle self r)
  unfolding handle
  handle-Kept self list_call h = (refl, h)
  handle-Kept self status_call h = (refl, h)
  handle-Kept self logout_call h =
      let (kept, ended) = logout-ended self in (kept, without (logout c b self).1 ended)
  handle-Kept self (read_call params) h = (refl, h)
  handle-Kept self (write_call params now rng) h =
      rw (commit-refused self params now rng h) (refl, h)
  handle-Kept self (grant_call scope) h = (refl, h)
  handle-Kept self (propose_call params now rng) h =
      rw (propose-agent self params now rng h) (refl, h)
  handle-Kept self (sync_call entries) h = rw (sync-agent self entries h) (refl, h)

  -- Whatever tools are called in an agent's session or in none, in any order, by calls other than
  -- `setup` and `login`, the backend stays as it was, and the service keeps an agent's session or
  -- none.
  pub handle_all-agent :
      (self : RokService b) (rs : List Request)
      → NoOwner self
      → ((handle_all self rs).backend ≡ self.backend) × NoOwner (handle_all self rs)
  unfolding handle_all
  handle_all-agent self [] h = (refl, h)
  handle_all-agent self (r ∷ rs) h =
      let (kept, next) = handle-Kept self r h in
      let (rest, last) = handle_all-agent (handle self r) rs next in (rest ∙ kept, last)
