-- ===== src/Service/Synced.antt =====
-- crates/rok-mcp/src/tools.rs: `sync` of an owner's session, over any storage backend.
use ethmumbai_rok.Common.{
  ℕ, suc, ◌+◌, ◌^◌, ◌<◌, Bytes, ◌≡◌, ◌≢◌, ◌⊎◌, refl, sym, ap, subst, ◌∙◌, inl, inr, true, false,
  Bool-cases, some, List, [], ◌∷◌, arith, length, All, bytes_eq, bytes_eq_iff, bytes_eq_refl,
}
use ethmumbai_rok.Error.{Result, Result-cases, ok, panic}
use ethmumbai_rok.Crypto.{Crypto, CryptoLaws, Fills}
use ethmumbai_rok.Scope
use ethmumbai_rok.Scope.{Scope, is_ancestor_of}
use ethmumbai_rok.Scope.Segments.{IsSegment, of_segments, render}
use ethmumbai_rok.Scope.Validity.{new-ok_iff}
use ethmumbai_rok.Keys.{ReadKeyPair}
use ethmumbai_rok.Encrypt.Access.{HeldAt}
use ethmumbai_rok.Storage.Backend.{StorageBackend, StorageLaws}
use ethmumbai_rok.Memory
use ethmumbai_rok.Memory.{MemoryStore, read_from, reader_read, reader_new}
use ethmumbai_rok.Memory.Sealing.{reads}
use ethmumbai_rok.Memory.Answers.{read-write}
use ethmumbai_rok.Session.{Session, owner, memory_store_with, spend_key}
use ethmumbai_rok.Service.{reply}
use ethmumbai_rok.Service.Sync.{
  SyncEntry, Counts, no_counts, Turn, wrote, unchanged, count, is_stored, upsert, write_with,
  settle, sync_scoped, sync_entry, then_rest, sync_loop,
}

-- A session of an owner with a spend seed, at the scope of the segments.
pub record IsOwner (seed : Bytes) (us : List Bytes) (session : Session) : Type 0 where
  pub is_owner : session.role ≡ owner
  pub has_seed : session.credentials.spend_seed ≡ some seed
  pub at_scope : session.scope ≡ of_segments us

-- The backend stores whatever it is given.
abbrev pub Accepts : StorageBackend → Type 0
Accepts b =
    (s : b.State) (scope key contents : Bytes) (now : ℕ)
    → (id : Bytes) × (next : b.State) × (b.put s scope key contents now ≡ ok (id, next))

-- The entry is not at the scope under the key.
abbrev pub Apart : Bytes → Bytes → SyncEntry → Type 0
Apart scope key e = (e.scope ≢ scope) ⊎ (e.key ≢ key)

abbrev pub AllApart : List SyncEntry → Type 0
AllApart [] = Unit {0}
AllApart (e ∷ es) = All (Apart e.scope e.key) es × AllApart es

-- A turn that saved its entry.
abbrev pub Saves : Turn → Type 0
Saves t = (t ≡ wrote) ⊎ (t ≡ unchanged)

-- The counts of a loop that saved so many entries.
abbrev pub Saved : Counts → ℕ → Type 0
Saved n m = (n.written + n.skipped ≡ m) × (n.proposed ≡ 0) × (n.errors ≡ [])

abbrev pub all_skipped : ℕ → Counts
all_skipped m = record { written = 0; skipped = m; proposed = 0; errors = [] }

module _ (c : Crypto) (laws : CryptoLaws c) (b : StorageBackend) (bl : StorageLaws b) where
  -- An entry that the owner of a key at the scope `us` can store and read again.
  pub record IsEntry (us : List Bytes) (entry : SyncEntry) : Type 0 where
    pub segments : List Bytes
    pub all_segments : All IsSegment segments
    pub path_eq : entry.scope ≡ render segments
    pub below : is_ancestor_of (of_segments us) (of_segments segments) ≡ true
    pub scope_size : length (render segments) < 2 ^ 16
    pub content_size : length entry.content < 2 ^ 36
    pub is_key : bl.IsKey entry.key
    pub fills : Fills entry.rng

  -- What the reader gets for an entry.
  abbrev pub found : Bytes → ReadKeyPair → b.State → SyncEntry → Result Bytes
  found seed k s entry =
      read_from c b s (c.verifying_key seed) k (record { path = entry.scope }) entry.key

  abbrev pub Stored : Bytes → ReadKeyPair → b.State → SyncEntry → Type 0
  Stored seed k s entry = found seed k s entry ≡ ok entry.content

  -- Reading depends on what the backend has there.
  found-eq :
      (seed : Bytes) (k : ReadKeyPair) (s s' : b.State) (e : SyncEntry)
      → b.get_by_key s' e.scope e.key ≡ b.get_by_key s e.scope e.key
      → found seed k s' e ≡ found seed k s e
  unfolding read_from
  found-eq seed k s s' e h = rw h refl

  upsert-write :
      (seed : Bytes) (us : List Bytes) (session : Session) (k : ReadKeyPair) (entry : SyncEntry)
      (s : b.State)
      → Accepts b
      → IsOwner seed us session
      → All IsSegment us
      → HeldAt c laws (record { seed = seed }) us k
      → (h : IsEntry us entry)
      → (next : b.State) × (upsert c b session (of_segments h.segments) entry s (reply false)
          ≡ (reply wrote, next))
        × Stored seed k next entry
        × ((scope key : Bytes)
            → bl.IsKey key
            → Apart scope key entry
            → b.get_by_key next scope key ≡ b.get_by_key s scope key)
  unfolding upsert write_with settle memory_store_with spend_key Memory.new Memory.read
  upsert-write seed us session k entry s accepts ho hu hk h =
      let self : MemoryStore b = record { spend_key = record { seed = seed }; backend = s } in
      let (stored, rng', hw, answer) =
        read-write c laws b bl self us h.segments k entry.key entry.content entry.now entry.rng hu
          h.all_segments hk h.scope_size h.content_size h.fills in
      let readable : reads c laws self.spend_key k (of_segments h.segments) entry.content
          ≡ ok entry.content =
        rw (hk.at_scope, h.below) refl in
      let (id, next, hp) = accepts s (render h.segments) entry.key stored entry.now in
      (
        next,
        rw (ho.is_owner, ho.has_seed, hw, hp) refl,
        rw h.path_eq (answer id next hp ∙ readable),
        λ scope key hkey apart.
            bl.get_by_key-put_other s next (render h.segments) entry.key stored id entry.now scope
              key hp h.is_key hkey (rw h.path_eq at apart),
      )

  -- An entry that the session can save, whatever the backend has under its key.
  sync_entry-Saves :
      (seed : Bytes) (us : List Bytes) (session : Session) (k : ReadKeyPair) (entry : SyncEntry)
      (s : b.State)
      → Accepts b
      → IsOwner seed us session
      → All IsSegment us
      → HeldAt c laws (record { seed = seed }) us k
      → IsEntry us entry
      → found seed k s entry ≢ panic
      → (t : Turn) × (next : b.State) × (sync_entry c b session (c.verifying_key seed) k entry s
          ≡ (reply t, next))
        × Saves t
        × Stored seed k next entry
        × ((scope key : Bytes)
            → bl.IsKey key
            → Apart scope key entry
            → b.get_by_key next scope key ≡ b.get_by_key s scope key)
  unfolding sync_entry sync_scoped is_stored reader_read reader_new
  sync_entry-Saves seed us session k entry s accepts ho hu hk h calm =
      let valid : Scope.new entry.scope ≡ ok (record { path = entry.scope }) =
        (new-ok_iff entry.scope (record { path = entry.scope })).1
          (h.segments, h.all_segments, h.path_eq, rw h.path_eq refl) in
      let (next, up, kept, apart) = upsert-write seed us session k entry s accepts ho hu hk h in
      let written : upsert c b session (record { path = entry.scope }) entry s (reply false)
          ≡ (reply wrote, next) =
        subst
          (λ p.
            upsert c b session (record { path = p }) entry s (reply false) ≡ (reply wrote, next))
          (sym h.path_eq) up in
      elim (Result-cases (found seed k s entry)) [
        | inl (existing, e) ↦ elim (Bool-cases (bytes_eq existing entry.content)) [
          | inl q ↦ (
            unchanged,
            s,
            rw (valid, upsert, e, q) refl,
            inr refl,
            e ∙ ap ok ((bytes_eq_iff existing entry.content).0 q),
            λ scope key hkey d. refl,
          )
          | inr q ↦ (wrote, next, rw (valid, e, q) written, inl refl, kept, apart)
        ]
        | inr (inl (bad, e)) ↦ (wrote, next, rw (valid, e) written, inl refl, kept, apart)
        | inr (inr e) ↦ absurd (calm e)
      ]

  -- A second turn for an entry that is stored.
  sync_entry-Stored :
      (seed : Bytes) (us : List Bytes) (session : Session) (k : ReadKeyPair) (entry : SyncEntry)
      (s : b.State)
      → IsEntry us entry
      → Stored seed k s entry
      → sync_entry c b session (c.verifying_key seed) k entry s ≡ (reply unchanged, s)
  unfolding sync_entry sync_scoped is_stored reader_read reader_new upsert
  sync_entry-Stored seed us session k entry s h e =
      let valid : Scope.new entry.scope ≡ ok (record { path = entry.scope }) =
        (new-ok_iff entry.scope (record { path = entry.scope })).1
          (h.segments, h.all_segments, h.path_eq, rw h.path_eq refl) in
      rw (valid, e, bytes_eq_refl) refl

  sync_loop-cons :
      (session : Session) (vk : Bytes) (k : ReadKeyPair) (e : SyncEntry) (es : List SyncEntry)
      (s mid next : b.State) (t : Turn) (n : Counts)
      → sync_entry c b session vk k e s ≡ (reply t, mid)
      → sync_loop c b session vk k es mid ≡ (reply n, next)
      → sync_loop c b session vk k (e ∷ es) s ≡ (reply (count t n), next)
  unfolding sync_loop
  sync_loop-cons session vk k e es s mid next t n turn rest =
      ap (λ x. then_rest c b x.0 x.1 (sync_loop c b session vk k es x.1)) turn
      ∙ ap (then_rest c b (reply t) mid) rest
      ∙ unfold then_rest in refl

  pub sync_loop-Stored :
      (seed : Bytes) (us : List Bytes) (session : Session) (k : ReadKeyPair)
      (entries : List SyncEntry) (s : b.State)
      → All (IsEntry us) entries
      → All (Stored seed k s) entries
      → sync_loop c b session (c.verifying_key seed) k entries s
        ≡ (reply (all_skipped (length entries)), s)
  unfolding sync_loop count
  sync_loop-Stored seed us session k [] s h hs = refl
  sync_loop-Stored seed us session k (e ∷ es) s (he, h) (hse, hs) =
      sync_loop-cons session (c.verifying_key seed) k e es s s s unchanged (all_skipped (length es))
        (sync_entry-Stored seed us session k e s he hse)
        (sync_loop-Stored seed us session k es s h hs)

  count-Saved : (t : Turn) (n : Counts) (m : ℕ) → Saves t → Saved n m → Saved (count t n) (suc m)
  unfolding count
  count-Saved t n m (inl e) (hw, hp, he) = rw e (omega arith, hp, he)
  count-Saved t n m (inr e) (hw, hp, he) = rw e (omega arith, hp, he)

  Apart-sym : (e x : SyncEntry) → Apart e.scope e.key x → Apart x.scope x.key e
  Apart-sym e x (inl d) = inl (λ q. d (sym q))
  Apart-sym e x (inr d) = inr (λ q. d (sym q))

  still-calm :
      (seed : Bytes) (us : List Bytes) (k : ReadKeyPair) (e : SyncEntry) (es : List SyncEntry)
      (s mid : b.State)
      → All (IsEntry us) es
      → All (Apart e.scope e.key) es
      → All (λ x. found seed k s x ≢ panic) es
      → ((scope key : Bytes)
          → bl.IsKey key
          → Apart scope key e
          → b.get_by_key mid scope key ≡ b.get_by_key s scope key)
      → All (λ x. found seed k mid x ≢ panic) es
  still-calm seed us k e [] s mid h hd hc same = tt
  still-calm seed us k e (x ∷ xs) s mid (hx, h) (dx, hd) (cx, hc) same = (
    λ q. cx (sym (found-eq seed k s mid x (same x.scope x.key hx.is_key (Apart-sym e x dx))) ∙ q),
    still-calm seed us k e xs s mid h hd hc same,
  )

  pub sync_loop-Saved :
      (seed : Bytes) (us : List Bytes) (session : Session) (k : ReadKeyPair)
      (entries : List SyncEntry) (s : b.State)
      → Accepts b
      → IsOwner seed us session
      → All IsSegment us
      → HeldAt c laws (record { seed = seed }) us k
      → All (IsEntry us) entries
      → AllApart entries
      → All (λ e. found seed k s e ≢ panic) entries
      → (n : Counts) × (next : b.State) × (sync_loop c b session (c.verifying_key seed) k entries s
          ≡ (reply n, next))
        × Saved n (length entries)
        × All (Stored seed k next) entries
        × ((scope key : Bytes)
            → bl.IsKey key
            → All (Apart scope key) entries
            → b.get_by_key next scope key ≡ b.get_by_key s scope key)
  unfolding sync_loop
  sync_loop-Saved seed us session k [] s accepts ho hu hk hi ha hc =
      (no_counts, s, refl, (refl, refl, refl), tt, λ scope key hkey d. refl)
  sync_loop-Saved seed us session k (e ∷ es) s accepts ho hu hk (he, hi) (hd, ha) (hce, hc) =
      let (t, mid, turn, saves, stored, same) =
        sync_entry-Saves seed us session k e s accepts ho hu hk he hce in
      let (n, next, loop, saved, all_stored, rest) =
        sync_loop-Saved seed us session k es mid accepts ho hu hk hi ha
          (still-calm seed us k e es s mid hi hd hc same) in
      (
        count t n,
        next,
        sync_loop-cons session (c.verifying_key seed) k e es s mid next t n turn loop,
        count-Saved t n (length es) saves saved,
        (found-eq seed k mid next e (rest e.scope e.key he.is_key hd) ∙ stored, all_stored),
        λ scope key hkey (d, ds). rest scope key hkey ds ∙ same scope key hkey d,
      )
