-- ===== src/Encrypt/Wrapping.antt =====
-- crates/rok-core/src/encrypt.rs: the wrapping of the data key, `wrap_all` and `find_entry`.
use ethmumbai_rok.Common.{
  Bytes, ◌≡◌, refl, sym, Bool-cases, inl, inr, Option, none, some, List, [], ◌∷◌, arith, bytes_eq,
  bytes_eq→eq, length, if◌then◌else◌,
}
use ethmumbai_rok.Error.{ok}
use ethmumbai_rok.Crypto.{Crypto, CryptoLaws, Rng, fill_bytes}
use ethmumbai_rok.Derive.{derive_wrapping_key, domain_key_wrap}
use ethmumbai_rok.Envelope.{AccessEntry}
use ethmumbai_rok.Encrypt.{Recipient, find_entry, wrap_data_key, unwrap_data_key, wrap_all}

-- The first recipient that has the identifier.
unfoldable pub find_recipient : Bytes → List Recipient → Option Recipient
find_recipient id [] = none
find_recipient id (r ∷ rs) = if bytes_eq r.key_id id then some r else find_recipient id rs

module _ (c : Crypto) where
  -- The entry of `r`, which opens to the data key under the secret that `r` shares.
  abbrev pub Opens : Bytes → Bytes → Recipient → AccessEntry → Type 0
  Opens data_key ephemeral r e =
      (e.read_key_id ≡ r.key_id)
      × (unwrap_data_key c e (c.diffie_hellman ephemeral r.read_public_key) r.key_id ≡ ok data_key)

  abbrev pub Wrapped : Bytes → Bytes → List Recipient → List AccessEntry → Type 0
  Wrapped data_key ephemeral [] [] = Unit {0}
  Wrapped data_key ephemeral [] (e ∷ es) = ⊥
  Wrapped data_key ephemeral (r ∷ rs) [] = ⊥
  Wrapped data_key ephemeral (r ∷ rs) (e ∷ es) =
      Opens data_key ephemeral r e × Wrapped data_key ephemeral rs es

  pub length-derive_wrapping_key :
      CryptoLaws c → (s id : Bytes) → length (derive_wrapping_key c s id) ≡ 32
  unfolding derive_wrapping_key
  length-derive_wrapping_key laws s id = laws.length-hkdf domain_key_wrap s id

  -- Wrapping a key of 32 bytes never fails, and what it wraps is unwrapped again.
  pub unwrap-wrap :
      CryptoLaws c
      → (data_key shared id : Bytes) (rng : Rng) → length data_key ≡ 32
      → (e : AccessEntry) × (rng' : Rng) × (wrap_data_key c data_key shared id rng ≡ ok (e, rng'))
        × (e.read_key_id ≡ id)
        × (unwrap_data_key c e shared id ≡ ok data_key)
  unfolding wrap_data_key unwrap_data_key
  unwrap-wrap laws data_key shared id rng hk =
      let key = derive_wrapping_key c shared id in
      let nonce = (fill_bytes 12 rng).0 in
      let init = laws.siv_init-key key (length-derive_wrapping_key laws shared id) in
      let (w, es, n, ed) =
        laws.siv_round_trip key nonce data_key (length-derive_wrapping_key laws shared id)
          (omega (arith, hk)) in
      (
        record { read_key_id = id; wrapped_data_key = w; wrap_nonce = nonce },
        (fill_bytes 12 rng).1,
        rw (init, es) refl,
        refl,
        rw (init, ed) refl,
      )

  pub wrap_all-Wrapped :
      CryptoLaws c
      → (data_key ephemeral : Bytes) (rs : List Recipient) (rng : Rng) → length data_key ≡ 32
      → (es : List AccessEntry) × (rng' : Rng) × (wrap_all c data_key ephemeral rs rng
          ≡ ok (es, rng'))
        × Wrapped data_key ephemeral rs es
  unfolding wrap_all
  wrap_all-Wrapped laws data_key ephemeral [] rng hk = ([], rng, refl, tt)
  wrap_all-Wrapped laws data_key ephemeral (r ∷ rs) rng hk =
      let (e, rng1, h, i, o) =
        unwrap-wrap laws data_key (c.diffie_hellman ephemeral r.read_public_key) r.key_id rng hk in
      let (es, rng2, hs, os) = wrap_all-Wrapped laws data_key ephemeral rs rng1 hk in
      (e ∷ es, rng2, rw (h, hs) refl, ((i, o), os))

  -- The entry found for an identifier is that of the first recipient who has it.
  pub find_entry-some :
      (data_key ephemeral id : Bytes) (rs : List Recipient) (es : List AccessEntry) (r : Recipient)
      → Wrapped data_key ephemeral rs es
      → find_recipient id rs ≡ some r
      → (e : AccessEntry) × (find_entry id es ≡ some e)
        × (r.key_id ≡ id)
        × Opens data_key ephemeral r e
  unfolding find_recipient find_entry
  find_entry-some data_key ephemeral id [] es r w h = cc
  find_entry-some data_key ephemeral id (x ∷ rs) [] r w h = absurd w
  find_entry-some data_key ephemeral id (x ∷ rs) (e ∷ es) r ((i, o), w) h =
      elim (Bool-cases (bytes_eq x.key_id id)) [
        | inl b ↦
            let er : x ≡ r = ground arith in
            (e, rw (i, b) refl, rw (sym er) (bytes_eq→eq x.key_id id b), rw (sym er) (i, o))
        | inr b ↦
            let (e', f, g, o') = find_entry-some data_key ephemeral id rs es r w (ground arith) in
            (e', rw (i, b) f, g, o')
      ]

  pub find_entry-none :
      (data_key ephemeral id : Bytes) (rs : List Recipient) (es : List AccessEntry)
      → Wrapped data_key ephemeral rs es
      → find_recipient id rs ≡ none
      → find_entry id es ≡ none
  unfolding find_recipient find_entry
  find_entry-none data_key ephemeral id [] [] w h = refl
  find_entry-none data_key ephemeral id [] (e ∷ es) w h = absurd w
  find_entry-none data_key ephemeral id (x ∷ rs) [] w h = absurd w
  find_entry-none data_key ephemeral id (x ∷ rs) (e ∷ es) ((i, o), w) h =
      elim (Bool-cases (bytes_eq x.key_id id)) [
        | inl b ↦ cc (rw b at h)
        | inr b ↦ rw (i, b) (find_entry-none data_key ephemeral id rs es w (ground arith))
      ]
