-- ===== src/Policy/Exchange.antt =====
-- crates/rok-sdk/src/policy.rs: the policy as a protobuf message and its bytes.
use ethmumbai_rok.Common.{
  ℕ, zero, suc, ◌^◌, ◌<◌, Bytes, true, false, not, ◌≡◌, ◌≢◌, ◌∙◌, refl, sym, ap, Option, none, some,
  List, [], ◌∷◌, map, arith, length, All, lt→ltb, ◌==◌, if◌then◌else◌,
}
use ethmumbai_rok.Error.{Result, ok, err, panic, ◌>>=◌}
use ethmumbai_rok.Crypto.{Crypto, CryptoLaws}
use ethmumbai_rok.Text.Utf8.{is_utf8}
use ethmumbai_rok.Scope
use ethmumbai_rok.Scope.{Scope, is_empty, is_ancestor_of}
use ethmumbai_rok.Scope.Ancestry.{is_ancestor_of_refl}
use ethmumbai_rok.Keys.{from_base58, to_base58}
use ethmumbai_rok.Proto.Messages
use ethmumbai_rok.Proto.Messages.{Prost, ProstLaws}
use ethmumbai_rok.Proto.Container.{policy_bytes, policy_from_bytes}
use ethmumbai_rok.Policy.{AccessRule, AccessPolicy, applies, is_expired}

-- `r.expires_at.unwrap_or(0)`
unfoldable pub expiry_or_zero : Option ℕ → ℕ
expiry_or_zero none = 0
expiry_or_zero (some e) = e

-- `if r.expires_at == 0 { None } else { Some(r.expires_at) }`
unfoldable pub expiry_of : ℕ → Option ℕ
expiry_of e = if e == 0 then none else some e

expiry_round_trip : (e : Option ℕ) → e ≢ some 0 → expiry_of (expiry_or_zero e) ≡ e
unfolding expiry_of expiry_or_zero
expiry_round_trip none nz = refl
expiry_round_trip (some zero) nz = absurd (nz refl)
expiry_round_trip (some (suc n)) nz = ground arith

module _ (c : Crypto) where
  -- An identifier that does not decode becomes empty bytes.
  unfoldable pub id_bytes : Bytes → Bytes
  id_bytes kid_b58 = elim (from_base58 c kid_b58) [ ok kid ↦ kid | err e ↦ [] | panic ↦ [] ]

  unfoldable pub rule_to_proto : AccessRule → Messages.AccessRule
  unfolding id_bytes expiry_or_zero
  rule_to_proto r = record {
    scope = r.scope;
    recipient_key_ids = map id_bytes r.recipient_key_ids;
    expires_at = expiry_or_zero r.expires_at;
  }

  unfoldable pub to_proto : AccessPolicy → Messages.AccessPolicy
  unfolding rule_to_proto
  to_proto self = record { rules = map rule_to_proto self.rules }

  -- The `map` and the `filter` over the identifiers.
  unfoldable pub ids_of : List Bytes → List Bytes
  ids_of [] = []
  ids_of (bytes ∷ rest) =
      let id = if length bytes == 8 then to_base58 c bytes else [] in
      if not (is_empty id) then id ∷ ids_of rest else ids_of rest

  unfoldable pub rule_of : Messages.AccessRule → AccessRule
  unfolding ids_of expiry_of
  rule_of r = record {
    scope = r.scope;
    recipient_key_ids = ids_of r.recipient_key_ids;
    expires_at = expiry_of r.expires_at;
  }

  unfoldable pub from_proto : Messages.AccessPolicy → Result AccessPolicy
  unfolding rule_of
  from_proto proto = ok (record { rules = map rule_of proto.rules })

  module _ (p : Prost) where
    unfoldable pub to_proto_bytes : AccessPolicy → Bytes
    unfolding to_proto
    to_proto_bytes self = policy_bytes p (to_proto self)

    unfoldable pub from_proto_bytes : Bytes → Result AccessPolicy
    unfolding from_proto
    from_proto_bytes bytes = policy_from_bytes p bytes >>= λ proto. from_proto proto

  -- An identifier that `grant` writes: the text, not empty, of 8 bytes.
  pub record IsKeyText (id : Bytes) : Type 0 where
    pub key_id : Bytes
    pub size : length key_id ≡ 8
    pub text_of : id ≡ to_base58 c key_id
    pub written : is_empty id ≡ false

  pub record IsRule (r : AccessRule) : Type 0 where
    pub scope_utf8 : is_utf8 r.scope ≡ true
    pub expires_size : expiry_or_zero r.expires_at < 2 ^ 64
    pub ids : All IsKeyText r.recipient_key_ids

  id_bytes-IsKeyText : CryptoLaws c → (id : Bytes) (h : IsKeyText id) → id_bytes id ≡ h.key_id
  unfolding id_bytes from_base58 to_base58
  id_bytes-IsKeyText laws id h =
      let decoded : c.base58_decode id ≡ some h.key_id =
        rw h.text_of (laws.base58_round_trip h.key_id) in
      rw (id_bytes, from_base58, decoded, h.size) refl

  ids_of-id_bytes :
      CryptoLaws c → (ids : List Bytes) → All IsKeyText ids → ids_of (map id_bytes ids) ≡ ids
  unfolding ids_of
  ids_of-id_bytes laws [] h = refl
  ids_of-id_bytes laws (id ∷ ids) (h, hs) =
      rw
        (
          ids_of,
          id_bytes-IsKeyText laws id h,
          h.size,
          sym h.text_of,
          h.written,
          ids_of-id_bytes laws ids hs,
        )
        refl

  -- The rule as it is read back.
  abbrev reread : AccessRule → AccessRule
  reread r = record r { expires_at = expiry_of (expiry_or_zero r.expires_at) }

  reread_id : (r : AccessRule) → r.expires_at ≢ some 0 → reread r ≡ r
  reread_id r nz = ap (λ e. record r { expires_at = e }) (expiry_round_trip r.expires_at nz)

  rule_of-rule_to_proto :
      CryptoLaws c → (r : AccessRule) → IsRule r → rule_of (rule_to_proto r) ≡ reread r
  unfolding rule_of rule_to_proto
  rule_of-rule_to_proto laws r h = rw (ids_of-id_bytes laws r.recipient_key_ids h.ids) refl

  map-rule_of :
      CryptoLaws c
      → (rs : List AccessRule) → All IsRule rs
      → All (λ r. r.expires_at ≢ some 0) rs
      → map rule_of (map rule_to_proto rs) ≡ rs
  map-rule_of laws [] h nz = refl
  map-rule_of laws (r ∷ rs) (h, hs) (nz, nzs) =
      rw (rule_of-rule_to_proto laws r h, reread_id r nz, map-rule_of laws rs hs nzs) refl

  to_proto-IsRule :
      (rs : List AccessRule) → All IsRule rs → All Messages.IsRule (map rule_to_proto rs)
  unfolding rule_to_proto
  to_proto-IsRule [] h = tt
  to_proto-IsRule (r ∷ rs) (h, hs) =
      (record { scope_utf8 = h.scope_utf8; expires_size = h.expires_size }, to_proto-IsRule rs hs)

  module _ (laws : CryptoLaws c) (p : Prost) (pl : ProstLaws p) where
    exchange :
        (a : AccessPolicy)
        → All IsRule a.rules
        → from_proto_bytes p (to_proto_bytes p a)
          ≡ ok (record { rules = map rule_of (map rule_to_proto a.rules) })
    unfolding from_proto_bytes to_proto_bytes policy_bytes policy_from_bytes from_proto to_proto
    exchange a h = rw (pl.policy_round_trip (to_proto a) (to_proto-IsRule a.rules h)) refl

    -- A policy whose scopes are UTF-8, whose expiries fit 64 bits and are not 0, and whose
    -- identifiers are texts, not empty, of 8 bytes, is read back whole from its protobuf bytes,
    -- under the laws of prost and of base58.
    pub from_proto_bytes-to_proto_bytes :
        (a : AccessPolicy)
        → All IsRule a.rules
        → All (λ r. r.expires_at ≢ some 0) a.rules
        → from_proto_bytes p (to_proto_bytes p a) ≡ ok a
    from_proto_bytes-to_proto_bytes a h nz =
        exchange a h ∙ ap (λ rs. ok (record { rules = rs })) (map-rule_of laws a.rules h nz)

    -- A rule with the expiry 0, a valid scope and identifiers that are texts, not empty, of 8
    -- bytes does not apply at its own scope at any time after 1970; the rule that is read back
    -- from the protobuf bytes of the policy with this rule alone applies there at every such
    -- time, under the laws of prost and of base58.
    pub exchange_revives :
        (r : AccessRule) (scope : Scope) (now : ℕ)
        → IsRule r
        → r.expires_at ≡ some 0
        → 0 < now
        → Scope.new r.scope ≡ ok scope
        → (r' : AccessRule) × (from_proto_bytes p (to_proto_bytes p (record { rules = r ∷ [] }))
            ≡ ok (record { rules = r' ∷ [] }))
          × (applies r scope now ≡ false)
          × (applies r' scope now ≡ true)
    unfolding applies is_expired
    exchange_revives r scope now h zero_expiry later made =
        let above = is_ancestor_of_refl scope in
        (
          reread r,
          exchange (record { rules = r ∷ [] }) (h, tt)
              ∙ ap (λ x. ok (record { rules = x ∷ [] })) (rule_of-rule_to_proto laws r h),
          rw (applies, made, above, zero_expiry, lt→ltb 0 now later) refl,
          unfold expiry_of expiry_or_zero in rw (applies, made, above, zero_expiry) refl,
        )
