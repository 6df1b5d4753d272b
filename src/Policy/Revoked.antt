-- ===== src/Policy/Revoked.antt =====
-- crates/rok-sdk/src/policy.rs: policies with one rule for each scope, and what `revoke` takes away.
use ethmumbai_rok.Common.{
  ℕ, Bytes, Bool, Bool-cases, inl, inr, false, not, ◌&&◌, ◌||◌, ◌≡◌, refl, ◌∙◌, Option, List, [],
  ◌∷◌, arith, any, bytes_eq, bytes_eq→eq, bytes_eq_sym,
}
use ethmumbai_rok.Crypto.{Crypto}
use ethmumbai_rok.Scope.{Scope}
use ethmumbai_rok.Keys.{to_base58}
use ethmumbai_rok.Policy.{
  AccessRule, AccessPolicy, new, holds, grant_rules, without, revoke_rules, applies,
  key_ids_for_scope, grant, revoke,
}
use ethmumbai_rok.Policy.Granted.{holds-key_ids_for_scope}

-- No two rules have the same scope.
abbrev pub OneRule : List AccessRule → Type 0
OneRule [] = Unit {0}
OneRule (r ∷ rs) = (any (λ x. bytes_eq x.scope r.scope) rs ≡ false) × OneRule rs

-- The policies that a run of grants and revocations can reach.
pub data Reached (c : Crypto) : AccessPolicy → Type 0 where
  started : Reached c new
  granted :
      (p : AccessPolicy) (s : Scope) (key_id : Bytes) (e : Option ℕ)
      → Reached c p
      → Reached c (grant c p s key_id e)
  revoked :
      (p : AccessPolicy) (s : Scope) (key_id : Bytes)
      → Reached c p
      → Reached c (revoke c p s key_id)

grant-scopes :
    (o scope id : Bytes) (e : Option ℕ) (rs : List AccessRule)
    → any (λ r. bytes_eq r.scope o) (grant_rules scope id e rs)
      ≡ (any (λ r. bytes_eq r.scope o) rs || bytes_eq scope o)
unfolding grant_rules
grant-scopes o scope id e [] = ground arith
grant-scopes o scope id e (r ∷ rs) = elim (Bool-cases (bytes_eq r.scope scope)) [
  | inl b ↦
      let same = bytes_eq→eq r.scope scope b in
      elim (Bool-cases (holds id r.recipient_key_ids)) [
        | inl l ↦ rw (b, l, same) (ground arith)
        | inr l ↦ rw (b, l, same) (ground arith)
      ]
  | inr b ↦ rw (b, grant-scopes o scope id e rs) (ground arith)
]

revoke-scopes :
    (o scope id : Bytes) (rs : List AccessRule)
    → any (λ r. bytes_eq r.scope o) (revoke_rules scope id rs) ≡ any (λ r. bytes_eq r.scope o) rs
unfolding revoke_rules
revoke-scopes o scope id [] = refl
revoke-scopes o scope id (r ∷ rs) = elim (Bool-cases (bytes_eq r.scope scope)) [
  | inl b ↦ rw b refl
  | inr b ↦ rw (b, revoke-scopes o scope id rs) refl
]

grant-OneRule :
    (scope id : Bytes) (e : Option ℕ) (rs : List AccessRule)
    → OneRule rs
    → OneRule (grant_rules scope id e rs)
unfolding grant_rules
grant-OneRule scope id e [] h = (refl, tt)
grant-OneRule scope id e (r ∷ rs) (h, hs) = elim (Bool-cases (bytes_eq r.scope scope)) [
  | inl b ↦ elim (Bool-cases (holds id r.recipient_key_ids)) [
    | inl l ↦ rw (b, l) (h, hs)
    | inr l ↦ rw (b, l) (h, hs)
  ]
  | inr b ↦ rw b (
    grant-scopes r.scope scope id e rs ∙ rw (h, bytes_eq_sym scope r.scope, b) refl,
    grant-OneRule scope id e rs hs,
  )
]

revoke-OneRule :
    (scope id : Bytes) (rs : List AccessRule) → OneRule rs → OneRule (revoke_rules scope id rs)
unfolding revoke_rules
revoke-OneRule scope id [] h = tt
revoke-OneRule scope id (r ∷ rs) (h, hs) = elim (Bool-cases (bytes_eq r.scope scope)) [
  | inl b ↦ rw b (h, hs)
  | inr b ↦ rw b (revoke-scopes r.scope scope id rs ∙ h, revoke-OneRule scope id rs hs)
]

Reached-OneRule : (c : Crypto) (p : AccessPolicy) → Reached c p → OneRule p.rules
unfolding new grant revoke
Reached-OneRule c _ started = tt
Reached-OneRule c _ (granted p s key_id e r) =
    grant-OneRule s.path (to_base58 c key_id) e p.rules (Reached-OneRule c p r)
Reached-OneRule c _ (revoked p s key_id r) =
    revoke-OneRule s.path (to_base58 c key_id) p.rules (Reached-OneRule c p r)

holds-without : (id : Bytes) (ks : List Bytes) → holds id (without id ks) ≡ false
unfolding holds without
holds-without id [] = refl
holds-without id (k ∷ ks) = elim (Bool-cases (bytes_eq k id)) [
  | inl b ↦ rw b (holds-without id ks)
  | inr b ↦ rw (b, b) (holds-without id ks)
]

module _ (id scope : Bytes) (t : Scope) (now : ℕ) where
  -- The rule lists the key for the scope `t`, and is no rule of the scope revoked from.
  abbrev elsewhere : AccessRule → Bool
  elsewhere r = applies r t now && holds id r.recipient_key_ids && not (bytes_eq r.scope scope)

  any-elsewhere :
      (rs : List AccessRule)
      → any (λ r. bytes_eq r.scope scope) rs ≡ false
      → any (λ r. applies r t now && holds id r.recipient_key_ids) rs ≡ any elsewhere rs
  any-elsewhere [] h = refl
  any-elsewhere (r ∷ rs) h = elim (Bool-cases (bytes_eq r.scope scope)) [
    | inl b ↦ absurd (cc (rw b at h))
    | inr b ↦ rw (b, any-elsewhere rs (rw b at h)) (ground arith)
  ]

  any-revoke_rules :
      (rs : List AccessRule)
      → OneRule rs
      → any (λ r. applies r t now && holds id r.recipient_key_ids) (revoke_rules scope id rs)
        ≡ any elsewhere rs
  unfolding revoke_rules
  any-revoke_rules [] h = refl
  any-revoke_rules (r ∷ rs) (h, hs) = elim (Bool-cases (bytes_eq r.scope scope)) [
    | inl b ↦
        let rest = any-elsewhere rs (rw (bytes_eq→eq r.scope scope b) at h) in
        rw (b, holds-without id r.recipient_key_ids, rest) (ground arith)
    | inr b ↦ rw (b, any-revoke_rules rs hs) (ground arith)
  ]

-- In a policy reached by grants and revocations, after a key was revoked at a scope, it is listed
-- for a scope exactly if a rule of another scope applies there and holds it.
pub revoke-lists :
    (c : Crypto) (p : AccessPolicy) (s t : Scope) (key_id : Bytes) (now : ℕ)
    → Reached c p
    → holds (to_base58 c key_id) (key_ids_for_scope (revoke c p s key_id) t now)
      ≡ any
          (λ r.
            applies r t now
            && holds (to_base58 c key_id) r.recipient_key_ids
            && not (bytes_eq r.scope s.path))
          p.rules
unfolding revoke
revoke-lists c p s t key_id now r =
    holds-key_ids_for_scope (revoke c p s key_id) t now (to_base58 c key_id)
    ∙ any-revoke_rules (to_base58 c key_id) s.path t now p.rules (Reached-OneRule c p r)
