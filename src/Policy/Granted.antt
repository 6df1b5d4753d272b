-- ===== src/Policy/Granted.antt =====
-- crates/rok-sdk/src/policy.rs: which key identifiers a scope lists, and what `grant` adds.
use ethmumbai_rok.Common.{
  ℕ, Bytes, Bool-cases, inl, inr, true, false, ◌&&◌, ◌||◌, ◌≡◌, refl, ◌∙◌, Option, List, [], ◌∷◌,
  ◌++◌, arith, All, any, bytes_eq, bytes_eq→eq, bytes_eq_refl, if◌then◌else◌,
}
use ethmumbai_rok.Crypto.{Crypto}
use ethmumbai_rok.Scope.{Scope}
use ethmumbai_rok.Scope.Segments.{IsSegment, render, of_segments}
use ethmumbai_rok.Scope.Validity.{new-render}
use ethmumbai_rok.Scope.Ancestry.{is_ancestor_of-append}
use ethmumbai_rok.Keys.{to_base58}
use ethmumbai_rok.Policy.{
  AccessRule, AccessPolicy, holds, grant_rules, is_expired, applies, collect, bytes_lt, sort_in,
  sort, dedup_after, dedup, key_ids_for_scope, grant,
}

holds-append :
    (id : Bytes) (xs ys : List Bytes) → holds id (xs ++ ys) ≡ (holds id xs || holds id ys)
unfolding holds
holds-append id [] ys = refl
holds-append id (x ∷ xs) ys = rw (holds-append id xs ys) (ground arith)

holds-sort_in :
    (id x : Bytes) (ys : List Bytes) → holds id (sort_in x ys) ≡ (bytes_eq x id || holds id ys)
unfolding holds sort_in
holds-sort_in id x [] = refl
holds-sort_in id x (y ∷ ys) = elim (Bool-cases (bytes_lt y x)) [
  | inl e ↦ rw (e, holds-sort_in id x ys) (ground arith)
  | inr e ↦ rw e refl
]

holds-sort : (id : Bytes) (xs : List Bytes) → holds id (sort xs) ≡ holds id xs
unfolding sort
holds-sort id [] = refl
holds-sort id (x ∷ xs) = holds-sort_in id x (sort xs) ∙ rw (holds-sort id xs) (unfold holds in refl)

holds-dedup_after :
    (id last : Bytes) (ys : List Bytes)
    → (bytes_eq last id || holds id (dedup_after last ys)) ≡ (bytes_eq last id || holds id ys)
unfolding holds dedup_after
holds-dedup_after id last [] = refl
holds-dedup_after id last (y ∷ ys) = elim (Bool-cases (bytes_eq y last)) [
  | inl e ↦ rw (e, bytes_eq→eq y last e) (ground (arith, holds-dedup_after id last ys))
  | inr e ↦ rw (e, holds-dedup_after id y ys) refl
]

holds-dedup : (id : Bytes) (xs : List Bytes) → holds id (dedup xs) ≡ holds id xs
unfolding dedup
holds-dedup id [] = refl
holds-dedup id (x ∷ xs) = unfold holds in holds-dedup_after id x xs

holds-collect :
    (id : Bytes) (rs : List AccessRule) (s : Scope) (now : ℕ)
    → holds id (collect rs s now) ≡ any (λ r. applies r s now && holds id r.recipient_key_ids) rs
unfolding collect
holds-collect id [] s now = unfold holds in refl
holds-collect id (r ∷ rs) s now = elim (Bool-cases (applies r s now)) [
  | inl e ↦
      rw e (
        holds-append id r.recipient_key_ids (collect rs s now)
        ∙ rw (holds-collect id rs s now) refl)
  | inr e ↦ rw e (holds-collect id rs s now)
]

-- The test of an identifier in the list for a scope is that in the rules that apply.
pub holds-key_ids_for_scope :
    (p : AccessPolicy) (s : Scope) (now : ℕ) (id : Bytes)
    → holds id (key_ids_for_scope p s now)
      ≡ any (λ r. applies r s now && holds id r.recipient_key_ids) p.rules
unfolding key_ids_for_scope
holds-key_ids_for_scope p s now id =
    holds-dedup id (sort (collect p.rules s now))
    ∙ (holds-sort id (collect p.rules s now) ∙ holds-collect id p.rules s now)

-- The expiry that a grant has: that of the rule which is there, or else its own.
unfoldable pub expiry_at : Bytes → Option ℕ → List AccessRule → Option ℕ
expiry_at scope expires_at [] = expires_at
expiry_at scope expires_at (r ∷ rs) =
    if bytes_eq r.scope scope then r.expires_at else expiry_at scope expires_at rs

pub applies-descendant :
    (us vs : List Bytes) (r : AccessRule) (now : ℕ)
    → All IsSegment us
    → r.scope ≡ render us
    → is_expired r.expires_at now ≡ false
    → applies r (of_segments (us ++ vs)) now ≡ true
unfolding applies
applies-descendant us vs r now h e x =
    rw (applies, e, new-render us h, is_ancestor_of-append us vs h, x) refl

grant_rules-lists :
    (us vs : List Bytes) (id : Bytes) (e : Option ℕ) (now : ℕ) (rs : List AccessRule)
    → All IsSegment us
    → is_expired (expiry_at (render us) e rs) now ≡ false
    → any
        (λ r. applies r (of_segments (us ++ vs)) now && holds id r.recipient_key_ids)
        (grant_rules (render us) id e rs)
      ≡ true
unfolding grant_rules expiry_at
grant_rules-lists us vs id e now [] h x =
    let r : AccessRule = record {
      scope = render us;
      recipient_key_ids = id ∷ [];
      expires_at = e;
    } in
    rw (applies-descendant us vs r now h refl x) (unfold holds in rw (bytes_eq_refl id) refl)
grant_rules-lists us vs id e now (r ∷ rs) h x = elim (Bool-cases (bytes_eq r.scope (render us))) [
  | inl b ↦
      let same = bytes_eq→eq r.scope (render us) b in
      let live : is_expired r.expires_at now ≡ false = rw b at x in
      let widened : AccessRule = record r { recipient_key_ids = r.recipient_key_ids ++ id ∷ [] } in
      elim (Bool-cases (holds id r.recipient_key_ids)) [
        | inl l ↦ rw (b, l, applies-descendant us vs r now h same live, l) refl
        | inr l ↦
            rw
              (
                b,
                l,
                applies-descendant us vs widened now h same live,
                holds-append id r.recipient_key_ids (id ∷ []),
                l,
              )
              (unfold holds in rw (bytes_eq_refl id) refl)
      ]
  | inr b ↦ rw (b, grant_rules-lists us vs id e now rs h (rw b at x)) (ground arith)
]

-- A key granted at a validated scope is listed at that scope and every descendant, at any time at
-- which the expiry of the scope's rule, or of the grant if there was no rule, has not passed.
pub grant-lists :
    (c : Crypto) (p : AccessPolicy) (us vs : List Bytes) (key_id : Bytes) (e : Option ℕ) (now : ℕ)
    → All IsSegment us
    → is_expired (expiry_at (render us) e p.rules) now ≡ false
    → holds
        (to_base58 c key_id)
        (key_ids_for_scope (grant c p (of_segments us) key_id e) (of_segments (us ++ vs)) now)
      ≡ true
unfolding grant
grant-lists c p us vs key_id e now h x =
    holds-key_ids_for_scope (grant c p (of_segments us) key_id e) (of_segments (us ++ vs)) now
      (to_base58 c key_id)
    ∙ grant_rules-lists us vs (to_base58 c key_id) e now p.rules h x

grant_rules-expiry :
    (scope id : Bytes) (e d : Option ℕ) (rs : List AccessRule)
    → expiry_at scope d (grant_rules scope id e rs) ≡ expiry_at scope e rs
unfolding grant_rules expiry_at
grant_rules-expiry scope id e d [] = rw (bytes_eq_refl scope) refl
grant_rules-expiry scope id e d (r ∷ rs) = elim (Bool-cases (bytes_eq r.scope scope)) [
  | inl b ↦ elim (Bool-cases (holds id r.recipient_key_ids)) [
    | inl l ↦ rw (b, l, b) refl
    | inr l ↦ rw (b, l, b) refl
  ]
  | inr b ↦ rw (b, b) (grant_rules-expiry scope id e d rs)
]

-- After a grant, the expiry at the scope is that of the rule that was there, whatever expiry the
-- grant has, and the grant's own only if there was none.
pub grant_keeps_expiry :
    (c : Crypto) (p : AccessPolicy) (s : Scope) (key_id : Bytes) (e d : Option ℕ)
    → expiry_at s.path d (grant c p s key_id e).rules ≡ expiry_at s.path e p.rules
unfolding grant
grant_keeps_expiry c p s key_id e d = grant_rules-expiry s.path (to_base58 c key_id) e d p.rules
