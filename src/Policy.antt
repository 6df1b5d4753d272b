-- ===== src/Policy.antt =====
-- crates/rok-sdk/src/policy.rs: the access policy. The clock is an argument. The protobuf exchange
-- stands in Policy.Exchange; JSON is not modelled. `sort` on strings is the order of their bytes.
pub mod Granted
pub mod Revoked
pub mod Ordered
pub mod Listed
pub mod Exchange
mod Runs
mod Exchanged
use ethmumbai_rok.Common.{
  ℕ, Bytes, Bool, true, false, not, ◌&&◌, ◌||◌, Option, none, some, List, [], ◌∷◌, ◌++◌, any,
  bytes_eq, ltb, ◌==◌, if◌then◌else◌,
}
use ethmumbai_rok.Error.{Result, ok, err, panic}
use ethmumbai_rok.Crypto.{Crypto}
use ethmumbai_rok.Scope
use ethmumbai_rok.Scope.{Scope, is_ancestor_of}
use ethmumbai_rok.Keys.{to_base58}

pub record AccessRule : Type 0 where
  pub scope : Bytes
  pub recipient_key_ids : List Bytes
  pub expires_at : Option ℕ

pub record AccessPolicy : Type 0 where
  pub rules : List AccessRule

unfoldable pub new : AccessPolicy
new = record { rules = [] }

unfoldable pub holds : Bytes → List Bytes → Bool
holds id ids = any (λ k. bytes_eq k id) ids

-- The rule that `grant` finds is changed in place; without one, a rule is added at the end.
unfoldable pub grant_rules : Bytes → Bytes → Option ℕ → List AccessRule → List AccessRule
unfolding holds
grant_rules scope id expires_at [] =
    record { scope = scope; recipient_key_ids = id ∷ []; expires_at = expires_at } ∷ []
grant_rules scope id expires_at (r ∷ rs) =
    if bytes_eq r.scope scope
    then (if holds id r.recipient_key_ids
        then r
        else record r { recipient_key_ids = r.recipient_key_ids ++ id ∷ [] })
      ∷ rs
    else r ∷ grant_rules scope id expires_at rs

unfoldable pub without : Bytes → List Bytes → List Bytes
without id [] = []
without id (k ∷ ks) = if not (bytes_eq k id) then k ∷ without id ks else without id ks

unfoldable pub revoke_rules : Bytes → Bytes → List AccessRule → List AccessRule
unfolding without
revoke_rules scope id [] = []
revoke_rules scope id (r ∷ rs) =
    if bytes_eq r.scope scope
    then record r { recipient_key_ids = without id r.recipient_key_ids } ∷ rs
    else r ∷ revoke_rules scope id rs

-- `now > expires` skips the rule.
unfoldable pub is_expired : Option ℕ → ℕ → Bool
is_expired none now = false
is_expired (some expires) now = ltb expires now

-- The tests in the loop of `key_ids_for_scope`.
unfoldable pub applies : AccessRule → Scope → ℕ → Bool
unfolding is_expired
applies rule scope now = elim (Scope.new rule.scope) [
  | ok rule_scope ↦
      (is_ancestor_of rule_scope scope || bytes_eq rule.scope scope.path)
      && not (is_expired rule.expires_at now)
  | err e ↦ false
  | panic ↦ false
]

unfoldable pub collect : List AccessRule → Scope → ℕ → List Bytes
unfolding applies
collect [] scope now = []
collect (r ∷ rs) scope now =
    let rest = collect rs scope now in
    if applies r scope now then r.recipient_key_ids ++ rest else rest

-- `a < b` on strings, by their bytes
unfoldable pub bytes_lt : Bytes → Bytes → Bool
bytes_lt s [] = false
bytes_lt [] (b ∷ t) = true
bytes_lt (a ∷ s) (b ∷ t) = ltb a b || (a == b && bytes_lt s t)

unfoldable pub sort_in : Bytes → List Bytes → List Bytes
unfolding bytes_lt
sort_in x [] = x ∷ []
sort_in x (y ∷ ys) = if bytes_lt y x then y ∷ sort_in x ys else x ∷ y ∷ ys

unfoldable pub sort : List Bytes → List Bytes
unfolding sort_in
sort [] = []
sort (x ∷ xs) = sort_in x (sort xs)

-- `Vec::dedup`: of equal neighbours the first stays. `last` is the one that stayed last.
unfoldable pub dedup_after : Bytes → List Bytes → List Bytes
dedup_after last [] = []
dedup_after last (y ∷ ys) = if bytes_eq y last then dedup_after last ys else y ∷ dedup_after y ys

unfoldable pub dedup : List Bytes → List Bytes
unfolding dedup_after
dedup [] = []
dedup (x ∷ xs) = x ∷ dedup_after x xs

unfoldable pub key_ids_for_scope : AccessPolicy → Scope → ℕ → List Bytes
unfolding collect sort dedup
key_ids_for_scope self scope now = dedup (sort (collect self.rules scope now))

module _ (c : Crypto) where
  unfoldable pub grant : AccessPolicy → Scope → Bytes → Option ℕ → AccessPolicy
  unfolding grant_rules
  grant self scope key_id expires_at = record {
    rules = grant_rules scope.path (to_base58 c key_id) expires_at self.rules;
  }

  unfoldable pub revoke : AccessPolicy → Scope → Bytes → AccessPolicy
  unfolding revoke_rules
  revoke self scope key_id = record {
    rules = revoke_rules scope.path (to_base58 c key_id) self.rules;
  }
