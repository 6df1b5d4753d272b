-- ===== src/Policy/Runs.antt =====
-- The theorems on the policy, on concrete rules.
use mathlib.Core.List.{Memᴰ}
use ethmumbai_rok.Common.{
  not, bytes_eq, Bytes, true, false, ◌&&◌, ◌≡◌, ◌↔◌, refl, All, none, some, List, [], ◌∷◌, ◌++◌,
  any, codes, replicate,
}
use ethmumbai_rok.Crypto.Toy.{toy}
use ethmumbai_rok.Scope.Segments.{IsSegment, are_segments, are_segments_sound, render, of_segments}
use ethmumbai_rok.Keys.{to_base58}
use ethmumbai_rok.Encrypt.Sample.{finance, finance_ok}
use ethmumbai_rok.Policy.{
  AccessPolicy, new, holds, is_expired, applies, key_ids_for_scope, grant, revoke,
}
use ethmumbai_rok.Policy.Revoked.{Reached, started, revoke-lists}
use ethmumbai_rok.Policy.Ordered.{Ascending}
use ethmumbai_rok.Policy.Listed.{Listed, key_ids_for_scope_iff}
use ethmumbai_rok.Policy.Granted.{expiry_at, grant-lists, grant_keeps_expiry}

abbrev id : Bytes
id = replicate 8 7

abbrev q1 : List Bytes
q1 = codes "q1" ∷ []

abbrev granted : AccessPolicy
granted = grant toy new (of_segments finance) id (some 100)

below_ok : All IsSegment (finance ++ q1)
unfolding are_segments
below_ok = are_segments_sound (finance ++ q1) refl

-- A grant at `/finance`, and one below it.
abbrev granted_again : AccessPolicy
granted_again = grant toy granted (of_segments (finance ++ q1)) (replicate 8 3) none

key_ids_for_scope_iff_example :
    Ascending (key_ids_for_scope granted_again (of_segments (finance ++ q1)) 50)
    × ((key : Bytes)
        → Memᴰ key (key_ids_for_scope granted_again (of_segments (finance ++ q1)) 50)
          ↔ Listed granted_again.rules (finance ++ q1) 50 key)
key_ids_for_scope_iff_example = key_ids_for_scope_iff granted_again (finance ++ q1) 50 below_ok

not_expired : is_expired (expiry_at (render finance) (some 100) new.rules) 50 ≡ false
unfolding is_expired expiry_at new
not_expired = refl

grant-lists_example :
    holds (to_base58 toy id) (
      key_ids_for_scope
        (grant toy new (of_segments finance) id (some 100))
        (of_segments (finance ++ q1))
        50)
    ≡ true
grant-lists_example = grant-lists toy new finance q1 id (some 100) 50 finance_ok not_expired

-- A second grant, meant to last, ends with the first.
grant_keeps_expiry_example :
    expiry_at
      (render finance)
      none
      (grant toy granted (of_segments finance) (replicate 8 9) none).rules
    ≡ expiry_at (render finance) none granted.rules
grant_keeps_expiry_example =
    grant_keeps_expiry toy granted (of_segments finance) (replicate 8 9) none none

granted-Reached : Reached toy granted
granted-Reached = Reached.granted new (of_segments finance) id (some 100) started

revoke-lists_example :
    holds (to_base58 toy id) (
      key_ids_for_scope
        (revoke toy granted (of_segments finance) id)
        (of_segments (finance ++ q1))
        50)
    ≡ any
        (λ r.
          applies r (of_segments (finance ++ q1)) 50
          && holds (to_base58 toy id) r.recipient_key_ids
          && not (bytes_eq r.scope (render finance)))
        granted.rules
revoke-lists_example =
    revoke-lists toy granted (of_segments finance) (of_segments (finance ++ q1)) id 50
      granted-Reached
