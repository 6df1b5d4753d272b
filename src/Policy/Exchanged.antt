-- ===== src/Policy/Exchanged.antt =====
-- The theorems on the exchange of policies, on a policy of one rule.
use ethmumbai_rok.Common.{
  ℕ, ◌^◌, ◌<◌, true, false, ◌≡◌, ◌≢◌, refl, Option, some, [], ◌∷◌, arith, replicate,
}
use ethmumbai_rok.Error.{ok}
use ethmumbai_rok.Crypto.Toy.{toy, toy_laws}
use ethmumbai_rok.Text.Split.{spell}
use ethmumbai_rok.Text.Utf8.{is_utf8}
use ethmumbai_rok.Scope.{is_empty}
use ethmumbai_rok.Scope.Segments.{render, of_segments}
use ethmumbai_rok.Scope.Validity.{new-render}
use ethmumbai_rok.Keys.{to_base58}
use ethmumbai_rok.Encrypt.Sample.{finance, finance_ok}
use ethmumbai_rok.Proto.Toy.{toy_prost, toy_prost_laws}
use ethmumbai_rok.Policy.{AccessRule, AccessPolicy, applies}
use ethmumbai_rok.Policy.Exchange.{
  IsRule, expiry_or_zero, to_proto_bytes, from_proto_bytes, from_proto_bytes-to_proto_bytes,
  exchange_revives,
}

abbrev rule : Option ℕ → AccessRule
rule expires_at = record {
  scope = render finance;
  recipient_key_ids = to_base58 toy (replicate 8 7) ∷ [];
  expires_at = expires_at;
}

rule-IsRule : (e : Option ℕ) → expiry_or_zero e < 2 ^ 64 → IsRule toy (rule e)
unfolding is_utf8 render spell to_base58 toy is_empty
rule-IsRule e h = record {
  scope_utf8 = refl;
  expires_size = h;
  ids = (record { key_id = replicate 8 7; size = refl; text_of = refl; written = refl }, tt);
}

abbrev policy : AccessPolicy
policy = record { rules = rule (some 100) ∷ [] }

not_zero : (rule (some 100)).expires_at ≢ some 0
not_zero e = cc

from_proto_bytes-to_proto_bytes_example :
    from_proto_bytes toy toy_prost (to_proto_bytes toy toy_prost policy) ≡ ok policy
unfolding expiry_or_zero
from_proto_bytes-to_proto_bytes_example =
    from_proto_bytes-to_proto_bytes toy toy_laws toy_prost toy_prost_laws policy
      (rule-IsRule (some 100) (omega arith), tt) (not_zero, tt)

exchange_revives_example :
    (r' : AccessRule) × (from_proto_bytes toy toy_prost
        (to_proto_bytes toy toy_prost (record { rules = rule (some 0) ∷ [] }))
      ≡ ok (record { rules = r' ∷ [] }))
    × (applies (rule (some 0)) (of_segments finance) 5 ≡ false)
    × (applies r' (of_segments finance) 5 ≡ true)
unfolding expiry_or_zero
exchange_revives_example =
    exchange_revives toy toy_laws toy_prost toy_prost_laws (rule (some 0)) (of_segments finance) 5
      (rule-IsRule (some 0) (omega arith)) refl (omega arith) (new-render finance finance_ok)
