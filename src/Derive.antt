-- ===== src/Derive.antt =====
-- crates/rok-core/src/derive.rs: the derivation of secrets, by HKDF under a domain tag.
pub mod Stepwise
mod Runs
use ethmumbai_rok.Common.{
  ℕ, zero, suc, ◌+◌, ◌-◌, Bytes, not, [], ◌∷◌, ◌++◌, List, codes, length, take, bytes_eq,
}
use ethmumbai_rok.Error.{str, text, format, derivation_error, Result, ok, ◌>>=◌, ◌>>◌, refuse}
use ethmumbai_rok.Text.{join}
use ethmumbai_rok.Crypto.{Crypto}
use ethmumbai_rok.Scope.{Scope, slash, is_ancestor_of, components}

abbrev pub domain_spend_to_root : Bytes
domain_spend_to_root = codes "rok-v1-spend-to-root-read"

abbrev pub domain_read_child : Bytes
domain_read_child = codes "rok-v1-read-child-derive"

abbrev pub domain_key_wrap : Bytes
domain_key_wrap = codes "rok-v1-key-wrap"

abbrev pub domain_hybrid_combine : Bytes
domain_hybrid_combine = codes "rok-v1-hybrid-combine"

abbrev pub domain_pq_key_derive : Bytes
domain_pq_key_derive = codes "rok-v1-pq-key-derive"

module _ (c : Crypto) where
  unfoldable pub derive_root_read_secret : Bytes → Bytes
  derive_root_read_secret spend_secret = c.hkdf domain_spend_to_root spend_secret (slash ∷ [])

  -- The loop over `i in parent_components.len()..child_components.len()`: `rounds` are left.
  unfoldable pub derive_loop : ℕ → ℕ → List Bytes → Bytes → Bytes
  derive_loop zero i child_components current_secret = current_secret
  derive_loop (suc rounds) i child_components current_secret =
      derive_loop rounds (i + 1) child_components (
        c.hkdf domain_read_child current_secret
          (slash ∷ join (take (i + 1) child_components) (slash ∷ [])))

  unfoldable pub derive_child_read_secret : Bytes → Scope → Scope → Result Bytes
  derive_child_read_secret parent_secret parent_scope child_scope = do
    refuse (not (is_ancestor_of parent_scope child_scope)) (
        derivation_error (
          format "scope '{}' is not a descendant of '{}'"
            (str child_scope.path ∷ str parent_scope.path ∷ [])))
    refuse (bytes_eq parent_scope.path child_scope.path)
        (derivation_error (text "child scope must differ from parent scope"))
    let parent_components = components parent_scope
    let child_components = components child_scope
    ok (
        derive_loop (length child_components - length parent_components) (length parent_components)
          child_components parent_secret)

  unfoldable pub derive_wrapping_key : Bytes → Bytes → Bytes
  derive_wrapping_key shared_secret key_id = c.hkdf domain_key_wrap shared_secret key_id

  unfoldable pub derive_pq_key_seed : Bytes → Scope → Bytes
  derive_pq_key_seed read_secret scope = c.hkdf domain_pq_key_derive read_secret scope.path

  unfoldable pub combine_hybrid_secrets : Bytes → Bytes → Bytes
  combine_hybrid_secrets x25519_shared mlkem_shared =
      c.hkdf domain_hybrid_combine (x25519_shared ++ mlkem_shared) []
