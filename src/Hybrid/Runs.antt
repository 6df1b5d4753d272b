-- ===== src/Hybrid/Runs.antt =====
-- The theorem on hybrid encryption, over the toy cryptography.
use ethmumbai_rok.Common.{arith, ◌≡◌, [], if◌then◌else◌}
use ethmumbai_rok.Error.{ok, err, scope_mismatch}
use ethmumbai_rok.Crypto.{Rng}
use ethmumbai_rok.Crypto.Toy.{toy, toy_laws, zeros}
use ethmumbai_rok.Scope.{is_ancestor_of}
use ethmumbai_rok.Scope.Segments.{of_segments, render}
use ethmumbai_rok.Envelope.{EncryptedEnvelope}
use ethmumbai_rok.Encrypt.Access.{root-HeldAt}
use ethmumbai_rok.Encrypt.Sample.{finance, finance_ok, spend, root_key, note, fills}
use ethmumbai_rok.Hybrid.{hybrid_encrypt, hybrid_decrypt}
use ethmumbai_rok.Hybrid.Toy.{toy_kem, toy_kem_laws}
use ethmumbai_rok.Hybrid.RoundTrip.{hybrid_decrypt-hybrid_encrypt}

hybrid_decrypt-hybrid_encrypt_example :
    (env : EncryptedEnvelope) × (rng' : Rng) × (hybrid_encrypt toy toy_kem note
        (of_segments finance)
        spend
        zeros
      ≡ ok (env, rng'))
    × (hybrid_decrypt toy toy_kem env root_key (toy.verifying_key spend.seed) ≡ (
        if is_ancestor_of root_key.scope (of_segments finance)
        then ok note
        else err (scope_mismatch root_key.scope.path (render finance))))
hybrid_decrypt-hybrid_encrypt_example =
    hybrid_decrypt-hybrid_encrypt toy toy_laws toy_kem toy_kem_laws spend [] finance root_key note
      zeros fills (omega arith) tt finance_ok (root-HeldAt toy toy_laws spend)
