-- ===== src/Encrypt/Runs.antt =====
-- The theorems on encryption, over the toy cryptography.
use ethmumbai_rok.Common.{arith, ◌≡◌, ◌+◌, ◌*◌, refl, length, [], ◌∷◌, if◌then◌else◌}
use ethmumbai_rok.Error.{ok, err, scope_mismatch}
use ethmumbai_rok.Crypto.{Rng}
use ethmumbai_rok.Crypto.Toy.{toy, toy_laws, zeros}
use ethmumbai_rok.Scope.{is_ancestor_of}
use ethmumbai_rok.Keys.{key_id}
use ethmumbai_rok.Envelope.{EncryptedEnvelope, recipient, to_bytes, from_bytes}
use ethmumbai_rok.Encrypt.{new, add_recipient, set_spend_key, encrypt, decrypt, rekey_recipients}
use ethmumbai_rok.Encrypt.Wrapping.{find_recipient}
use ethmumbai_rok.Encrypt.Access.{root-HeldAt, decrypt-encrypt_scope_based, decrypt-encrypt, answer}
use ethmumbai_rok.Encrypt.Rekey.{decrypt-rekey_recipients}
use ethmumbai_rok.Encrypt.Stored.{length-key_id, encrypt-from_bytes}
use ethmumbai_rok.Encrypt.Sample.{
  chosen, finance_short, for_reader-IsScope, finance, finance_ok, spend, root_key, note, for_scope,
  for_scope_fields, fills, reader, for_reader, for_reader_fields, genuine, found_reader,
  own_public_for, finance_reader, sealed, dropped,
}

decrypt-encrypt_scope_based_example :
    (env : EncryptedEnvelope) × (rng' : Rng) × (encrypt toy for_scope note zeros ≡ ok (env, rng'))
    × (decrypt toy env root_key (toy.verifying_key spend.seed) ≡ (
        if is_ancestor_of root_key.scope for_scope.scope
        then ok note
        else err (scope_mismatch root_key.scope.path for_scope.scope.path)))
decrypt-encrypt_scope_based_example =
    let (hs, hb, es) = for_scope_fields in
    decrypt-encrypt_scope_based toy toy_laws spend [] finance for_scope root_key note zeros fills
      (omega arith) hs hb es tt finance_ok (root-HeldAt toy toy_laws spend)

decrypt-encrypt_example :
    (env : EncryptedEnvelope) × (rng' : Rng) × (encrypt toy for_reader note zeros ≡ ok (env, rng'))
    × (decrypt toy env root_key (toy.verifying_key spend.seed)
        ≡ answer toy toy_laws spend root_key note
            (find_recipient (key_id toy root_key) for_reader.recipients))
decrypt-encrypt_example =
    let (hs, hb, hr) = for_reader_fields in
    decrypt-encrypt toy toy_laws spend for_reader reader [] root_key note zeros fills (omega arith)
      hs hb hr genuine own_public_for

decrypt-rekey_recipients_example :
    (env' : EncryptedEnvelope) × (rng' : Rng) × (rekey_recipients toy sealed.0 root_key
        (finance_reader ∷ [])
        spend
        zeros
      ≡ ok (env', rng'))
    × (env'.ciphertext ≡ sealed.0.ciphertext)
    × (decrypt toy env' root_key (toy.verifying_key spend.seed)
        ≡ answer toy toy_laws spend root_key note
            (find_recipient (key_id toy root_key) (finance_reader ∷ [])))
decrypt-rekey_recipients_example =
    decrypt-rekey_recipients toy toy_laws spend spend (reader ∷ []) finance_reader [] note sealed.0
      root_key root_key reader zeros fills sealed.4 sealed.5 genuine found_reader refl genuine
      dropped

encrypt-from_bytes_example :
    (env : EncryptedEnvelope) × (rng' : Rng) × (encrypt toy for_reader note zeros ≡ ok (env, rng'))
    × (from_bytes (to_bytes env) ≡ ok env)
    × (length (to_bytes env)
        ≡ 182 + length for_reader.scope.path + 70 * length (reader ∷ []) + length note)
encrypt-from_bytes_example =
    let (hs, hb, hr) = for_reader_fields in
    encrypt-from_bytes toy toy_laws for_reader note zeros spend (reader ∷ []) recipient fills hs
      chosen (length-key_id toy toy_laws root_key, tt) for_reader-IsScope
      (unfold new add_recipient set_spend_key in finance_short) (omega arith) (omega arith)
