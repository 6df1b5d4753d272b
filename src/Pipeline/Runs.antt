-- ===== src/Pipeline/Runs.antt =====
-- The theorem on removal, on a pipeline of two consumers.
use ethmumbai_rok.Common.{
  Bytes, ◌≡◌, refl, sym, none, some, [], ◌∷◌, arith, bytes_eq, bytes_eq_refl, if◌then◌else◌,
}
use ethmumbai_rok.Error.{ok}
use ethmumbai_rok.Crypto.{Rng}
use ethmumbai_rok.Crypto.Toy.{toy, toy_laws, zeros}
use ethmumbai_rok.Derive.{derive_root_read_secret}
use ethmumbai_rok.Scope.Segments.{of_segments}
use ethmumbai_rok.Keys.{key_id, from_public_bytes, from_secret_bytes, derive_root_read_key}
use ethmumbai_rok.Envelope.{EncryptedEnvelope}
use ethmumbai_rok.Encrypt.{Recipient}
use ethmumbai_rok.Encrypt.Wrapping.{find_recipient}
use ethmumbai_rok.Encrypt.Access.{answer}
use ethmumbai_rok.Encrypt.Stored.{length-key_id}
use ethmumbai_rok.Encrypt.Sample.{
  finance, spend, root_key, note, fills, reader, genuine, finance_key, finance_reader,
}
use ethmumbai_rok.Pipeline.{Pipeline, retain, remove_consumer, encrypt_chunk, decrypt_chunk}
use ethmumbai_rok.Pipeline.Removal.{decrypt_chunk-removed}

abbrev pipeline : Pipeline
pipeline = record {
  scope = of_segments finance;
  spend_key = spend;
  consumers = reader ∷ finance_reader ∷ [];
}

abbrev removed : Bytes
removed = key_id toy finance_key

one_left : (remove_consumer pipeline removed).consumers ≡ reader ∷ []
unfolding remove_consumer retain bytes_eq key_id from_public_bytes from_secret_bytes
    derive_root_read_key toy derive_root_read_secret
one_left = refl

first_owns :
    (s : Recipient)
    → find_recipient (key_id toy root_key) pipeline.consumers ≡ some s
    → s.read_public_key ≡ root_key.public
unfolding find_recipient
first_owns s h =
    let first : find_recipient (key_id toy root_key) pipeline.consumers ≡ some reader =
      rw bytes_eq_refl refl in
    let e : reader ≡ s = cc (h, first) in rw (sym e) refl

decrypt_chunk-removed_example :
    (env : EncryptedEnvelope) × (rng' : Rng) × (encrypt_chunk toy
        (remove_consumer pipeline removed)
        note
        zeros
      ≡ ok (env, rng'))
    × (decrypt_chunk toy env root_key (toy.verifying_key spend.seed)
        ≡ answer toy toy_laws spend root_key note (
            if bytes_eq (key_id toy root_key) removed
            then none
            else find_recipient (key_id toy root_key) pipeline.consumers))
decrypt_chunk-removed_example =
    decrypt_chunk-removed toy toy_laws pipeline removed reader [] root_key note zeros fills
      (omega arith) one_left (length-key_id toy toy_laws root_key, tt) (genuine, first_owns)
