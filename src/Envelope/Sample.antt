-- ===== src/Envelope/Sample.antt =====
-- A concrete envelope, `make_test_envelope` of envelope.rs with a shorter ciphertext: test data.
use ethmumbai_rok.Common.{refl, none, [], ◌∷◌, arith, codes, replicate}
use ethmumbai_rok.Scope.Segments.{of_segments, render, are_segments, are_segments_sound}
use ethmumbai_rok.Text.Split.{spell}
use ethmumbai_rok.Envelope.{EncryptedEnvelope, AccessEntry, ecies_x25519_chacha20, recipient}
use ethmumbai_rok.Envelope.Valid.{IsValid}

abbrev entry : AccessEntry
entry = record {
  read_key_id = replicate 8 1;
  wrapped_data_key = replicate 48 0;
  wrap_nonce = replicate 12 9;
}

abbrev pub sample : EncryptedEnvelope
sample = record {
  version = 2;
  algorithm = ecies_x25519_chacha20;
  scope = of_segments (codes "test" ∷ []);
  ephemeral_x25519_public = replicate 32 1;
  ephemeral_mlkem_ciphertext = none;
  access_entries = entry ∷ [];
  nonce = replicate 12 10;
  ciphertext = replicate 8 11;
  tag = replicate 16 12;
  signature = replicate 64 13;
  spend_public_key = replicate 32 14;
  access_mode = recipient;
}

pub sample-IsValid : IsValid sample
unfolding are_segments render spell
sample-IsValid = record {
  version_size = omega arith;
  scope = record {
    segments = codes "test" ∷ [];
    all_segments = are_segments_sound (codes "test" ∷ []) refl;
    path_eq = refl;
  };
  scope_size = omega arith;
  ephemeral_size = refl;
  mlkem = tt;
  entries = omega arith;
  entries_size = omega arith;
  nonce_size = refl;
  ciphertext_size = omega arith;
  tag_size = refl;
  key_size = refl;
  signature_size = refl;
}
