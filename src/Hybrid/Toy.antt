-- ===== src/Hybrid/Toy.antt =====
-- A toy encapsulation, which shows that the laws of ML-KEM can hold: the key is the secret.
use ethmumbai_rok.Common.{refl, some, replicate}
use ethmumbai_rok.Crypto.{fill_bytes}
use ethmumbai_rok.Hybrid.{MlKem, MlKemLaws}

pub toy_kem : MlKem
toy_kem = record {
  from_seed = λ seed. record { draw = λ i n. seed; next = 0 };
  generate = λ rng. let key = fill_bytes 64 rng in ((key.0, key.0), key.1);
  encapsulate = λ ek rng. some ((replicate 16 0, ek), (fill_bytes 32 rng).1);
  ciphertext_size = 16;
  decapsulate = λ dk ct. some dk;
}

pub toy_kem_laws : MlKemLaws toy_kem
unfolding toy_kem
toy_kem_laws = record {
  kem_round_trip = λ seeded rng.
      (replicate 16 0, (fill_bytes 64 seeded).0, (fill_bytes 32 rng).1, refl, refl, refl);
}
