-- ===== src/Crypto/Toy.antt =====
-- A cryptography of sums that meets `CryptoLaws`: test data, which shows that the laws can hold.
use ethmumbai_rok.Common.{
  ℕ, ◌+◌, ◌-◌, Bytes, ◌≡◌, refl, ap, some, [], ◌∷◌, ◌++◌, arith, length, length-append, take,
  take-append, replicate, bytes_eq, bytes_eq_refl, ◌==◌, ==_iff,
}
use ethmumbai_rok.Crypto.{Crypto, CryptoLaws, Rng}

sum : Bytes → ℕ
sum [] = 0
sum (b ∷ s) = b + sum s

-- A byte and zeros up to 32, 64 bytes.
key_of : ℕ → Bytes
key_of n = n ∷ replicate 31 0

signature_of : ℕ → Bytes
signature_of n = n ∷ replicate 63 0

seal : Bytes → Bytes
seal m = m ++ replicate 16 0

unseal : Bytes → Bytes
unseal e = take (length e - 16) e

unfoldable pub toy : Crypto
unfolding sum key_of signature_of seal unseal
toy = record {
  sha256 = λ m. key_of (sum m);
  hkdf = λ salt ikm info. key_of (sum salt + sum ikm + sum info);
  static_secret = λ b. b;
  x25519_public = λ s. key_of (sum s);
  diffie_hellman = λ s p. key_of (sum s + sum p);
  chacha_init = λ k. length k == 32;
  chacha_encrypt = λ k n m. some (seal m);
  chacha_decrypt = λ k n e. some (unseal e);
  siv_init = λ k. length k == 32;
  siv_encrypt = λ k n m. some (seal m);
  siv_decrypt = λ k n e. some (unseal e);
  verifying_key = λ seed. key_of (sum seed);
  sign = λ seed m. signature_of (sum seed + sum m);
  verify = λ vk m s. bytes_eq s (signature_of (sum vk + sum m));
  is_verifying_key = λ k. length k == 32;
  base58_encode = λ b. b;
  base58_decode = λ s. some s;
}

sum-key_of : (n : ℕ) → sum (key_of n) ≡ n
unfolding sum key_of
sum-key_of n = omega arith

unseal-seal : (m : Bytes) → unseal (seal m) ≡ m
unfolding unseal seal
unseal-seal m =
    let e : length (m ++ replicate 16 0) - 16 ≡ length m =
      omega (arith, length-append m (replicate 16 0)) in
    rw e (take-append m (replicate 16 0))

length-seal : (m : Bytes) → length (seal m) ≡ length m + 16
unfolding seal
length-seal m = length-append m (replicate 16 0)

pub toy_laws : CryptoLaws toy
unfolding toy
toy_laws = record {
  length-sha256 = λ m. refl;
  length-hkdf = λ salt ikm info. refl;
  static_secret_id = λ b. refl;
  length-x25519_public = λ s. refl;
  length-diffie_hellman = λ s p. refl;
  diffie_hellman_comm = λ s t. ap key_of (omega (arith, sum-key_of (sum s), sum-key_of (sum t)));
  chacha_init-key = λ k h. (==_iff (length k) 32).1 h;
  chacha_round_trip = λ k n m h _. (seal m, refl, length-seal m, ap some (unseal-seal m));
  siv_init-key = λ k h. (==_iff (length k) 32).1 h;
  siv_round_trip = λ k n m h _. (seal m, refl, length-seal m, ap some (unseal-seal m));
  length-verifying_key = λ seed. refl;
  is_verifying_key-of_seed = λ seed. refl;
  length-sign = λ seed m. refl;
  verify-sign =
      λ seed m. rw (sum-key_of (sum seed)) (bytes_eq_refl (signature_of (sum seed + sum m)));
  base58_round_trip = λ b. refl;
}

-- A generator whose draws are zeros.
abbrev pub zeros : Rng
zeros = record { draw = λ i n. replicate n 0; next = 0 }
