-- ===== src/Crypto.antt =====
-- The cryptography that the crates call and do not implement: sha2, hkdf, x25519-dalek,
-- ed25519-dalek, chacha20poly1305, aes-gcm-siv and bs58, as a record of functions on bytes, and
-- the random generator as the sequence of its draws. `CryptoLaws` is what the code relies on.
pub mod Toy
use ethmumbai_rok.Common.{
  ℕ, ◌+◌, ◌^◌, ◌<◌, Bytes, ◌≡◌, Bool, true, false, Option, none, some, length, IsByte, All,
}

pub record Crypto : Type 0 where
  -- Sha256::digest
  pub sha256 : Bytes → Bytes
  -- Hkdf::<Sha256>::new(Some(salt), ikm).expand(info, 32 bytes)
  pub hkdf : Bytes → Bytes → Bytes → Bytes
  -- The bytes that `StaticSecret::from(bytes)` keeps, and `to_bytes` returns.
  pub static_secret : Bytes → Bytes
  -- PublicKey::from(&StaticSecret)
  pub x25519_public : Bytes → Bytes
  pub diffie_hellman : Bytes → Bytes → Bytes
  -- Whether `new_from_slice` accepts the key; `encrypt` and `decrypt` of ChaCha20Poly1305.
  pub chacha_init : Bytes → Bool
  pub chacha_encrypt : Bytes → Bytes → Bytes → Option Bytes
  pub chacha_decrypt : Bytes → Bytes → Bytes → Option Bytes
  -- The same of Aes256GcmSiv.
  pub siv_init : Bytes → Bool
  pub siv_encrypt : Bytes → Bytes → Bytes → Option Bytes
  pub siv_decrypt : Bytes → Bytes → Bytes → Option Bytes
  -- SigningKey::from_bytes(seed).verifying_key(), sign, verify, VerifyingKey::from_bytes
  pub verifying_key : Bytes → Bytes
  pub sign : Bytes → Bytes → Bytes
  pub verify : Bytes → Bytes → Bytes → Bool
  pub is_verifying_key : Bytes → Bool
  -- bs58::encode, bs58::decode
  pub base58_encode : Bytes → Bytes
  pub base58_decode : Bytes → Option Bytes

-- Documented behaviour of these functions on well-sized inputs; both ciphers take 2^36 bytes. Nothing here says that a key
-- cannot be guessed or a signature forged.
pub record CryptoLaws (c : Crypto) : Type 0 where
  pub length-sha256 : (m : Bytes) → length (c.sha256 m) ≡ 32
  pub length-hkdf : (salt ikm info : Bytes) → length (c.hkdf salt ikm info) ≡ 32
  -- x25519-dalek 2 keeps the secret as it was given and clamps it where it is used.
  pub static_secret_id : (b : Bytes) → c.static_secret b ≡ b
  pub length-x25519_public : (s : Bytes) → length (c.x25519_public s) ≡ 32
  pub length-diffie_hellman : (s p : Bytes) → length (c.diffie_hellman s p) ≡ 32
  pub diffie_hellman_comm :
      (s t : Bytes)
      → c.diffie_hellman s (c.x25519_public t) ≡ c.diffie_hellman t (c.x25519_public s)
  pub chacha_init-key : (k : Bytes) → length k ≡ 32 → c.chacha_init k ≡ true
  pub chacha_round_trip :
      (k n m : Bytes)
      → length k ≡ 32
      → length m < 2 ^ 36
      → (e : Bytes) × (c.chacha_encrypt k n m ≡ some e)
        × (length e ≡ length m + 16)
        × (c.chacha_decrypt k n e ≡ some m)
  pub siv_init-key : (k : Bytes) → length k ≡ 32 → c.siv_init k ≡ true
  pub siv_round_trip :
      (k n m : Bytes)
      → length k ≡ 32
      → length m < 2 ^ 36
      → (e : Bytes) × (c.siv_encrypt k n m ≡ some e)
        × (length e ≡ length m + 16)
        × (c.siv_decrypt k n e ≡ some m)
  pub length-verifying_key : (seed : Bytes) → length (c.verifying_key seed) ≡ 32
  pub is_verifying_key-of_seed : (seed : Bytes) → c.is_verifying_key (c.verifying_key seed) ≡ true
  pub length-sign : (seed m : Bytes) → length (c.sign seed m) ≡ 64
  pub verify-sign : (seed m : Bytes) → c.verify (c.verifying_key seed) m (c.sign seed m) ≡ true
  pub base58_round_trip : (b : Bytes) → c.base58_decode (c.base58_encode b) ≡ some b

-- `&mut impl CryptoRngCore`: draw `i` of `n` bytes, and the number of the next draw.
pub record Rng : Type 0 where
  pub draw : ℕ → ℕ → Bytes
  pub next : ℕ

-- rng.fill_bytes(&mut [0u8; n])
unfoldable pub fill_bytes : ℕ → Rng → Bytes × Rng
fill_bytes n r = (r.draw r.next n, record r { next = r.next + 1 })

abbrev pub Fills : Rng → Type 0
Fills r = (i n : ℕ) → length (r.draw i n) ≡ n
