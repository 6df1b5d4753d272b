-- ===== src/Wire/LittleEndian.antt =====
-- Integers survive the little-endian form at their width.
use ethmumbai_rok.Common.{
  ℕ, zero, suc, ◌+◌, ◌*◌, ◌/◌, ◌%◌, ◌^◌, ◌<◌, Bytes, ◌≡◌, refl, ap, [], ◌∷◌, arith, length, All,
  IsByte,
}
use native.Mathlib.Nat.{pow-suc}
use ethmumbai_rok.Wire.{le_bytes, from_le_bytes, as_u16, as_u32}

pub length-le_bytes : (k v : ℕ) → length (le_bytes k v) ≡ k
unfolding le_bytes
length-le_bytes zero v = refl
length-le_bytes (suc k) v = ap suc (length-le_bytes k (v / 256))

div_below : (v m : ℕ) → v < m * 256 → v / 256 < m
div_below v m h = omega arith

pub from_le_bytes-le_bytes : (k v : ℕ) → v < 256 ^ k → from_le_bytes (le_bytes k v) ≡ v
unfolding le_bytes from_le_bytes
from_le_bytes-le_bytes zero v h = omega arith
from_le_bytes-le_bytes (suc k) v h =
    let below : v / 256 < 256 ^ k = div_below v (256 ^ k) (rw (pow-suc 256 k) at h) in
    omega (arith, from_le_bytes-le_bytes k (v / 256) below)

pub le_bytes-from_le_bytes : (s : Bytes) → All IsByte s → le_bytes (length s) (from_le_bytes s) ≡ s
unfolding le_bytes from_le_bytes
le_bytes-from_le_bytes [] h = refl
le_bytes-from_le_bytes (b ∷ s) (hb, h) =
    let low : (b + 256 * from_le_bytes s) % 256 ≡ b = omega arith in
    let high : (b + 256 * from_le_bytes s) / 256 ≡ from_le_bytes s = omega arith in
    rw (low, high, le_bytes-from_le_bytes s h) refl

pub from_le_bytes-lt : (s : Bytes) → All IsByte s → from_le_bytes s < 256 ^ length s
unfolding from_le_bytes
from_le_bytes-lt [] h = omega arith
from_le_bytes-lt (b ∷ s) (hb, h) = rw (pow-suc 256 (length s)) (omega (arith, from_le_bytes-lt s h))

pub as_u16_id : (n : ℕ) → n < 2 ^ 16 → as_u16 n ≡ n
unfolding as_u16
as_u16_id n h = omega arith

pub as_u32_id : (n : ℕ) → n < 2 ^ 32 → as_u32 n ≡ n
unfolding as_u32
as_u32_id n h = omega arith

pub as_u16-lt : (n : ℕ) → as_u16 n < 2 ^ 16
unfolding as_u16
as_u16-lt n = omega arith

pub as_u32-lt : (n : ℕ) → as_u32 n < 2 ^ 32
unfolding as_u32
as_u32-lt n = omega arith
