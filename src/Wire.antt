-- ===== src/Wire.antt =====
-- Reading and writing length-prefixed bytes: `to_le_bytes`, `from_le_bytes` and the closure
-- `read_bytes` that `EncryptedEnvelope::from_bytes` and `SectionedEnvelope::from_bytes` share.
pub mod LittleEndian
pub mod Reading
use ethmumbai_rok.Common.{
  ℕ, zero, suc, ◌+◌, ◌*◌, ◌/◌, ◌%◌, ◌^◌, Bytes, [], ◌∷◌, List, length, take, drop, ltb, leb,
  if◌then◌else◌,
}
use ethmumbai_rok.Error.{Message, RokError, serialization_error, Result, ok, err, panic}

-- The first `k` bytes of the little-endian form: `to_le_bytes` of an integer of `k` bytes.
unfoldable pub le_bytes : ℕ → ℕ → Bytes
le_bytes zero v = []
le_bytes (suc k) v = (v % 256) ∷ le_bytes k (v / 256)

unfoldable pub from_le_bytes : Bytes → ℕ
from_le_bytes [] = 0
from_le_bytes (b ∷ s) = b + 256 * from_le_bytes s

-- `n as u16`, `n as u32`
unfoldable pub as_u16 : ℕ → ℕ
as_u16 n = n % 2 ^ 16

unfoldable pub as_u32 : ℕ → ℕ
as_u32 n = n % 2 ^ 32

-- A reader looks at the data and the position, and moves the position.
abbrev pub Reader {ℓ} : Type ℓ → Type ℓ
Reader A = Bytes → ℕ → Result (A × ℕ)

unfoldable pub pure {ℓ} : {A : Type ℓ} → A → Reader A
pure a bytes pos = ok (a, pos)

infixl 5 ◌>>=◌
unfoldable pub ◌>>=◌ {ℓ κ} : {A : Type ℓ} {B : Type κ} → Reader A → (A → Reader B) → Reader B
◌>>=◌ m f bytes pos = elim (m bytes pos) [
  | ok (a, pos') ↦ f a bytes pos'
  | err e ↦ err e
  | panic ↦ panic
]

-- `r?` on a result that reads nothing.
unfoldable pub lift {ℓ} : {A : Type ℓ} → Result A → Reader A
lift r bytes pos = elim r [ ok a ↦ ok (a, pos) | err e ↦ err e | panic ↦ panic ]

-- `*pos + n` is computed in a 64-bit `usize`. A sum that wraps passes the test, and then the slice
-- ends in front of its start: a panic. (With overflow checks on, the sum itself panics.)
unfoldable pub read_bytes : Message → ℕ → Reader Bytes
read_bytes message n bytes pos =
    if ltb (length bytes) ((pos + n) % 2 ^ 64)
    then err (serialization_error message)
    else if leb (pos + n) (length bytes)
    then ok (take n (drop pos bytes), pos + n)
    else panic

-- `uN::from_le_bytes(read_bytes(&mut pos, k)?.try_into().unwrap())`
unfoldable pub read_uint : Message → ℕ → Reader ℕ
unfolding read_bytes pure ◌>>=◌
read_uint message k = read_bytes message k >>= λ s. pure (from_le_bytes s)

-- The result of a reader from the front of the data; the position is dropped with what follows it.
abbrev pub read_all {ℓ} : {A : Type ℓ} → Reader A → Bytes → Result A
read_all r bytes = elim (r bytes 0) [ ok (a, pos) ↦ ok a | err e ↦ err e | panic ↦ panic ]
