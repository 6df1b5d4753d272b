-- ===== src/Envelope/Overflow.antt =====
-- crates/rok-core/src/envelope.rs: data that claims a ciphertext length near 2^64, where the sum in
-- `read_bytes` wraps.
use ethmumbai_rok.Common.{
  ℕ, ◌+◌, ◌^◌, ◌≤◌, ◌<◌, Option, none, some, Bytes, ◌≡◌, refl, ◌∙◌, [], ◌∷◌, ◌++◌, arith, length,
  length-append, append_assoc, bytes_eq,
}
use ethmumbai_rok.Error.{Message, panic}
use ethmumbai_rok.Wire.{le_bytes, as_u16, as_u32, Reader, ◌>>=◌, read_all, read_bytes}
use ethmumbai_rok.Wire.LittleEndian.{length-le_bytes, as_u16_id, as_u16-lt}
use ethmumbai_rok.Wire.Reading.{At, At-move, Reads, Reads-lift, Reads-bytes, Reads-uint, bind_ok}
use ethmumbai_rok.Scope.{Scope}
use ethmumbai_rok.Envelope.{
  EncryptedEnvelope, magic, algorithm_code, access_mode_code, scope_bytes, mlkem_bytes,
  entries_bytes, read_envelope, read_body, from_bytes,
}
use ethmumbai_rok.Envelope.Valid.{IsValid}
use ethmumbai_rok.Envelope.RoundTrip.{
  algorithm_round_trip, Reads-byte, Reads-access_mode, Reads-scope, Reads-mlkem, Reads-entries,
}

-- `p` panics wherever `bs` stands, from the position `k` on.
record Panics {ℓ} {A : Type ℓ} (k : ℕ) (p : Reader A) (bs : Bytes) : Type ℓ where
  run :
      (bytes : Bytes) (pos : ℕ) (rest : Bytes)
      → length bytes < 2 ^ 64
      → k ≤ pos
      → At bytes pos (bs ++ rest)
      → p bytes pos ≡ panic

Panics-after {ℓ κ} :
    {A : Type ℓ} {B : Type κ} (k : ℕ) (p : Reader A) (f : A → Reader B) (bs cs : Bytes) (a : A)
    → Reads p bs a
    → Panics (k + length bs) (f a) cs
    → Panics k (p >>= f) (bs ++ cs)
Panics-after k p f bs cs a hp hf = record {
  run = λ bytes pos rest fits late h.
      let h' : At bytes pos (bs ++ (cs ++ rest)) = record {
        inside = h.inside;
        here = h.here ∙ append_assoc bs cs rest;
      } in
      bind_ok p f bytes pos a (pos + length bs) (hp.run bytes pos (cs ++ rest) fits h')
      ∙ hf.run bytes (pos + length bs) rest fits (omega arith)
          (At-move bytes pos bs (cs ++ rest) h');
}

Panics-first {ℓ κ} :
    {A : Type ℓ} {B : Type κ} (k : ℕ) (p : Reader A) (f : A → Reader B) (bs : Bytes)
    → Panics k p bs
    → Panics k (p >>= f) bs
unfolding ◌>>=◌
Panics-first k p f bs h = record {
  run = λ bytes pos rest fits late a. rw (h.run bytes pos rest fits late a, ◌>>=◌) refl;
}

Panics-bytes : (m : Message) (k n : ℕ) → n < 2 ^ 64 → 2 ^ 64 ≤ k + n → Panics k (read_bytes m n) []
unfolding read_bytes
Panics-bytes m k n hn wraps = record {
  run = λ bytes pos rest fits late h. let inside = h.inside in ground arith;
}

-- What `to_bytes` writes up to the nonce, and then a length of the ciphertext of one's own.
unfoldable pub body_claiming : EncryptedEnvelope → ℕ → Bytes
body_claiming e n =
    e.ephemeral_x25519_public
    ++ (mlkem_bytes e.ephemeral_mlkem_ciphertext
        ++ (le_bytes 2 (as_u16 (length e.access_entries))
            ++ (entries_bytes e.access_entries ++ (e.nonce ++ (le_bytes 8 n ++ [])))))

unfoldable pub bytes_claiming : EncryptedEnvelope → ℕ → Bytes
unfolding body_claiming
bytes_claiming e n =
    magic
    ++ (le_bytes 4 e.version
        ++ (algorithm_code e.algorithm ∷ []
            ++ (access_mode_code e.access_mode ∷ [] ++ (scope_bytes e.scope ++ body_claiming e n))))

mlkem_size : (ct : Option Bytes) → 4 ≤ length (mlkem_bytes ct)
unfolding mlkem_bytes
mlkem_size none = omega (arith, length-le_bytes 4 0)
mlkem_size (some ct) = omega (
  arith,
  length-append (le_bytes 4 (as_u32 (length ct))) ct,
  length-le_bytes 4 (as_u32 (length ct)),
)

-- 32 + 4 + 2 + 12 + 8 bytes at least stand between the scope and the ciphertext.
Panics-body :
    (e : EncryptedEnvelope) (k n : ℕ)
    → IsValid e
    → n < 2 ^ 64
    → 2 ^ 64 ≤ k + 58 + n
    → Panics k (read_body e.version e.algorithm e.access_mode e.scope) (body_claiming e n)
unfolding read_body body_claiming
Panics-body e k n h hn wraps =
    Panics-after k _ _ _ _ _ (Reads-bytes _ e.ephemeral_x25519_public 32 h.ephemeral_size) (
      Panics-after _ _ _ _ _ _ (Reads-mlkem e.ephemeral_mlkem_ciphertext h.mlkem) (
        Panics-after _ _ _ _ _ _
          (Reads-uint _ 2 (as_u16 (length e.access_entries)) (as_u16-lt (length e.access_entries)))
          (rw (as_u16_id (length e.access_entries) h.entries_size) (
            Panics-after _ _ _ _ _ _ (Reads-entries e.access_entries h.entries) (
              Panics-after _ _ _ _ _ _ (Reads-bytes _ e.nonce 12 h.nonce_size) (
                Panics-after _ _ _ _ _ _ (Reads-uint _ 8 n hn) (
                  Panics-first _ _ _ _ (
                    Panics-bytes _ _ n hn (
                      omega (
                        arith,
                        length-le_bytes 2 (length e.access_entries),
                        length-le_bytes 8 n,
                        mlkem_size e.ephemeral_mlkem_ciphertext,
                        h.ephemeral_size,
                        h.nonce_size,
                        wraps,
                      ))))))))))

scope_size : (s : Scope) → 2 ≤ length (scope_bytes s)
unfolding scope_bytes
scope_size s = omega (
  arith,
  length-append (le_bytes 2 (as_u16 (length s.path))) s.path,
  length-le_bytes 2 (as_u16 (length s.path)),
)

Panics-envelope :
    (e : EncryptedEnvelope) (n : ℕ)
    → IsValid e
    → 2 ≤ e.version
    → n < 2 ^ 64
    → 2 ^ 64 ≤ n + 70
    → Panics 0 read_envelope (bytes_claiming e n)
unfolding read_envelope bytes_claiming bytes_eq
Panics-envelope e n h v2 hn wraps = Panics-after 0 _ _ _ _ _ (Reads-bytes _ magic 4 refl) (
    Panics-after _ _ _ [] _ tt (Reads-lift _ tt refl) (
      Panics-after _ _ _ _ _ _ (Reads-uint _ 4 e.version h.version_size) (
        Panics-after _ _ _ _ _ _ (Reads-byte (algorithm_code e.algorithm)) (
          Panics-after _ _ _ [] _ _ (Reads-lift _ e.algorithm (algorithm_round_trip e.algorithm)) (
            Panics-after _ _ _ _ _ _ (Reads-access_mode e.version e.access_mode v2) (
              Panics-after _ _ _ _ _ _ (Reads-scope e.scope h.scope h.scope_size) (
                Panics-body e _ n h hn
                  (omega (arith, length-le_bytes 4 e.version, scope_size e.scope, wraps)))))))))

-- `from_bytes` panics on data whose claimed ciphertext length is at least 2^64 - 70 and below
-- 2^64, whatever follows the length, though every field in front of it is well formed, the
-- version is at least 2 and the data is shorter than the address space.
pub from_bytes_panics :
    (e : EncryptedEnvelope) (n : ℕ) (rest : Bytes)
    → IsValid e
    → 2 ≤ e.version
    → n < 2 ^ 64
    → 2 ^ 64 ≤ n + 70
    → length (bytes_claiming e n ++ rest) < 2 ^ 64
    → from_bytes (bytes_claiming e n ++ rest) ≡ panic
unfolding from_bytes
from_bytes_panics e n rest h v2 hn wraps fits =
    let start : At (bytes_claiming e n ++ rest) 0 (bytes_claiming e n ++ rest) = record {
      inside = omega arith;
      here = refl;
    } in
    rw
      (
        (Panics-envelope e n h v2 hn wraps).run (bytes_claiming e n ++ rest) 0 rest fits
            (omega arith) start,
        read_all,
      )
      refl
