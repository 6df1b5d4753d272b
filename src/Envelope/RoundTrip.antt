-- ===== src/Envelope/RoundTrip.antt =====
-- crates/rok-core/src/envelope.rs: `from_bytes` on what `to_bytes` writes.
use ethmumbai_rok.Common.{
  ℕ, ◌^◌, ◌≤◌, ◌<◌, Bytes, ◌≡◌, refl, sym, ap, Option, none, some, List, [], ◌∷◌, ◌++◌, arith,
  length, All, bytes_eq, lt→ltb, le→leb,
}
use ethmumbai_rok.Error.{text, ok}
use ethmumbai_rok.Text.Utf8.{from_utf8, from_utf8-ascii}
use ethmumbai_rok.Text.Split.{spell}
use ethmumbai_rok.Scope.{Scope, slash, is_segment_char, new}
use ethmumbai_rok.Scope.Segments.{IsSegment, render}
use ethmumbai_rok.Scope.Validity.{IsPathChar, spell-IsPathChar, new-render}
use ethmumbai_rok.Wire.{le_bytes, as_u16, as_u32}
use ethmumbai_rok.Wire.LittleEndian.{as_u16_id, as_u32_id, as_u16-lt, as_u32-lt}
use ethmumbai_rok.Wire.Reading.{
  Reads, Reads-pure, Reads-lift, Reads-bind, Reads-then, Reads-map, Reads-bytes, Reads-uint,
  read_all-Reads,
}
use ethmumbai_rok.Envelope.{
  Algorithm, ecies_x25519_chacha20, hybrid_x25519_mlkem_chacha20, algorithm_code, algorithm_from_u8,
  AccessMode, recipient, scope_based, access_mode_code, access_mode_from_u8, AccessEntry,
  EncryptedEnvelope, magic, mlkem_bytes, entry_bytes, entries_bytes, scope_bytes, to_bytes,
  read_byte, read_access_mode, utf8_or_error, read_scope, read_mlkem, read_entry, read_entries,
  read_body, read_envelope, from_bytes,
}
use ethmumbai_rok.Envelope.Valid.{IsScope, IsEntry, IsMlkem, IsValid}

pub algorithm_round_trip : (a : Algorithm) → algorithm_from_u8 (algorithm_code a) ≡ ok a
unfolding algorithm_from_u8 algorithm_code
algorithm_round_trip ecies_x25519_chacha20 = refl
algorithm_round_trip hybrid_x25519_mlkem_chacha20 = refl

access_mode_round_trip : (m : AccessMode) → access_mode_from_u8 (access_mode_code m) ≡ ok m
unfolding access_mode_from_u8 access_mode_code
access_mode_round_trip recipient = refl
access_mode_round_trip scope_based = refl

pub Reads-byte : (b : ℕ) → Reads read_byte (b ∷ []) b
unfolding read_byte
Reads-byte b =
    Reads-map _ _ (b ∷ []) (b ∷ []) (Reads-bytes (text "unexpected end of data") (b ∷ []) 1 refl)

pub Reads-access_mode :
    (version : ℕ) (m : AccessMode)
    → 2 ≤ version
    → Reads (read_access_mode version) (access_mode_code m ∷ []) m
unfolding read_access_mode
Reads-access_mode version m h = rw (le→leb 2 version h) (
    Reads-then _ _ _ _ _ (Reads-byte (access_mode_code m))
      (Reads-lift _ m (access_mode_round_trip m)))

pub Reads-mlkem : (ct : Option Bytes) → IsMlkem ct → Reads read_mlkem (mlkem_bytes ct) ct
unfolding read_mlkem mlkem_bytes
Reads-mlkem none h = Reads-then _ _ _ _ _ (Reads-uint _ 4 0 (omega arith)) (Reads-pure none)
Reads-mlkem (some ct) (hpos, h) =
    Reads-bind _ _ _ _ _ _ (Reads-uint _ 4 (as_u32 (length ct)) (as_u32-lt (length ct))) (
      rw (as_u32_id (length ct) h, lt→ltb 0 (length ct) hpos)
        (Reads-map _ _ _ _ (Reads-bytes _ ct (length ct) refl)))

path_char_ascii : (s : Bytes) → All IsPathChar s → All (λ c. c < 0x80) s
unfolding is_segment_char
path_char_ascii [] h = tt
path_char_ascii (c ∷ s) (hc, h) = (ground arith, path_char_ascii s h)

render_ascii : (ws : List Bytes) → All IsSegment ws → All (λ c. c < 0x80) (render ws)
unfolding render
render_ascii [] h = omega arith
render_ascii (w ∷ ws) h = path_char_ascii (spell slash (w ∷ ws)) (spell-IsPathChar (w ∷ ws) h)

pub scope_reads_back :
    (s : Scope) → IsScope s → (from_utf8 s.path ≡ some s.path) × (new s.path ≡ ok s)
scope_reads_back s h =
    let ws = h.segments in
    rw h.path_eq
      (from_utf8-ascii (render ws) (render_ascii ws h.all_segments), new-render ws h.all_segments)

pub Reads-scope :
    (s : Scope) → IsScope s → length s.path < 2 ^ 16 → Reads read_scope (scope_bytes s) s
unfolding read_scope scope_bytes
Reads-scope s h fits =
    let (utf8, made) = scope_reads_back s h in
    Reads-bind _ _ _ _ _ _ (Reads-uint _ 2 (as_u16 (length s.path)) (as_u16-lt (length s.path))) (
      Reads-then _ _ _ _ _
        (Reads-bytes _ s.path (as_u16 (length s.path)) (sym (as_u16_id (length s.path) fits)))
        (Reads-then _ _ [] s.path _ (Reads-lift _ s.path (ap utf8_or_error utf8))
          (Reads-lift _ s made)))

Reads-entry : (entry : AccessEntry) → IsEntry entry → Reads read_entry (entry_bytes entry) entry
unfolding read_entry entry_bytes
Reads-entry entry h = Reads-bind _ _ _ _ _ _ (Reads-bytes _ entry.read_key_id 8 h.id_size) (
    Reads-bind _ _ _ _ _ _ (Reads-uint _ 2 (as_u16 (length entry.wrapped_data_key)) (as_u16-lt _)) (
      Reads-bind _ _ _ _ _ _ (Reads-bytes _ entry.wrapped_data_key _ (sym (as_u16_id _ h.key_size)))
        (Reads-map _ _ _ _ (Reads-bytes _ entry.wrap_nonce 12 h.nonce_size))))

pub Reads-entries :
    (entries : List AccessEntry)
    → All IsEntry entries
    → Reads (read_entries (length entries)) (entries_bytes entries) entries
unfolding read_entries entries_bytes
Reads-entries [] h = Reads-pure []
Reads-entries (entry ∷ entries) (he, h) =
    Reads-bind _ _ _ _ _ _ (unfold entry_bytes in Reads-entry entry he)
      (Reads-map _ _ _ _ (Reads-entries entries h))

-- The part of the format behind the scope.
body_bytes : EncryptedEnvelope → Bytes
body_bytes e =
    e.ephemeral_x25519_public
    ++ (mlkem_bytes e.ephemeral_mlkem_ciphertext
        ++ (le_bytes 2 (as_u16 (length e.access_entries))
            ++ (entries_bytes e.access_entries
                ++ (e.nonce
                    ++ (le_bytes 8 (length e.ciphertext)
                        ++ (e.ciphertext ++ (e.tag ++ (e.spend_public_key ++ e.signature))))))))

Reads-body :
    (e : EncryptedEnvelope)
    → IsValid e
    → Reads (read_body e.version e.algorithm e.access_mode e.scope) (body_bytes e) e
unfolding read_body body_bytes
Reads-body e h =
    Reads-bind _ _ _ _ _ _ (Reads-bytes _ e.ephemeral_x25519_public 32 h.ephemeral_size) (
      Reads-bind _ _ _ _ _ _ (Reads-mlkem e.ephemeral_mlkem_ciphertext h.mlkem) (
        Reads-bind _ _ _ _ _ _
          (Reads-uint _ 2 (as_u16 (length e.access_entries)) (as_u16-lt (length e.access_entries)))
          (rw (as_u16_id (length e.access_entries) h.entries_size) (
            Reads-bind _ _ _ _ _ _ (Reads-entries e.access_entries h.entries) (
              Reads-bind _ _ _ _ _ _ (Reads-bytes _ e.nonce 12 h.nonce_size) (
                Reads-bind _ _ _ _ _ _ (Reads-uint _ 8 (length e.ciphertext) h.ciphertext_size) (
                  Reads-bind _ _ _ _ _ _ (Reads-bytes _ e.ciphertext _ refl) (
                    Reads-bind _ _ _ _ _ _ (Reads-bytes _ e.tag 16 h.tag_size) (
                      Reads-bind _ _ _ _ _ _ (Reads-bytes _ e.spend_public_key 32 h.key_size)
                        (Reads-map _ _ _ _ (Reads-bytes _ e.signature 64 h.signature_size)))))))))))

Reads-envelope :
    (e : EncryptedEnvelope) → IsValid e → 2 ≤ e.version → Reads read_envelope (to_bytes e) e
unfolding read_envelope to_bytes bytes_eq body_bytes
Reads-envelope e h v2 = Reads-bind _ _ _ _ _ _ (Reads-bytes _ magic 4 refl) (
    Reads-bind _ _ [] _ tt _ (Reads-lift _ tt refl) (
      Reads-bind _ _ _ _ _ _ (Reads-uint _ 4 e.version h.version_size) (
        Reads-bind _ _ _ _ _ _ (Reads-byte (algorithm_code e.algorithm)) (
          Reads-bind _ _ [] _ _ _ (Reads-lift _ e.algorithm (algorithm_round_trip e.algorithm)) (
            Reads-bind _ _ _ _ _ _ (Reads-access_mode e.version e.access_mode v2) (
              Reads-bind _ _ _ _ _ _ (Reads-scope e.scope h.scope h.scope_size)
                (Reads-body e h)))))))

-- An envelope whose lengths fit the format is read back whole from what `to_bytes` wrote,
-- whatever bytes follow; the version is at least 2 and the data is shorter than the address
-- space.
pub from_bytes-to_bytes :
    (e : EncryptedEnvelope) (rest : Bytes)
    → IsValid e
    → 2 ≤ e.version
    → length (to_bytes e ++ rest) < 2 ^ 64
    → from_bytes (to_bytes e ++ rest) ≡ ok e
unfolding from_bytes
from_bytes-to_bytes e rest h v2 fits =
    read_all-Reads read_envelope (to_bytes e) rest e (Reads-envelope e h v2) fits
