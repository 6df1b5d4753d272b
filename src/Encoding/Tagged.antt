-- ===== src/Encoding/Tagged.antt =====
-- crates/rok-core/src/encoding.rs: `encode_with_tag` and `decode_with_tag`.
use ethmumbai_rok.Common.{
  ℕ, ◌-◌, Bytes, ◌≡◌, refl, false, ◌∷◌, ◌++◌, arith, length, length-append, length-take, take, drop,
  take-append, drop-append, bytes_eq_refl, ltb, ◌==◌, Bool-cases, inl, inr, if◌then◌else◌,
}
use ethmumbai_rok.Error.{ok, err, invalid_type_tag}
use ethmumbai_rok.Crypto.{Crypto, CryptoLaws}
use ethmumbai_rok.Encoding.{checksum, encode_with_tag, decode_with_tag}

module _ (c : Crypto) (laws : CryptoLaws c) where
  length-checksum : (raw : Bytes) → length (checksum c raw) ≡ 4
  unfolding checksum
  length-checksum raw = omega (
    arith,
    laws.length-sha256 (c.sha256 raw),
    length-take 4 (c.sha256 (c.sha256 raw)) (omega (arith, laws.length-sha256 (c.sha256 raw))),
  )

  -- The data that `encode_with_tag` writes splits again into the content and its checksum.
  content_splits :
      (raw : Bytes)
      → (length (raw ++ checksum c raw) - 4 ≡ length raw)
        × (take (length raw) (raw ++ checksum c raw) ≡ raw)
        × (drop (length raw) (raw ++ checksum c raw) ≡ checksum c raw)
  content_splits raw = (
    omega (arith, length-append raw (checksum c raw), length-checksum raw),
    take-append raw (checksum c raw),
    drop-append raw (checksum c raw),
  )

  -- Text made with a tag is read back under the same tag, and refused with `invalid_type_tag`
  -- under another.
  pub decode_with_tag-encode_with_tag :
      (tag expected : ℕ) (payload : Bytes)
      → decode_with_tag c (encode_with_tag c tag payload) expected
        ≡ (if tag == expected then ok payload else err (invalid_type_tag expected tag))
  unfolding decode_with_tag encode_with_tag
  decode_with_tag-encode_with_tag tag expected payload =
      let raw = tag ∷ payload in
      let (n, t, d) = content_splits raw in
      let long : ltb (length (raw ++ checksum c raw)) 5 ≡ false =
        ground (arith, length-append raw (checksum c raw), length-checksum raw) in
      elim (Bool-cases (tag == expected)) [
        | inl e ↦
            rw
              (
                decode_with_tag,
                laws.base58_round_trip (raw ++ checksum c raw),
                long,
                e,
                n,
                t,
                d,
                bytes_eq_refl (checksum c raw),
                take-append payload (checksum c raw),
              )
              refl
        | inr e ↦ rw (decode_with_tag, laws.base58_round_trip (raw ++ checksum c raw), long, e) refl
      ]
