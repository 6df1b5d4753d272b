-- ===== src/Encoding.antt =====
-- crates/rok-core/src/encoding.rs: keys as base58 text, behind a type tag and in front of a checksum.
-- A `VerifyingKey` and an `X25519PublicKey` are their 32 bytes; the text is the bytes of its string.
pub mod Tagged
pub mod RoundTrip
pub mod Sample
mod Runs
use ethmumbai_rok.Common.{
  ℕ, ◌-◌, Bytes, Bool, not, Option, none, some, List, [], ◌∷◌, ◌++◌, length, take, drop, get_or,
  bytes_eq, ltb, ◌==◌, if◌then◌else◌,
}
use ethmumbai_rok.Error.{
  num, text, format, encoding_error, invalid_checksum, invalid_type_tag, invalid_key_material,
  RokError, Result, ok, err, panic, ◌>>=◌, ◌>>◌, refuse,
}
use ethmumbai_rok.Text.Utf8.{from_utf8}
use ethmumbai_rok.Scope
use ethmumbai_rok.Scope.{Scope}
use ethmumbai_rok.Crypto.{Crypto}
use ethmumbai_rok.Keys.{ExportedReadKey}

abbrev pub tag_spend_public : ℕ
tag_spend_public = 0x01

abbrev pub tag_read_public : ℕ
tag_read_public = 0x02

abbrev pub tag_read_secret : ℕ
tag_read_secret = 0x03

-- `std::str::from_utf8(..).map_err(..)?` and `Scope::new(..)?`
unfoldable pub decode_scope : Bytes → Result Scope
decode_scope s = elim (from_utf8 s) [
  | none ↦ err (encoding_error (text "invalid scope utf8"))
  | some scope_str ↦ Scope.new scope_str
]

module _ (c : Crypto) where
  unfoldable pub checksum : Bytes → Bytes
  checksum raw = take 4 (c.sha256 (c.sha256 raw))

  unfoldable pub encode_with_tag : ℕ → Bytes → Bytes
  unfolding checksum
  encode_with_tag tag payload = let raw = tag ∷ payload in c.base58_encode (raw ++ checksum raw)

  -- `data[0]` and `content[1..]` are in range: the data has 5 bytes or more.
  unfoldable pub decode_with_tag : Bytes → ℕ → Result Bytes
  unfolding checksum
  decode_with_tag encoded expected_tag = elim (c.base58_decode encoded) [
    | none ↦ err (encoding_error (text "invalid base58: {}"))
    | some raw ↦ do
      refuse (ltb (length raw) 5) (encoding_error (text "encoded data too short"))
      let tag = get_or raw 0 0
      refuse (not (tag == expected_tag)) (invalid_type_tag expected_tag tag)
      let content = take (length raw - 4) raw
      let cs_bytes = drop (length raw - 4) raw
      refuse (not (bytes_eq cs_bytes (checksum content))) invalid_checksum
      ok (drop 1 content)
  ]

  unfoldable pub encode_spend_public : Bytes → Bytes
  encode_spend_public key = encode_with_tag tag_spend_public key

  unfoldable pub decode_spend_public : Bytes → Result Bytes
  decode_spend_public encoded = do
    bytes ← decode_with_tag encoded tag_spend_public
    refuse (not (length bytes == 32))
        (encoding_error (format "expected 32 bytes, got {}" (num (length bytes) ∷ [])))
    if c.is_verifying_key bytes then ok bytes else err invalid_key_material

  unfoldable pub encode_read_public : Bytes → Scope → Bytes
  encode_read_public key scope = encode_with_tag tag_read_public (key ++ scope.path)

  unfoldable pub decode_read_public : Bytes → Result (Bytes × Scope)
  decode_read_public encoded = do
    bytes ← decode_with_tag encoded tag_read_public
    refuse (ltb (length bytes) 33) (encoding_error (text "read public key too short"))
    scope ← decode_scope (drop 32 bytes)
    ok (take 32 bytes, scope)

  -- The byte that says whether there is a parent, and the parent's identifier.
  unfoldable pub parent_bytes : Option Bytes → Bytes
  parent_bytes (some parent_id) = 1 ∷ parent_id
  parent_bytes none = 0 ∷ []

  unfoldable pub encode_exported_read_key : ExportedReadKey → Bytes
  encode_exported_read_key exported = encode_with_tag tag_read_secret (
      exported.secret_bytes
      ++ (exported.public_bytes ++ (parent_bytes exported.parent_key_id ++ exported.scope.path)))

  -- The parent's identifier and `scope_start`; any byte but 1 stands for no parent.
  unfoldable pub decode_parent : Bytes → Result (Option Bytes × ℕ)
  decode_parent bytes =
      if get_or bytes 64 0 == 1
      then (do
        refuse (ltb (length bytes) 73) (encoding_error (text "missing parent key id"))
        ok (some (take 8 (drop 65 bytes)), 73))
      else ok (none, 65)

  unfoldable pub decode_exported_read_key : Bytes → Result ExportedReadKey
  decode_exported_read_key encoded = do
    bytes ← decode_with_tag encoded tag_read_secret
    refuse (ltb (length bytes) 65) (encoding_error (text "exported read key too short"))
    (parent_key_id, scope_start) ← decode_parent bytes
    scope ← decode_scope (drop scope_start bytes)
    ok (record {
      secret_bytes = take 32 bytes;
      public_bytes = take 32 (drop 32 bytes);
      scope = scope;
      parent_key_id = parent_key_id;
    })
