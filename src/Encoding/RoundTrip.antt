-- ===== src/Encoding/RoundTrip.antt =====
-- crates/rok-core/src/encoding.rs: the decoders on the text that the encoders make.
use ethmumbai_rok.Common.{
  ℕ, suc, ◌+◌, ◌-◌, ◌<◌, Bytes, ◌≡◌, refl, ap, sym, ◌∙◌, true, false, Option, none, some, List, [],
  ◌∷◌, ◌++◌, arith, length, length-append, take, drop, take-append_at, drop-append_at, get_or-drop,
  drop-drop, length-drop, ltb,
}
use ethmumbai_rok.Error.{ok}
use ethmumbai_rok.Text.Split.{spell}
use ethmumbai_rok.Scope.{Scope}
use ethmumbai_rok.Scope.Segments.{render}
use ethmumbai_rok.Crypto.{Crypto, CryptoLaws}
use ethmumbai_rok.Keys.{ExportedReadKey}
use ethmumbai_rok.Envelope.Valid.{IsScope}
use ethmumbai_rok.Envelope.RoundTrip.{scope_reads_back}
use ethmumbai_rok.Encoding.{
  tag_spend_public, decode_scope, encode_spend_public, decode_spend_public, encode_read_public,
  decode_read_public, parent_bytes, encode_exported_read_key, decode_parent,
  decode_exported_read_key,
}
use ethmumbai_rok.Encoding.Tagged.{decode_with_tag-encode_with_tag}

decode_scope-path : (s : Scope) → IsScope s → decode_scope s.path ≡ ok s
unfolding decode_scope
decode_scope-path s h =
    let (utf8, made) = scope_reads_back s h in rw (decode_scope, utf8, made) refl

path_nonempty : (s : Scope) → IsScope s → 0 < length s.path
unfolding render spell
path_nonempty s h = rw h.path_eq (start h.segments)
  where
    start : (ws : List Bytes) → 0 < length (render ws)
    start [] = omega arith
    start (w ∷ ws) = omega arith

abbrev pub IsParent : Option Bytes → Type 0
IsParent none = Unit {0}
IsParent (some id) = length id ≡ 8

-- [u8; 32] twice, an identifier of 8 bytes if there is one, a scope of `Scope::new`.
pub record IsExported (x : ExportedReadKey) : Type 0 where
  pub secret_size : length x.secret_bytes ≡ 32
  pub public_size : length x.public_bytes ≡ 32
  pub parent_size : IsParent x.parent_key_id
  pub is_scope : IsScope x.scope

-- `decode_parent` finds the parent that was written, and where the scope starts.
decode_parent-parent :
    (c : Crypto) (bytes path : Bytes) (p : Option Bytes)
    → drop 64 bytes ≡ parent_bytes c p ++ path
    → IsParent p
    → (n : ℕ) × (decode_parent c bytes ≡ ok (p, n)) × (drop n bytes ≡ path)
unfolding decode_parent parent_bytes
decode_parent-parent c bytes path none e h =
    (65, rw (get_or-drop 64 bytes 0, e) refl, sym (drop-drop 64 1 bytes) ∙ ap (drop 1) e)
decode_parent-parent c bytes path (some id) e h =
    let size : length bytes - 64 ≡ suc (length id + length path) =
      sym (length-drop 64 bytes) ∙ ap length e ∙ ap suc (length-append id path) in
    let long : ltb (length bytes) 73 ≡ false = ground (arith, size, h) in
    let id_found : take 8 (drop 65 bytes) ≡ id =
      rw (← drop-drop 64 1 bytes, e) (take-append_at 8 id path h) in
    (
      73,
      rw (get_or-drop 64 bytes 0, e, long, id_found) refl,
      sym (drop-drop 64 9 bytes) ∙ ap (drop 9) e ∙ drop-append_at 8 id path h,
    )

module _ (c : Crypto) (laws : CryptoLaws c) where
  -- A spend public key of 32 bytes that ed25519-dalek accepts is read back from its text.
  pub decode_spend_public-encode :
      (key : Bytes)
      → length key ≡ 32
      → c.is_verifying_key key ≡ true
      → decode_spend_public c (encode_spend_public c key) ≡ ok key
  unfolding decode_spend_public encode_spend_public
  decode_spend_public-encode key h v =
      rw (decode_with_tag-encode_with_tag c laws tag_spend_public tag_spend_public key, h, v) refl

  -- A read public key of 32 bytes is read back from its text together with its validated scope.
  pub decode_read_public-encode :
      (key : Bytes) (s : Scope)
      → length key ≡ 32
      → IsScope s
      → decode_read_public c (encode_read_public c key s) ≡ ok (key, s)
  unfolding decode_read_public encode_read_public
  decode_read_public-encode key s h hs =
      let long : ltb (length (key ++ s.path)) 33 ≡ false =
        ground (arith, length-append key s.path, path_nonempty s hs) in
      rw
        (
          decode_with_tag-encode_with_tag c laws,
          long,
          drop-append_at 32 key s.path h,
          decode_scope-path s hs,
          take-append_at 32 key s.path h,
        )
        refl

  -- An exported read key with fields of their sizes and a validated scope, with or without a
  -- parent, is read back whole from its text.
  pub decode_exported_read_key-encode :
      (x : ExportedReadKey)
      → IsExported x
      → decode_exported_read_key c (encode_exported_read_key c x) ≡ ok x
  unfolding decode_exported_read_key encode_exported_read_key
  decode_exported_read_key-encode x h =
      let rest = parent_bytes c x.parent_key_id ++ x.scope.path in
      let bytes = x.secret_bytes ++ (x.public_bytes ++ rest) in
      let at_32 = drop-append_at 32 x.secret_bytes (x.public_bytes ++ rest) h.secret_size in
      let at_64 : drop 64 bytes ≡ rest =
        sym (drop-drop 32 32 bytes)
        ∙ ap (drop 32) at_32
        ∙ drop-append_at 32 x.public_bytes rest h.public_size in
      let (n, parent, at_scope) =
        decode_parent-parent c bytes x.scope.path x.parent_key_id at_64 h.parent_size in
      let size : length bytes - 64 ≡ length (parent_bytes c x.parent_key_id) + length x.scope.path =
        sym (length-drop 64 bytes)
        ∙ ap length at_64
        ∙ length-append (parent_bytes c x.parent_key_id) x.scope.path in
      let long : ltb (length bytes) 65 ≡ false =
        ground (arith, size, path_nonempty x.scope h.is_scope) in
      rw
        (
          decode_with_tag-encode_with_tag c laws,
          long,
          parent,
          at_scope,
          decode_scope-path x.scope h.is_scope,
          take-append_at 32 x.secret_bytes (x.public_bytes ++ rest) h.secret_size,
          at_32,
          take-append_at 32 x.public_bytes rest h.public_size,
        )
        refl
