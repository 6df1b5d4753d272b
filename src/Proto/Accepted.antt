-- ===== src/Proto/Accepted.antt =====
-- crates/rok-core/src/proto.rs: the envelopes that `try_from` lets through.
use ethmumbai_rok.Common.{
  ℕ, Bool-cases, inl, inr, Bytes, ◌≡◌, refl, subst, false, Option, none, some, List, [], ◌∷◌,
  length, All, ◌==◌, ==_iff,
}
use ethmumbai_rok.Error.{RokError, Result, ok, ◌>>◌, ok-injective, >>=-eq-ok}
use ethmumbai_rok.Scope
use ethmumbai_rok.Scope.{Scope, is_empty}
use ethmumbai_rok.Scope.Validity.{new-ok_iff}
use ethmumbai_rok.Envelope.{AccessEntry, EncryptedEnvelope}
use ethmumbai_rok.Envelope.Valid.{IsScope}
use ethmumbai_rok.Proto.{
  entry_try_from, entries_try_from, envelope_try_from, sized, mlkem_of, algorithm_of,
  access_mode_of,
}
use ethmumbai_rok.Proto.Messages
use ethmumbai_rok.Proto.Messages.{Prost}

-- The sizes of `[u8; 8]` and `[u8; 12]`.
abbrev pub IsSizedEntry : AccessEntry → Type 0
IsSizedEntry e = (length e.read_key_id ≡ 8) × (length e.wrap_nonce ≡ 12)

-- No ML-KEM ciphertext, or one that is not empty.
abbrev pub NotEmpty : Option Bytes → Type 0
NotEmpty none = Unit
NotEmpty (some ct) = is_empty ct ≡ false

-- The fields have the sizes of their types, and the scope is validated.
pub record IsAccepted (e : EncryptedEnvelope) : Type 0 where
  pub scope : IsScope e.scope
  pub ephemeral : length e.ephemeral_x25519_public ≡ 32
  pub mlkem : NotEmpty e.ephemeral_mlkem_ciphertext
  pub entries : All IsSizedEntry e.access_entries
  pub nonce : length e.nonce ≡ 12
  pub tag : length e.tag ≡ 16
  pub key : length e.spend_public_key ≡ 32
  pub signature : length e.signature ≡ 64

-- A chain behind a size test that succeeds has the size, and goes on.
sized-ok :
    {A : Type 0} (bytes : Bytes) (n : ℕ) (e : RokError) (next : Result A) (x : A)
    → (sized bytes n e >> next) ≡ ok x
    → (length bytes ≡ n) × (next ≡ ok x)
unfolding sized
sized-ok bytes n e next x h = elim (Bool-cases (length bytes == n)) [
  | inl b ↦ ((==_iff (length bytes) n).0 b, rw b at h)
  | inr b ↦ cc (rw b at h)
]

new-IsScope : (path : Bytes) (s : Scope) → Scope.new path ≡ ok s → IsScope s
new-IsScope path s h =
    let (ws, hw, _, e) = (new-ok_iff path s).0 h in
    record { segments = ws; all_segments = hw; path_eq = e }

mlkem_of-NotEmpty : (bytes : Bytes) → NotEmpty (mlkem_of bytes)
unfolding mlkem_of is_empty
mlkem_of-NotEmpty [] = tt
mlkem_of-NotEmpty (b ∷ s) = refl

entry_try_from-IsSizedEntry :
    (m : Messages.AccessEntry) (e : AccessEntry) → entry_try_from m ≡ ok e → IsSizedEntry e
unfolding entry_try_from
entry_try_from-IsSizedEntry m e h =
    let (hi, h1) = sized-ok _ _ _ _ _ h in
    let (hn, h2) = sized-ok _ _ _ _ _ h1 in subst IsSizedEntry (ok-injective h2) (hi, hn)

entries_try_from-IsSizedEntry :
    (ms : List Messages.AccessEntry) (es : List AccessEntry)
    → entries_try_from ms ≡ ok es
    → All IsSizedEntry es
unfolding entries_try_from
entries_try_from-IsSizedEntry [] es h = rw⁻¹ (ok-injective h) tt
entries_try_from-IsSizedEntry (m ∷ ms) es h =
    let (e, h1, he) = >>=-eq-ok _ _ h in
    let (es', h2, hes) = >>=-eq-ok _ _ h1 in
    let made : e ∷ es' ≡ es = ok-injective h2 in
    rw⁻¹ made (entry_try_from-IsSizedEntry m e he, entries_try_from-IsSizedEntry ms es' hes)

-- An envelope that the conversion from protobuf accepts has a validated scope, key, nonce, tag
-- and signature fields of the sizes of their types, entries with identifiers of 8 and nonces of
-- 12 bytes, and no empty ML-KEM ciphertext, whatever the message and whatever prost makes of the
-- numbers.
pub envelope_try_from-IsAccepted :
    (p : Prost) (m : Messages.EncryptedEnvelope) (e : EncryptedEnvelope)
    → envelope_try_from p m ≡ ok e
    → IsAccepted e
unfolding envelope_try_from
envelope_try_from-IsAccepted p m e h =
    let (algorithm, h1, _) = >>=-eq-ok (algorithm_of p m.algorithm) _ h in
    let (scope, h2, hs) = >>=-eq-ok _ _ h1 in
    let (hx, h3) = sized-ok _ _ _ _ _ h2 in
    let (es, h4, hes) = >>=-eq-ok _ _ h3 in
    let (hn, h5) = sized-ok _ _ _ _ _ h4 in
    let (ht, h6) = sized-ok _ _ _ _ _ h5 in
    let (hk, h7) = sized-ok _ _ _ _ _ h6 in
    let (hg, h8) = sized-ok _ _ _ _ _ h7 in
    let (mode, h9, _) = >>=-eq-ok (access_mode_of p m.access_mode) _ h8 in
    subst IsAccepted (ok-injective h9) (record {
      scope = new-IsScope m.scope scope hs;
      ephemeral = hx;
      mlkem = mlkem_of-NotEmpty m.ephemeral_mlkem_ciphertext;
      entries = entries_try_from-IsSizedEntry m.access_entries es hes;
      nonce = hn;
      tag = ht;
      key = hk;
      signature = hg;
    })
