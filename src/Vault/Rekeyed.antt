-- ===== src/Vault/Rekeyed.antt =====
-- crates/rok-sdk/src/vault.rs: `rekey`, on vaults in which a name stands once.
use ethmumbai_rok.Common.{
  ◌^◌, ◌<◌, Bytes, ◌≡◌, ◌≢◌, refl, sym, ◌∙◌, true, false, Bool-cases, inl, inr, none, some, List,
  [], ◌∷◌, length, All, All-map, All-both, Option-cases, bytes_eq_refl,
}
use ethmumbai_rok.Error.{Result-cases, ok-injective, ok}
use ethmumbai_rok.Crypto.{Crypto, CryptoLaws, Rng, Fills}
use ethmumbai_rok.Scope.{Scope, is_ancestor_of}
use ethmumbai_rok.Keys.{ReadKeyPair, key_id}
use ethmumbai_rok.Envelope.{EncryptedEnvelope}
use ethmumbai_rok.Encrypt.{Recipient, decrypt}
use ethmumbai_rok.Encrypt.Wrapping.{find_recipient}
use ethmumbai_rok.Encrypt.Access.{answer}
use ethmumbai_rok.Encrypt.Sizes.{HasId}
use ethmumbai_rok.Encrypt.Listed.{Owns, encrypt-AnswersFor}
use ethmumbai_rok.Table.{get, bytes_eq-ne, get-insert-same, get-insert-other}
use ethmumbai_rok.Vault.{
  Vault, names_to_rekey, retrieve, verifying_key, put_document, rekey_document, rekey_loop, rekey,
}

-- A name stands once.
abbrev pub IsMap : List (Bytes × EncryptedEnvelope) → Type 0
IsMap [] = Unit {0}
IsMap ((name, env) ∷ documents) = (get name documents ≡ none) × IsMap documents

abbrev Distinct : List Bytes → Type 0
Distinct [] = Unit {0}
Distinct (n ∷ ns) = All (λ m. m ≢ n) ns × Distinct ns

-- The document of a name is below the scope.
abbrev InScope : Scope → List (Bytes × EncryptedEnvelope) → Bytes → Type 0
InScope scope documents name =
    (env : EncryptedEnvelope) × (get name documents ≡ some env)
    × (is_ancestor_of scope env.scope ≡ true)

found-ne :
    (j n : Bytes) (env : EncryptedEnvelope) (t : List (Bytes × EncryptedEnvelope))
    → get j t ≡ none
    → get n t ≡ some env
    → n ≢ j
found-ne j n env t hj hn e = let same : get j t ≡ some env = rw⁻¹ e hn in absurd (cc (hj, same))

InScope-cons :
    (scope : Scope) (j : Bytes) (e : EncryptedEnvelope) (t : List (Bytes × EncryptedEnvelope))
    → get j t ≡ none
    → (n : Bytes) → InScope scope t n
    → InScope scope ((j, e) ∷ t) n
unfolding get
InScope-cons scope j e t hj n (env, hn, a) =
    (env, rw (bytes_eq-ne j n (λ q. found-ne j n env t hj hn (sym q))) hn, a)

names_to_rekey-InScope :
    (scope : Scope) (t : List (Bytes × EncryptedEnvelope))
    → IsMap t
    → All (InScope scope t) (names_to_rekey scope t) × Distinct (names_to_rekey scope t)
unfolding names_to_rekey
names_to_rekey-InScope scope [] h = (tt, tt)
names_to_rekey-InScope scope ((j, e) ∷ t) (hj, h) =
    let (rest, apart) = names_to_rekey-InScope scope t h in
    let kept = All-map (names_to_rekey scope t) (InScope-cons scope j e t hj) rest in
    elim (Bool-cases (is_ancestor_of scope e.scope)) [
      | inl a ↦ rw a (
        ((e, unfold get in rw bytes_eq_refl refl, a), kept),
        (All-map (names_to_rekey scope t) (λ n (env, hn, _). found-ne j n env t hj hn) rest, apart),
      )
      | inr b ↦ rw b (kept, apart)
    ]

module _ (c : Crypto) where
  -- A name that the loop does not visit keeps its document, however the loop ends.
  rekey_loop-other :
      (self : Vault) (root_read_key : ReadKeyPair) (new_recipients : List Recipient)
      (names : List Bytes) (rng : Rng) (other : Bytes)
      → All (λ n. other ≢ n) names
      → get other (rekey_loop c self root_read_key new_recipients names rng).1.documents
        ≡ get other self.documents
  unfolding rekey_loop put_document
  rekey_loop-other self key rs [] rng other h = refl
  rekey_loop-other self key rs (n ∷ ns) rng other (hn, h) =
      elim (Result-cases (rekey_document c self key rs n rng)) [
        | inl ((env, rng'), e) ↦
            rw (rekey_loop, e)
              (rekey_loop-other (put_document c self n env) key rs ns rng' other h
                ∙ get-insert-other n other env self.documents hn)
        | inr (inl (bad, e)) ↦ rw (rekey_loop, e) refl
        | inr (inr e) ↦ rw (rekey_loop, e) refl
      ]

  -- In a vault in which a name stands once, `rekey` keeps the envelope of every document whose
  -- scope is not at or below the given scope, whether it succeeds, fails midway or panics.
  pub rekey-elsewhere :
      (self : Vault) (scope : Scope) (root_read_key : ReadKeyPair) (new_recipients : List Recipient)
      (rng : Rng) (name : Bytes) (env : EncryptedEnvelope)
      → IsMap self.documents
      → get name self.documents ≡ some env
      → is_ancestor_of scope env.scope ≡ false
      → get name (rekey c self scope root_read_key new_recipients rng).1.documents ≡ some env
  unfolding rekey
  rekey-elsewhere self scope key rs rng name env h found outside =
      let (inside, _) = names_to_rekey-InScope scope self.documents h in
      rekey_loop-other self key rs (names_to_rekey scope self.documents) rng name (
        All-map (names_to_rekey scope self.documents)
          (λ n (other, hn, a) e.
            let same : env ≡ other = cc (found, hn, e) in
            let reached : is_ancestor_of scope env.scope ≡ true = rw same a in
            absurd (cc (outside, reached)))
          inside)
      ∙ found

  -- The key reads the document of the name.
  abbrev pub Reads : Vault → ReadKeyPair → Bytes → Type 0
  Reads self key name =
      (plaintext : Bytes) × (retrieve c self name key ≡ ok plaintext) × (length plaintext < 2 ^ 36)

  retrieve-eq-ok :
      (self : Vault) (name : Bytes) (k : ReadKeyPair) (plaintext : Bytes)
      → retrieve c self name k ≡ ok plaintext
      → (env : EncryptedEnvelope) × (get name self.documents ≡ some env)
        × (decrypt c env k (verifying_key c self) ≡ ok plaintext)
  unfolding retrieve
  retrieve-eq-ok self name k plaintext h = elim (Option-cases (get name self.documents)) [
    | inl (env, e) ↦ (env, e, rw e at h)
    | inr e ↦ cc (rw e at h)
  ]

  retrieve-put_document :
      (self : Vault) (name other : Bytes) (env : EncryptedEnvelope) (k : ReadKeyPair)
      → other ≢ name
      → retrieve c (put_document c self name env) other k ≡ retrieve c self other k
  unfolding retrieve put_document verifying_key
  retrieve-put_document self name other env k apart =
      rw (retrieve, get-insert-other name other env self.documents apart) refl

  -- What the new list of recipients makes of a document that had a plaintext.
  pub Answered :
      CryptoLaws c → Vault → Vault → ReadKeyPair → ReadKeyPair → List Recipient → Bytes → Type 0
  Answered laws self next root_read_key k rs name =
      (plaintext : Bytes)
      → retrieve c self name root_read_key ≡ ok plaintext
      → retrieve c next name k
        ≡ answer c laws self.spend_key k plaintext (find_recipient (key_id c k) rs)

  rekey_loop-spend_key :
      (self : Vault) (root_read_key : ReadKeyPair) (new_recipients : List Recipient)
      (names : List Bytes) (rng : Rng)
      → (rekey_loop c self root_read_key new_recipients names rng).1.spend_key ≡ self.spend_key
  unfolding rekey_loop put_document
  rekey_loop-spend_key self key rs [] rng = refl
  rekey_loop-spend_key self key rs (n ∷ ns) rng =
      elim (Result-cases (rekey_document c self key rs n rng)) [
        | inl ((env, rng'), e) ↦
            rw (rekey_loop, e) (rekey_loop-spend_key (put_document c self n env) key rs ns rng')
        | inr (inl (bad, e)) ↦ rw (rekey_loop, e) refl
        | inr (inr e) ↦ rw (rekey_loop, e) refl
      ]

  read_again :
      (laws : CryptoLaws c) (self next : Vault) (k : ReadKeyPair) (rs : List Recipient)
      (n plaintext : Bytes) (env : EncryptedEnvelope)
      → get n next.documents ≡ some env
      → next.spend_key ≡ self.spend_key
      → decrypt c env k (c.verifying_key self.spend_key.seed)
        ≡ answer c laws self.spend_key k plaintext (find_recipient (key_id c k) rs)
      → retrieve c next n k
        ≡ answer c laws self.spend_key k plaintext (find_recipient (key_id c k) rs)
  unfolding retrieve verifying_key
  read_again laws self next k rs n plaintext env found kept h = rw (retrieve, found, kept) h

  rekey_loop-step :
      (self : Vault) (key : ReadKeyPair) (rs : List Recipient) (n : Bytes) (ns : List Bytes)
      (rng rng' : Rng) (env : EncryptedEnvelope)
      → rekey_document c self key rs n rng ≡ ok (env, rng')
      → rekey_loop c self key rs (n ∷ ns) rng
        ≡ rekey_loop c (put_document c self n env) key rs ns rng'
  unfolding rekey_loop
  rekey_loop-step self key rs n ns rng rng' env h = rw (rekey_loop, h) refl

  rekey_loop-Answered :
      (laws : CryptoLaws c) (self : Vault) (key k : ReadKeyPair) (r : Recipient)
      (rs : List Recipient) (names : List Bytes) (rng : Rng)
      → Fills rng
      → All HasId (r ∷ rs)
      → Owns c laws self.spend_key k (r ∷ rs)
      → All (Reads self key) names
      → Distinct names
      → (next : Vault) × (rekey_loop c self key (r ∷ rs) names rng ≡ (ok tt, next))
        × All (Answered laws self next key k (r ∷ rs)) names
  unfolding Answered rekey_document put_document
  rekey_loop-Answered laws self key k r rs [] rng hf hi own hr hd =
      (self, unfold rekey_loop in refl, tt)
  rekey_loop-Answered laws self key k r rs (n ∷ ns) rng hf hi own ((pt, hn, small), hr)
        (apart, hd) =
      let (env, found, opened) = retrieve-eq-ok self n key pt hn in
      let (env', rng', he, _, answers, f) =
        encrypt-AnswersFor c laws self.spend_key env.scope r rs pt rng hi small hf in
      let one : rekey_document c self key (r ∷ rs) n rng ≡ ok (env', rng') =
        rw (rekey_document, found, opened, he) refl in
      let mid = put_document c self n env' in
      let same : (m : Bytes) → m ≢ n → retrieve c mid m key ≡ retrieve c self m key =
        λ m d. retrieve-put_document self n m env' key d in
      let (next, hl, rest) =
        rekey_loop-Answered laws mid key k r rs ns rng' f hi own
          (All-map ns (λ m ((p, hp, sp), d). (p, same m d ∙ hp, sp))
            (All-both (Reads self key) (λ m. m ≢ n) ns hr apart))
          hd in
      let kept : (rekey_loop c mid key (r ∷ rs) ns rng').1.spend_key ≡ self.spend_key =
        rekey_loop-spend_key mid key (r ∷ rs) ns rng' in
      let held : get n (rekey_loop c mid key (r ∷ rs) ns rng').1.documents ≡ some env' =
        rekey_loop-other mid key (r ∷ rs) ns rng' n (All-map ns (λ m d e. d (sym e)) apart)
        ∙ get-insert-same n env' self.documents in
      let first : retrieve c next n k
          ≡ answer c laws self.spend_key k pt (find_recipient (key_id c k) (r ∷ rs)) =
        read_again laws self next k (r ∷ rs) n pt env' (rw hl at held) (rw hl at kept)
          (answers k own) in
      (
        next,
        rekey_loop-step self key (r ∷ rs) n ns rng rng' env' one ∙ hl,
        (
          λ p hp. rw⁻¹ (ok-injective (sym hn ∙ hp)) first,
          All-map ns (λ m (old, d) p hp. old p (same m d ∙ hp))
              (All-both (Answered laws mid next key k (r ∷ rs)) (λ m. m ≢ n) ns rest apart),
        ),
      )

  -- In a vault in which a name stands once, `rekey` to a list of recipients that is not empty,
  -- with identifiers of 8 bytes, succeeds with the number of documents at or below the scope, if
  -- the given key reads each of them with less than 2^36 bytes, under the laws of the
  -- cryptography and a generator that fills its buffers. Each of these documents then answers a
  -- genuine key, whatever its scope, with the plaintext it had if the new list names the key with
  -- its public half, and with `no_matching_access_entry` if the new list lacks its identifier.
  pub rekey-Answered :
      (laws : CryptoLaws c) (self : Vault) (scope : Scope) (root_read_key k : ReadKeyPair)
      (r : Recipient) (rs : List Recipient) (rng : Rng)
      → Fills rng
      → All HasId (r ∷ rs)
      → IsMap self.documents
      → Owns c laws self.spend_key k (r ∷ rs)
      → All (Reads self root_read_key) (names_to_rekey scope self.documents)
      → (next : Vault) × (rekey c self scope root_read_key (r ∷ rs) rng
          ≡ (ok (length (names_to_rekey scope self.documents)), next))
        × All
            (Answered laws self next root_read_key k (r ∷ rs))
            (names_to_rekey scope self.documents)
  unfolding rekey
  rekey-Answered laws self scope key k r rs rng hf hi hm own hr =
      let (_, distinct) = names_to_rekey-InScope scope self.documents hm in
      let (next, hl, all_answered) =
        rekey_loop-Answered laws self key k r rs (names_to_rekey scope self.documents) rng hf hi own
          hr distinct in
      (next, rw hl refl, all_answered)
