-- ===== src/Encrypt/Sample.antt =====
-- Keys, recipients and envelopes over the toy cryptography: test data.
use ethmumbai_rok.Common.{
  arith, ◌^◌, ◌<◌, ◌≡◌, refl, true, Bytes, some, none, List, [], ◌∷◌, codes, replicate, All, ℕ,
  zero, suc, length, sym, false, bytes_eq_refl, bytes_eq, ap,
}
use ethmumbai_rok.Error.{ok}
use ethmumbai_rok.Crypto.{Rng, Fills}
use ethmumbai_rok.Crypto.Toy.{toy, toy_laws, zeros}
use ethmumbai_rok.Text.Split.{spell}
use ethmumbai_rok.Scope.Segments.{render, IsSegment, of_segments, are_segments, are_segments_sound}
use ethmumbai_rok.Keys.{
  ReadKeyPair, SpendKeyPair, key_id, derive_root_read_key, from_secret_bytes, from_public_bytes,
}
use ethmumbai_rok.Derive.{derive_root_read_secret}
use ethmumbai_rok.Keys.Delegation.{IsGenuine}
use ethmumbai_rok.Envelope.{ecies_x25519_chacha20, recipient, EncryptedEnvelope}
use ethmumbai_rok.Envelope.Valid.{IsScope}
use ethmumbai_rok.Encrypt.{
  Recipient, EncryptBuilder, new, add_recipient, set_spend_key, set_scope_based, choose_recipients,
  encrypt,
}
use ethmumbai_rok.Encrypt.Wrapping.{find_recipient}
use ethmumbai_rok.Encrypt.RoundTrip.{Sealed, encrypt-Sealed}
use ethmumbai_rok.Encrypt.Access.{root-HeldAt, HeldAt-IsGenuine}

abbrev pub finance : List Bytes
finance = codes "finance" ∷ []

pub finance_ok : All IsSegment finance
unfolding are_segments
finance_ok = are_segments_sound finance refl

pub finance_short : length (render finance) < 2 ^ 16
unfolding render spell
finance_short = omega arith

abbrev pub spend : SpendKeyPair
spend = record { seed = replicate 32 42 }

abbrev pub root_key : ReadKeyPair
root_key = derive_root_read_key toy spend

abbrev pub note : Bytes
note = codes "hello"

abbrev pub for_scope : EncryptBuilder
for_scope = set_scope_based (set_spend_key (new ecies_x25519_chacha20 (of_segments finance)) spend)

pub for_scope_fields :
    (for_scope.spend_key ≡ some spend)
    × (for_scope.is_scope_based ≡ true)
    × (for_scope.scope ≡ of_segments finance)
unfolding set_scope_based set_spend_key new
for_scope_fields = (refl, refl, refl)

pub length-replicate : (n : ℕ) → length (replicate {A = ℕ} n 0) ≡ n
length-replicate zero = refl
length-replicate (suc n) = ap suc (length-replicate n)

pub fills : Fills zeros
fills i n = length-replicate n

abbrev pub reader : Recipient
reader = record { read_public_key = root_key.public; key_id = key_id toy root_key }

abbrev pub for_reader : EncryptBuilder
for_reader =
    add_recipient (set_spend_key (new ecies_x25519_chacha20 (of_segments finance)) spend) reader

pub for_reader_fields :
    (for_reader.spend_key ≡ some spend)
    × (for_reader.is_scope_based ≡ false)
    × (for_reader.recipients ≡ reader ∷ [])
unfolding add_recipient set_spend_key new
for_reader_fields = (refl, refl, refl)

pub for_reader-IsScope : IsScope for_reader.scope
unfolding add_recipient set_spend_key new
for_reader-IsScope = record { segments = finance; all_segments = finance_ok; path_eq = refl }

pub genuine : IsGenuine toy root_key
genuine = HeldAt-IsGenuine toy toy_laws spend [] root_key (root-HeldAt toy toy_laws spend)

-- The reader is the first and only recipient.
pub found_reader : find_recipient (key_id toy root_key) (reader ∷ []) ≡ some reader
unfolding find_recipient
found_reader = rw bytes_eq_refl refl

pub own_public :
    (s : Recipient)
    → find_recipient (key_id toy root_key) (reader ∷ []) ≡ some s
    → s.read_public_key ≡ root_key.public
own_public s h = let e : reader ≡ s = cc (h, found_reader) in rw (sym e) refl

pub own_public_for :
    (s : Recipient)
    → find_recipient (key_id toy root_key) for_reader.recipients ≡ some s
    → s.read_public_key ≡ root_key.public
unfolding add_recipient set_spend_key new
own_public_for s h = own_public s h

-- The reader hands the envelope on to a key at `/finance`, and is no recipient any more.
abbrev pub finance_key : ReadKeyPair
finance_key = from_secret_bytes toy (replicate 32 7) (of_segments finance) none

pub finance-IsGenuine : IsGenuine toy finance_key
unfolding from_secret_bytes toy
finance-IsGenuine = (refl, refl)

abbrev pub finance_reader : Recipient
finance_reader = record { read_public_key = finance_key.public; key_id = key_id toy finance_key }

pub chosen : choose_recipients toy for_reader spend ≡ ok (reader ∷ [], recipient)
unfolding choose_recipients add_recipient set_spend_key new
chosen = refl

abbrev pub sealed :
    (env : EncryptedEnvelope) × (rng' : Rng) × (encrypt toy for_reader note zeros ≡ ok (env, rng'))
    × (env.scope ≡ for_reader.scope)
    × (env.access_mode ≡ recipient)
    × Sealed toy spend.seed (reader ∷ []) note env
sealed =
    encrypt-Sealed toy toy_laws for_reader note zeros spend (reader ∷ []) recipient fills
      for_reader_fields.0 chosen (omega arith)

-- The new list does not have the reader's identifier.
pub dropped :
    (s : Recipient)
    → find_recipient (key_id toy root_key) (finance_reader ∷ []) ≡ some s
    → s.read_public_key ≡ root_key.public
dropped s h =
    let gone : find_recipient (key_id toy root_key) (finance_reader ∷ []) ≡ none =
      unfold find_recipient bytes_eq key_id from_public_bytes from_secret_bytes derive_root_read_key
        toy derive_root_read_secret in
      refl in
    absurd (cc (h, gone))
