-- ===== src/Proto/Toy.antt =====
-- A toy encoding of the messages, which shows that the laws of prost can hold: counted lists of
-- numbers.
use ethmumbai_rok.Common.{
  ℕ, zero, suc, ℤ, pos, negsuc, Bytes, ◌≡◌, refl, Option, none, some, List, [], ◌∷◌, ◌++◌,
  append_assoc, append-nil, length,
}
use ethmumbai_rok.Proto.Messages.{
  AccessEntry, EncryptedEnvelope, SectionedSection, SectionedEnvelope, AccessRule, AccessPolicy,
  RevocationEntry, RevocationList, Algorithm, unspecified, ecies_x25519_chacha20,
  hybrid_x25519_mlkem_chacha20, AccessMode, recipient, scope_based, algorithm_code,
  access_mode_code, Prost, ProstLaws,
}

-- A writer, a reader of what it writes, whatever follows, and that it is one.
record Codec (A : Type 0) : Type 0 where
  pub write : A → Bytes
  pub read : Bytes → Option (A × Bytes)
  pub read_back : (a : A) (rest : Bytes) → read (write a ++ rest) ≡ some (a, rest)

-- What follows a reading that succeeds.
abbrev after : {A B : Type 0} → Option (A × Bytes) → (A → Bytes → Option B) → Option B
after none next = none
after (some (a, rest)) next = next a rest

abbrev number : Codec ℕ
number = record {
  write = λ n. n ∷ [];
  read = λ s. elim s [ [] ↦ none | n ∷ t ↦ some (n, t) ];
  read_back = λ n rest. refl;
}

abbrev pair : {A B : Type 0} → Codec A → Codec B → Codec (A × B)
pair a b = record {
  write = λ x. a.write x.0 ++ b.write x.1;
  read = λ s. after (a.read s) (λ x t. after (b.read t) (λ y u. some ((x, y), u)));
  read_back = λ x rest.
      rw (append_assoc (a.write x.0) (b.write x.1) rest, a.read_back x.0, b.read_back x.1) refl;
}

abbrev like : {A B : Type 0} → Codec A → (f : B → A) (g : A → B) → ((b : B) → g (f b) ≡ b) → Codec B
like a f g h = record {
  write = λ b. a.write (f b);
  read = λ s. after (a.read s) (λ x t. some (g x, t));
  read_back = λ b rest. rw (a.read_back (f b) rest, h b) refl;
}

module _ {A : Type 0} (a : Codec A) where
  write_each : List A → Bytes
  write_each [] = []
  write_each (x ∷ xs) = a.write x ++ write_each xs

  read_each : ℕ → Bytes → Option (List A × Bytes)
  read_each zero s = some ([], s)
  read_each (suc n) s = after (a.read s) (λ x t. after (read_each n t) (λ xs u. some (x ∷ xs, u)))

  read_each-write_each :
      (xs : List A) (rest : Bytes) → read_each (length xs) (write_each xs ++ rest) ≡ some (xs, rest)
  unfolding read_each write_each
  read_each-write_each [] rest = refl
  read_each-write_each (x ∷ xs) rest =
      rw
        (append_assoc (a.write x) (write_each xs) rest, a.read_back x, read_each-write_each xs rest)
        refl

  abbrev list : Codec (List A)
  unfolding read_each write_each
  list = record {
    write = λ xs. length xs ∷ write_each xs;
    read = λ s. elim s [ [] ↦ none | n ∷ t ↦ read_each n t ];
    read_back = λ xs rest. read_each-write_each xs rest;
  }

abbrev bytes : Codec Bytes
bytes = list number

signed_of : ℤ → ℕ × ℕ
signed_of (pos n) = (0, n)
signed_of (negsuc n) = (1, n)

of_signed : ℕ × ℕ → ℤ
of_signed (zero, n) = pos n
of_signed (suc k, n) = negsuc n

signed_back : (z : ℤ) → of_signed (signed_of z) ≡ z
unfolding signed_of of_signed
signed_back (pos n) = refl
signed_back (negsuc n) = refl

abbrev signed : Codec ℤ
signed = like (pair number number) signed_of of_signed signed_back

abbrev entry : Codec AccessEntry
entry =
    like (pair bytes (pair bytes bytes)) (λ e. (e.read_key_id, (e.wrapped_data_key, e.wrap_nonce)))
      (λ x. record { read_key_id = x.0; wrapped_data_key = x.1.0; wrap_nonce = x.1.1 }) (λ e. refl)

abbrev envelope : Codec EncryptedEnvelope
envelope =
    like
      (pair (pair number (pair signed (pair bytes (pair bytes bytes))))
        (pair (list entry) (pair (pair bytes (pair bytes bytes)) (pair (pair bytes bytes) signed))))
      (λ e. (
        (
          e.version,
          (e.algorithm, (e.scope, (e.ephemeral_x25519_public, e.ephemeral_mlkem_ciphertext))),
        ),
        (
          e.access_entries,
          ((e.nonce, (e.ciphertext, e.tag)), ((e.spend_public_key, e.signature), e.access_mode)),
        ),
      ))
      (λ x. record {
        version = x.0.0;
        algorithm = x.0.1.0;
        scope = x.0.1.1.0;
        ephemeral_x25519_public = x.0.1.1.1.0;
        ephemeral_mlkem_ciphertext = x.0.1.1.1.1;
        access_entries = x.1.0;
        nonce = x.1.1.0.0;
        ciphertext = x.1.1.0.1.0;
        tag = x.1.1.0.1.1;
        spend_public_key = x.1.1.1.0.0;
        signature = x.1.1.1.0.1;
        access_mode = x.1.1.1.1;
      })
      (λ e. refl)

list_of : Option EncryptedEnvelope → List EncryptedEnvelope
list_of none = []
list_of (some e) = e ∷ []

of_list : List EncryptedEnvelope → Option EncryptedEnvelope
of_list [] = none
of_list (e ∷ es) = some e

option_back : (o : Option EncryptedEnvelope) → of_list (list_of o) ≡ o
unfolding list_of of_list
option_back none = refl
option_back (some e) = refl

abbrev section : Codec SectionedSection
section =
    like (pair bytes (like (list envelope) list_of of_list option_back)) (λ s. (s.name, s.envelope))
      (λ x. record { name = x.0; envelope = x.1 }) (λ s. refl)

abbrev sectioned : Codec SectionedEnvelope
sectioned =
    like (pair number (list section)) (λ e. (e.version, e.sections))
      (λ x. record { version = x.0; sections = x.1 }) (λ e. refl)

abbrev rule : Codec AccessRule
rule =
    like (pair bytes (pair (list bytes) number))
      (λ r. (r.scope, (r.recipient_key_ids, r.expires_at)))
      (λ x. record { scope = x.0; recipient_key_ids = x.1.0; expires_at = x.1.1 }) (λ r. refl)

abbrev policy : Codec AccessPolicy
policy = like (list rule) (λ a. a.rules) (λ rs. record { rules = rs }) (λ a. refl)

abbrev revocation : Codec RevocationEntry
revocation =
    like (pair bytes (pair number bytes)) (λ r. (r.key_id, (r.revoked_at, r.reason)))
      (λ x. record { key_id = x.0; revoked_at = x.1.0; reason = x.1.1 }) (λ r. refl)

abbrev revocations : Codec RevocationList
revocations = like (list revocation) (λ a. a.entries) (λ rs. record { entries = rs }) (λ a. refl)

-- The reading of a whole message.
abbrev decode : {A : Type 0} → Codec A → Bytes → Option A
decode a s = elim (a.read s) [ none ↦ none | some (x, rest) ↦ some x ]

decode-write : {A : Type 0} (a : Codec A) (x : A) → decode a (a.write x) ≡ some x
decode-write a x =
    let whole : a.read (a.write x) ≡ some (x, []) = rw append-nil at (a.read_back x []) in
    rw (decode, whole) refl

algorithm_of : ℤ → Option Algorithm
algorithm_of (pos zero) = some unspecified
algorithm_of (pos (suc zero)) = some ecies_x25519_chacha20
algorithm_of (pos (suc (suc zero))) = some hybrid_x25519_mlkem_chacha20
algorithm_of _ = none

access_mode_of : ℤ → Option AccessMode
access_mode_of (pos zero) = some recipient
access_mode_of (pos (suc zero)) = some scope_based
access_mode_of _ = none

pub toy_prost : Prost
toy_prost = record {
  encode_envelope = envelope.write;
  decode_envelope = decode envelope;
  encode_sectioned = sectioned.write;
  decode_sectioned = decode sectioned;
  encode_policy = policy.write;
  decode_policy = decode policy;
  encode_revocations = revocations.write;
  decode_revocations = decode revocations;
  algorithm_try_from = algorithm_of;
  access_mode_try_from = access_mode_of;
}

algorithm_back : (a : Algorithm) → algorithm_of (algorithm_code a) ≡ some a
unfolding algorithm_of algorithm_code
algorithm_back unspecified = refl
algorithm_back ecies_x25519_chacha20 = refl
algorithm_back hybrid_x25519_mlkem_chacha20 = refl

access_mode_back : (m : AccessMode) → access_mode_of (access_mode_code m) ≡ some m
unfolding access_mode_of access_mode_code
access_mode_back recipient = refl
access_mode_back scope_based = refl

pub toy_prost_laws : ProstLaws toy_prost
unfolding toy_prost
toy_prost_laws = record {
  envelope_round_trip = λ e h. decode-write envelope e;
  sectioned_round_trip = λ e h. decode-write sectioned e;
  policy_round_trip = λ a h. decode-write policy a;
  algorithm_value = algorithm_back;
  access_mode_value = access_mode_back;
}
