-- ===== src/Wire/Reading.antt =====
-- `Reads p bs a`: wherever the bytes `bs` stand in the data, the reader `p` takes them and returns
-- `a`. One rule for each way to build a reader.
use ethmumbai_rok.Common.{
  ℕ, ◌+◌, ◌^◌, ◌≤◌, ◌<◌, Bytes, ◌≡◌, refl, sym, ap, ◌∙◌, [], ◌++◌, arith, length, length-append,
  length-drop, take, take-append, drop, drop-append, drop-drop, append_assoc, append-nil,
}
use ethmumbai_rok.Error.{Message, Result, ok}
use ethmumbai_rok.Wire.{
  Reader, pure, ◌>>=◌, lift, read_all, read_bytes, read_uint, le_bytes, from_le_bytes,
}
use ethmumbai_rok.Wire.LittleEndian.{length-le_bytes, from_le_bytes-le_bytes}

-- `rest` is what the data still holds from `pos` on.
pub record At (bytes : Bytes) (pos : ℕ) (rest : Bytes) : Type 0 where
  pub inside : pos ≤ length bytes
  pub here : drop pos bytes ≡ rest

pub At-move :
    (bytes : Bytes) (pos : ℕ) (bs rest : Bytes)
    → At bytes pos (bs ++ rest)
    → At bytes (pos + length bs) rest
At-move bytes pos bs rest h = record {
  inside = omega (arith, ap length h.here, length-drop pos bytes, length-append bs rest, h.inside);
  here =
      sym (drop-drop pos (length bs) bytes)
      ∙ ap (λ t. drop (length bs) t) h.here
      ∙ drop-append bs rest;
}

pub record Reads {ℓ} {A : Type ℓ} (p : Reader A) (bs : Bytes) (a : A) : Type ℓ where
  pub run :
      (bytes : Bytes) (pos : ℕ) (rest : Bytes)
      → length bytes < 2 ^ 64
      → At bytes pos (bs ++ rest)
      → p bytes pos ≡ ok (a, pos + length bs)

module _ {ℓ} {A : Type ℓ} where
  pub Reads-pure : (a : A) → Reads (pure a) [] a
  unfolding pure
  Reads-pure a = record { run = λ bytes pos rest _ _. ap (λ (k : ℕ). ok (a, k)) (omega arith) }

  pub Reads-lift : (r : Result A) (a : A) → r ≡ ok a → Reads (lift r) [] a
  unfolding lift
  Reads-lift r a e = record {
    run = λ bytes pos rest _ _. rw e (ap (λ (k : ℕ). ok (a, k)) (omega arith));
  }

  pub bind_ok {κ} :
      {B : Type κ} (p : Reader A) (f : A → Reader B) (bytes : Bytes) (pos : ℕ) (a : A) (pos' : ℕ)
      → p bytes pos ≡ ok (a, pos')
      → (p >>= f) bytes pos ≡ f a bytes pos'
  unfolding ◌>>=◌
  bind_ok p f bytes pos a pos' e = rw (e, ◌>>=◌) refl

  pub Reads-bind {κ} :
      {B : Type κ} (p : Reader A) (f : A → Reader B) (bs cs : Bytes) (a : A) (b : B)
      → Reads p bs a
      → Reads (f a) cs b
      → Reads (p >>= f) (bs ++ cs) b
  Reads-bind p f bs cs a b hp hf = record {
    run = λ bytes pos rest fits h.
        let h' : At bytes pos (bs ++ (cs ++ rest)) = record {
          inside = h.inside;
          here = h.here ∙ append_assoc bs cs rest;
        } in
        bind_ok p f bytes pos a (pos + length bs) (hp.run bytes pos (cs ++ rest) fits h')
        ∙ (hf.run bytes (pos + length bs) rest fits (At-move bytes pos bs (cs ++ rest) h')
            ∙ ap (λ (k : ℕ). ok (b, k)) (omega (arith, length-append bs cs)));
  }

read_bytes-At :
    (m : Message) (bs bytes : Bytes) (pos : ℕ) (rest : Bytes)
    → length bytes < 2 ^ 64
    → At bytes pos (bs ++ rest)
    → read_bytes m (length bs) bytes pos ≡ ok (bs, pos + length bs)
unfolding read_bytes
read_bytes-At m bs bytes pos rest fits h =
    let inside = (At-move bytes pos bs rest h).inside in
    let taken : take (length bs) (drop pos bytes) ≡ bs = rw h.here (take-append bs rest) in
    ground (arith, inside, taken)

pub Reads-bytes : (m : Message) (bs : Bytes) (n : ℕ) → length bs ≡ n → Reads (read_bytes m n) bs bs
Reads-bytes m bs n e = record {
  run = λ bytes pos rest fits h. rw (← e) (read_bytes-At m bs bytes pos rest fits h);
}

pub Reads-uint : (m : Message) (k v : ℕ) → v < 256 ^ k → Reads (read_uint m k) (le_bytes k v) v
unfolding read_uint
Reads-uint m k v h = record {
  run = λ bytes pos rest fits a.
      bind_ok (read_bytes m k) (λ t. pure (from_le_bytes t)) bytes pos (le_bytes k v)
        (pos + length (le_bytes k v))
        ((Reads-bytes m (le_bytes k v) k (length-le_bytes k v)).run bytes pos rest fits a)
      ∙ ap (λ (n : ℕ). ok (n, pos + length (le_bytes k v))) (from_le_bytes-le_bytes k v h);
}

-- The end of a block: what comes last takes no bytes.
pub Reads-then {ℓ κ} :
    {A : Type ℓ} {B : Type κ} (p : Reader A) (f : A → Reader B) (bs : Bytes) (a : A) (b : B)
    → Reads p bs a
    → Reads (f a) [] b
    → Reads (p >>= f) bs b
Reads-then p f bs a b hp hf = rw append-nil at (Reads-bind p f bs [] a b hp hf)

pub Reads-map {ℓ κ} :
    {A : Type ℓ} {B : Type κ} (p : Reader A) (g : A → B) (bs : Bytes) (a : A)
    → Reads p bs a
    → Reads (p >>= λ x. pure (g x)) bs (g a)
Reads-map p g bs a h = Reads-then p (λ x. pure (g x)) bs a (g a) h (Reads-pure (g a))

-- Reading from the front of the data.
pub read_all-Reads {ℓ} :
    {A : Type ℓ} (p : Reader A) (bs rest : Bytes) (a : A)
    → Reads p bs a
    → length (bs ++ rest) < 2 ^ 64
    → read_all p (bs ++ rest) ≡ ok a
read_all-Reads p bs rest a h fits =
    let start : At (bs ++ rest) 0 (bs ++ rest) = record { inside = omega arith; here = refl } in
    rw (h.run (bs ++ rest) 0 rest fits start, read_all) refl
