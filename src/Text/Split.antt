-- ===== src/Text/Split.antt =====
-- `split` takes a text apart at a separator; the parts have none of it and spell the text.
use ethmumbai_rok.Common.{
  ℕ, Bytes, ◌≡◌, ◌≢◌, refl, Bool-cases, inl, inr, List, [], ◌∷◌, ◌++◌, arith, All, ◌==◌, ==_refl,
  ==_iff, append-nil, append_assoc,
}
use ethmumbai_rok.Text.{cons_head, split}

-- `c` does not occur in `w`.
abbrev pub Free : ℕ → Bytes → Type 0
Free c w = All (λ b. b ≢ c) w

-- A text has at least one part.
split-ne-nil : (s : Bytes) (c : ℕ) → split s c ≢ []
unfolding split
split-ne-nil [] c e = cc
split-ne-nil (b ∷ s) c e = ground arith

pub split-cons : (s : Bytes) (c : ℕ) → (w : Bytes) × (ws : List Bytes) × (split s c ≡ w ∷ ws)
split-cons s c = go (split s c) (split-ne-nil s c)
  where
    go : (us : List Bytes) → us ≢ [] → (w : Bytes) × (ws : List Bytes) × (us ≡ w ∷ ws)
    go [] h = absurd (h refl)
    go (u ∷ us) h = (u, us, refl)

cons_head-append :
    (b : ℕ) (us vs : List Bytes) → us ≢ [] → cons_head b (us ++ vs) ≡ cons_head b us ++ vs
unfolding cons_head
cons_head-append b [] vs h = absurd (h refl)
cons_head-append b (u ∷ us) vs h = refl

pub split-append : (s r : Bytes) (c : ℕ) → split (s ++ c ∷ r) c ≡ split s c ++ split r c
unfolding split
split-append [] r c = rw ==_refl refl
split-append (b ∷ s) r c = elim (Bool-cases (b == c)) [
  | inl e ↦ rw (e, split-append s r c) refl
  | inr e ↦
      rw (e, split-append s r c)
        (unfold split in cons_head-append b (split s c) (split r c) (split-ne-nil s c))
]

pub split-Free : (w : Bytes) (c : ℕ) → Free c w → split w c ≡ w ∷ []
unfolding split
split-Free [] c h = refl
split-Free (b ∷ w) c (hb, h) = ground (arith, split-Free w c h)

-- `◌++◌` of the parts, each behind a separator.
unfoldable pub spell : ℕ → List Bytes → Bytes
spell c [] = []
spell c (w ∷ ws) = c ∷ (w ++ spell c ws)

spell-cons_head :
    (b c : ℕ) (us : List Bytes) (s : Bytes)
    → spell c us ≡ c ∷ s
    → spell c (cons_head b us) ≡ c ∷ b ∷ s
unfolding cons_head spell
spell-cons_head b c [] s h = cc
spell-cons_head b c (u ∷ us) s h = ground arith

pub spell-split : (s : Bytes) (c : ℕ) → spell c (split s c) ≡ c ∷ s
unfolding split spell
spell-split [] c = refl
spell-split (b ∷ s) c = elim (Bool-cases (b == c)) [
  | inl e ↦ rw e (cc (spell-split s c, (==_iff b c).0 e))
  | inr e ↦ rw e (spell-cons_head b c (split s c) s (spell-split s c))
]

Free-cons_head :
    (b c : ℕ) (us : List Bytes) → b ≢ c → All (Free c) us → All (Free c) (cons_head b us)
unfolding cons_head
Free-cons_head b c [] hb h = ((hb, tt), tt)
Free-cons_head b c (u ∷ us) hb (hu, h) = ((hb, hu), h)

pub split-IsFree : (s : Bytes) (c : ℕ) → All (Free c) (split s c)
unfolding split
split-IsFree [] c = (tt, tt)
split-IsFree (b ∷ s) c = elim (Bool-cases (b == c)) [
  | inl e ↦ rw e (tt, split-IsFree s c)
  | inr e ↦ rw e (Free-cons_head b c (split s c) (ground arith) (split-IsFree s c))
]

-- Parts without the separator are what `split` finds in their spelling.
pub split-spell :
    (w : Bytes) (ws : List Bytes) (c : ℕ)
    → Free c w
    → All (Free c) ws
    → split (w ++ spell c ws) c ≡ w ∷ ws
unfolding spell
split-spell w [] c hw h = rw append-nil (split-Free w c hw)
split-spell w (v ∷ ws) c hw (hv, h) =
    rw (split-append, split-Free w c hw, split-spell v ws c hv h) refl

pub spell-append : (us vs : List Bytes) (c : ℕ) → spell c (us ++ vs) ≡ spell c us ++ spell c vs
unfolding spell
spell-append [] vs c = refl
spell-append (u ∷ us) vs c = rw (spell-append us vs c, append_assoc) refl

module _ {κ} (P : ℕ → Type κ) where
  cons_head-All : (b : ℕ) (us : List Bytes) → P b → All (All P) us → All (All P) (cons_head b us)
  unfolding cons_head
  cons_head-All b [] hb h = ((hb, tt), tt)
  cons_head-All b (u ∷ us) hb (hu, h) = ((hb, hu), h)

  -- What holds of every byte of a text holds of every byte of its parts.
  pub split-All : (s : Bytes) (c : ℕ) → All P s → All (All P) (split s c)
  unfolding split
  split-All [] c h = (tt, tt)
  split-All (b ∷ s) c (hb, h) = elim (Bool-cases (b == c)) [
    | inl e ↦ rw e (tt, split-All s c h)
    | inr e ↦ rw e (cons_head-All b (split s c) hb (split-All s c h))
  ]
