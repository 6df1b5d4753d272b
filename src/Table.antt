-- ===== src/Table.antt =====
-- `HashMap` with byte strings as keys: an association list in which a key stands once. What the code
-- leaves to the map's own order (`values()`) is the order of the list here.
use ethmumbai_rok.Common.{
  Bytes, Bool-cases, inl, inr, true, false, ◌≡◌, ◌≢◌, refl, sym, ◌∙◌, Option, none, some, List, [],
  ◌∷◌, bytes_eq, bytes_eq→eq, bytes_eq_refl, if◌then◌else◌,
}

pub bytes_eq-ne : (a b : Bytes) → a ≢ b → bytes_eq a b ≡ false
bytes_eq-ne a b d = elim (Bool-cases (bytes_eq a b)) [
  | inl e ↦ absurd (d (bytes_eq→eq a b e))
  | inr e ↦ e
]

pub ne-bytes_eq : (a b : Bytes) → bytes_eq a b ≡ false → a ≢ b
ne-bytes_eq a b h e =
    let same : bytes_eq a b ≡ true = rw e (bytes_eq_refl b) in absurd (cc (h, same))

module _ {ℓ} {V : Type ℓ} where
  unfoldable pub get : Bytes → List (Bytes × V) → Option V
  get k [] = none
  get k ((j, v) ∷ t) = if bytes_eq j k then some v else get k t

  unfoldable pub remove : Bytes → List (Bytes × V) → List (Bytes × V)
  remove k [] = []
  remove k ((j, v) ∷ t) = if bytes_eq j k then remove k t else (j, v) ∷ remove k t

  unfoldable pub insert : Bytes → V → List (Bytes × V) → List (Bytes × V)
  unfolding remove
  insert k v t = (k, v) ∷ remove k t

  pub get-remove-same : (k : Bytes) (t : List (Bytes × V)) → get k (remove k t) ≡ none
  unfolding get remove
  get-remove-same k [] = refl
  get-remove-same k ((j, v) ∷ t) = elim (Bool-cases (bytes_eq j k)) [
    | inl e ↦ rw e (get-remove-same k t)
    | inr e ↦ rw (e, e) (get-remove-same k t)
  ]

  pub get-remove-other : (k i : Bytes) (t : List (Bytes × V)) → i ≢ k → get i (remove k t) ≡ get i t
  unfolding get remove
  get-remove-other k i [] d = refl
  get-remove-other k i ((j, v) ∷ t) d = elim (Bool-cases (bytes_eq j k)) [
    | inl e ↦
        rw (e, bytes_eq-ne j i (λ f. d (sym f ∙ bytes_eq→eq j k e))) (get-remove-other k i t d)
    | inr e ↦ rw (e, get-remove-other k i t d) refl
  ]

  pub get-insert-same : (k : Bytes) (v : V) (t : List (Bytes × V)) → get k (insert k v t) ≡ some v
  unfolding get insert
  get-insert-same k v t = rw (bytes_eq_refl k) refl

  pub get-insert-other :
      (k i : Bytes) (v : V) (t : List (Bytes × V)) → i ≢ k → get i (insert k v t) ≡ get i t
  unfolding get insert
  get-insert-other k i v t d =
      rw (bytes_eq-ne k i (λ f. d (sym f))) (unfold remove in get-remove-other k i t d)
