-- ===== src/Policy/Ordered.antt =====
-- crates/rok-sdk/src/policy.rs: what `sort` and `dedup` make of the texts in `key_ids_for_scope`.
use mathlib.Core.List.{Lexᴰ}
use ethmumbai_rok.Common.{
  Bytes, Bool-cases, inl, inr, ◌<◌, ◌≡◌, refl, true, false, List, [], ◌∷◌, ==_iff, ltb, ltb→lt,
  &&-true, ◌==◌, arith, All, All-map, bytes_eq,
}
use ethmumbai_rok.Policy.{bytes_lt, sort_in, sort, dedup_after, dedup}

-- In the order of the bytes, every text stands before those behind it.
abbrev pub Ascending : List Bytes → Type 0
Ascending [] = Unit {0}
Ascending (x ∷ xs) = All (Lexᴰ ◌<◌ x) xs × Ascending xs

-- The same by the test, and with repetitions.
abbrev Strict : List Bytes → Type 0
Strict [] = Unit {0}
Strict (x ∷ xs) = All (λ y. bytes_lt x y ≡ true) xs × Strict xs

abbrev Weak : List Bytes → Type 0
Weak [] = Unit {0}
Weak (x ∷ xs) = All (λ y. bytes_lt y x ≡ false) xs × Weak xs

bytes_lt-Lexᴰ : (s t : Bytes) → bytes_lt s t ≡ true → Lexᴰ ◌<◌ s t
unfolding bytes_lt
bytes_lt-Lexᴰ s [] h = cc
bytes_lt-Lexᴰ [] (b ∷ t) h = Lexᴰ.nil
bytes_lt-Lexᴰ (a ∷ s) (b ∷ t) h = elim (Bool-cases (ltb a b)) [
  | inl e ↦ Lexᴰ.rel (ltb→lt a b e)
  | inr e ↦
      let (same, rest) = &&-true (a == b) (bytes_lt s t) (rw e at h) in
      Lexᴰ.cons ((==_iff a b).0 same) (bytes_lt-Lexᴰ s t rest)
]

bytes_lt_asymm : (s t : Bytes) → bytes_lt s t ≡ true → bytes_lt t s ≡ false
unfolding bytes_lt
bytes_lt_asymm s [] h = cc
bytes_lt_asymm [] (b ∷ t) h = refl
bytes_lt_asymm (a ∷ s) (b ∷ t) h = ground (arith, bytes_lt_asymm s t)

-- Of two texts the first is before, the same or behind.
bytes_lt_total : (s t : Bytes) → bytes_lt t s ≡ false → bytes_eq t s ≡ false → bytes_lt s t ≡ true
unfolding bytes_lt bytes_eq
bytes_lt_total [] [] h e = cc
bytes_lt_total [] (b ∷ t) h e = refl
bytes_lt_total (a ∷ s) [] h e = cc
bytes_lt_total (a ∷ s) (b ∷ t) h e = ground (arith, bytes_lt_total s t)

bytes_le_trans :
    (s t u : Bytes) → bytes_lt t s ≡ false → bytes_lt u t ≡ false → bytes_lt u s ≡ false
unfolding bytes_lt
bytes_le_trans [] t u h k = refl
bytes_le_trans (a ∷ s) [] u h k = cc
bytes_le_trans (a ∷ s) (b ∷ t) [] h k = cc
bytes_le_trans (a ∷ s) (b ∷ t) (d ∷ u) h k = ground (arith, bytes_le_trans s t u)

bytes_lt_trans : (s t u : Bytes) → bytes_lt s t ≡ true → bytes_lt t u ≡ true → bytes_lt s u ≡ true
unfolding bytes_lt
bytes_lt_trans s t [] h k = cc
bytes_lt_trans [] t (d ∷ u) h k = refl
bytes_lt_trans (a ∷ s) [] (d ∷ u) h k = cc
bytes_lt_trans (a ∷ s) (b ∷ t) (d ∷ u) h k = ground (arith, bytes_lt_trans s t u)

sort_in-All :
    (P : Bytes → Type 0) (x : Bytes) (ys : List Bytes) → P x → All P ys → All P (sort_in x ys)
unfolding sort_in
sort_in-All P x [] hx h = (hx, tt)
sort_in-All P x (y ∷ ys) hx (hy, h) = elim (Bool-cases (bytes_lt y x)) [
  | inl e ↦ rw e (hy, sort_in-All P x ys hx h)
  | inr e ↦ rw e (hx, (hy, h))
]

sort_in-Weak : (x : Bytes) (ys : List Bytes) → Weak ys → Weak (sort_in x ys)
unfolding sort_in
sort_in-Weak x [] h = (tt, tt)
sort_in-Weak x (y ∷ ys) (hy, h) = elim (Bool-cases (bytes_lt y x)) [
  | inl e ↦
      rw e (
        sort_in-All (λ z. bytes_lt z y ≡ false) x ys (bytes_lt_asymm y x e) hy,
        sort_in-Weak x ys h,
      )
  | inr e ↦ rw e ((e, All-map ys (λ z k. bytes_le_trans x y z e k) hy), (hy, h))
]

sort-Weak : (xs : List Bytes) → Weak (sort xs)
unfolding sort
sort-Weak [] = tt
sort-Weak (x ∷ xs) = sort_in-Weak x (sort xs) (sort-Weak xs)

-- Behind a text that none of the list is before, `dedup_after` leaves what is strictly behind it.
dedup_after-Strict :
    (x : Bytes) (ys : List Bytes)
    → All (λ y. bytes_lt y x ≡ false) ys
    → Weak ys
    → All (λ y. bytes_lt x y ≡ true) (dedup_after x ys) × Strict (dedup_after x ys)
unfolding dedup_after
dedup_after-Strict x [] h w = (tt, tt)
dedup_after-Strict x (y ∷ ys) (hy, h) (wy, w) = elim (Bool-cases (bytes_eq y x)) [
  | inl e ↦ rw e (dedup_after-Strict x ys h w)
  | inr e ↦
      let (behind, strict) = dedup_after-Strict y ys wy w in
      let first = bytes_lt_total x y hy e in
      rw e (
        (first, All-map (dedup_after y ys) (λ z k. bytes_lt_trans x y z first k) behind),
        (behind, strict),
      )
]

Strict-Ascending : (xs : List Bytes) → Strict xs → Ascending xs
Strict-Ascending [] h = tt
Strict-Ascending (x ∷ xs) (hx, h) =
    (All-map xs (λ y k. bytes_lt-Lexᴰ x y k) hx, Strict-Ascending xs h)

pub dedup-sort-Ascending : (xs : List Bytes) → Ascending (dedup (sort xs))
unfolding dedup
dedup-sort-Ascending xs = dedup-Weak (sort xs) (sort-Weak xs)
  where
    dedup-Weak : (ys : List Bytes) → Weak ys → Ascending (dedup ys)
    dedup-Weak [] h = tt
    dedup-Weak (y ∷ ys) (hy, h) =
        let (behind, strict) = dedup_after-Strict y ys hy h in
        Strict-Ascending (y ∷ dedup_after y ys) (behind, strict)
