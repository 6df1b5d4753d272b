-- ===== src/Scope/Ancestry.antt =====
-- crates/rok-core/src/keys/scope.rs: `is_ancestor_of` and the prefix order on segments.
use ethmumbai_rok.Common.{
  ℕ, Bytes, ◌≡◌, ◌↔◌, ◌⊎◌, refl, sym, ap, ◌∙◌, true, List, [], ◌∷◌, ◌++◌, arith, length,
  length-append, drop, All, bytes_eq, bytes_eq→eq, bytes_eq_refl, Bool-cases, inl, inr, append-nil,
  append_assoc, &&-true,
}
use ethmumbai_rok.Text.{split}
use ethmumbai_rok.Text.Split.{spell, split-spell, split-append, spell-append}
use ethmumbai_rok.Text.Prefix.{starts_with_sound, starts_with-append, get_elem?-length-append}
use ethmumbai_rok.Scope.{Scope, slash, has_byte_at, is_ancestor_of, components}
use ethmumbai_rok.Scope.Segments.{
  IsSegment, render, of_segments, segment-Free, segments-Free, render-ne-root, components-render,
}

-- The rendering determines the segments.
pub render-injective :
    (us vs : List Bytes) → All IsSegment us → All IsSegment vs → render us ≡ render vs → us ≡ vs
render-injective us vs hu hv e =
    sym (components-render us hu)
    ∙ ap (λ p. components (record { path = p })) e
    ∙ components-render vs hv

has_byte_at_sound :
    (p r : Bytes) (b : ℕ) → has_byte_at (p ++ r) (length p) b ≡ true → (t : Bytes) × (r ≡ b ∷ t)
unfolding has_byte_at
has_byte_at_sound p [] b h = cc (get_elem?-length-append p [])
has_byte_at_sound p (c ∷ t) b h = (t, ground (arith, get_elem?-length-append p (c ∷ t)))

components-spell :
    (w : Bytes) (ws : List Bytes)
    → All IsSegment (w ∷ ws)
    → split (drop 1 (spell slash (w ∷ ws))) slash ≡ w ∷ ws
components-spell w ws (hw, h) =
    unfold spell in split-spell w ws slash (segment-Free w hw.1) (segments-Free ws h)

-- A path that goes on behind another with a `/` has the other's segments in front.
extends_split :
    (u : Bytes) (us vs : List Bytes) (t : Bytes)
    → All IsSegment (u ∷ us)
    → All IsSegment vs
    → render vs ≡ render (u ∷ us) ++ slash ∷ t
    → vs ≡ (u ∷ us) ++ split t slash
unfolding render spell
extends_split [] us vs t (hu, h) hv e = absurd (hu.0 refl)
extends_split (c ∷ u) us [] t hu hv e = cc
extends_split (c ∷ u) us (v ∷ vs) t hu hv e =
    sym (components-spell v vs hv)
    ∙ ap (λ s. split (drop 1 s) slash) e
    ∙ split-append (c ∷ (u ++ spell slash us)) t slash
    ∙ ap (λ ws. ws ++ split t slash) (components-spell (c ∷ u) us hu)

-- On a scope with a segment the test is: the same path, or a longer one that goes on with `/`.
ancestor_cases :
    (u : Bytes) (us : List Bytes) (d : Scope)
    → All IsSegment (u ∷ us)
    → is_ancestor_of (of_segments (u ∷ us)) d ≡ true
    → (render (u ∷ us) ≡ d.path) ⊎ ((t : Bytes) × (d.path ≡ render (u ∷ us) ++ slash ∷ t))
unfolding is_ancestor_of
ancestor_cases u us d (hu, h) e = elim (Bool-cases (bytes_eq (render (u ∷ us)) d.path)) [
  | inl same ↦ inl (bytes_eq→eq _ _ same)
  | inr ne ↦
      let (starts, byte) = &&-true _ _ (rw (render-ne-root u us hu.0, ne) at e) in
      let (r, er) = starts_with_sound d.path (render (u ∷ us)) starts in
      let (t, et) = has_byte_at_sound (render (u ∷ us)) r slash (rw er at byte) in
      inr (t, er ∙ ap (λ x. render (u ∷ us) ++ x) et)
]

pub is_ancestor_of_refl : (s : Scope) → is_ancestor_of s s ≡ true
unfolding is_ancestor_of
is_ancestor_of_refl s = ground (arith, bytes_eq_refl s.path)

extends_ancestor :
    (p t : Bytes) → is_ancestor_of (record { path = p }) (record { path = p ++ slash ∷ t }) ≡ true
unfolding is_ancestor_of
extends_ancestor p t =
    ground (arith, starts_with-append p (slash ∷ t), get_elem?-length-append p (slash ∷ t))

-- The prefix is an ancestor.
pub is_ancestor_of-append :
    (us rest : List Bytes)
    → All IsSegment us
    → is_ancestor_of (of_segments us) (of_segments (us ++ rest)) ≡ true
is_ancestor_of-append [] rest h = unfold is_ancestor_of render bytes_eq in refl
is_ancestor_of-append (u ∷ us) [] h = rw append-nil (is_ancestor_of_refl (of_segments (u ∷ us)))
is_ancestor_of-append (u ∷ us) (r ∷ rest) h =
    unfold render spell in
    rw (spell-append us (r ∷ rest) slash, ← append_assoc)
      (extends_ancestor (spell slash (u ∷ us)) (r ++ spell slash rest))

-- The ancestor test on validated scopes holds exactly if the segments of the first are a prefix
-- of the segments of the second.
pub is_ancestor_of_iff :
    (us vs : List Bytes)
    → All IsSegment us
    → All IsSegment vs
    → (is_ancestor_of (of_segments us) (of_segments vs) ≡ true)
      ↔ ((rest : List Bytes) × (vs ≡ us ++ rest))
is_ancestor_of_iff us vs hu hv =
    (prefix us hu, λ (rest, e). rw e (is_ancestor_of-append us rest hu))
  where
    found :
        (u : Bytes) (us : List Bytes)
        → All IsSegment (u ∷ us)
        → (render (u ∷ us) ≡ render vs) ⊎ ((t : Bytes) × (render vs ≡ render (u ∷ us) ++ slash ∷ t))
        → (rest : List Bytes) × (vs ≡ (u ∷ us) ++ rest)
    found u us hu (inl same) =
        ([], sym (render-injective (u ∷ us) vs hu hv same) ∙ sym (append-nil (u ∷ us)))
    found u us hu (inr (t, e)) = (split t slash, extends_split u us vs t hu hv e)

    prefix :
        (us : List Bytes)
        → All IsSegment us
        → is_ancestor_of (of_segments us) (of_segments vs) ≡ true
        → (rest : List Bytes) × (vs ≡ us ++ rest)
    prefix [] hu h = (vs, refl)
    prefix (u ∷ us) hu h = found u us hu (ancestor_cases u us (of_segments vs) hu h)

append_antisym {ℓ} : {A : Type ℓ} (us vs r t : List A) → vs ≡ us ++ r → us ≡ vs ++ t → us ≡ vs
append_antisym us vs [] t e f = sym (e ∙ append-nil us)
append_antisym us vs (x ∷ r) t e f =
    absurd (omega (arith, ap length e, ap length f, length-append us (x ∷ r), length-append vs t))

-- Two validated scopes that are ancestors of each other are one scope.
pub is_ancestor_of_antisym :
    (us vs : List Bytes)
    → All IsSegment us
    → All IsSegment vs
    → is_ancestor_of (of_segments us) (of_segments vs) ≡ true
    → is_ancestor_of (of_segments vs) (of_segments us) ≡ true
    → of_segments us ≡ of_segments vs
is_ancestor_of_antisym us vs hu hv h k =
    let (r, e) = (is_ancestor_of_iff us vs hu hv).0 h in
    let (t, f) = (is_ancestor_of_iff vs us hv hu).0 k in
    ap of_segments (append_antisym us vs r t e f)

-- On validated scopes the ancestor test is transitive.
pub is_ancestor_of_trans :
    (us vs ws : List Bytes)
    → All IsSegment us
    → All IsSegment vs
    → All IsSegment ws
    → is_ancestor_of (of_segments us) (of_segments vs) ≡ true
    → is_ancestor_of (of_segments vs) (of_segments ws) ≡ true
    → is_ancestor_of (of_segments us) (of_segments ws) ≡ true
is_ancestor_of_trans us vs ws hu hv hw h k =
    let (r, e) = (is_ancestor_of_iff us vs hu hv).0 h in
    let (t, f) = (is_ancestor_of_iff vs ws hv hw).0 k in
    (is_ancestor_of_iff us ws hu hw).1 (r ++ t, f ∙ ap (λ x. x ++ t) e ∙ append_assoc us r t)
