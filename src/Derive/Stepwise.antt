-- ===== src/Derive/Stepwise.antt =====
-- crates/rok-core/src/derive.rs: derivation along the segments, one step for each.
use ethmumbai_rok.Common.{
  ℕ, suc, ◌+◌, ◌-◌, Bytes, ◌≡◌, refl, sym, ap, ◌∙◌, false, Bool-cases, inl, inr, List, [], ◌∷◌,
  ◌++◌, arith, length, length-append, take, take-append, All, bytes_eq, bytes_eq→eq, append-nil,
  append_assoc,
}
use ethmumbai_rok.Error.{ok, ◌>>=◌}
use ethmumbai_rok.Text.{join}
use ethmumbai_rok.Text.Split.{spell}
use ethmumbai_rok.Crypto.{Crypto}
use ethmumbai_rok.Scope.{slash}
use ethmumbai_rok.Scope.Segments.{IsSegment, render, of_segments, components-render}
use ethmumbai_rok.Scope.Ancestry.{render-injective, is_ancestor_of-append}
use ethmumbai_rok.Derive.{domain_read_child, derive_loop, derive_child_read_secret}

join-spell :
    (w : Bytes) (ws : List Bytes) → slash ∷ join (w ∷ ws) (slash ∷ []) ≡ spell slash (w ∷ ws)
unfolding join spell
join-spell w [] = rw append-nil refl
join-spell w (v ∷ ws) = ap (λ t. slash ∷ (w ++ t)) (join-spell v ws)

take-snoc {ℓ} :
    {A : Type ℓ} (xs : List A) (y : A) (ys : List A)
    → take (length xs + 1) (xs ++ y ∷ ys) ≡ xs ++ y ∷ []
take-snoc {A} xs y ys =
    ap (λ k. take k (xs ++ y ∷ ys)) (sym (length-append xs (y ∷ [])))
    ∙ ap (λ t. take (length (xs ++ y ∷ [])) t) (sym (append_assoc xs (y ∷ []) ys))
    ∙ take-append (xs ++ y ∷ []) ys

join-render :
    (us : List Bytes) (v : Bytes) → slash ∷ join (us ++ v ∷ []) (slash ∷ []) ≡ render (us ++ v ∷ [])
unfolding render
join-render [] v = join-spell v []
join-render (u ∷ us) v = join-spell u (us ++ v ∷ [])

module _ (c : Crypto) where
  -- One step down: from the scope of `us` to its child of segment `v`.
  unfoldable pub descend : Bytes → List Bytes → List Bytes → Bytes
  descend s us [] = s
  descend s us (v ∷ vs) =
      descend (c.hkdf domain_read_child s (render (us ++ v ∷ []))) (us ++ v ∷ []) vs

  pub descend-append :
      (s : Bytes) (us vs ws : List Bytes)
      → descend s us (vs ++ ws) ≡ descend (descend s us vs) (us ++ vs) ws
  unfolding descend
  descend-append s us [] ws = rw append-nil refl
  descend-append s us (v ∷ vs) ws =
      rw (← append_assoc us (v ∷ []) vs)
        (descend-append (c.hkdf domain_read_child s (render (us ++ v ∷ []))) (us ++ v ∷ []) vs ws)

  derive_loop_step :
      (n i : ℕ) (cs : List Bytes) (s : Bytes)
      → derive_loop c (suc n) i cs s
        ≡ derive_loop c n
            (i + 1)
            cs
            (c.hkdf domain_read_child s (slash ∷ join (take (i + 1) cs) (slash ∷ [])))
  unfolding derive_loop
  derive_loop_step n i cs s = refl

  derive_loop-descend :
      (vs us : List Bytes) (s : Bytes)
      → derive_loop c (length vs) (length us) (us ++ vs) s ≡ descend s us vs
  unfolding descend
  derive_loop-descend [] us s = unfold derive_loop in refl
  derive_loop-descend (v ∷ vs) us s =
      derive_loop_step (length vs) (length us) (us ++ v ∷ vs) s
      ∙ rw
          (
            take-snoc us v vs,
            join-render us v,
            ← length-append us (v ∷ []),
            ← append_assoc us (v ∷ []) vs,
          )
          (derive_loop-descend vs (us ++ v ∷ [])
            (c.hkdf domain_read_child s (render (us ++ v ∷ []))))

  pub render-ne-longer :
      (us : List Bytes) (v : Bytes) (vs : List Bytes)
      → All IsSegment us
      → All IsSegment (us ++ v ∷ vs)
      → bytes_eq (render us) (render (us ++ v ∷ vs)) ≡ false
  render-ne-longer us v vs hu h = elim (Bool-cases (bytes_eq (render us) (render (us ++ v ∷ vs)))) [
    | inl e ↦
        let e' = render-injective us (us ++ v ∷ vs) hu h (bytes_eq→eq _ _ e) in
        absurd (omega (arith, ap length e', length-append us (v ∷ vs)))
    | inr e ↦ e
  ]

  -- From a validated scope to a proper descendant, `derive_child_read_secret` succeeds with the
  -- secret of the walk over the segments between, one HKDF call for each.
  pub derive_child-descend :
      (s : Bytes) (us : List Bytes) (v : Bytes) (vs : List Bytes)
      → All IsSegment (us ++ v ∷ vs)
      → All IsSegment us
      → derive_child_read_secret c s (of_segments us) (of_segments (us ++ v ∷ vs))
        ≡ ok (descend s us (v ∷ vs))
  unfolding derive_child_read_secret
  derive_child-descend s us v vs h hu =
      let longer : length (us ++ v ∷ vs) - length us ≡ length (v ∷ vs) =
        omega (arith, length-append us (v ∷ vs)) in
      rw
        (
          is_ancestor_of-append us (v ∷ vs) hu,
          render-ne-longer us v vs hu h,
          components-render us hu,
          components-render (us ++ v ∷ vs) h,
          longer,
        )
        (ap ok (derive_loop-descend (v ∷ vs) us s))

  -- Between validated scopes, deriving a proper descendant's secret in one call, or by way of a
  -- scope properly between, gives the same secret.
  pub derive_stepwise :
      (s : Bytes) (us : List Bytes) (v : Bytes) (vs : List Bytes) (w : Bytes) (ws : List Bytes)
      → All IsSegment us
      → All IsSegment (us ++ v ∷ vs)
      → All IsSegment ((us ++ v ∷ vs) ++ w ∷ ws)
      → (derive_child_read_secret c s (of_segments us) (of_segments (us ++ v ∷ vs)) >>= λ mid.
          derive_child_read_secret c mid
            (of_segments (us ++ v ∷ vs))
            (of_segments ((us ++ v ∷ vs) ++ w ∷ ws)))
        ≡ derive_child_read_secret c s (of_segments us) (of_segments ((us ++ v ∷ vs) ++ w ∷ ws))
  derive_stepwise s us v vs w ws hu hv hw =
      rw
        (
          derive_child-descend s us v vs hv hu,
          derive_child-descend (descend s us (v ∷ vs)) (us ++ v ∷ vs) w ws hw hv,
          append_assoc us (v ∷ vs) (w ∷ ws),
          derive_child-descend s us v (vs ++ w ∷ ws) (rw append_assoc at hw) hu,
        )
        (ap ok (sym (descend-append s us (v ∷ vs) (w ∷ ws))))
