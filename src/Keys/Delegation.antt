-- ===== src/Keys/Delegation.antt =====
-- crates/rok-core/src/keys/read.rs: `derive_child`, `export` and `import` on keys at validated scopes.
use ethmumbai_rok.Common.{
  Bytes, ◌≡◌, ◌↔◌, refl, sym, ap, ◌∙◌, true, Option, some, List, ◌∷◌, ◌++◌, arith, All, bytes_eq→eq,
  bytes_eq_refl, append_assoc,
}
use ethmumbai_rok.Error.{ok, ok-injective}
use ethmumbai_rok.Crypto.{Crypto, CryptoLaws}
use ethmumbai_rok.Scope.{Scope, is_ancestor_of}
use ethmumbai_rok.Scope.Segments.{IsSegment, of_segments}
use ethmumbai_rok.Scope.Ancestry.{is_ancestor_of-append, is_ancestor_of_trans}
use ethmumbai_rok.Derive.Stepwise.{descend, descend-append, derive_child-descend, render-ne-longer}
use ethmumbai_rok.Keys.{
  ReadKeyPair, ExportedReadKey, from_secret_bytes, key_id, can_access, derive_child, export_key,
  import_key,
}

module _ (c : Crypto) where
  -- A key as the constructors make it: the public half belongs to the secret.
  abbrev pub IsGenuine : ReadKeyPair → Type 0
  IsGenuine k = (k.secret ≡ c.static_secret k.secret) × (k.public ≡ c.x25519_public k.secret)

  -- A read key at the scope of `us`.
  abbrev pub at_segments : Bytes → List Bytes → Option Bytes → ReadKeyPair
  at_segments secret us parent = from_secret_bytes c secret (of_segments us) parent

  -- From a key at a validated scope, `derive_child` succeeds on every proper descendant, and
  -- makes the key of the secret that the walk over the segments between leads to, with the
  -- deriving key as parent.
  pub derive_child-segments :
      (k : ReadKeyPair) (us : List Bytes) (v : Bytes) (vs : List Bytes)
      → k.scope ≡ of_segments us
      → All IsSegment us
      → All IsSegment (us ++ v ∷ vs)
      → derive_child c k (of_segments (us ++ v ∷ vs))
        ≡ ok (at_segments (descend c k.secret us (v ∷ vs)) (us ++ v ∷ vs) (some (key_id c k)))
  unfolding derive_child
  derive_child-segments k us v vs e hu h =
      rw
        (
          e,
          is_ancestor_of-append us (v ∷ vs) hu,
          render-ne-longer c us v vs hu h,
          derive_child-descend c k.secret us v vs h hu,
        )
        refl

  derive_child_scopes :
      (k t : ReadKeyPair) (s : Scope)
      → derive_child c k s ≡ ok t
      → (is_ancestor_of k.scope s ≡ true) × (t.scope ≡ s)
  unfolding derive_child from_secret_bytes
  derive_child_scopes k t s h = (ground arith, ground arith)

  -- Between validated scopes, a key derived from another reaches no scope that the other does not
  -- reach.
  pub derive_child_narrows :
      (k t : ReadKeyPair) (us vs ws : List Bytes)
      → All IsSegment us
      → All IsSegment vs
      → All IsSegment ws
      → k.scope ≡ of_segments us
      → derive_child c k (of_segments vs) ≡ ok t
      → can_access c t (of_segments ws) ≡ true
      → can_access c k (of_segments ws) ≡ true
  unfolding can_access
  derive_child_narrows k t us vs ws hu hv hw e h a =
      let (up, es) = derive_child_scopes k t (of_segments vs) h in
      rw e (is_ancestor_of_trans us vs ws hu hv hw (rw e at up) (rw es at a))

  -- A key whose public half belongs to its secret is imported again, whole, from its export.
  pub import-export : (k : ReadKeyPair) → IsGenuine k → import_key c (export_key c k) ≡ ok k
  unfolding import_key export_key
  import-export k (es, ep) = ground (arith, es, ep, bytes_eq_refl k.public)

  -- `import` accepts an exported key exactly if its public half belongs to its secret.
  pub import-ok_iff :
      (x : ExportedReadKey)
      → ((k : ReadKeyPair) × (import_key c x ≡ ok k))
        ↔ (c.x25519_public (c.static_secret x.secret_bytes) ≡ x.public_bytes)
  unfolding import_key
  import-ok_iff x =
      let public = c.x25519_public (c.static_secret x.secret_bytes) in
      (
        λ (k, h). bytes_eq→eq public x.public_bytes (ground arith),
        λ e. (
          record {
            secret = c.static_secret x.secret_bytes;
            public = public;
            scope = x.scope;
            parent_key_id = x.parent_key_id;
          },
          rw (e, bytes_eq_refl) refl,
        ),
      )

  -- What derivation returns is determined.
  derived_key :
      (k t : ReadKeyPair) (us : List Bytes) (v : Bytes) (vs : List Bytes)
      → k.scope ≡ of_segments us
      → All IsSegment us
      → All IsSegment (us ++ v ∷ vs)
      → derive_child c k (of_segments (us ++ v ∷ vs)) ≡ ok t
      → t ≡ at_segments (descend c k.secret us (v ∷ vs)) (us ++ v ∷ vs) (some (key_id c k))
  derived_key k t us v vs e hu hv h =
      sym (ok-injective (sym (derive_child-segments k us v vs e hu hv) ∙ h))

  -- The same secret, walked to in one go or in two, makes the same key.
  at_segments-descend :
      CryptoLaws c
      → (s t : Bytes) (us vs ws : List Bytes) (p : Option Bytes)
      → t ≡ c.static_secret (descend c s us vs)
      → at_segments (descend c t (us ++ vs) ws) ((us ++ vs) ++ ws) p
        ≡ at_segments (descend c s us (vs ++ ws)) (us ++ (vs ++ ws)) p
  at_segments-descend laws s t us vs ws p e =
      rw
        (
          e,
          laws.static_secret_id (descend c s us vs),
          descend-append c s us vs ws,
          append_assoc us vs ws,
        )
        refl

  -- Between validated scopes, a key derived by way of a scope between is the key derived
  -- directly, but for `parent_key_id`.
  pub derive_child_by_way :
      CryptoLaws c
      → (k t u : ReadKeyPair) (us : List Bytes) (v : Bytes) (vs : List Bytes) (w : Bytes)
        (ws : List Bytes)
      → k.scope ≡ of_segments us
      → All IsSegment us
      → All IsSegment (us ++ v ∷ vs)
      → All IsSegment ((us ++ v ∷ vs) ++ w ∷ ws)
      → derive_child c k (of_segments (us ++ v ∷ vs)) ≡ ok t
      → derive_child c t (of_segments ((us ++ v ∷ vs) ++ w ∷ ws)) ≡ ok u
      → derive_child c k (of_segments ((us ++ v ∷ vs) ++ w ∷ ws))
        ≡ ok (record u { parent_key_id = some (key_id c k) })
  derive_child_by_way laws k t u us v vs w ws e hu hv hw ht hk =
      let way = us ++ v ∷ vs in
      let et = derived_key k t us v vs e hu hv ht in
      let et_scope : t.scope ≡ of_segments way = unfold from_secret_bytes in ap (λ x. x.scope) et in
      let et_secret : t.secret ≡ c.static_secret (descend c k.secret us (v ∷ vs)) =
        unfold from_secret_bytes in ap (λ x. x.secret) et in
      let eu = derived_key t u way w ws et_scope hv hw hk in
      let whole : derive_child c k (of_segments (way ++ w ∷ ws))
          ≡ ok (
              at_segments (descend c k.secret us ((v ∷ vs) ++ w ∷ ws)) (us ++ ((v ∷ vs) ++ w ∷ ws))
                (some (key_id c k))) =
        rw (append_assoc us (v ∷ vs) (w ∷ ws))
          (derive_child-segments k us v (vs ++ w ∷ ws) e hu (rw append_assoc at hw)) in
      whole
      ∙ ap ok (
          sym (
            at_segments-descend laws k.secret t.secret us (v ∷ vs) (w ∷ ws) (some (key_id c k))
              et_secret))
      ∙ rw eu (unfold from_secret_bytes in refl)
