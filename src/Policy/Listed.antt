-- ===== src/Policy/Listed.antt =====
-- crates/rok-sdk/src/policy.rs: which identifiers `key_ids_for_scope` returns, and in which order.
use mathlib.Core.List.{Memᴰ}
use mathlib.Core.List.Memᴰ
use ethmumbai_rok.Common.{
  ℕ, ◌≤◌, Bytes, Bool-cases, inl, inr, ◌≡◌, ◌↔◌, refl, sym, ap, subst, ◌∙◌, true, false, not, ◌||◌,
  Option, none, some, List, [], ◌∷◌, ◌++◌, append-nil, arith, All, &&-true, bytes_eq, bytes_eq→eq,
}
use ethmumbai_rok.Error.{Result-cases, ok}
use ethmumbai_rok.Scope
use ethmumbai_rok.Scope.{Scope, is_ancestor_of}
use ethmumbai_rok.Scope.Segments.{IsSegment, render, of_segments}
use ethmumbai_rok.Scope.Validity.{new-ok_iff}
use ethmumbai_rok.Scope.Ancestry.{render-injective, is_ancestor_of_iff}
use ethmumbai_rok.Policy.{
  AccessRule, AccessPolicy, is_expired, applies, collect, sort_in, sort, dedup_after, dedup,
  key_ids_for_scope, bytes_lt,
}
use ethmumbai_rok.Policy.Granted.{applies-descendant}
use ethmumbai_rok.Policy.Ordered.{Ascending, dedup-sort-Ascending}

-- The rule is at segments that those of the scope begin with, and its expiry, if any, has not passed.
pub record Reaches (vs : List Bytes) (now : ℕ) (r : AccessRule) : Type 0 where
  pub above : List Bytes
  pub rest : List Bytes
  pub all_segments : All IsSegment above
  pub scope_eq : r.scope ≡ render above
  pub split_eq : vs ≡ above ++ rest
  pub in_time : (t : ℕ) → r.expires_at ≡ some t → now ≤ t

is_expired_iff :
    (e : Option ℕ) (now : ℕ) → (is_expired e now ≡ false) ↔ ((t : ℕ) → e ≡ some t → now ≤ t)
unfolding is_expired
is_expired_iff none now = (λ h t e. cc, λ h. refl)
is_expired_iff (some x) now =
    (λ h t e. let same : x ≡ t = cc in ground arith, λ h. let live = h x refl in ground arith)

at_or_above :
    (us vs : List Bytes) (path : Bytes)
    → All IsSegment us
    → All IsSegment vs
    → path ≡ render us
    → (is_ancestor_of (of_segments us) (of_segments vs) || bytes_eq path (render vs)) ≡ true
    → (rest : List Bytes) × (vs ≡ us ++ rest)
at_or_above us vs path hu hv e h =
    elim (Bool-cases (is_ancestor_of (of_segments us) (of_segments vs))) [
      | inl a ↦ (is_ancestor_of_iff us vs hu hv).0 a
      | inr a ↦
          let same = bytes_eq→eq path (render vs) (rw a at h) in
          ([], sym (render-injective us vs hu hv (sym e ∙ same)) ∙ sym (append-nil us))
    ]

applies-Reaches :
    (vs : List Bytes) (now : ℕ) (r : AccessRule)
    → All IsSegment vs
    → applies r (of_segments vs) now ≡ true
    → Reaches vs now r
unfolding applies
applies-Reaches vs now r hv h = elim (Result-cases (Scope.new r.scope)) [
  | inl (s, e) ↦
      let (us, hu, path, same) = (new-ok_iff r.scope s).0 e in
      let made : Scope.new r.scope ≡ ok (of_segments us) = e ∙ ap ok same in
      let (there, live) =
        &&-true (is_ancestor_of (of_segments us) (of_segments vs) || bytes_eq r.scope (render vs))
          (not (is_expired r.expires_at now)) (rw (applies, made) at h) in
      let (rest, split) = at_or_above us vs r.scope hu hv path there in
      record {
        above = us;
        rest = rest;
        all_segments = hu;
        scope_eq = path;
        split_eq = split;
        in_time = (is_expired_iff r.expires_at now).0 (ground arith);
      }
  | inr (inl (bad, e)) ↦ cc (rw (applies, e) at h)
  | inr (inr e) ↦ cc (rw (applies, e) at h)
]

Reaches-applies :
    (vs : List Bytes) (now : ℕ) (r : AccessRule)
    → Reaches vs now r
    → applies r (of_segments vs) now ≡ true
Reaches-applies vs now r h =
    subst (λ ws. applies r (of_segments ws) now ≡ true) (sym h.split_eq)
      (applies-descendant h.above h.rest r now h.all_segments h.scope_eq
        ((is_expired_iff r.expires_at now).1 h.in_time))

-- An identifier of a rule that applies.
abbrev pub Listed : List AccessRule → List Bytes → ℕ → Bytes → Type 0
Listed rules vs now id =
    (r : AccessRule) × Memᴰ r rules × Reaches vs now r × Memᴰ id r.recipient_key_ids

collect-Listed :
    (vs : List Bytes) (now : ℕ) (id : Bytes) (rs : List AccessRule)
    → All IsSegment vs
    → Memᴰ id (collect rs (of_segments vs) now)
    → Listed rs vs now id
unfolding collect
collect-Listed vs now id [] hv m = elim m [ ]
collect-Listed vs now id (r ∷ rs) hv m = elim (Bool-cases (applies r (of_segments vs) now)) [
  | inl e ↦ elim (Memᴰ.append_cases r.recipient_key_ids (rw e at m)) [
    | inl here ↦ (r, Memᴰ.head refl, applies-Reaches vs now r hv e, here)
    | inr there ↦ later (collect-Listed vs now id rs hv there)
  ]
  | inr e ↦ later (collect-Listed vs now id rs hv (rw e at m))
]
  where
    later : Listed rs vs now id → Listed (r ∷ rs) vs now id
    later (x, hx, reaches, held) = (x, Memᴰ.tail hx, reaches, held)

Listed-collect :
    (vs : List Bytes) (now : ℕ) (id : Bytes) (rs : List AccessRule)
    → Listed rs vs now id
    → Memᴰ id (collect rs (of_segments vs) now)
unfolding collect
Listed-collect vs now id [] (x, m, h, k) = elim m [ ]
Listed-collect vs now id (r ∷ rs) (x, Memᴰ.head e, h, k) =
    let found : applies r (of_segments vs) now ≡ true = rw⁻¹ e (Reaches-applies vs now x h) in
    rw found (
      Memᴰ.append_left (collect rs (of_segments vs) now)
        (subst (λ y. Memᴰ id y.recipient_key_ids) e k))
Listed-collect vs now id (r ∷ rs) (x, Memᴰ.tail m, h, k) =
    let rest = Listed-collect vs now id rs (x, m, h, k) in
    elim (Bool-cases (applies r (of_segments vs) now)) [
      | inl e ↦ rw e (Memᴰ.append_right r.recipient_key_ids rest)
      | inr e ↦ rw e rest
    ]

Memᴰ-sort_in : (id x : Bytes) (ys : List Bytes) → Memᴰ id (sort_in x ys) ↔ Memᴰ id (x ∷ ys)
unfolding sort_in
Memᴰ-sort_in id x [] = (λ m. m, λ m. m)
Memᴰ-sort_in id x (y ∷ ys) = elim (Bool-cases (bytes_lt y x)) [
  | inl e ↦ rw e (
    λ m. elim (Memᴰ.cases_cons m) [
      | inl same ↦ Memᴰ.tail (Memᴰ.head same)
      | inr rest ↦ insert_second ((Memᴰ-sort_in id x ys).0 rest)
    ],
    λ m. elim (Memᴰ.cases_cons m) [
      | inl same ↦ Memᴰ.tail ((Memᴰ-sort_in id x ys).1 (Memᴰ.head same))
      | inr rest ↦ elim (Memᴰ.cases_cons rest) [
        | inl same ↦ Memᴰ.head same
        | inr deep ↦ Memᴰ.tail ((Memᴰ-sort_in id x ys).1 (Memᴰ.tail deep))
      ]
    ],
  )
  | inr e ↦ rw e (λ m. m, λ m. m)
]
  where
    insert_second : Memᴰ id (x ∷ ys) → Memᴰ id (x ∷ y ∷ ys)
    insert_second (Memᴰ.head same) = Memᴰ.head same
    insert_second (Memᴰ.tail deep) = Memᴰ.tail (Memᴰ.tail deep)

Memᴰ-under :
    {id : Bytes} (x : Bytes) {ys zs : List Bytes}
    → Memᴰ id ys ↔ Memᴰ id zs
    → Memᴰ id (x ∷ ys) ↔ Memᴰ id (x ∷ zs)
Memᴰ-under x (to, from) = (step to, step from)
  where
    step :
        {id : Bytes} {ys zs : List Bytes}
        → (Memᴰ id ys → Memᴰ id zs)
        → Memᴰ id (x ∷ ys)
        → Memᴰ id (x ∷ zs)
    step f (Memᴰ.head same) = Memᴰ.head same
    step f (Memᴰ.tail m) = Memᴰ.tail (f m)

Memᴰ-sort : (id : Bytes) (xs : List Bytes) → Memᴰ id (sort xs) ↔ Memᴰ id xs
unfolding sort
Memᴰ-sort id [] = (λ m. m, λ m. m)
Memᴰ-sort id (x ∷ xs) =
    let (out, back) = Memᴰ-sort_in id x (sort xs) in
    let (to, from) = Memᴰ-under x (Memᴰ-sort id xs) in (λ m. to (out m), λ m. back (from m))

Memᴰ-dedup_after :
    (id x : Bytes) (ys : List Bytes) → Memᴰ id (x ∷ dedup_after x ys) ↔ Memᴰ id (x ∷ ys)
unfolding dedup_after
Memᴰ-dedup_after id x [] = (λ m. m, λ m. m)
Memᴰ-dedup_after id x (y ∷ ys) = elim (Bool-cases (bytes_eq y x)) [
  | inl e ↦
      let same = bytes_eq→eq y x e in
      let (to, from) = Memᴰ-dedup_after id x ys in
      rw e (
        λ m. elim (Memᴰ.cases_cons (to m)) [
          | inl first ↦ Memᴰ.head first
          | inr rest ↦ Memᴰ.tail (Memᴰ.tail rest)
        ],
        λ m. from (elim (Memᴰ.cases_cons m) [
          | inl first ↦ Memᴰ.head first
          | inr rest ↦ subst (λ z. Memᴰ id (z ∷ ys)) same rest
        ]),
      )
  | inr e ↦ rw e (Memᴰ-under x (Memᴰ-dedup_after id y ys))
]

Memᴰ-dedup : (id : Bytes) (xs : List Bytes) → Memᴰ id (dedup xs) ↔ Memᴰ id xs
unfolding dedup
Memᴰ-dedup id [] = (λ m. m, λ m. m)
Memᴰ-dedup id (x ∷ xs) = Memᴰ-dedup_after id x xs

-- For a validated scope, `key_ids_for_scope` returns texts that ascend in the order of their
-- bytes, none of them twice. A text is among them exactly if it is an identifier of a rule of the
-- policy whose scope is made of segments that those of the scope begin with, and whose expiry, if
-- it has one, is not before the given time.
pub key_ids_for_scope_iff :
    (p : AccessPolicy) (vs : List Bytes) (now : ℕ)
    → All IsSegment vs
    → Ascending (key_ids_for_scope p (of_segments vs) now)
      × ((id : Bytes)
          → Memᴰ id (key_ids_for_scope p (of_segments vs) now) ↔ Listed p.rules vs now id)
unfolding key_ids_for_scope
key_ids_for_scope_iff p vs now hv =
    let ids = collect p.rules (of_segments vs) now in
    (
      dedup-sort-Ascending ids,
      λ id.
          let (to, from) = Memᴰ-dedup id (sort ids) in
          let (out, back) = Memᴰ-sort id ids in
          (
            λ m. collect-Listed vs now id p.rules hv (out (to m)),
            λ h. from (back (Listed-collect vs now id p.rules h)),
          ),
    )
