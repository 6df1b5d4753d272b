-- ===== src/Scope/Validity.antt =====
-- crates/rok-core/src/keys/scope.rs: which paths `Scope::new` accepts.
use ethmumbai_rok.Common.{
  ℕ, ◌+◌, ◌<◌, Bytes, ◌≡◌, ◌≢◌, ◌↔◌, ◌⊎◌, refl, true, false, ◌||◌, List, [], ◌∷◌, ◌++◌, arith, All,
  All-append, append-nil, ◌∙◌, bytes_eq, inl, inr, ◌==◌,
}
use ethmumbai_rok.Error.{ok}
use ethmumbai_rok.Text.{starts_with, ends_with, contains, split}
use ethmumbai_rok.Text.Split.{
  Free, spell, split-spell, spell-split, split-IsFree, split-cons, split-All,
}
use ethmumbai_rok.Scope.{Scope, slash, is_segment_char, is_empty, check_chars, check_segments, new}
use ethmumbai_rok.Scope.Segments.{IsSegment, render, of_segments, segment-Free, segments-Free}

abbrev pub IsPathChar : ℕ → Type 0
IsPathChar c = is_segment_char c || c == slash ≡ true

check_chars-ok : (s : Bytes) (i : ℕ) → 0 < i → check_chars i s ≡ ok tt → All IsPathChar s
unfolding check_chars
check_chars-ok [] i hi h = tt
check_chars-ok (c ∷ s) i hi h =
    (ground arith, check_chars-ok s (i + 1) (omega arith) (ground arith))

check_segments-ok : (ws : List Bytes) → check_segments ws ≡ ok tt → All (λ w. w ≢ []) ws
unfolding check_segments
check_segments-ok [] h = tt
check_segments-ok (w ∷ ws) h = (ground arith, check_segments-ok ws (ground arith))

check_chars_head : (c : ℕ) (q : Bytes) → check_chars 0 (c ∷ q) ≡ check_chars 1 q
unfolding check_chars
check_chars_head c q = refl

new_inversion :
    (p : Bytes) (s : Scope)
    → new p ≡ ok s
    → (q : Bytes) × (p ≡ slash ∷ q)
      × (check_chars 1 q ≡ ok tt)
      × ((q ≡ []) ⊎ (check_segments (split q slash) ≡ ok tt))
      × (s ≡ record { path = p })
unfolding new is_empty starts_with bytes_eq
new_inversion [] s h = cc
new_inversion (c ∷ []) s h = ([], ground arith, unfold check_chars in refl, inl refl, ground arith)
new_inversion (c ∷ d ∷ q) s h = (
  d ∷ q,
  ground arith,
  ground (arith, check_chars_head c (d ∷ q)),
  inr (ground arith),
  ground arith,
)

word-IsSegment :
    (w : Bytes) → All IsPathChar w → Free slash w → All (λ c. is_segment_char c ≡ true) w
word-IsSegment [] h k = tt
word-IsSegment (c ∷ w) (hc, h) (kc, k) = (ground arith, word-IsSegment w h k)

words-IsSegment :
    (ws : List Bytes)
    → All (All IsPathChar) ws
    → All (Free slash) ws
    → All (λ w. w ≢ []) ws
    → All IsSegment ws
words-IsSegment [] h k l = tt
words-IsSegment (w ∷ ws) (hw, h) (kw, k) (lw, l) =
    ((lw, word-IsSegment w hw kw), words-IsSegment ws h k l)

render-split : (q : Bytes) → render (split q slash) ≡ slash ∷ q
unfolding render
render-split q = let (w, ws, e) = split-cons q slash in rw e (rw e at (spell-split q slash))

split-IsSegment :
    (q : Bytes)
    → check_chars 1 q ≡ ok tt
    → check_segments (split q slash) ≡ ok tt
    → All IsSegment (split q slash)
split-IsSegment q h k =
    words-IsSegment (split q slash)
      (split-All IsPathChar q slash (check_chars-ok q 1 (omega arith) h)) (split-IsFree q slash)
      (check_segments-ok (split q slash) k)

-- What `new` accepts is the rendering of segments, and it is kept as it is.
pub new_sound :
    (p : Bytes) (s : Scope)
    → new p ≡ ok s
    → (ws : List Bytes) × All IsSegment ws × (p ≡ render ws) × (s ≡ of_segments ws)
new_sound p s h = go (new_inversion p s h)
  where
    go :
        (q : Bytes) × (p ≡ slash ∷ q)
          × (check_chars 1 q ≡ ok tt)
          × ((q ≡ []) ⊎ (check_segments (split q slash) ≡ ok tt))
          × (s ≡ record { path = p })
        → (ws : List Bytes) × All IsSegment ws × (p ≡ render ws) × (s ≡ of_segments ws)
    go (q, e, hc, inl z, es) = ([], tt, unfold render in cc, unfold render in cc)
    go (q, e, hc, inr hs, es) =
        (split q slash, split-IsSegment q hc hs, cc (render-split q), cc (render-split q))

-- Now the other way: what `new` does on a rendering.

check_chars-All : (s : Bytes) (i : ℕ) → All IsPathChar s → check_chars i s ≡ ok tt
unfolding check_chars
check_chars-All [] i h = refl
check_chars-All (c ∷ s) i (hc, h) = ground (arith, check_chars-All s (i + 1) h)

check_segments-All : (ws : List Bytes) → All IsSegment ws → check_segments ws ≡ ok tt
unfolding check_segments is_empty
check_segments-All [] h = refl
check_segments-All ([] ∷ ws) (hw, h) = absurd (hw.0 refl)
check_segments-All ((c ∷ w) ∷ ws) (hw, h) = check_segments-All ws h

word-IsPathChar : (w : Bytes) → All (λ c. is_segment_char c ≡ true) w → All IsPathChar w
word-IsPathChar [] h = tt
word-IsPathChar (c ∷ w) (hc, h) = (ground arith, word-IsPathChar w h)

pub spell-IsPathChar : (ws : List Bytes) → All IsSegment ws → All IsPathChar (spell slash ws)
unfolding spell
spell-IsPathChar [] h = tt
spell-IsPathChar (w ∷ ws) (hw, h) = (
  ground arith,
  All-append IsPathChar w (spell slash ws) (word-IsPathChar w hw.1) (spell-IsPathChar ws h),
)

ends_with-append :
    (t : Bytes) (b : ℕ) (s : Bytes) (c : ℕ) → ends_with (t ++ b ∷ s) c ≡ ends_with (b ∷ s) c
unfolding ends_with
ends_with-append [] b s c = refl
ends_with-append (x ∷ []) b s c = refl
ends_with-append (x ∷ y ∷ t) b s c = ends_with-append (y ∷ t) b s c

ends_with-Free : (w : Bytes) (c : ℕ) → Free c w → ends_with w c ≡ false
unfolding ends_with
ends_with-Free [] c h = refl
ends_with-Free (b ∷ []) c h = ground arith
ends_with-Free (b ∷ d ∷ w) c (hb, h) = ends_with-Free (d ∷ w) c h

ends_with-spell :
    (w : Bytes) (ws : List Bytes)
    → All IsSegment (w ∷ ws)
    → ends_with (slash ∷ (w ++ spell slash ws)) slash ≡ false
unfolding spell
ends_with-spell [] ws (hw, h) = absurd (hw.0 refl)
ends_with-spell (b ∷ w) [] (hw, h) = rw append-nil (
    ends_with-append (slash ∷ []) b w slash
    ∙ ends_with-Free (b ∷ w) slash (segment-Free (b ∷ w) hw.1))
ends_with-spell w (v ∷ ws) (hw, h) =
    ends_with-append (slash ∷ w) slash (v ++ spell slash ws) slash ∙ ends_with-spell v ws h

-- No two slashes stand side by side.
abbrev double : Bytes
double = slash ∷ slash ∷ []

contains-Free : (w r : Bytes) → Free slash w → contains (w ++ r) double ≡ contains r double
unfolding contains
contains-Free [] r h = refl
contains-Free (b ∷ w) r (hb, h) = ground (arith, contains-Free w r h)

contains-spell : (ws : List Bytes) → All IsSegment ws → contains (spell slash ws) double ≡ false
unfolding contains spell
contains-spell [] h = refl
contains-spell ([] ∷ ws) (hw, h) = absurd (hw.0 refl)
contains-spell ((b ∷ w) ∷ ws) ((hn, (hb, hw)), h) = ground (
  arith,
  segment-Free (b ∷ w) (hb, hw),
  contains-Free w (spell slash ws) (segment-Free w hw),
  contains-spell ws h,
)

-- The rendering of segments is accepted.
pub new-render : (ws : List Bytes) → All IsSegment ws → new (render ws) ≡ ok (of_segments ws)
unfolding new render spell is_empty starts_with bytes_eq
new-render [] h = unfold ends_with contains check_chars in refl
new-render ([] ∷ ws) (hw, h) = absurd (hw.0 refl)
new-render ((b ∷ w) ∷ ws) (hw, h) = ground (
  arith,
  ends_with-spell (b ∷ w) ws (hw, h),
  contains-spell ((b ∷ w) ∷ ws) (hw, h),
  check_chars-All (spell slash ((b ∷ w) ∷ ws)) 0 (spell-IsPathChar ((b ∷ w) ∷ ws) (hw, h)),
  split-spell (b ∷ w) ws slash (segment-Free (b ∷ w) hw.1) (segments-Free ws h),
  check_segments-All ((b ∷ w) ∷ ws) (hw, h),
)

-- `Scope::new` returns a scope for a path exactly if the path is the rendering of a list of
-- segments, and then the scope keeps the path as it is.
pub new-ok_iff :
    (p : Bytes) (s : Scope)
    → (new p ≡ ok s)
      ↔ ((ws : List Bytes) × All IsSegment ws × (p ≡ render ws) × (s ≡ of_segments ws))
new-ok_iff p s = (new_sound p s, λ (ws, hs, e, es). rw (e, es) (new-render ws hs))
