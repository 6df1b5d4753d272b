-- ===== src/Scope/Tree.antt =====
-- crates/rok-core/src/keys/scope.rs: `child`, `parent` and `depth` on lists of segments.
use ethmumbai_rok.Common.{
  ℕ, ◌+◌, Bytes, ◌≡◌, ◌↔◌, refl, sym, ◌∙◌, true, false, some, List, [], ◌∷◌, ◌++◌, arith,
  length-append, take-append, All, All-append, bytes_eq, append-nil, if◌then◌else◌,
}
use ethmumbai_rok.Error.{ok}
use ethmumbai_rok.Text.{contains}
use ethmumbai_rok.Text.Split.{Free, spell, spell-append}
use ethmumbai_rok.Text.Prefix.{rfind-append}
use ethmumbai_rok.Scope.{
  Scope, slash, root, is_segment_char, is_empty, check_segment_chars, child, parent, depth,
  is_ancestor_of,
}
use ethmumbai_rok.Scope.Ancestry.{is_ancestor_of-append}
use ethmumbai_rok.Scope.Segments.{
  IsSegment, render, of_segments, segment-Free, render-ne-root, components-render, depth-components,
}

render-snoc :
    (w : Bytes) (ws : List Bytes) (v : Bytes)
    → render ((w ∷ ws) ++ v ∷ []) ≡ render (w ∷ ws) ++ slash ∷ v
unfolding render
render-snoc w ws v = spell-append (w ∷ ws) (v ∷ []) slash ∙ unfold spell in rw append-nil refl

check_segment_chars-ok :
    (w : Bytes) → check_segment_chars w ≡ ok tt → All (λ c. is_segment_char c ≡ true) w
unfolding check_segment_chars
check_segment_chars-ok [] h = tt
check_segment_chars-ok (c ∷ w) h = (ground arith, check_segment_chars-ok w (ground arith))

check_segment_chars-All :
    (w : Bytes) → All (λ c. is_segment_char c ≡ true) w → check_segment_chars w ≡ ok tt
unfolding check_segment_chars
check_segment_chars-All [] h = refl
check_segment_chars-All (c ∷ w) (hc, h) = ground (arith, check_segment_chars-All w h)

contains-slash : (w : Bytes) → Free slash w → contains w (slash ∷ []) ≡ false
unfolding contains
contains-slash [] h = refl
contains-slash (c ∷ w) (hc, h) = ground (arith, contains-slash w h)

-- The path that `child` builds is the rendering of one more segment.
child_path :
    (ws : List Bytes) (w : Bytes)
    → All IsSegment ws
    → (if bytes_eq (render ws) (slash ∷ []) then slash ∷ w else render ws ++ slash ∷ w)
      ≡ render (ws ++ w ∷ [])
child_path [] w h = unfold render spell bytes_eq in rw append-nil refl
child_path (v ∷ ws) w (hv, h) = rw (render-ne-root v ws hv.0) (sym (render-snoc v ws w))

child_sound :
    (ws : List Bytes) (w : Bytes) (t : Scope) → child (of_segments ws) w ≡ ok t → IsSegment w
unfolding child is_empty
child_sound ws [] t h = cc
child_sound ws (c ∷ w) t h = (λ e. cc, check_segment_chars-ok (c ∷ w) (ground arith))

pub child-segment :
    (ws : List Bytes) (w : Bytes)
    → All IsSegment ws
    → IsSegment w
    → child (of_segments ws) w ≡ ok (of_segments (ws ++ w ∷ []))
unfolding child is_empty
child-segment ws [] h hw = absurd (hw.0 refl)
child-segment ws (c ∷ w) h hw =
    rw (contains-slash (c ∷ w) (segment-Free (c ∷ w) hw.1), check_segment_chars-All (c ∷ w) hw.1)
      (cc (child_path ws (c ∷ w) h))

-- At a validated scope, `child` accepts exactly a segment, and appends it.
pub child-ok_iff :
    (ws : List Bytes) (w : Bytes) (t : Scope)
    → All IsSegment ws
    → (child (of_segments ws) w ≡ ok t) ↔ (IsSegment w × (t ≡ of_segments (ws ++ w ∷ [])))
child-ok_iff ws w t h = (
  λ e. let seg = child_sound ws w t e in (seg, cc (child-segment ws w h seg)),
  λ (seg, e). cc (child-segment ws w h seg),
)

-- The parent is what stands before the last `/`, and `/` if nothing does.
parent-root :
    (c : ℕ) (w : Bytes) → Free slash (c ∷ w) → parent (record { path = slash ∷ c ∷ w }) ≡ some root
unfolding parent bytes_eq
parent-root c w h = rw (rfind-append [] (c ∷ w) slash h) refl

append-ne-nil : (p : Bytes) (c : ℕ) (w : Bytes) → bytes_eq (p ++ c ∷ w) [] ≡ false
unfolding bytes_eq
append-ne-nil [] c w = refl
append-ne-nil (b ∷ p) c w = refl

parent_path :
    (b : ℕ) (p w : Bytes)
    → Free slash w
    → parent (record { path = (b ∷ p) ++ slash ∷ w }) ≡ some (record { path = b ∷ p })
unfolding parent bytes_eq
parent_path b p w h =
    ground
      (arith, append-ne-nil p slash w, rfind-append (b ∷ p) w slash h, take-append p (slash ∷ w))

-- The parent of a scope with a last segment is the scope without it.
pub parent-snoc :
    (ws : List Bytes) (w : Bytes)
    → IsSegment w
    → parent (of_segments (ws ++ w ∷ [])) ≡ some (of_segments ws)
parent-snoc [] [] hw = absurd (hw.0 refl)
parent-snoc [] (c ∷ w) hw =
    unfold render spell in
    rw append-nil (parent-root c w (segment-Free (c ∷ w) hw.1) ∙ unfold root in refl)
parent-snoc (v ∷ ws) w hw =
    rw render-snoc
      (unfold render spell in parent_path slash (v ++ spell slash ws) w (segment-Free w hw.1))

-- The parent of a child of a validated scope is the scope itself; the child is one level deeper,
-- and the scope is an ancestor of it.
pub parent-child :
    (ws : List Bytes) (w : Bytes) (t : Scope)
    → All IsSegment ws
    → child (of_segments ws) w ≡ ok t
    → (parent t ≡ some (of_segments ws))
      × (depth t ≡ depth (of_segments ws) + 1)
      × (is_ancestor_of (of_segments ws) t ≡ true)
parent-child ws w t h e =
    let (seg, et) = (child-ok_iff ws w t h).0 e in
    let hs = All-append IsSegment ws (w ∷ []) h (seg, tt) in
    (
      rw et (parent-snoc ws w seg),
      rw
          (
            et,
            depth-components,
            depth-components,
            components-render (ws ++ w ∷ []) hs,
            components-render ws h,
          )
          (omega (arith, length-append ws (w ∷ []))),
      rw et (is_ancestor_of-append ws (w ∷ []) h),
    )
