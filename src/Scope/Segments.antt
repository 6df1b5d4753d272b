-- ===== src/Scope/Segments.antt =====
-- The abstract view of a scope: the list of its segments, from the root down.
use ethmumbai_rok.Common.{
  Bytes, ◌≡◌, ◌≢◌, refl, true, false, List, [], ◌∷◌, arith, length, All, all, not, ◌&&◌, &&-true,
  Bool, bytes_eq, Bool-cases, inl, inr,
}
use ethmumbai_rok.Text.Split.{Free, spell, split-spell}
use ethmumbai_rok.Scope.{Scope, slash, is_segment_char, is_empty, components, depth}

abbrev pub IsSegment : Bytes → Type 0
IsSegment w = (w ≢ []) × All (λ c. is_segment_char c ≡ true) w

-- The path of a list of segments: a `/` in front of each, and `/` alone if there is none.
unfoldable pub render : List Bytes → Bytes
render [] = slash ∷ []
render (w ∷ ws) = spell slash (w ∷ ws)

abbrev pub of_segments : List Bytes → Scope
of_segments ws = record { path = render ws }

pub segment-Free : (w : Bytes) → All (λ c. is_segment_char c ≡ true) w → Free slash w
unfolding is_segment_char
segment-Free [] h = tt
segment-Free (c ∷ w) (hc, h) = (ground arith, segment-Free w h)

pub segments-Free : (ws : List Bytes) → All IsSegment ws → All (Free slash) ws
segments-Free [] h = tt
segments-Free (w ∷ ws) (hw, h) = (segment-Free w hw.1, segments-Free ws h)

-- A path with a segment is not the root path.
pub render-ne-root :
    (w : Bytes) (ws : List Bytes) → w ≢ [] → bytes_eq (render (w ∷ ws)) (slash ∷ []) ≡ false
unfolding render spell bytes_eq
render-ne-root [] ws h = absurd (h refl)
render-ne-root (c ∷ w) ws h = refl

-- The components of the scope of a list of segments are those segments.
pub components-render : (ws : List Bytes) → All IsSegment ws → components (of_segments ws) ≡ ws
unfolding components
components-render [] h = unfold render bytes_eq in refl
components-render (w ∷ ws) (hw, h) =
    rw (render-ne-root w ws hw.0)
      (unfold render spell in split-spell w ws slash (segment-Free w hw.1) (segments-Free ws h))

-- The depth is the number of components, whatever the path.
pub depth-components : (s : Scope) → depth s ≡ length (components s)
unfolding depth components
depth-components s = elim (Bool-cases (bytes_eq s.path (slash ∷ []))) [
  | inl e ↦ rw e refl
  | inr e ↦ rw e refl
]

-- A test for `All IsSegment`, for concrete segments.
unfoldable pub are_segments : List Bytes → Bool
unfolding is_segment_char is_empty
are_segments ws = all (λ w. not (is_empty w) && all is_segment_char w) ws

word_chars : (w : Bytes) → all is_segment_char w ≡ true → All (λ c. is_segment_char c ≡ true) w
word_chars [] h = tt
word_chars (c ∷ w) h = let (hc, hw) = &&-true _ _ h in (hc, word_chars w hw)

pub are_segments_sound : (ws : List Bytes) → are_segments ws ≡ true → All IsSegment ws
unfolding are_segments
are_segments_sound [] h = tt
are_segments_sound ([] ∷ ws) h = cc
are_segments_sound ((c ∷ w) ∷ ws) h =
    let (hw, rest) = &&-true _ _ h in ((λ e. cc, word_chars (c ∷ w) hw), are_segments_sound ws rest)
