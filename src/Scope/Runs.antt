-- ===== src/Scope/Runs.antt =====
-- Concrete scopes, and the theorems on them.
use ethmumbai_rok.Common.{
  ◌+◌, Bytes, ◌≡◌, ◌↔◌, refl, true, false, some, List, [], ◌∷◌, ◌++◌, codes, All, bytes_eq,
}
use ethmumbai_rok.Error.{num, text, format, invalid_scope, ok, err}
use ethmumbai_rok.Scope.{
  new, is_ancestor_of, depth, parent, child, check_chars, check_segments, is_empty,
}
use ethmumbai_rok.Text.{starts_with, ends_with, contains, split, rfind}
use ethmumbai_rok.Scope.Segments.{IsSegment, render, of_segments, are_segments, are_segments_sound}
use ethmumbai_rok.Scope.Validity.{new-ok_iff}
use ethmumbai_rok.Scope.Ancestry.{is_ancestor_of_iff}
use ethmumbai_rok.Scope.Tree.{child-ok_iff, parent-child}

abbrev finance : List Bytes
finance = codes "finance" ∷ []

abbrev q1 : List Bytes
q1 = codes "finance" ∷ codes "q1" ∷ []

abbrev deep : List Bytes
deep = codes "finance" ∷ codes "q1" ∷ codes "x_9" ∷ []

finance_ok : All IsSegment finance
unfolding are_segments
finance_ok = are_segments_sound finance refl

q1_ok : All IsSegment q1
unfolding are_segments
q1_ok = are_segments_sound q1 refl

deep_ok : All IsSegment deep
unfolding are_segments
deep_ok = are_segments_sound deep refl

-- The unit tests of scope.rs.
new_valid : new (codes "/a-b_c/d123") ≡ ok (record { path = codes "/a-b_c/d123" })
unfolding new is_empty starts_with ends_with contains check_chars check_segments split bytes_eq
new_valid = refl

new_invalid :
    (new (codes "/finance/")
      ≡ err (invalid_scope (text "scope must not end with '/' (except root)")))
    × (new (codes "/finance//q1")
        ≡ err (invalid_scope (text "scope must not contain double slashes")))
    × (new (codes "/f q")
        ≡ err (
            invalid_scope (format "invalid character '{}' at position {}" (num b' ' ∷ num 2 ∷ []))))
unfolding new is_empty starts_with ends_with contains check_chars check_segments split bytes_eq
new_invalid = (refl, refl, refl)

no_prefix_confusion :
    is_ancestor_of (record { path = codes "/fin" }) (record { path = codes "/finance" }) ≡ false
unfolding is_ancestor_of starts_with bytes_eq
no_prefix_confusion = refl

parent_q1 :
    parent (record { path = codes "/finance/q1" }) ≡ some (record { path = codes "/finance" })
unfolding parent rfind bytes_eq
parent_q1 = refl

new-ok_iff_example : (new (codes "/finance/q1") ≡ ok (of_segments q1)) ↔ (
    (ws : List Bytes) × All IsSegment ws
    × (codes "/finance/q1" ≡ render ws)
    × (of_segments q1 ≡ of_segments ws))
new-ok_iff_example = new-ok_iff (codes "/finance/q1") (of_segments q1)

is_ancestor_of_iff_example :
    (is_ancestor_of (of_segments finance) (of_segments q1) ≡ true)
    ↔ ((rest : List Bytes) × (q1 ≡ finance ++ rest))
is_ancestor_of_iff_example = is_ancestor_of_iff finance q1 finance_ok q1_ok

finance-q1 : is_ancestor_of (of_segments finance) (of_segments q1) ≡ true
finance-q1 = (is_ancestor_of_iff finance q1 finance_ok q1_ok).1 (codes "q1" ∷ [], refl)

q1-deep : is_ancestor_of (of_segments q1) (of_segments deep) ≡ true
q1-deep = (is_ancestor_of_iff q1 deep q1_ok deep_ok).1 (codes "x_9" ∷ [], refl)

finance_refl : is_ancestor_of (of_segments finance) (of_segments finance) ≡ true
finance_refl = (is_ancestor_of_iff finance finance finance_ok finance_ok).1 ([], refl)

child-q1 : child (of_segments finance) (codes "q1") ≡ ok (of_segments q1)
child-q1 = (child-ok_iff finance (codes "q1") (of_segments q1) finance_ok).1 (q1_ok.1.0, refl)

parent-child_example :
    (parent (of_segments q1) ≡ some (of_segments finance))
    × (depth (of_segments q1) ≡ depth (of_segments finance) + 1)
    × (is_ancestor_of (of_segments finance) (of_segments q1) ≡ true)
parent-child_example = parent-child finance (codes "q1") (of_segments q1) finance_ok child-q1
