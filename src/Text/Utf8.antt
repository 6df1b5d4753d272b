-- ===== src/Text/Utf8.antt =====
-- `std::str::from_utf8`: the well-formed byte sequences of the Unicode standard (table 3-7), which
-- the documentation of `str` refers to.
use ethmumbai_rok.Common.{
  ℕ, ◌<◌, Bytes, ◌≡◌, refl, Bool, true, false, ◌&&◌, Option, none, some, [], ◌∷◌, arith, All, ltb,
  leb, ◌==◌, if◌then◌else◌,
}

in_range : ℕ → ℕ → ℕ → Bool
in_range lo hi b = leb lo b && leb b hi

-- The bounds of the second byte after a lead byte of a sequence of two, three or four.
pub data Follow : Type 0 where
  one two three : ℕ → ℕ → Follow
  ascii bad : Follow

follow : ℕ → Follow
unfolding in_range
follow b =
    if ltb b 0x80
    then ascii
    else if in_range 0xc2 0xdf b
    then one 0x80 0xbf
    else if b == 0xe0
    then two 0xa0 0xbf
    else if b == 0xed
    then two 0x80 0x9f
    else if in_range 0xe1 0xef b
    then two 0x80 0xbf
    else if b == 0xf0
    then three 0x90 0xbf
    else if in_range 0xf1 0xf3 b
    then three 0x80 0xbf
    else if b == 0xf4
    then three 0x80 0x8f
    else bad

-- The state is the bounds of the next byte and the number of plain continuation bytes after it.
pub data Mode : Type 0 where
  start dead : Mode
  expect : ℕ → ℕ → ℕ → Mode

after_lead : Follow → Mode
after_lead ascii = start
after_lead bad = dead
after_lead (one lo hi) = expect lo hi 0
after_lead (two lo hi) = expect lo hi 1
after_lead (three lo hi) = expect lo hi 2

step_utf8 : Mode → ℕ → Mode
unfolding in_range follow after_lead
step_utf8 start b = after_lead (follow b)
step_utf8 dead b = dead
step_utf8 (expect lo hi ℕ.zero) b = if in_range lo hi b then start else dead
step_utf8 (expect lo hi (ℕ.suc n)) b = if in_range lo hi b then expect 0x80 0xbf n else dead

run_utf8 : Mode → Bytes → Bool
unfolding step_utf8
run_utf8 start [] = true
run_utf8 dead [] = false
run_utf8 (expect lo hi n) [] = false
run_utf8 m (b ∷ s) = run_utf8 (step_utf8 m b) s

unfoldable pub is_utf8 : Bytes → Bool
unfolding run_utf8
is_utf8 s = run_utf8 start s

unfoldable pub from_utf8 : Bytes → Option Bytes
unfolding is_utf8
from_utf8 s = if is_utf8 s then some s else none

-- ASCII text is well formed.
is_utf8-ascii : (s : Bytes) → All (λ b. b < 0x80) s → is_utf8 s ≡ true
unfolding is_utf8
is_utf8-ascii [] h = refl
is_utf8-ascii (b ∷ s) (hb, h) = ground (arith, is_utf8-ascii s h)

pub from_utf8-ascii : (s : Bytes) → All (λ b. b < 0x80) s → from_utf8 s ≡ some s
unfolding from_utf8
from_utf8-ascii s h = ground (arith, is_utf8-ascii s h)

pub from_utf8-valid : (s : Bytes) → is_utf8 s ≡ true → from_utf8 s ≡ some s
unfolding from_utf8
from_utf8-valid s h = rw h

euro : from_utf8 (0xe2 ∷ 0x82 ∷ 0xac ∷ []) ≡ some (0xe2 ∷ 0x82 ∷ 0xac ∷ [])
unfolding from_utf8
euro = refl

surrogate : from_utf8 (0xed ∷ 0xa0 ∷ 0x80 ∷ []) ≡ none
unfolding from_utf8
surrogate = refl
