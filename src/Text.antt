-- ===== src/Text.antt =====
-- What the program uses of `str`: `starts_with`, `ends_with`, `contains`, `split`, `rfind` and
-- `Vec<&str>::join`, over the bytes of the text. A pattern that is an ASCII character is its byte.
pub mod Utf8
pub mod Split
pub mod Prefix
use ethmumbai_rok.Common.{
  ℕ, zero, suc, ◌+◌, Bytes, Bool, true, false, ◌&&◌, ◌||◌, Option, none, some, List, [], ◌∷◌, ◌++◌,
  ◌==◌, if◌then◌else◌,
}

unfoldable pub starts_with : Bytes → Bytes → Bool
starts_with s [] = true
starts_with [] (c ∷ p) = false
starts_with (b ∷ s) (c ∷ p) = b == c && starts_with s p

-- `s.ends_with(c)` for an ASCII character
unfoldable pub ends_with : Bytes → ℕ → Bool
ends_with [] c = false
ends_with (b ∷ []) c = b == c
ends_with (b ∷ d ∷ s) c = ends_with (d ∷ s) c

unfoldable pub contains : Bytes → Bytes → Bool
unfolding starts_with
contains [] p = starts_with [] p
contains (b ∷ s) p = starts_with (b ∷ s) p || contains s p

-- The position of the last byte `c`.
unfoldable pub rfind : Bytes → ℕ → Option ℕ
rfind [] c = none
rfind (b ∷ s) c = elim (rfind s c) [
  | some i ↦ some (suc i)
  | none ↦ if b == c then some zero else none
]

cons_head : ℕ → List Bytes → List Bytes
cons_head b [] = (b ∷ []) ∷ []
cons_head b (w ∷ ws) = (b ∷ w) ∷ ws

-- `s.split(c)`; the empty text has one empty part.
unfoldable pub split : Bytes → ℕ → List Bytes
unfolding cons_head
split [] c = [] ∷ []
split (b ∷ s) c = let rest = split s c in if b == c then [] ∷ rest else cons_head b rest

-- `ws.join(sep)`
unfoldable pub join : List Bytes → Bytes → Bytes
join [] sep = []
join (w ∷ []) sep = w
join (w ∷ v ∷ ws) sep = w ++ (sep ++ join (v ∷ ws) sep)
