-- ===== src/Scope.antt =====
-- crates/rok-core/src/keys/scope.rs: `Scope`, a validated path, kept as the bytes of its `String`.
-- The children hold the proofs; `Scope.Segments` is the abstract view, a list of segments.
pub mod Segments
pub mod Validity
pub mod Ancestry
pub mod Tree
mod Runs
use ethmumbai_rok.Common.{
  ℕ, zero, suc, ◌+◌, Bytes, Bool, true, false, not, ◌&&◌, ◌||◌, Option, none, some, List, [], ◌∷◌,
  ◌++◌, length, get_elem?, take, drop, any, bytes_eq, ltb, leb, ◌==◌, if◌then◌else◌,
}
use ethmumbai_rok.Error.{
  Message, num, text, format, RokError, invalid_scope, Result, ok, err, ◌>>=◌, ◌>>◌, refuse,
}
use ethmumbai_rok.Text.{starts_with, ends_with, contains, rfind, split}

abbrev pub slash : ℕ
slash = b'/'

pub record Scope : Type 0 where
  pub path : Bytes

unfoldable pub root : Scope
root = record { path = slash ∷ [] }

-- `ch.is_ascii_alphanumeric()`. Every byte of a character that is not ASCII is above 127.
unfoldable pub is_ascii_alphanumeric : ℕ → Bool
is_ascii_alphanumeric c =
    leb b'0' c && leb c b'9' || (leb b'A' c && leb c b'Z' || leb b'a' c && leb c b'z')

unfoldable pub is_segment_char : ℕ → Bool
unfolding is_ascii_alphanumeric
is_segment_char c = is_ascii_alphanumeric c || (c == b'-' || c == b'_')

-- The loop over `path.chars().enumerate()`. Up to the first character that is refused all are
-- ASCII, so that the position of a character is that of its first byte, which the message carries.
unfoldable pub check_chars : ℕ → Bytes → Result (Unit {0})
unfolding is_segment_char
check_chars i [] = ok tt
check_chars i (c ∷ cs) =
    let rest = check_chars (i + 1) cs in
    if i == 0
    then rest
    else if is_segment_char c || c == slash
    then rest
    else err (invalid_scope (format "invalid character '{}' at position {}" (num c ∷ num i ∷ [])))

unfoldable pub is_empty : Bytes → Bool
is_empty [] = true
is_empty (c ∷ cs) = false

-- The loop over `path[1..].split('/')`.
unfoldable pub check_segments : List Bytes → Result (Unit {0})
unfolding is_empty
check_segments [] = ok tt
check_segments (w ∷ ws) =
    let rest = check_segments ws in
    if is_empty w then err (invalid_scope (text "scope contains empty segment")) else rest

unfoldable pub new : Bytes → Result Scope
new path = do
  refuse (is_empty path) (invalid_scope (text "scope cannot be empty"))
  refuse (not (starts_with path (slash ∷ []))) (invalid_scope (text "scope must start with '/'"))
  refuse (ltb 1 (length path) && ends_with path slash)
      (invalid_scope (text "scope must not end with '/' (except root)"))
  refuse (contains path (slash ∷ slash ∷ []))
      (invalid_scope (text "scope must not contain double slashes"))
  check_chars 0 path
  if not (bytes_eq path (slash ∷ [])) then check_segments (split (drop 1 path) slash) else ok tt
  ok (record { path = path })

-- `bytes.get(i) == Some(&b)`
unfoldable pub has_byte_at : Bytes → ℕ → ℕ → Bool
has_byte_at s i b = elim (get_elem? s i) [ none ↦ false | some c ↦ c == b ]

unfoldable pub is_ancestor_of : Scope → Scope → Bool
unfolding has_byte_at
is_ancestor_of self descendant =
    if bytes_eq self.path (slash ∷ [])
    then true
    else if bytes_eq self.path descendant.path
    then true
    else starts_with descendant.path self.path
      && has_byte_at descendant.path (length self.path) slash

unfoldable pub components : Scope → List Bytes
components self = if bytes_eq self.path (slash ∷ []) then [] else split (drop 1 self.path) slash

unfoldable pub depth : Scope → ℕ
depth self = if bytes_eq self.path (slash ∷ []) then 0 else length (split (drop 1 self.path) slash)

unfoldable pub parent : Scope → Option Scope
parent self = if bytes_eq self.path (slash ∷ []) then none else elim (rfind self.path slash) [
  | none ↦ none
  | some zero ↦ some root
  | some (suc i) ↦ some (record { path = take (suc i) self.path })
]

-- The loop over `segment.chars()`.
unfoldable pub check_segment_chars : Bytes → Result (Unit {0})
unfolding is_segment_char
check_segment_chars [] = ok tt
check_segment_chars (c ∷ cs) =
    let rest = check_segment_chars cs in
    if is_segment_char c
    then rest
    else err (invalid_scope (format "invalid character '{}' in segment" (num c ∷ [])))

unfoldable pub child : Scope → Bytes → Result Scope
child self segment = do
  refuse (is_empty segment) (invalid_scope (text "segment cannot be empty"))
  refuse (contains segment (slash ∷ [])) (invalid_scope (text "segment must not contain '/'"))
  check_segment_chars segment
  let path =
      if bytes_eq self.path (slash ∷ []) then slash ∷ segment else self.path ++ slash ∷ segment
  ok (record { path = path })
