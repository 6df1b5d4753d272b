-- ===== src/Storage/Listing.antt =====
-- crates/rok-sdk/src/storage/mod.rs: what `list` selects.
use ethmumbai_rok.Common.{bytes_eq_sym, ℕ, Bytes, ◌&&◌, ◌≡◌, refl, [], ◌∷◌, ◌++◌, arith, length}
use ethmumbai_rok.Text.{starts_with}
use ethmumbai_rok.Scope.{Scope, slash, has_byte_at, is_ancestor_of}
use ethmumbai_rok.Storage.{is_listed}

starts_with-snoc :
    (s p : Bytes) (c : ℕ)
    → starts_with s (p ++ c ∷ []) ≡ (starts_with s p && has_byte_at s (length p) c)
unfolding starts_with has_byte_at
starts_with-snoc [] [] c = refl
starts_with-snoc (b ∷ s) [] c = ground arith
starts_with-snoc [] (d ∷ p) c = refl
starts_with-snoc (b ∷ s) (d ∷ p) c = rw (starts_with-snoc s p c) (ground arith)

-- The filter of `list` selects an entry exactly if the prefix is an ancestor of the entry's
-- scope.
pub is_listed-is_ancestor_of : (p s : Scope) → is_listed p.path s.path ≡ is_ancestor_of p s
unfolding is_listed is_ancestor_of
is_listed-is_ancestor_of p s =
    rw (starts_with-snoc s.path p.path slash, bytes_eq_sym s.path p.path) (ground arith)
