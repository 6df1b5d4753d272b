-- ===== src/Text/Prefix.antt =====
-- Prefixes and last positions: what `starts_with`, `get` and `rfind` say of a text in two parts.
use Prim.Native.Nat.{ℕ}
use ethmumbai_rok.Common.{
  Bytes, ◌≡◌, refl, true, none, some, [], ◌∷◌, ◌++◌, arith, length, get_elem?, ==_refl,
}
use ethmumbai_rok.Text.{starts_with, rfind}
use ethmumbai_rok.Text.Split.{Free}

pub starts_with_sound : (s p : Bytes) → starts_with s p ≡ true → (r : Bytes) × (s ≡ p ++ r)
unfolding starts_with
starts_with_sound s [] h = (s, refl)
starts_with_sound [] (c ∷ p) h = cc
starts_with_sound (b ∷ s) (c ∷ p) h =
    let (r, e) = starts_with_sound s p (ground arith) in (r, ground arith)

pub starts_with-append : (p r : Bytes) → starts_with (p ++ r) p ≡ true
unfolding starts_with
starts_with-append [] r = refl
starts_with-append (c ∷ p) r = rw ==_refl (starts_with-append p r)

-- The element behind a prefix.
pub get_elem?-length-append : (p r : Bytes) → get_elem? (p ++ r) (length p) ≡ get_elem? r 0
get_elem?-length-append [] r = refl
get_elem?-length-append (c ∷ p) r = get_elem?-length-append p r

rfind-Free : (w : Bytes) (c : ℕ) → Free c w → rfind w c ≡ none
unfolding rfind
rfind-Free [] c h = refl
rfind-Free (b ∷ w) c (hb, h) = ground (arith, rfind-Free w c h)

-- The last `c` is the one behind which none follows.
pub rfind-append : (p w : Bytes) (c : ℕ) → Free c w → rfind (p ++ c ∷ w) c ≡ some (length p)
unfolding rfind
rfind-append [] w c h = ground (arith, rfind-Free w c h)
rfind-append (b ∷ p) w c h = rw (rfind-append p w c h) refl
