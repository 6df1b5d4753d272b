-- ===== src/Storage/Runs.antt =====
-- The theorems on storage, and the order of scopes in a listing, on concrete entries.
use ethmumbai_rok.Common.{Bytes, ◌≡◌, ◌≢◌, inr, refl, [], ◌∷◌, ◌++◌, codes, arith, bytes_eq}
use ethmumbai_rok.Error.{ok}
use ethmumbai_rok.Scope.{slash, is_ancestor_of}
use ethmumbai_rok.Text.Split.{Free}
use ethmumbai_rok.Table.{ne-bytes_eq}
use ethmumbai_rok.Storage.{
  StorageEntry, MemoryStorage, new, composite_key, put, get_by_key, is_listed,
}
use ethmumbai_rok.Storage.Keyed.{composite_key-injective, get_by_key-put, put_collides}
use ethmumbai_rok.Storage.Listing.{is_listed-is_ancestor_of}

abbrev finance : Bytes
finance = codes "/finance"

abbrev q1 : Bytes
q1 = codes "q1"

abbrev q2 : Bytes
q2 = codes "q2"

q1_ok : Free slash q1
q1_ok = omega arith

q2_ok : Free slash q2
q2_ok = omega arith

q1_ne_q2 : q1 ≢ q2
q1_ne_q2 = ne-bytes_eq q1 q2 (unfold bytes_eq in refl)

composite_key-injective_example : (finance ≡ finance) × (q1 ≡ q1)
composite_key-injective_example = composite_key-injective finance finance q1 q1 q1_ok q1_ok refl

get_by_key-put_example :
    (next : MemoryStorage) × (e : StorageEntry) × (put new finance q1 (7 ∷ []) 3
      ≡ ok (composite_key finance q1, next))
    × (get_by_key next finance q1 ≡ ok e)
    × ((e.scope ≡ finance) × (e.key ≡ q1) × (e.contents ≡ 7 ∷ []) × (e.updated_at ≡ 3))
    × (get_by_key next finance q2 ≡ get_by_key new finance q2)
get_by_key-put_example =
    get_by_key-put new finance q1 (7 ∷ []) 3 finance q2 q1_ok q2_ok (inr q1_ne_q2)

put_collides_example :
    (one : MemoryStorage) × (two : MemoryStorage) × (e : StorageEntry) × (put new finance
        (q1 ++ slash ∷ q2)
        (7 ∷ [])
        3
      ≡ ok (composite_key finance (q1 ++ slash ∷ q2), one))
    × (put one (finance ++ slash ∷ q1) q2 (8 ∷ []) 4
        ≡ ok (composite_key (finance ++ slash ∷ q1) q2, two))
    × (get_by_key two finance (q1 ++ slash ∷ q2) ≡ ok e)
    × ((e.key ≡ q2) × (e.contents ≡ 8 ∷ []))
put_collides_example = put_collides new finance q1 q2 (7 ∷ []) (8 ∷ []) 3 4

is_listed-is_ancestor_of_example :
    is_listed finance (codes "/finance/q1")
    ≡ is_ancestor_of (record { path = finance }) (record { path = codes "/finance/q1" })
is_listed-is_ancestor_of_example =
    is_listed-is_ancestor_of (record { path = finance }) (record { path = codes "/finance/q1" })
