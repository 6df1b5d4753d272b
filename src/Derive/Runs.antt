-- ===== src/Derive/Runs.antt =====
-- The theorems on derivation, over the toy cryptography.
use ethmumbai_rok.Common.{◌≡◌, refl, Bytes, List, [], ◌∷◌, codes, replicate, All}
use ethmumbai_rok.Error.{◌>>=◌}
use ethmumbai_rok.Crypto.Toy.{toy}
use ethmumbai_rok.Scope.Segments.{IsSegment, of_segments, are_segments, are_segments_sound}
use ethmumbai_rok.Derive.{derive_child_read_secret}
use ethmumbai_rok.Derive.Stepwise.{derive_stepwise}

abbrev finance : List Bytes
finance = codes "finance" ∷ []

abbrev q1 : List Bytes
q1 = codes "finance" ∷ codes "q1" ∷ []

finance_ok : All IsSegment finance
unfolding are_segments
finance_ok = are_segments_sound finance refl

q1_ok : All IsSegment q1
unfolding are_segments
q1_ok = are_segments_sound q1 refl

abbrev secret : Bytes
secret = replicate 32 7

derive_stepwise_example :
    (derive_child_read_secret toy secret (of_segments []) (of_segments finance) >>= λ mid.
    derive_child_read_secret toy mid (of_segments finance) (of_segments q1))
    ≡ derive_child_read_secret toy secret (of_segments []) (of_segments q1)
derive_stepwise_example =
    derive_stepwise toy secret [] (codes "finance") [] (codes "q1") [] tt finance_ok q1_ok
