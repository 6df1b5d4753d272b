-- ===== src/Keys/Runs.antt =====
-- The theorems on keys, over the toy cryptography.
use ethmumbai_rok.Common.{◌≡◌, refl, true, Bytes, some, List, [], ◌∷◌, codes, replicate, All}
use ethmumbai_rok.Error.{ok}
use ethmumbai_rok.Crypto.Toy.{toy, toy_laws}
use ethmumbai_rok.Scope.{root}
use ethmumbai_rok.Scope.Segments.{IsSegment, of_segments, render, are_segments, are_segments_sound}
use ethmumbai_rok.Scope.Ancestry.{is_ancestor_of_iff}
use ethmumbai_rok.Derive.Stepwise.{descend}
use ethmumbai_rok.Keys.{
  ReadKeyPair, from_secret_bytes, key_id, can_access, derive_child, derive_root_read_key,
}
use ethmumbai_rok.Keys.Delegation.{
  at_segments, derive_child-segments, derive_child_narrows, derive_child_by_way,
}

abbrev finance : List Bytes
finance = codes "finance" ∷ []

abbrev q1 : List Bytes
q1 = codes "finance" ∷ codes "q1" ∷ []

finance_ok : All IsSegment finance
unfolding are_segments
finance_ok = are_segments_sound finance refl

q1_ok : All IsSegment q1
unfolding are_segments
q1_ok = are_segments_sound q1 refl

abbrev root_key : ReadKeyPair
root_key = derive_root_read_key toy (record { seed = replicate 32 42 })

root_key_scope : root_key.scope ≡ of_segments []
unfolding derive_root_read_key from_secret_bytes root render
root_key_scope = refl

abbrev finance_key : ReadKeyPair
finance_key =
    at_segments toy (descend toy root_key.secret [] finance) finance (some (key_id toy root_key))

finance_key_scope : finance_key.scope ≡ of_segments finance
unfolding from_secret_bytes
finance_key_scope = refl

derive_finance : derive_child toy root_key (of_segments finance) ≡ ok finance_key
derive_finance =
    derive_child-segments toy root_key [] (codes "finance") [] root_key_scope tt finance_ok

abbrev q1_key : ReadKeyPair
q1_key =
    at_segments toy (descend toy finance_key.secret finance (codes "q1" ∷ [])) q1
      (some (key_id toy finance_key))

derive_q1 : derive_child toy finance_key (of_segments q1) ≡ ok q1_key
derive_q1 =
    derive_child-segments toy finance_key finance (codes "q1") [] finance_key_scope finance_ok q1_ok

derive_child_by_way_example :
    derive_child toy root_key (of_segments q1)
    ≡ ok (record q1_key { parent_key_id = some (key_id toy root_key) })
derive_child_by_way_example =
    derive_child_by_way toy toy_laws root_key finance_key q1_key [] (codes "finance") []
      (codes "q1") [] root_key_scope tt finance_ok q1_ok derive_finance derive_q1

finance_reads_q1 : can_access toy finance_key (of_segments q1) ≡ true
unfolding can_access from_secret_bytes
finance_reads_q1 = (is_ancestor_of_iff finance q1 finance_ok q1_ok).1 (codes "q1" ∷ [], refl)

derive_child_narrows_example : can_access toy root_key (of_segments q1) ≡ true
derive_child_narrows_example =
    derive_child_narrows toy root_key finance_key [] finance q1 tt finance_ok q1_ok root_key_scope
      derive_finance finance_reads_q1
