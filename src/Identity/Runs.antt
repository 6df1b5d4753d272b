-- ===== src/Identity/Runs.antt =====
-- The theorem on disclosure, on a credential of two attributes.
use ethmumbai_rok.Common.{◌≡◌, List, [], ◌∷◌, codes, arith}
use ethmumbai_rok.Error.{ok}
use ethmumbai_rok.Crypto.Toy.{toy, toy_laws, zeros}
use ethmumbai_rok.Scope.Segments.{of_segments}
use ethmumbai_rok.Keys.{key_id}
use ethmumbai_rok.Encrypt.Wrapping.{find_recipient}
use ethmumbai_rok.Encrypt.Stored.{length-key_id}
use ethmumbai_rok.Encrypt.Sample.{
  finance, spend, root_key, note, fills, reader, genuine, own_public,
}
use ethmumbai_rok.Identity.{Credential, Attribute, issue, disclose}
use ethmumbai_rok.Identity.Disclosure.{visible, disclose-issue}

abbrev attributes : List Attribute
attributes =
    record { name = codes "name"; scope = of_segments finance; value = note }
    ∷ record { name = codes "dob"; scope = of_segments []; value = codes "1990" }
    ∷ []

disclose-issue_example :
    (credential : Credential) × (issue toy spend (codes "alice") attributes (reader ∷ []) zeros
      ≡ ok credential)
    × (disclose toy credential root_key
        ≡ ok (visible toy root_key attributes (find_recipient (key_id toy root_key) (reader ∷ []))))
disclose-issue_example =
    disclose-issue toy toy_laws spend (codes "alice") root_key attributes reader [] zeros fills
      (length-key_id toy toy_laws root_key, tt) (omega arith, (omega arith, tt))
      (genuine, own_public)
