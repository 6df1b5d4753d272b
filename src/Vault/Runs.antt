-- ===== src/Vault/Runs.antt =====
-- The theorems on the vault, over the toy cryptography.
use ethmumbai_rok.Common.{
  Bytes, ◌≡◌, ◌≢◌, refl, ◌∙◌, ap, false, some, [], ◌∷◌, All, codes, arith, bytes_eq, length,
}
use ethmumbai_rok.Error.{ok}
use ethmumbai_rok.Crypto.{Rng}
use ethmumbai_rok.Crypto.Toy.{toy, toy_laws, zeros}
use ethmumbai_rok.Text.{starts_with}
use ethmumbai_rok.Text.Split.{spell}
use ethmumbai_rok.Scope.{root, is_ancestor_of}
use ethmumbai_rok.Scope.Segments.{of_segments, render}
use ethmumbai_rok.Keys.{key_id}
use ethmumbai_rok.Encrypt.{new, add_recipient, set_spend_key}
use ethmumbai_rok.Encrypt.Wrapping.{find_recipient}
use ethmumbai_rok.Encrypt.Access.{answer, decrypt-Sealed_for}
use ethmumbai_rok.Encrypt.Stored.{length-key_id}
use ethmumbai_rok.Encrypt.Sample.{
  finance, spend, root_key, note, fills, reader, genuine, own_public, found_reader, finance_key,
  finance_reader, sealed, dropped,
}
use ethmumbai_rok.Table.{get, ne-bytes_eq}
use ethmumbai_rok.Vault.{Vault, store, retrieve, verifying_key, names_to_rekey, rekey}
use ethmumbai_rok.Vault.Stored.{retrieve-store}
use ethmumbai_rok.Vault.Rekeyed.{Reads, Answered, rekey-elsewhere, rekey-Answered}

abbrev report : Bytes
report = codes "report"

abbrev draft : Bytes
draft = codes "draft"

abbrev empty : Vault
empty = record { spend_key = spend; documents = [] }

draft_ne_report : draft ≢ report
draft_ne_report = ne-bytes_eq draft report (unfold bytes_eq in refl)

retrieve-store_example :
    (next : Vault) × (rng' : Rng) × (store toy empty report
        (of_segments finance)
        note
        (reader ∷ [])
        zeros
      ≡ ok (next, rng'))
    × (retrieve toy next report root_key
        ≡ answer toy toy_laws spend root_key note
            (find_recipient (key_id toy root_key) (reader ∷ [])))
    × (retrieve toy next draft root_key ≡ retrieve toy empty draft root_key)
retrieve-store_example =
    retrieve-store toy toy_laws empty report draft (of_segments finance) note reader [] root_key
      zeros fills (omega arith) (length-key_id toy toy_laws root_key, tt) (genuine, own_public)
      draft_ne_report

-- A vault with the sealed note.
abbrev vault : Vault
vault = record { spend_key = spend; documents = (report, sealed.0) ∷ [] }

vault_reads : retrieve toy vault report root_key ≡ ok note
unfolding retrieve get verifying_key bytes_eq
vault_reads =
    decrypt-Sealed_for toy toy_laws spend (reader ∷ []) note sealed.0 root_key sealed.4 genuine
      own_public sealed.5
    ∙ ap (answer toy toy_laws spend root_key note) found_reader

vault-Reads : All (Reads toy vault root_key) (names_to_rekey root vault.documents)
unfolding names_to_rekey is_ancestor_of root bytes_eq
vault-Reads = ((note, vault_reads, omega arith), tt)

rekey-Answered_example :
    (next : Vault) × (rekey toy vault root root_key (finance_reader ∷ []) zeros
      ≡ (ok (length (names_to_rekey root vault.documents)), next))
    × All
        (Answered toy toy_laws vault next root_key root_key (finance_reader ∷ []))
        (names_to_rekey root vault.documents)
unfolding get
rekey-Answered_example =
    rekey-Answered toy toy_laws vault root root_key root_key finance_reader [] zeros fills
      (length-key_id toy toy_laws finance_key, tt) (refl, tt) (genuine, dropped) vault-Reads

outside : is_ancestor_of (of_segments (codes "legal" ∷ [])) sealed.0.scope ≡ false
unfolding is_ancestor_of render spell bytes_eq starts_with new add_recipient set_spend_key
outside = rw sealed.3 refl

rekey-elsewhere_example :
    get report
      (rekey toy vault
        (of_segments (codes "legal" ∷ []))
        root_key
        (finance_reader ∷ [])
        zeros).1.documents
    ≡ some sealed.0
unfolding get bytes_eq
rekey-elsewhere_example =
    rekey-elsewhere toy vault (of_segments (codes "legal" ∷ [])) root_key (finance_reader ∷ [])
      zeros report sealed.0 (refl, tt) refl outside
