-- ===== src/Encoding/Sample.antt =====
-- An exported read key: test data.
use ethmumbai_rok.Common.{Bytes, refl, some, List, [], ◌∷◌, codes, replicate}
use ethmumbai_rok.Scope.Segments.{of_segments, are_segments, are_segments_sound}
use ethmumbai_rok.Envelope.Valid.{IsScope}
use ethmumbai_rok.Keys.{ExportedReadKey}
use ethmumbai_rok.Encoding.RoundTrip.{IsExported}

abbrev pub finance : List Bytes
finance = codes "finance" ∷ []

pub finance-IsScope : IsScope (of_segments finance)
finance-IsScope = record {
  segments = finance;
  all_segments = unfold are_segments in are_segments_sound finance refl;
  path_eq = refl;
}

abbrev pub key : Bytes
key = replicate 32 7

abbrev pub exported : ExportedReadKey
exported = record {
  secret_bytes = key;
  public_bytes = key;
  scope = of_segments finance;
  parent_key_id = some (replicate 8 9);
}

pub exported-IsExported : IsExported exported
exported-IsExported = record {
  secret_size = refl;
  public_size = refl;
  parent_size = refl;
  is_scope = finance-IsScope;
}
