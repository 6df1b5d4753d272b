-- ===== src/Envelope/Runs.antt =====
-- The theorems on the binary format, on a concrete envelope.
use ethmumbai_rok.Common.{◌≡◌, ◌++◌, ◌-◌, ◌^◌, [], ◌∷◌, arith}
use ethmumbai_rok.Error.{ok, panic}
use ethmumbai_rok.Scope.Segments.{render}
use ethmumbai_rok.Text.Split.{spell}
use ethmumbai_rok.Wire.{le_bytes}
use ethmumbai_rok.Envelope.{to_bytes, from_bytes, mlkem_bytes, entries_bytes, scope_bytes}
use ethmumbai_rok.Envelope.RoundTrip.{from_bytes-to_bytes}
use ethmumbai_rok.Envelope.Overflow.{bytes_claiming, from_bytes_panics}
use ethmumbai_rok.Envelope.Sample.{sample, sample-IsValid}

from_bytes-to_bytes_example : from_bytes (to_bytes sample ++ 0 ∷ []) ≡ ok sample
unfolding to_bytes le_bytes scope_bytes render spell entries_bytes mlkem_bytes
from_bytes-to_bytes_example =
    from_bytes-to_bytes sample (0 ∷ []) sample-IsValid (omega arith) (omega arith)

from_bytes_panics_example : from_bytes (bytes_claiming sample (2 ^ 64 - 1) ++ 7 ∷ []) ≡ panic
unfolding bytes_claiming le_bytes scope_bytes render spell entries_bytes mlkem_bytes
from_bytes_panics_example =
    from_bytes_panics sample (2 ^ 64 - 1) (7 ∷ []) sample-IsValid (omega arith) (omega arith)
      (omega arith) (omega arith)
