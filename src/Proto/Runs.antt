-- ===== src/Proto/Runs.antt =====
-- The theorems on the protobuf format, over the toy encoding.
use ethmumbai_rok.Common.{◌≡◌, arith}
use ethmumbai_rok.Error.{ok}
use ethmumbai_rok.Wire.{le_bytes}
use ethmumbai_rok.Scope.Segments.{render}
use ethmumbai_rok.Text.Split.{spell}
use ethmumbai_rok.Envelope
use ethmumbai_rok.Envelope.{scope_bytes, entries_bytes, mlkem_bytes}
use ethmumbai_rok.Envelope.Sample.{sample, sample-IsValid}
use ethmumbai_rok.Sectioned
use ethmumbai_rok.Sectioned.{sections_bytes}
use ethmumbai_rok.Sectioned.Sample.{container, container-IsSectioned}
use ethmumbai_rok.Proto.{envelope_from}
use ethmumbai_rok.Proto.Container.{
  envelope_bytes, envelope_from_bytes, sectioned_bytes, sectioned_from_bytes,
}
use ethmumbai_rok.Proto.RoundTrip.{
  envelope_try_from-envelope_from, envelope_from_bytes-envelope_bytes, formats_agree,
}
use ethmumbai_rok.Proto.Accepted.{IsAccepted, envelope_try_from-IsAccepted}
use ethmumbai_rok.Proto.Toy.{toy_prost, toy_prost_laws}

envelope_from_bytes-envelope_bytes_example :
    envelope_from_bytes toy_prost (envelope_bytes toy_prost sample) ≡ ok sample
envelope_from_bytes-envelope_bytes_example =
    envelope_from_bytes-envelope_bytes toy_prost toy_prost_laws sample sample-IsValid

formats_agree_example :
    sectioned_from_bytes toy_prost (sectioned_bytes toy_prost container)
    ≡ Sectioned.from_bytes (Sectioned.to_bytes container)
unfolding Sectioned.to_bytes sections_bytes Envelope.to_bytes le_bytes scope_bytes render spell
    entries_bytes mlkem_bytes
formats_agree_example =
    formats_agree toy_prost toy_prost_laws container container-IsSectioned (omega arith)

envelope_try_from-IsAccepted_example : IsAccepted sample
envelope_try_from-IsAccepted_example =
    envelope_try_from-IsAccepted toy_prost (envelope_from sample) sample
      (envelope_try_from-envelope_from toy_prost toy_prost_laws sample sample-IsValid)
