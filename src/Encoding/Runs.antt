-- ===== src/Encoding/Runs.antt =====
-- The theorems on encoded keys, over the toy cryptography.
use ethmumbai_rok.Common.{◌≡◌}
use ethmumbai_rok.Error.{ok}
use ethmumbai_rok.Crypto.Toy.{toy, toy_laws}
use ethmumbai_rok.Encoding.{encode_exported_read_key, decode_exported_read_key}
use ethmumbai_rok.Encoding.Sample.{exported, exported-IsExported}
use ethmumbai_rok.Encoding.RoundTrip.{decode_exported_read_key-encode}

decode_exported_read_key-encode_example :
    decode_exported_read_key toy (encode_exported_read_key toy exported) ≡ ok exported
decode_exported_read_key-encode_example =
    decode_exported_read_key-encode toy toy_laws exported exported-IsExported
