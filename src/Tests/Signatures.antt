-- ===== src/Tests/Signatures.antt =====
-- Runs of the key texts of internal/crypto/signing.go.
use pkd_server_go.Prelude.{◌≡◌, refl, [], ◌∷◌, ok, arith}
use pkd_server_go.Signing.{Bytes, encode_public_key, decode_public_key}
use pkd_server_go.Signing.PublicKeys.{decode-encode_public_key}

abbrev eight : Bytes → Bytes
eight rest = 1 ∷ 2 ∷ 3 ∷ 4 ∷ 5 ∷ 6 ∷ 7 ∷ 255 ∷ rest

abbrev key : Bytes
key = eight (eight (eight (eight [])))

decode-encode_public_key_example : decode_public_key (encode_public_key key) ≡ ok key
decode-encode_public_key_example = (decode-encode_public_key key (omega arith)).0 refl
