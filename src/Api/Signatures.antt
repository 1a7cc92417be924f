-- ===== src/Api/Signatures.antt =====
-- The loops of internal/api/protocol_actions.go over an actor's keys, and over the symmetric keys
-- of a message.
use pkd_server_go.Prelude.{
  String, Bool, true, false, ◌&&◌, ◌||◌, not, List, [], ◌∷◌, none, some, Result, ok, err,
}
use pkd_server_go.Encoding.{decode_raw_url}
use pkd_server_go.Protocol.Messages.{ProtocolMessage}
use pkd_server_go.Signing.{
  Primitives, Bytes, VerifyError, KeyError, decode_public_key, verify_message_signature, bytes_eq,
}
use pkd_server_go.Store.Rows.{PublicKey}

abbrev verified : Result VerifyError (Unit {0}) → Bool
verified (ok u) = true
verified (err e) = false

abbrev verifies_decoded : Primitives → ProtocolMessage → Result KeyError Bytes → Bool
verifies_decoded p msg (ok key) = verified (verify_message_signature p msg key)
verifies_decoded p msg (err e) = false

-- One round of the loop: a stored key that does not decode is skipped.
unfoldable pub key_verifies : Primitives → ProtocolMessage → PublicKey → Bool
key_verifies p msg k = verifies_decoded p msg (decode_public_key k.public_key)

-- `validSignature` after the loop, which breaks at the first key that verifies.
unfoldable pub signed_by_one : Primitives → ProtocolMessage → List PublicKey → Bool
signed_by_one p msg [] = false
signed_by_one p msg (k ∷ ks) = key_verifies p msg k || signed_by_one p msg ks

abbrev is_other : Bytes → Result KeyError Bytes → Bool
is_other revoked (ok key) = not (bytes_eq key revoked)
is_other revoked (err e) = false

-- A round of the loop of a revocation: the key that is revoked is skipped too.
unfoldable pub other_key_verifies : Primitives → ProtocolMessage → Bytes → PublicKey → Bool
other_key_verifies p msg revoked k =
    is_other revoked (decode_public_key k.public_key) && key_verifies p msg k

unfoldable pub signed_by_other : Primitives → ProtocolMessage → Bytes → List PublicKey → Bool
signed_by_other p msg revoked [] = false
signed_by_other p msg revoked (k ∷ ks) =
    other_key_verifies p msg revoked k || signed_by_other p msg revoked ks

-- The decoding of the symmetric keys; the error names the attribute.
unfoldable pub decode_symmetric_keys :
    List (String × String) → Result String (List (String × Bytes))
decode_symmetric_keys [] = ok []
decode_symmetric_keys ((attribute, text) ∷ rest) = elim (decode_raw_url text) [
  | none ↦ err attribute
  | some key ↦ elim (decode_symmetric_keys rest) [
    | err e ↦ err e
    | ok keys ↦ ok ((attribute, key) ∷ keys)
  ]
]
