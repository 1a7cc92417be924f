-- ===== src/Signing.antt =====
-- internal/crypto/signing.go, totp.go, utils.go and the HPKE part of attribute_encryption.go. The
-- primitives (Ed25519, JCS, SHA-256, TOTP, HPKE) are the fields of `Primitives`.
use pkd_server_go.Prelude.{
  ℕ, ◌+◌, ◌/◌, ◌%◌, String, Bool, true, false, ◌&&◌, List, [], ◌∷◌, Option, none, some, Result, ok,
  err, ◌>>=◌, or_fail, eqb, ltb, length, take, drop, if◌then◌else◌,
}
use Prim.Native.Char.{code}
use Prim.Native.String.{◌++◌ as text_append}
use pkd_server_go.Encoding.{encode_raw_url, decode_raw_url, char_of}
use pkd_server_go.Json.{Json}
use pkd_server_go.Protocol.Messages.{ProtocolMessage, signed_part, marshal_signed}
pub mod PublicKeys

abbrev pub Bytes : Type 0
Bytes = List ℕ

pub record Primitives : Type 0 where
  -- ed25519.Verify: public key, message, signature
  pub ed25519_verify : Bytes → Bytes → Bytes → Bool
  -- jcs.Transform of a marshalled value
  pub jcs_transform : Json → Option Bytes
  -- sha256.Sum256 of a marshalled value
  pub sha256 : Json → Bytes
  -- totp.ValidateCustom at the present time: secret, passcode
  pub totp_validate : Bytes → String → Option Bool
  -- KEM_X25519_HKDF_SHA256.Scheme().PublicKeySize()
  pub enc_size : ℕ
  -- the receiver's setup and opening, with the server's private key: encapsulated key, ciphertext
  pub hpke_open : Bytes → Bytes → Option Bytes

-- ed25519.PublicKeySize
abbrev pub public_key_size : ℕ
public_key_size = 32

abbrev pub ed25519_prefix : String
ed25519_prefix = "ed25519:"

pub data KeyError : Type 0 where
  missing_prefix bad_base64 invalid_length : KeyError

-- strings.HasPrefix and strings.TrimPrefix in one
unfoldable pub cut_prefix : String → String → Option String
cut_prefix String.[] s = some s
cut_prefix (String.◌∷◌ p ps) String.[] = none
cut_prefix (String.◌∷◌ p ps) (String.◌∷◌ c s) =
    let rest = cut_prefix ps s in if eqb (code p) (code c) then rest else none

unfoldable pub encode_public_key : Bytes → String
encode_public_key key = text_append ed25519_prefix (encode_raw_url key)

abbrev pub sized : Bytes → Result KeyError Bytes
sized bytes = if eqb (length bytes) public_key_size then ok bytes else err invalid_length

unfoldable pub decode_public_key : String → Result KeyError Bytes
decode_public_key s = do
  digits ← or_fail missing_prefix (cut_prefix ed25519_prefix s)
  bytes ← or_fail bad_base64 (decode_raw_url digits)
  sized bytes

-- ed25519.PrivateKeySize
abbrev pub private_key_size : ℕ
private_key_size = 64

unfoldable pub encode_private_key : Bytes → String
encode_private_key key = encode_raw_url key

unfoldable pub decode_secret_key : String → Result KeyError Bytes
decode_secret_key s = do
  bytes ← or_fail bad_base64 (decode_raw_url s)
  if eqb (length bytes) private_key_size then ok bytes else err invalid_length

pub data VerifyError : Type 0 where
  not_canonical bad_signature_encoding invalid_signature : VerifyError

unfoldable pub verify_message_signature :
    Primitives → ProtocolMessage → Bytes → Result VerifyError (Unit {0})
verify_message_signature p msg key = do
  signed ← or_fail not_canonical (p.jcs_transform (marshal_signed (signed_part msg)))
  sig ← or_fail bad_signature_encoding (decode_raw_url msg.signature)
  if p.ed25519_verify key signed sig then ok tt else err invalid_signature

-- PublicKey.Equal
unfoldable pub bytes_eq : Bytes → Bytes → Bool
bytes_eq [] [] = true
bytes_eq [] (y ∷ ys) = false
bytes_eq (x ∷ xs) [] = false
bytes_eq (x ∷ xs) (y ∷ ys) = eqb x y && bytes_eq xs ys

abbrev hex_digit : ℕ → String → String
hex_digit d rest = String.◌∷◌ (char_of "0123456789abcdef" d) rest

hex_encode : Bytes → String
hex_encode [] = ""
hex_encode (b ∷ bs) = hex_digit (b / 16) (hex_digit (b % 16) (hex_encode bs))

-- crypto.HashBytes of a marshalled value
unfoldable pub hash_bytes : Primitives → Json → String
unfolding hex_encode
hash_bytes p j = hex_encode (p.sha256 j)

-- crypto.ValidateTOTP: an error of the library counts as a wrong code.
unfoldable pub validate_totp : Primitives → Bytes → String → Bool
validate_totp p secret otp = elim (p.totp_validate secret otp) [ none ↦ false | some valid ↦ valid ]

-- crypto.DecryptWithHPKE
unfoldable pub decrypt_with_hpke : Primitives → Bytes → Option Bytes
decrypt_with_hpke p encrypted =
    if ltb (length encrypted) p.enc_size
    then none
    else p.hpke_open (take p.enc_size encrypted) (drop p.enc_size encrypted)
