-- ===== src/Signing/PublicKeys.antt =====
-- The text of a public key, internal/crypto/signing.go.
use Prim.Native.String.{◌++◌ as text_append}
use Prim.Native.String.append
use Prim.Native.Char.{code}
use pkd_server_go.Prelude.{String, ◌≡◌, ap, ◌∙◌, some, ok, err, arith, eqb_iff, All, length}
use pkd_server_go.Encoding.{encode_raw_url}
use pkd_server_go.Encoding.RoundTrip.{IsByte, decode-encode_raw_url}
use pkd_server_go.Signing.{
  Bytes, ed25519_prefix, cut_prefix, encode_public_key, decode_public_key, public_key_size,
  invalid_length,
}

cut_prefix-append : (p s : String) → cut_prefix p (text_append p s) ≡ some s
unfolding cut_prefix
cut_prefix-append String.[] s = ap (cut_prefix "") (append.nil s)
cut_prefix-append (String.◌∷◌ c p) s =
    ap (cut_prefix (String.◌∷◌ c p)) (append.cons c p s)
    ∙ ground (arith, cut_prefix-append p s, eqb_iff (code c) (code c))

-- DecodePublicKey reads the text that EncodePublicKey writes for bytes: it gives the key where the
-- key has 32 bytes, and the error of the length where it has not.
pub decode-encode_public_key :
    (key : Bytes)
    → All IsByte key
    → ((length key ≡ public_key_size) → decode_public_key (encode_public_key key) ≡ ok key)
      × ((length key ≡ public_key_size → ⊥)
          → decode_public_key (encode_public_key key) ≡ err invalid_length)
unfolding decode_public_key encode_public_key
decode-encode_public_key key h =
    let cut = cut_prefix-append ed25519_prefix (encode_raw_url key) in
    let read = decode-encode_raw_url key h in
    (λ e. ground (arith, eqb_iff (length key) 32), λ e. ground (arith, eqb_iff (length key) 32))
