-- ===== src/Tests/Attributes.antt =====
-- Runs of internal/crypto/attribute_encryption.go.
use pkd_server_go.Prelude.{
  ◌+◌, ◌≤◌, ◌≡◌, refl, ◌↔◌, [], ◌∷◌, ◌++◌, some, ok, err, arith, length, drop,
}
use pkd_server_go.Signing.{Bytes}
use pkd_server_go.Attributes.{
  AttributeCiphers, little_endian, len_encode, encryption_key, auth_key, commit_plaintext,
  attribute_tag, parts, prefix_len, encrypt_attribute, decrypt_attribute, too_short,
}
use pkd_server_go.Tests.TokenFixtures.{repeat, length-repeat}
use pkd_server_go.Attributes.Framing.{tag_input_injective}
use pkd_server_go.Attributes.Opening.{AreCiphers}
use pkd_server_go.Attributes.RoundTrip.{decrypt_attribute_iff, decrypt-encrypt_attribute}

-- Keys, tags and commitments of one byte, and a stream of zeros.
abbrev ciphers : AttributeCiphers
ciphers = record {
  hkdf_sha512 = λ ikm info n. some (repeat n 1);
  sha512 = λ text. repeat 64 2;
  hmac_sha512 = λ key text. repeat 64 3;
  argon2_id = λ password salt time memory threads n. repeat n 4;
  aes_ctr = λ key nonce text. some text;
}

ciphers-AreCiphers : AreCiphers ciphers
ciphers-AreCiphers = record {
  argon2-length = λ password salt time memory threads n. length-repeat n 4;
  hmac-length = λ key text. refl;
  hkdf_gives = λ ikm info n l. (repeat n 1, refl, length-repeat n 1);
  ctr_gives = λ key nonce text lk ln. (text, refl, refl);
  ctr_involutive = λ key nonce text other e. ground arith;
}

abbrev name : Bytes
name = 110 ∷ 97 ∷ []

abbrev sealed_seven : Bytes
sealed_seven = 1 ∷ repeat 32 9 ++ (repeat 32 4 ++ (repeat 32 3 ++ 7 ∷ []))

encrypted : encrypt_attribute ciphers (some (repeat 32 9)) name (7 ∷ []) [] [] ≡ ok sealed_seven
unfolding encrypt_attribute encryption_key auth_key commit_plaintext attribute_tag drop
encrypted = refl

refused_short : decrypt_attribute ciphers name (1 ∷ 2 ∷ []) [] [] ≡ err too_short
unfolding decrypt_attribute
refused_short = refl

prefixed : len_encode (repeat 3 7) ≡ 3 ∷ 0 ∷ 0 ∷ 0 ∷ 0 ∷ 0 ∷ 0 ∷ 0 ∷ 7 ∷ 7 ∷ 7 ∷ []
unfolding len_encode little_endian
prefixed = refl

decrypt_attribute_iff_example :
    (decrypt_attribute ciphers name sealed_seven [] [] ≡ ok (7 ∷ []))
    ↔ (prefix_len ≤ length sealed_seven)
      × (encrypt_attribute ciphers (some (parts sealed_seven).r) name (7 ∷ []) [] []
          ≡ ok sealed_seven)
decrypt_attribute_iff_example =
    decrypt_attribute_iff ciphers ciphers-AreCiphers name [] [] sealed_seven (7 ∷ [])

decrypt-encrypt_attribute_example :
    (ciphertext : Bytes) × (encrypt_attribute ciphers (some (repeat 32 9)) name (7 ∷ []) [] []
      ≡ ok ciphertext)
    × (length ciphertext ≡ 97 + 1)
    × (decrypt_attribute ciphers name ciphertext [] [] ≡ ok (7 ∷ []))
decrypt-encrypt_attribute_example =
    decrypt-encrypt_attribute ciphers ciphers-AreCiphers name [] [] (repeat 32 9) (7 ∷ []) refl

tag_input_injective_example :
    (◌≡◌ {A = Bytes} (1 ∷ []) (1 ∷ []))
    × (◌≡◌ {A = Bytes} (9 ∷ []) (9 ∷ []))
    × (name ≡ name)
    × (◌≡◌ {A = Bytes} (7 ∷ []) (7 ∷ []))
    × (◌≡◌ {A = Bytes} (4 ∷ []) (4 ∷ []))
tag_input_injective_example =
    tag_input_injective (1 ∷ []) (1 ∷ []) (9 ∷ []) (9 ∷ []) name name (7 ∷ []) (7 ∷ []) (4 ∷ [])
      (4 ∷ []) refl refl (omega arith, omega arith) (omega arith, omega arith)
      (omega arith, omega arith) refl
