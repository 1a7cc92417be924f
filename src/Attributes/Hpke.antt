-- ===== src/Attributes/Hpke.antt =====
-- EncryptWithHPKE against DecryptWithHPKE, over a suite that opens what it has sealed.
use pkd_server_go.Prelude.{
  ◌≡◌, ◌++◌, some, ok, arith, inl, inr, Option-cases, length, take-append, drop-append,
  length-append,
}
use pkd_server_go.Signing.{Bytes, Primitives, decrypt_with_hpke}
use pkd_server_go.Attributes.{HpkeSender, encrypt_with_hpke}

-- What RFC 9180 says of a sender and of the holder of the secret key: an encapsulated key has the
-- size of the KEM, and what is sealed under it is opened under it.
pub record AreHpkePair (p : Primitives) (s : HpkeSender) (public_key : Bytes) : Type 0 where
  pub enc-length : (enc : Bytes) → s.setup public_key ≡ some enc → length enc ≡ p.enc_size
  pub open-seal :
      (enc plaintext ciphertext : Bytes)
      → s.setup public_key ≡ some enc
      → s.seal enc plaintext ≡ some ciphertext
      → p.hpke_open enc ciphertext ≡ some plaintext

-- What EncryptWithHPKE returns for the server's public key, DecryptWithHPKE reads back.
decrypt-encrypt_with_hpke :
    (p : Primitives) (s : HpkeSender) (public_key plaintext blob : Bytes)
    → AreHpkePair p s public_key
    → encrypt_with_hpke s public_key plaintext ≡ ok blob
    → decrypt_with_hpke p blob ≡ some plaintext
unfolding encrypt_with_hpke decrypt_with_hpke
decrypt-encrypt_with_hpke p s public_key plaintext blob laws e =
    elim (Option-cases (s.setup public_key)) [
      | inl n ↦ ground arith
      | inr (enc, se) ↦ elim (Option-cases (s.seal enc plaintext)) [
        | inl n ↦ ground arith
        | inr (c, ce) ↦
            let l = laws.enc-length enc se in
            let o = laws.open-seal enc plaintext c se ce in
            let a = take-append p.enc_size enc c l in
            let b = drop-append p.enc_size enc c l in
            let k = length-append enc c in
            let whole : blob ≡ enc ++ c = ground arith in ground arith
      ]
    ]
