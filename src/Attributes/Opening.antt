-- ===== src/Attributes/Opening.antt =====
-- DecryptAttribute against EncryptAttribute, over ciphers that behave as their documentation says.
use pkd_server_go.Prelude.{
  ℕ, ◌-◌, ◌≤◌, ◌≡◌, refl, ap, ◌∙◌, [], ◌∷◌, some, ok, arith, inl, inr, Option-cases, length,
  length-drop,
}
use pkd_server_go.Signing.{Bytes}
use pkd_server_go.Attributes.{
  tag_input, AttributeCiphers, prefix_len, get_protocol_version, ProtocolVersion, version_one,
  version_of, auth_key, encryption_key, cipher_with, commit_plaintext, commitment_salt,
  attribute_tag, sealed, Parts, parts, decrypt_attribute, encrypt_attribute,
}
use pkd_server_go.Attributes.Sealed.{bytes_eq_iff}

-- What the documentation of the Go packages says: Argon2id gives so many bytes as are asked for,
-- HMAC with SHA-512 gives 64, HKDF with SHA-512 gives up to 255 * 64, and AES-CTR, which adds the key
-- stream, takes a key of 32 bytes and a nonce of 16, keeps the length and undoes itself.
pub record AreCiphers (p : AttributeCiphers) : Type 0 where
  pub argon2-length :
      (password salt : Bytes) (time memory threads n : ℕ)
      → length (p.argon2_id password salt time memory threads n) ≡ n
  pub hmac-length : (key text : Bytes) → length (p.hmac_sha512 key text) ≡ 64
  pub hkdf_gives :
      (ikm info : Bytes) (n : ℕ)
      → n ≤ 16320
      → (key : Bytes) × (p.hkdf_sha512 ikm info n ≡ some key) × (length key ≡ n)
  pub ctr_gives :
      (key nonce text : Bytes)
      → length key ≡ 32
      → length nonce ≡ 16
      → (other : Bytes) × (p.aes_ctr key nonce text ≡ some other) × (length other ≡ length text)
  pub ctr_involutive :
      (key nonce text other : Bytes)
      → p.aes_ctr key nonce text ≡ some other
      → p.aes_ctr key nonce other ≡ some text

-- The checks that a decryption has passed.
pub record Opens (p : AttributeCiphers) (name ikm root ciphertext plaintext : Bytes) : Type 0 where
  pub s : Parts
  pub is_parts : s ≡ parts ciphertext
  pub long_enough : prefix_len ≤ length ciphertext
  pub version : version_of s.h ≡ some version_one
  pub ak : Bytes
  pub ak_derived : auth_key p ikm s.h s.r name ≡ some ak
  pub tag : s.t ≡ attribute_tag p ak s.h s.r name s.c s.q
  pub derived : Bytes
  pub key_derived : encryption_key p ikm s.h s.r name ≡ some derived
  pub deciphered : cipher_with p derived s.c ≡ some plaintext
  pub commitment :
      s.q ≡ commit_plaintext p name plaintext root (commitment_salt p s.h s.r name root)

only_version : (v : ProtocolVersion) → v ≡ version_one
only_version version_one = refl

module _ (p : AttributeCiphers) (name ikm root ciphertext : Bytes) where
  pub decrypt_attribute-Opens :
      (plaintext : Bytes)
      → decrypt_attribute p name ciphertext ikm root ≡ ok plaintext
      → Opens p name ikm root ciphertext plaintext
  unfolding decrypt_attribute
  decrypt_attribute-Opens plaintext e =
      let s = parts ciphertext in
      elim (Option-cases (version_of s.h)) [
        | inl v ↦ ground arith
        | inr (v, ve) ↦ elim (Option-cases (auth_key p ikm s.h s.r name)) [
          | inl a ↦ ground arith
          | inr (ak, ae) ↦ elim (Option-cases (encryption_key p ikm s.h s.r name)) [
            | inl d ↦ ground arith
            | inr (derived, de) ↦ elim (Option-cases (cipher_with p derived s.c)) [
              | inl c ↦ ground arith
              | inr (m, me) ↦
                  let t = bytes_eq_iff s.t (attribute_tag p ak s.h s.r name s.c s.q) in
                  let q =
                    bytes_eq_iff s.q
                      (commit_plaintext p name m root (commitment_salt p s.h s.r name root)) in
                  let same : m ≡ plaintext = ground arith in
                  record {
                    s = s;
                    is_parts = refl;
                    long_enough = ground arith;
                    version = ve ∙ ap some (only_version v);
                    ak = ak;
                    ak_derived = ae;
                    tag = ground arith;
                    derived = derived;
                    key_derived = de;
                    deciphered = me ∙ ap some same;
                    commitment = ground arith;
                  }
            ]
          ]
        ]
      ]

  pub Opens-decrypt_attribute :
      (plaintext : Bytes)
      → Opens p name ikm root ciphertext plaintext
      → decrypt_attribute p name ciphertext ikm root ≡ ok plaintext
  unfolding decrypt_attribute
  Opens-decrypt_attribute plaintext o =
      let is_parts = o.is_parts in
      let long_enough = o.long_enough in
      let version = o.version in
      let ae = o.ak_derived in
      let de = o.key_derived in
      let me = o.deciphered in
      let te = o.tag in
      let qe = o.commitment in
      let s = o.s in
      let t = bytes_eq_iff s.t (attribute_tag p o.ak s.h s.r name s.c s.q) in
      let q =
        bytes_eq_iff s.q
          (commit_plaintext p name plaintext root (commitment_salt p s.h s.r name root)) in
      ground arith

-- The values of an encryption that has not failed.
pub record Sealing (p : AttributeCiphers) (r name plaintext ikm root ciphertext : Bytes)
    : Type 0 where
  pub ak : Bytes
  pub ak_derived : auth_key p ikm (1 ∷ []) r name ≡ some ak
  pub derived : Bytes
  pub key_derived : encryption_key p ikm (1 ∷ []) r name ≡ some derived
  pub q : Bytes
  pub q_is : q ≡ commit_plaintext p name plaintext root (commitment_salt p (1 ∷ []) r name root)
  pub c : Bytes
  pub enciphered : cipher_with p derived plaintext ≡ some c
  pub t : Bytes
  pub t_is : t ≡ attribute_tag p ak (1 ∷ []) r name c q
  pub is_sealed : ciphertext ≡ sealed (1 ∷ []) r q t c

module _ (p : AttributeCiphers) (r name plaintext ikm root ciphertext : Bytes) where
  pub encrypt_attribute-Sealing :
      encrypt_attribute p (some r) name plaintext ikm root ≡ ok ciphertext
      → Sealing p r name plaintext ikm root ciphertext
  unfolding encrypt_attribute
  encrypt_attribute-Sealing e =
      let q = commit_plaintext p name plaintext root (commitment_salt p (1 ∷ []) r name root) in
      elim (Option-cases (encryption_key p ikm (1 ∷ []) r name)) [
        | inl d ↦ ground arith
        | inr (derived, de) ↦ elim (Option-cases (auth_key p ikm (1 ∷ []) r name)) [
          | inl a ↦ ground arith
          | inr (ak, ae) ↦ elim (Option-cases (cipher_with p derived plaintext)) [
            | inl b ↦ ground arith
            | inr (c, ce) ↦ record {
              ak = ak;
              ak_derived = ae;
              derived = derived;
              key_derived = de;
              q = q;
              q_is = refl;
              c = c;
              enciphered = ce;
              t = attribute_tag p ak (1 ∷ []) r name c q;
              t_is = refl;
              is_sealed = ground arith;
            }
          ]
        ]
      ]

  pub Sealing-encrypt_attribute :
      Sealing p r name plaintext ikm root ciphertext
      → encrypt_attribute p (some r) name plaintext ikm root ≡ ok ciphertext
  unfolding encrypt_attribute
  Sealing-encrypt_attribute s =
      let ae = s.ak_derived in
      let de = s.key_derived in
      let ce = s.enciphered in
      let q = s.q_is in let t = s.t_is in let e = s.is_sealed in ground arith

pub one_byte : (h : Bytes) → version_of h ≡ some version_one → length h ≡ 1 → h ≡ 1 ∷ []
unfolding get_protocol_version
one_byte [] v l = ground arith
one_byte (b ∷ []) v l = ap (λ x. x ∷ []) (ground arith)
one_byte (b ∷ c ∷ h) v l = ground arith

module _ (p : AttributeCiphers) (laws : AreCiphers p) where
  pub length-commit_plaintext :
      (name plaintext root salt : Bytes) → length (commit_plaintext p name plaintext root salt) ≡ 32
  unfolding commit_plaintext
  length-commit_plaintext name plaintext root salt = laws.argon2-length _ _ _ _ _ _

  pub length-attribute_tag :
      (ak h r name c q : Bytes) → length (attribute_tag p ak h r name c q) ≡ 32
  unfolding attribute_tag
  length-attribute_tag ak h r name c q =
      let full = p.hmac_sha512 ak (tag_input h r name c q) in
      let l = laws.hmac-length ak (tag_input h r name c q) in
      omega (arith, length-drop (length full - 32) full (omega arith))
