-- ===== src/Attributes/RoundTrip.antt =====
-- EncryptAttribute and DecryptAttribute undo each other, and nothing else is accepted.
use pkd_server_go.Prelude.{
  ◌+◌, ◌≤◌, ◌≡◌, refl, sym, ap, ◌∙◌, ◌↔◌, [], ◌∷◌, some, ok, arith, length, take, drop, length-take,
  length-drop,
}
use pkd_server_go.Signing.{Bytes}
use pkd_server_go.Attributes.{
  AttributeCiphers, prefix_len, version_one, version_of, auth_key, encryption_key, commit_plaintext,
  commitment_salt, attribute_tag, sealed, parts, get_protocol_version, decrypt_attribute,
  encrypt_attribute, build_info, auth_key_info, encrypt_key_info,
}
use pkd_server_go.Attributes.Sealed.{parts-sealed, sealed-parts, parts_lengths, length-sealed}
use pkd_server_go.Attributes.Opening.{
  AreCiphers, Opens, Sealing, decrypt_attribute-Opens, Opens-decrypt_attribute,
  encrypt_attribute-Sealing, Sealing-encrypt_attribute, one_byte, length-commit_plaintext,
  length-attribute_tag,
}

version_one_known : version_of (1 ∷ []) ≡ some version_one
unfolding get_protocol_version
version_one_known = refl

module _ (p : AttributeCiphers) (laws : AreCiphers p) (name ikm root : Bytes) where
  Sealing-Opens :
      (r plaintext ciphertext : Bytes)
      → length r ≡ 32
      → Sealing p r name plaintext ikm root ciphertext
      → Opens p name ikm root ciphertext plaintext
  Sealing-Opens r plaintext ciphertext lr s =
      let lq =
        ap length s.q_is
        ∙ length-commit_plaintext p laws name plaintext root
            (commitment_salt p (1 ∷ []) r name root) in
      let lt = ap length s.t_is ∙ length-attribute_tag p laws s.ak (1 ∷ []) r name s.c s.q in
      let shape = parts-sealed (1 ∷ []) r s.q s.t s.c refl lr lq lt in
      let long = length-sealed (1 ∷ []) r s.q s.t s.c in
      let e = s.is_sealed in
      record {
        s = record { h = 1 ∷ []; r = r; q = s.q; t = s.t; c = s.c };
        is_parts = sym (ap parts e ∙ shape);
        long_enough = ground arith;
        version = version_one_known;
        ak = s.ak;
        ak_derived = s.ak_derived;
        tag = s.t_is;
        derived = s.derived;
        key_derived = s.key_derived;
        deciphered = laws.ctr_involutive _ _ plaintext s.c s.enciphered;
        commitment = s.q_is;
      }

  Opens-Sealing :
      (plaintext ciphertext : Bytes)
      → Opens p name ikm root ciphertext plaintext
      → Sealing p (parts ciphertext).r name plaintext ikm root ciphertext
  Opens-Sealing plaintext ciphertext o =
      let s = o.s in
      let is_parts = o.is_parts in
      let (lh, lr, lq, lt) = parts_lengths ciphertext o.long_enough in
      let h : s.h ≡ 1 ∷ [] = one_byte s.h o.version (ground arith) in
      let ae = o.ak_derived in
      let de = o.key_derived in
      let qe = o.commitment in
      let te = o.tag in
      let back = sealed-parts ciphertext in
      record {
        ak = o.ak;
        ak_derived = cc;
        derived = o.derived;
        key_derived = cc;
        q = s.q;
        q_is = cc;
        c = s.c;
        enciphered = laws.ctr_involutive _ _ s.c plaintext o.deciphered;
        t = s.t;
        t_is = cc;
        is_sealed = cc;
      }

  -- DecryptAttribute accepts a text as a plaintext exactly where EncryptAttribute makes the text of
  -- that plaintext, the same attribute, key and Merkle root with the text's own 32 random bytes. So
  -- every change of an accepted text is refused that does not amount to another encryption.
  pub decrypt_attribute_iff :
      (ciphertext plaintext : Bytes)
      → (decrypt_attribute p name ciphertext ikm root ≡ ok plaintext)
        ↔ (prefix_len ≤ length ciphertext)
          × (encrypt_attribute p (some (parts ciphertext).r) name plaintext ikm root
              ≡ ok ciphertext)
  decrypt_attribute_iff ciphertext plaintext = (
    λ e.
        let o = decrypt_attribute-Opens p name ikm root ciphertext plaintext e in
        (
          o.long_enough,
          Sealing-encrypt_attribute p _ name plaintext ikm root ciphertext
              (Opens-Sealing plaintext ciphertext o),
        ),
    λ (l, e).
        let (lh, lr, lq, lt) = parts_lengths ciphertext l in
        Opens-decrypt_attribute p name ikm root ciphertext plaintext (
          Sealing-Opens _ plaintext ciphertext lr
            (encrypt_attribute-Sealing p _ name plaintext ikm root ciphertext e)),
  )

  -- With 32 random bytes EncryptAttribute succeeds on every plaintext, its text has 97 bytes more than
  -- the plaintext, and DecryptAttribute gives the plaintext back.
  pub decrypt-encrypt_attribute :
      (r plaintext : Bytes)
      → length r ≡ 32
      → (ciphertext : Bytes) × (encrypt_attribute p (some r) name plaintext ikm root
          ≡ ok ciphertext)
        × (length ciphertext ≡ 97 + length plaintext)
        × (decrypt_attribute p name ciphertext ikm root ≡ ok plaintext)
  unfolding auth_key encryption_key
  decrypt-encrypt_attribute r plaintext lr =
      let (ak, ae, _) =
        laws.hkdf_gives ikm (build_info auth_key_info (1 ∷ []) r name) 32 (omega arith) in
      let (derived, de, ld) =
        laws.hkdf_gives ikm (build_info encrypt_key_info (1 ∷ []) r name) 48 (omega arith) in
      let (c, ce, lc) =
        laws.ctr_gives (take 32 derived) (drop 32 derived) plaintext
          (length-take 32 derived (omega arith))
          (omega (arith, length-drop 32 derived (omega arith))) in
      let q = commit_plaintext p name plaintext root (commitment_salt p (1 ∷ []) r name root) in
      let t = attribute_tag p ak (1 ∷ []) r name c q in
      let s : Sealing p r name plaintext ikm root (sealed (1 ∷ []) r q t c) = record {
        ak = ak;
        ak_derived = ae;
        derived = derived;
        key_derived = de;
        q = q;
        q_is = refl;
        c = c;
        enciphered = ce;
        t = t;
        t_is = refl;
        is_sealed = refl;
      } in
      let lq =
        length-commit_plaintext p laws name plaintext root
          (commitment_salt p (1 ∷ []) r name root) in
      let lt = length-attribute_tag p laws ak (1 ∷ []) r name c q in
      (
        sealed (1 ∷ []) r q t c,
        Sealing-encrypt_attribute p r name plaintext ikm root _ s,
        omega (arith, length-sealed (1 ∷ []) r q t c),
        Opens-decrypt_attribute p name ikm root _ plaintext (Sealing-Opens r plaintext _ lr s),
      )
