-- ===== src/Auth/KeyFileRoundTrip.antt =====
-- The key file of internal/auth/key_manager.go is read back by every manager with the same password.
use pkd_server_go.Prelude.{
  ℕ, ◌<◌, String, ◌≡◌, refl, ap, true, false, [], ◌∷◌, some, none, ok, arith, All, Bool-cases, inl,
  inr, ◌⊎◌, length, take, drop, length-take, List-cases, ◌==◌, eq_iff,
}
use pkd_server_go.Encoding.{encode_raw_url, decode_raw_url, digits_of, pack}
use pkd_server_go.Encoding.RoundTrip.{IsByte, decode-encode_raw_url}
use pkd_server_go.Signing.{Bytes}
use pkd_server_go.Text.{split}
use pkd_server_go.Auth.KeyFile.{
  KeyCiphers, FileKeyManager, FileSystem, File, is_colon, encrypt_with_aes_gcm,
  decrypt_with_aes_gcm, derive_file_key, sealed_file, key_file_text, generate_and_save_key,
  needs_key, new_file_key_manager, get_paseto_symmetric_key,
}
use pkd_server_go.Auth.Fields.{split-sealed_file}

-- What the documentation of the Go packages says: Argon2id gives so many bytes as are asked for, AES
-- takes a key of 32 bytes, and GCM opens what it has sealed, which is bytes.
pub record AreKeyCiphers (p : KeyCiphers) : Type 0 where
  pub argon2-length :
      (password salt : Bytes) (time memory threads n : ℕ)
      → length (p.argon2_id password salt time memory threads n) ≡ n
  pub takes_key : (key : Bytes) → length key ≡ 32 → p.new_gcm key ≡ true
  pub open-seal :
      (key nonce plaintext additional : Bytes)
      → p.open_sealed key nonce (p.seal key nonce plaintext additional) additional ≡ some plaintext
  pub seal-IsByte :
      (key nonce plaintext additional : Bytes)
      → All IsByte plaintext
      → All IsByte (p.seal key nonce plaintext additional)

-- A text that a manager has written for a key.
record Holds (p : KeyCiphers) (km : FileKeyManager) (text : String) (key : Bytes) : Type 0 where
  occupied : needs_key (some text) ≡ false
  read :
      (fs : FileSystem)
      → fs.read_fails ≡ false
      → get_paseto_symmetric_key p fs km (some text) ≡ ok key

not_empty : (text : String) → (text ≡ "" → ⊥) → needs_key (some text) ≡ false
not_empty text h = elim (Bool-cases (text == "")) [
  | inl e ↦ absurd (h ((eq_iff text "").0 e))
  | inr e ↦ e
]

split_empty : split is_colon "" ≡ "" ∷ []
unfolding split
split_empty = refl

decode_empty : decode_raw_url "" ≡ some []
unfolding decode_raw_url digits_of pack
decode_empty = refl

plain-Holds :
    (p : KeyCiphers) (km : FileKeyManager) (b : ℕ) (key : Bytes)
    → km.password ≡ []
    → All IsByte (b ∷ key)
    → Holds p km (encode_raw_url (b ∷ key)) (b ∷ key)
unfolding get_paseto_symmetric_key
plain-Holds p km b key e h =
    let read = decode-encode_raw_url (b ∷ key) h in
    record {
      occupied = not_empty _ (λ q. let r = ap decode_raw_url q in let d = decode_empty in cc);
      read = λ fs r. ground arith;
    }

sealed-Holds :
    (p : KeyCiphers) (laws : AreKeyCiphers p) (km : FileKeyManager) (c : ℕ)
    (cs salt derived key : Bytes)
    → km.password ≡ c ∷ cs
    → All IsByte salt
    → All IsByte key
    → derive_file_key p km salt ≡ ok derived
    → length derived ≡ 44
    → Holds p km (sealed_file salt (p.seal (take 32 derived) (drop 32 derived) key salt)) key
unfolding get_paseto_symmetric_key decrypt_with_aes_gcm
sealed-Holds p laws km c cs salt derived key e hs hk de l =
    let encrypted = p.seal (take 32 derived) (drop 32 derived) key salt in
    let he = laws.seal-IsByte (take 32 derived) (drop 32 derived) key salt hk in
    let fields = split-sealed_file salt encrypted hs he in
    let first = decode-encode_raw_url salt hs in
    let second = decode-encode_raw_url encrypted he in
    let accepts = laws.takes_key (take 32 derived) (length-take 32 derived (omega arith)) in
    let opened = laws.open-seal (take 32 derived) (drop 32 derived) key salt in
    record {
      occupied = not_empty _ (λ q. let r = ap (split is_colon) q in let d = split_empty in cc);
      read = λ fs r. ground arith;
    }

module _ (p : KeyCiphers) (laws : AreKeyCiphers p) (fs : FileSystem) (km : FileKeyManager) where
  -- What a manager with a password needs besides the key: a salt, a round and a thread.
  abbrev CanSeal : Type 0
  CanSeal =
      (salt : Bytes) × (fs.random_salt ≡ some salt)
      × All IsByte salt
      × (0 < km.argon2id_time)
      × (0 < km.argon2id_threads)

  -- The text for a new key, with or without a password.
  key_file_text-Holds :
      (key : Bytes)
      → fs.random_key ≡ some key
      → length key ≡ 32
      → All IsByte key
      → (km.password ≡ []) ⊎ CanSeal
      → (text : String) × (key_file_text p fs km ≡ ok text) × Holds p km text key
  unfolding key_file_text derive_file_key encrypt_with_aes_gcm
  key_file_text-Holds [] ek lk hk ready = ground arith
  key_file_text-Holds (b ∷ key) ek lk hk (inl e) =
      (encode_raw_url (b ∷ key), ground arith, plain-Holds p km b key e hk)
  key_file_text-Holds (b ∷ key) ek lk hk (inr (salt, es, hs, ht, hp)) =
      elim (List-cases km.password) [
        | inl e ↦ (encode_raw_url (b ∷ key), ground arith, plain-Holds p km b key e hk)
        | inr (c, cs, e) ↦
            let derived =
              p.argon2_id km.password salt km.argon2id_time km.argon2id_memory km.argon2id_threads
                44 in
            let l : length derived ≡ 44 = laws.argon2-length _ _ _ _ _ _ in
            let accepts = laws.takes_key (take 32 derived) (length-take 32 derived (omega arith)) in
            let de : derive_file_key p km salt ≡ ok derived = ground arith in
            (
              sealed_file salt (p.seal (take 32 derived) (drop 32 derived) (b ∷ key) salt),
              ground arith,
              sealed-Holds p laws km c cs salt derived (b ∷ key) e hs hk de l,
            )
      ]

  -- Where there is no key file, or an empty one, and the file can be written, a new manager writes a
  -- file from which this manager, and every later one with its password and its parameters, reads the
  -- 32 random bytes again; a later manager leaves the file as it is. The manager has no password, or
  -- it gets a random salt and its parameters ask for a round and a thread.
  pub get-new_file_key_manager :
      (key : Bytes) (file : File)
      → fs.random_key ≡ some key
      → length key ≡ 32
      → All IsByte key
      → (km.password ≡ []) ⊎ CanSeal
      → fs.stat_fails ≡ false
      → fs.write_error ≡ none
      → needs_key file ≡ true
      → (text : String) × (new_file_key_manager p fs km file ≡ (ok km, some text))
        × ((later : FileSystem)
            → later.read_fails ≡ false
            → get_paseto_symmetric_key p later km (some text) ≡ ok key)
        × ((later : FileSystem)
            → later.stat_fails ≡ false
            → new_file_key_manager p later km (some text) ≡ (ok km, some text))
  unfolding new_file_key_manager generate_and_save_key
  get-new_file_key_manager key file ek lk hk ready ok_stat ok_write empty =
      let (text, e, holds) = key_file_text-Holds key ek lk hk ready in
      let found = holds.occupied in (text, ground arith, holds.read, λ later l. ground arith)
