-- ===== src/Attributes.antt =====
-- internal/crypto/attribute_encryption.go: the encryption of a message's attributes, and HPKE. HKDF,
-- SHA-512, HMAC, Argon2id, AES-CTR and HPKE are the fields of `AttributeCiphers` and `HpkeSender`.
use Prim.Native.Char.{code}
use pkd_server_go.Prelude.{
  ℕ, zero, suc, ◌+◌, ◌-◌, ◌/◌, ◌%◌, ◌^◌, String, Bool, true, false, List, [], ◌∷◌, ◌++◌, Option,
  none, some, Result, ok, err, ◌>>=◌, ◌>>◌, or_fail, eqb, ltb, length, take, drop, if◌then◌else◌,
}
use pkd_server_go.Signing.{Bytes, bytes_eq}
pub mod Framing
pub mod Opening
pub mod Sealed
pub mod RoundTrip
pub mod Hpke

pub record AttributeCiphers : Type 0 where
  -- hkdf.New(sha512.New, ikm, nil, info) and io.ReadFull of so many bytes
  pub hkdf_sha512 : Bytes → Bytes → ℕ → Option Bytes
  pub sha512 : Bytes → Bytes
  -- hmac.New(sha512.New, key) over a text
  pub hmac_sha512 : Bytes → Bytes → Bytes
  -- argon2.IDKey: password, salt, time, memory, threads, length
  pub argon2_id : Bytes → Bytes → ℕ → ℕ → ℕ → ℕ → Bytes
  -- aes.NewCipher, cipher.NewCTR and XORKeyStream: key, nonce, text
  pub aes_ctr : Bytes → Bytes → Bytes → Option Bytes

pub data ProtocolVersion : Type 0 where
  version_one : ProtocolVersion

abbrev pub get_version_header : ProtocolVersion → Bytes
get_version_header version_one = 1 ∷ []

unfoldable pub get_protocol_version : ℕ → Option ProtocolVersion
get_protocol_version version = if eqb version 1 then some version_one else none

-- []byte(text) of a text of ASCII
unfoldable pub ascii : String → Bytes
ascii String.[] = []
ascii (String.◌∷◌ c s) = code c ∷ ascii s

abbrev pub encrypt_key_info : String
encrypt_key_info = "FediE2EE-v1-Compliance-Encryption-Key"

abbrev pub auth_key_info : String
auth_key_info = "FediE2EE-v1-Compliance-Message-Auth-Key"

abbrev pub commit_salt_info : String
commit_salt_info = "FediE2EE-v1-Compliance-KDF-Salt"

abbrev pub key_bytes : ℕ
key_bytes = 32

abbrev pub nonce_bytes : ℕ
nonce_bytes = 16

abbrev argon2_memory : ℕ
argon2_memory = 16384

abbrev argon2_time : ℕ
argon2_time = 3

abbrev argon2_threads : ℕ
argon2_threads = 1

abbrev argon2_salt_len : ℕ
argon2_salt_len = 16

abbrev pub argon2_key_len : ℕ
argon2_key_len = 32

abbrev pub version_len : ℕ
version_len = 1

abbrev pub random_len : ℕ
random_len = 32

abbrev pub commitment_len : ℕ
commitment_len = 32

abbrev pub tag_len : ℕ
tag_len = 32

-- binary.LittleEndian.PutUint64 is the case of eight bytes.
unfoldable pub little_endian : ℕ → ℕ → Bytes
little_endian zero v = []
little_endian (suc n) v = v % 256 ∷ little_endian n (v / 256)

unfoldable pub len_encode : Bytes → Bytes
len_encode bytes = little_endian 8 (length bytes % 2 ^ 64) ++ bytes

unfoldable pub build_info : String → Bytes → Bytes → Bytes → Bytes
build_info context version random name = ascii context ++ (version ++ (random ++ len_encode name))

-- what the commitment is over
unfoldable pub commitment_input : Bytes → Bytes → Bytes → Bytes
commitment_input name plaintext root = len_encode root ++ (len_encode name ++ len_encode plaintext)

unfoldable pub commit_plaintext : AttributeCiphers → Bytes → Bytes → Bytes → Bytes → Bytes
commit_plaintext p name plaintext root salt =
    p.argon2_id (commitment_input name plaintext root) salt argon2_time argon2_memory argon2_threads
      argon2_key_len

unfoldable pub commitment_salt : AttributeCiphers → Bytes → Bytes → Bytes → Bytes → Bytes
commitment_salt p h r name root =
    take argon2_salt_len
      (p.sha512 (ascii commit_salt_info ++ (h ++ (r ++ (len_encode root ++ len_encode name)))))

-- what the authentication tag is over
unfoldable pub tag_input : Bytes → Bytes → Bytes → Bytes → Bytes → Bytes
tag_input h r name c q = h ++ (r ++ (len_encode name ++ (len_encode c ++ len_encode q)))

-- the rightmost bytes of the MAC
unfoldable pub attribute_tag :
    AttributeCiphers → Bytes → Bytes → Bytes → Bytes → Bytes → Bytes → Bytes
attribute_tag p ak h r name c q =
    let full_tag = p.hmac_sha512 ak (tag_input h r name c q) in
    drop (length full_tag - tag_len) full_tag

unfoldable pub auth_key : AttributeCiphers → Bytes → Bytes → Bytes → Bytes → Option Bytes
auth_key p ikm h r name = p.hkdf_sha512 ikm (build_info auth_key_info h r name) key_bytes

-- The key of the encryption and its nonce, in one.
unfoldable pub encryption_key : AttributeCiphers → Bytes → Bytes → Bytes → Bytes → Option Bytes
encryption_key p ikm h r name =
    p.hkdf_sha512 ikm (build_info encrypt_key_info h r name) (key_bytes + nonce_bytes)

abbrev pub cipher_with : AttributeCiphers → Bytes → Bytes → Option Bytes
cipher_with p derived text = p.aes_ctr (take key_bytes derived) (drop key_bytes derived) text

pub data EncryptError : Type 0 where
  random_failed encryption_key_failed auth_key_failed cipher_failed : EncryptError

abbrev pub sealed : Bytes → Bytes → Bytes → Bytes → Bytes → Bytes
sealed h r q t c = h ++ (r ++ (q ++ (t ++ c)))

-- EncryptAttribute; `random` is what rand.Reader gives.
unfoldable pub encrypt_attribute :
    AttributeCiphers → Option Bytes → Bytes → Bytes → Bytes → Bytes → Result EncryptError Bytes
encrypt_attribute p random name plaintext ikm root = do
  let h = get_version_header version_one
  r ← or_fail random_failed random
  derived ← or_fail encryption_key_failed (encryption_key p ikm h r name)
  ak ← or_fail auth_key_failed (auth_key p ikm h r name)
  let q = commit_plaintext p name plaintext root (commitment_salt p h r name root)
  c ← or_fail cipher_failed (cipher_with p derived plaintext)
  ok (sealed h r q (attribute_tag p ak h r name c q) c)

-- ErrDecryptionFailed, with the text that is wrapped into it.
pub data DecryptError : Type 0 where
  too_short unknown_version invalid_tag commitment_mismatch : DecryptError
  auth_key_failed encryption_key_failed cipher_failed : DecryptError

pub record Parts : Type 0 where
  pub h : Bytes
  pub r : Bytes
  pub q : Bytes
  pub t : Bytes
  pub c : Bytes

-- The slices of a ciphertext that is long enough.
unfoldable pub parts : Bytes → Parts
parts bytes =
    let after_h = drop version_len bytes in
    let after_r = drop random_len after_h in
    let after_q = drop commitment_len after_r in
    record {
      h = take version_len bytes;
      r = take random_len after_h;
      q = take commitment_len after_r;
      t = take tag_len after_q;
      c = drop tag_len after_q;
    }

-- h[0]
abbrev pub version_of : Bytes → Option ProtocolVersion
version_of [] = none
version_of (b ∷ bs) = get_protocol_version b

abbrev pub check : Bool → DecryptError → Result DecryptError (Unit {0})
check b e = if b then ok tt else err e

abbrev pub prefix_len : ℕ
prefix_len = version_len + random_len + commitment_len + tag_len

-- DecryptAttribute; subtle.ConstantTimeCompare is the equality of two lists.
unfoldable pub decrypt_attribute :
    AttributeCiphers → Bytes → Bytes → Bytes → Bytes → Result DecryptError Bytes
decrypt_attribute p name ciphertext ikm root = do
  check (if ltb (length ciphertext) prefix_len then false else true) too_short
  let s = parts ciphertext
  version ← or_fail unknown_version (version_of s.h)
  ak ← or_fail DecryptError.auth_key_failed (auth_key p ikm s.h s.r name)
  check (bytes_eq s.t (attribute_tag p ak s.h s.r name s.c s.q)) invalid_tag
  derived ← or_fail DecryptError.encryption_key_failed (encryption_key p ikm s.h s.r name)
  plaintext ← or_fail DecryptError.cipher_failed (cipher_with p derived s.c)
  check
      (bytes_eq s.q (commit_plaintext p name plaintext root (commitment_salt p s.h s.r name root)))
      commitment_mismatch
  ok plaintext

-- hpke.Suite on the sender's side, with the randomness of one call
pub record HpkeSender : Type 0 where
  -- suite.NewSender: whether it gives a sender
  pub new_sender : Bytes → Bool
  -- sender.Setup: the encapsulated key
  pub setup : Bytes → Option Bytes
  -- sealer.Seal: encapsulated key, plaintext
  pub seal : Bytes → Bytes → Option Bytes

pub data HpkeError : Type 0 where
  sender_failed setup_failed seal_failed : HpkeError

-- EncryptWithHPKE: the server's public key, the plaintext.
unfoldable pub encrypt_with_hpke : HpkeSender → Bytes → Bytes → Result HpkeError Bytes
encrypt_with_hpke s public_key plaintext = do
  (if s.new_sender public_key then ok tt else err sender_failed)
  enc ← or_fail setup_failed (s.setup public_key)
  ciphertext ← or_fail seal_failed (s.seal enc plaintext)
  ok (enc ++ ciphertext)
