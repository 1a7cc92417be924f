-- ===== src/Auth/KeyFile.antt =====
-- internal/auth/key_manager.go and encryption.go: the file that holds the key of the tokens. A file
-- is a text whose characters are its bytes, and none where there is no file.
use Prim.Native.String.{◌++◌ as text_append}
use pkd_server_go.Prelude.{
  ℕ, String, Bool, ◌||◌, List, [], ◌∷◌, Option, none, some, Result, ok, err, ◌>>=◌, or_fail, eqb,
  ◌==◌, take, drop, if◌then◌else◌,
}
use pkd_server_go.Encoding.{encode_raw_url, decode_raw_url}
use pkd_server_go.Signing.{Bytes}
use pkd_server_go.Text.{split}

-- golang.org/x/crypto/argon2, crypto/aes and crypto/cipher
pub record KeyCiphers : Type 0 where
  -- argon2.IDKey, where it does not panic: password, salt, time, memory, threads, length
  pub argon2_id : Bytes → Bytes → ℕ → ℕ → ℕ → ℕ → Bytes
  -- aes.NewCipher and cipher.NewGCM: whether they accept the key
  pub new_gcm : Bytes → Bool
  -- Seal: key, nonce, plaintext, additional data
  pub seal : Bytes → Bytes → Bytes → Bytes → Bytes
  -- Open: key, nonce, ciphertext, additional data
  pub open_sealed : Bytes → Bytes → Bytes → Bytes → Option Bytes

-- encryptWithAESGCM and decryptWithAESGCM, in the order of their arguments
unfoldable pub encrypt_with_aes_gcm : KeyCiphers → Bytes → Bytes → Bytes → Bytes → Option Bytes
encrypt_with_aes_gcm p plaintext key nonce additional =
    if p.new_gcm key then some (p.seal key nonce plaintext additional) else none

unfoldable pub decrypt_with_aes_gcm : KeyCiphers → Bytes → Bytes → Bytes → Bytes → Option Bytes
decrypt_with_aes_gcm p ciphertext key nonce additional =
    if p.new_gcm key then p.open_sealed key nonce ciphertext additional else none

-- `password` is the bytes of the configured text.
pub record FileKeyManager : Type 0 where
  pub password : Bytes
  pub argon2id_time : ℕ
  pub argon2id_memory : ℕ
  pub argon2id_threads : ℕ

-- What the file system and crypto/rand answer to one call.
pub record FileSystem : Type 0 where
  -- an error of os.Stat that is not os.IsNotExist
  pub stat_fails : Bool
  pub read_fails : Bool
  -- an error of os.WriteFile, with what it leaves of the file
  pub write_error : Option (Option String)
  pub random_key : Option Bytes
  pub random_salt : Option Bytes

abbrev pub File : Type 0
File = Option String

pub data KeyFileError : Type 0 where
  stat_failed read_failed write_failed random_failed : KeyFileError
  invalid_format bad_base64 cipher_failed : KeyFileError
  -- argon2.IDKey panics without rounds or without threads
  argon2_panics : KeyFileError

-- The key and the nonce, in one: 44 bytes.
unfoldable pub derive_file_key : KeyCiphers → FileKeyManager → Bytes → Result KeyFileError Bytes
derive_file_key p km salt =
    if eqb km.argon2id_time 0 || eqb km.argon2id_threads 0
    then err argon2_panics
    else ok
        (p.argon2_id km.password salt km.argon2id_time km.argon2id_memory km.argon2id_threads 44)

abbrev write_file : FileSystem → String → File → Result KeyFileError (Unit {0}) × File
write_file fs text file = elim fs.write_error [
  | none ↦ (ok tt, some text)
  | some left ↦ (err write_failed, left)
]

abbrev pub sealed_file : Bytes → Bytes → String
sealed_file salt encrypted =
    text_append (encode_raw_url salt) (text_append ":" (encode_raw_url encrypted))

-- The text that generateAndSaveKey writes.
unfoldable pub key_file_text : KeyCiphers → FileSystem → FileKeyManager → Result KeyFileError String
key_file_text p fs km = do
  key ← or_fail random_failed fs.random_key
  elim km.password [
    | [] ↦ ok (encode_raw_url key)
    | c ∷ cs ↦ do
      salt ← or_fail random_failed fs.random_salt
      derived ← derive_file_key p km salt
      encrypted ←
          or_fail cipher_failed
            (encrypt_with_aes_gcm p key (take 32 derived) (drop 32 derived) salt)
      ok (sealed_file salt encrypted)
  ]

abbrev saved :
    FileSystem → Result KeyFileError String → File → Result KeyFileError (Unit {0}) × File
saved fs (ok text) file = write_file fs text file
saved fs (err e) file = (err e, file)

unfoldable pub generate_and_save_key :
    KeyCiphers → FileSystem → FileKeyManager → File → Result KeyFileError (Unit {0}) × File
generate_and_save_key p fs km file = saved fs (key_file_text p fs km) file

-- os.IsNotExist(err) || info.Size() == 0
abbrev pub needs_key : File → Bool
needs_key none = Bool.true
needs_key (some text) = text == ""

abbrev managed :
    FileKeyManager
    → Result KeyFileError (Unit {0}) × File
    → Result KeyFileError FileKeyManager × File
managed km (ok u, file) = (ok km, file)
managed km (err e, file) = (err e, file)

-- NewFileKeyManager; `file` is what is at the path.
unfoldable pub new_file_key_manager :
    KeyCiphers → FileSystem → FileKeyManager → File → Result KeyFileError FileKeyManager × File
new_file_key_manager p fs km file =
    if fs.stat_fails
    then (err stat_failed, file)
    else if needs_key file
    then managed km (generate_and_save_key p fs km file)
    else (ok km, file)

abbrev read_file : FileSystem → File → Result KeyFileError String
read_file fs none = err read_failed
read_file fs (some text) = if fs.read_fails then err read_failed else ok text

-- the separator
abbrev pub is_colon : ℕ → Bool
is_colon c = eqb c 58

-- the two parts of bytes.Split(data, ":")
abbrev pub two_parts : List String → Result KeyFileError (String × String)
two_parts (salt ∷ encrypted ∷ []) = ok (salt, encrypted)
two_parts _ = err invalid_format

unfoldable pub get_paseto_symmetric_key :
    KeyCiphers → FileSystem → FileKeyManager → File → Result KeyFileError Bytes
get_paseto_symmetric_key p fs km file = do
  text ← read_file fs file
  elim km.password [
    | [] ↦ or_fail bad_base64 (decode_raw_url text)
    | c ∷ cs ↦ do
      (salt_text, encrypted_text) ← two_parts (split is_colon text)
      salt ← or_fail bad_base64 (decode_raw_url salt_text)
      encrypted ← or_fail bad_base64 (decode_raw_url encrypted_text)
      derived ← derive_file_key p km salt
      or_fail cipher_failed
          (decrypt_with_aes_gcm p encrypted (take 32 derived) (drop 32 derived) salt)
  ]
