-- ===== src/Auth/KeyFileFormat.antt =====
-- A key file of cmd/keygen.go in the place of the one of internal/auth/key_manager.go.
use pkd_server_go.Prelude.{
  String, ◌≡◌, List, [], ◌∷◌, some, none, ok, arith, Option-cases, List-cases, inl, inr,
}
use pkd_server_go.Encoding.{decode_digit, digits_of, decode_raw_url}
use pkd_server_go.Signing.{Bytes}
use pkd_server_go.Text.{split}
use pkd_server_go.Auth.KeyFile.{
  KeyCiphers, FileKeyManager, FileSystem, is_colon, get_paseto_symmetric_key,
}

abbrev braced : String → String
braced s = String.◌∷◌ "{" s

decode-braced : (s : String) → decode_raw_url (braced s) ≡ none
unfolding decode_raw_url digits_of decode_digit
decode-braced s = elim (Option-cases (digits_of s)) [
  | inl e ↦ ground arith
  | inr (ds, e) ↦ ground arith
]

split-braced :
    (s : String)
    → (first : String) × (rest : List String) × (split is_colon (braced s) ≡ braced first ∷ rest)
unfolding split
split-braced s = elim (List-cases (split is_colon s)) [
  | inl e ↦ ("", [], ground arith)
  | inr (x, xs, e) ↦ (x, xs, ground arith)
]

-- From a file that starts with a brace, as the JSON of keygen does, no manager reads a key, whatever
-- its password.
pub get_paseto_symmetric_key-braced :
    (p : KeyCiphers) (fs : FileSystem) (km : FileKeyManager) (s : String) (key : Bytes)
    → (get_paseto_symmetric_key p fs km (some (braced s)) ≡ ok key → ⊥)
unfolding get_paseto_symmetric_key
get_paseto_symmetric_key-braced p fs km s key h =
    let plain = decode-braced s in
    let (first, rest, e) = split-braced s in
    let bad = decode-braced first in
    elim (List-cases km.password) [
      | inl q ↦ ground arith
      | inr (c, cs, q) ↦ elim (List-cases rest) [
        | inl r ↦ ground arith
        | inr (x, xs, r) ↦ elim (List-cases xs) [
          | inl v ↦ ground arith
          | inr (y, ys, v) ↦ ground arith
        ]
      ]
    ]
