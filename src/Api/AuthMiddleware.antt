-- ===== src/Api/AuthMiddleware.antt =====
-- authMiddleware of internal/api/auth_middleware.go, with the key manager and the token service that
-- NewRouter of internal/api/server.go makes.
use pkd_server_go.Prelude.{
  ℕ, String, Bool, false, [], ◌∷◌, Option, none, some, Result, ok, err, eqb, ◌==◌, if◌then◌else◌,
}
use pkd_server_go.Json.{Json, Fields, boolean, member}
use pkd_server_go.Signing.{Bytes}
use pkd_server_go.Text.{split, to_lower}
use pkd_server_go.Auth.KeyFile.{
  KeyCiphers, FileKeyManager, FileSystem, File, KeyFileError, new_file_key_manager,
  get_paseto_symmetric_key,
}
use pkd_server_go.Auth.Tokens.{Paseto, TokenService, validate_access_token}
use pkd_server_go.Api.Handler.{
  Outcome, go, stop, problem, problem_of, of_token, of_key_file, unauthorized, forbidden,
  internal_error,
}

-- What the server has for tokens, with the answers of one request.
pub record TokenServer : Type 0 where
  pub ciphers : KeyCiphers
  pub files : FileSystem
  pub paseto : Paseto
  -- `Config.Server.Host`
  pub host : String
  -- `Config.Server.KeyFile`, with the password's bytes
  pub configured : FileKeyManager
  -- the table of used tokens: no request of the administration asks for it
  pub select_fails : Bool
  pub insert_fails : Bool
  pub unique_jti : Bool
  -- []byte(text)
  pub utf8 : String → Bytes
  pub now : ℕ

abbrev of_result : Result KeyFileError Bytes → Option Bytes
of_result (ok key) = some key
of_result (err e) = none

-- auth.NewPasetoTokenService, over the key that the manager reads in each call
unfoldable pub token_service : TokenServer → FileKeyManager → File → TokenService
token_service s km file = record {
  paseto = s.paseto;
  symmetric_key = of_result (get_paseto_symmetric_key s.ciphers s.files km file);
  host = s.host;
  select_fails = s.select_fails;
  insert_fails = s.insert_fails;
  unique_jti = s.unique_jti;
}

abbrev is_bearer : String → Bool
is_bearer scheme = to_lower scheme == "bearer"

-- the token of `Bearer <token>`
unfoldable pub bearer_token : String → Option String
bearer_token header = elim (split (λ c. eqb c 32) header) [
  | [] ↦ none
  | scheme ∷ rest ↦ elim rest [
    | [] ↦ none
    | token ∷ more ↦ elim more [
      | [] ↦ if is_bearer scheme then some token else none
      | x ∷ xs ↦ none
    ]
  ]
]

-- The manager for a password of the request.
abbrev pub requested : TokenServer → String → FileKeyManager
requested s password = record s.configured { password = s.utf8 password }

abbrev pub validated : TokenServer → FileKeyManager → File → String → Outcome Fields
validated s km file token = elim (validate_access_token (token_service s km file) s.now token) [
  | ok claims ↦ go claims
  | err e ↦ stop (problem_of unauthorized "Invalid access token: " (of_token e))
]

abbrev with_manager :
    TokenServer → String → Result KeyFileError FileKeyManager × File → Outcome Fields × File
with_manager s token (err e, file) =
    (stop (problem_of internal_error "Failed to create key manager: " (of_key_file e)), file)
with_manager s token (ok km, file) = (validated s km file token, file)

-- the claims, by the password of the request or by the configured one
unfoldable pub claims_of : TokenServer → String → String → File → Outcome Fields × File
claims_of s password token file =
    if password == ""
    then (validated s s.configured file token, file)
    else with_manager s token (new_file_key_manager s.ciphers s.files (requested s password) file)

-- claims["pkd-admin"].(bool)
abbrev pub is_admin : Option Json → Bool
is_admin (some (boolean b)) = b
is_admin _ = false

abbrev admitted : Outcome Fields × File → Outcome Fields × File
admitted (stop p, file) = (stop p, file)
admitted (go claims, file) = (
  if is_admin (member "pkd-admin" claims)
      then go claims
      else stop (problem forbidden "Not an admin token"),
  file,
)

-- `header` is r.Header.Get. The claims go to the next handler; a missing key file may be written.
unfoldable pub auth_middleware : TokenServer → (String → String) → File → Outcome Fields × File
auth_middleware s header file =
    if header "Authorization" == ""
    then (stop (problem unauthorized "Missing Authorization header"), file)
    else elim (bearer_token (header "Authorization")) [
      | none ↦ (stop (problem unauthorized "Invalid Authorization header format"), file)
      | some token ↦ admitted (claims_of s (header "X-PKD-Key-Password") token file)
    ]
