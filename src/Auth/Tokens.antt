-- ===== src/Auth/Tokens.antt =====
-- internal/auth/token_service.go. A time is a number of nanoseconds. A payload is the JSON value that it
-- holds.
use pkd_server_go.Prelude.{
  ℕ, ◌+◌, ◌*◌, String, Bool, true, false, ◌&&◌, List, ◌∷◌, Option, none, some, Result, ok, err,
  ◌>>=◌, ◌>>◌, or_fail, ltb, ◌==◌, any, if◌then◌else◌,
}
use pkd_server_go.Json.{Json, Fields, boolean, str, obj, field, end, member}
use pkd_server_go.Protocol.Unmarshal.{as_map}
use pkd_server_go.Signing.{Bytes}

-- zntr.io/paseto/v4 and the formats of the package time
pub record Paseto : Type 0 where
  -- v4.LocalKeyFromSeed
  pub local_key : Bytes → Option Bytes
  -- v4.Encrypt: key, random bytes, payload
  pub encrypt : Bytes → Bytes → Json → Option String
  -- v4.Decrypt: key, token; the payload is `none` where it is no JSON
  pub decrypt : Bytes → String → Option (Option Json)
  -- Format and Parse with time.RFC3339
  pub format_time : ℕ → String
  pub parse_time : String → Option ℕ

-- pasetoTokenService, with the answers of the key manager and of the database's two statements.
pub record TokenService : Type 0 where
  pub paseto : Paseto
  pub symmetric_key : Option Bytes
  pub host : String
  pub select_fails : Bool
  pub insert_fails : Bool
  -- whether the table of used tokens holds a token's name once
  pub unique_jti : Bool

-- What time.Now, uuid.NewRandom and rand.Reader give to the making of one token.
pub record Moment : Type 0 where
  pub now : ℕ
  pub uuid : Option String
  pub random : Bytes

pub data TokenError : Type 0 where
  no_key bad_key no_uuid encrypt_failed : TokenError
  decrypt_failed not_json missing_exp invalid_exp expired invalid_type : TokenError
  missing_jti select_failed already_used insert_failed : TokenError

abbrev pub second : ℕ
second = 1_000_000_000

abbrev pub access_ttl : ℕ
access_ttl = 15 * 60 * second

abbrev pub refresh_ttl : ℕ
refresh_ttl = 12 * 3600 * second

abbrev local : TokenService → Result TokenError Bytes
local s = do seed ← or_fail no_key s.symmetric_key; or_fail bad_key (s.paseto.local_key seed)

-- The claims of newToken.
abbrev standard_claims : TokenService → Moment → String → ℕ → Fields
standard_claims s m jti ttl = field "iss" (str s.host) (
    field "jti" (str jti) (
      field "iat" (str (s.paseto.format_time m.now)) (
        field "exp" (str (s.paseto.format_time (m.now + ttl)))
          (field "nbf" (str (s.paseto.format_time m.now)) end))))

-- The assignments to a map: later entries go over earlier ones, as `member` reads them.
abbrev with_entries : Fields → Fields → Fields
with_entries end entries = entries
with_entries (field k v rest) entries = field k v (with_entries rest entries)

abbrev pub token_claims : TokenService → Moment → String → ℕ → Fields → Fields
token_claims s m jti ttl claims = with_entries claims (standard_claims s m jti ttl)

unfoldable pub new_token : TokenService → Moment → Fields → ℕ → Result TokenError String
new_token s m claims ttl = do
  key ← local s
  jti ← or_fail no_uuid m.uuid
  or_fail encrypt_failed (s.paseto.encrypt key m.random (obj (token_claims s m jti ttl claims)))

abbrev pub access_claims : Fields
access_claims = field "pkd-admin" (boolean true) (field "token-type" (str "access") end)

abbrev pub refresh_claims : Fields
refresh_claims = field "token-type" (str "refresh") end

unfoldable pub new_access_token : TokenService → Moment → Result TokenError String
new_access_token s m = new_token s m access_claims access_ttl

unfoldable pub new_refresh_token : TokenService → Moment → Result TokenError String
new_refresh_token s m = new_token s m refresh_claims refresh_ttl

unfoldable pub new_pair : TokenService → Moment → Moment → Result TokenError (String × String)
new_pair s first next = do
  access ← new_access_token s first
  refresh ← new_refresh_token s next
  ok (access, refresh)

-- claims[name].(string)
abbrev pub string_of : Option Json → Option String
string_of (some (str s)) = some s
string_of _ = none

abbrev pub string_claim : String → Fields → Option String
string_claim name claims = string_of (member name claims)

abbrev check : Bool → TokenError → Result TokenError (Unit {0})
check b e = if b then ok tt else err e

abbrev is_text : String → Option String → Bool
is_text t none = false
is_text t (some s) = s == t

-- validateToken at a time
unfoldable pub validate_token : TokenService → ℕ → String → String → Result TokenError Fields
validate_token s now token token_type = do
  key ← local s
  payload ← or_fail decrypt_failed (s.paseto.decrypt key token)
  claims ← or_fail not_json (as_map payload)
  exp_text ← or_fail missing_exp (string_claim "exp" claims)
  exp ← or_fail invalid_exp (s.paseto.parse_time exp_text)
  (if ltb exp now then err expired else ok tt)
  check (is_text token_type (string_claim "token-type" claims)) invalid_type
  ok claims

unfoldable pub validate_access_token : TokenService → ℕ → String → Result TokenError Fields
validate_access_token s now token = validate_token s now token "access"

-- The names of the used refresh tokens: the table used_refresh_tokens.
abbrev pub Used : Type 0
Used = List String

abbrev pub is_used : String → Used → Bool
is_used jti used = any (λ u. u == jti) used

unfoldable pub validate_refresh_token : TokenService → ℕ → Used → String → Result TokenError Fields
validate_refresh_token s now used token = do
  claims ← validate_token s now token "refresh"
  jti ← or_fail missing_jti (string_claim "jti" claims)
  check (if s.select_fails then false else true) select_failed
  check (if is_used jti used then false else true) already_used
  ok claims

-- The INSERT of Refresh.
unfoldable pub mark_used : TokenService → String → Used → Result TokenError Used
mark_used s jti used =
    if s.insert_fails
    then err insert_failed
    else if s.unique_jti && is_used jti used
    then err insert_failed
    else ok (jti ∷ used)

-- What Refresh reads before it writes: the name of a valid token that is not used.
unfoldable pub ask : TokenService → ℕ → String → Used → Result TokenError String
ask s now token used = do
  claims ← validate_refresh_token s now used token
  or_fail missing_jti (string_claim "jti" claims)

abbrev pair_after :
    TokenService
    → Moment
    → Moment
    → Used
    → Result TokenError Used
    → Result TokenError (String × String) × Used
pair_after s first next used (err e) = (err e, used)
pair_after s first next used (ok used') = (new_pair s first next, used')

abbrev marked :
    TokenService
    → Moment
    → Moment
    → Used
    → Result TokenError String
    → Result TokenError (String × String) × Used
marked s first next used (err e) = (err e, used)
marked s first next used (ok jti) = pair_after s first next used (mark_used s jti used)

-- Refresh: the token is marked before the new pair is made.
unfoldable pub refresh :
    TokenService → ℕ → Moment → Moment → String → Used → Result TokenError (String × String) × Used
refresh s now first next token used = marked s first next used (ask s now token used)
