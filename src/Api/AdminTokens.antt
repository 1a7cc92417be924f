-- ===== src/Api/AdminTokens.antt =====
-- What a token is that the middleware of internal/api takes for one of the administration.
use pkd_server_go.Prelude.{
  ℕ, ◌≤◌, String, ◌≡◌, ap, ◌∙◌, true, Option, some, ok, arith, inl, inr, Option-cases, Result-cases,
  eq_iff,
}
use pkd_server_go.Json.{Json, Fields, member}
use pkd_server_go.Signing.{Bytes}
use pkd_server_go.Protocol.Unmarshal.{as_map}
use pkd_server_go.Auth.KeyFile.{FileKeyManager, File, get_paseto_symmetric_key}
use pkd_server_go.Auth.Tokens.{string_claim, validate_token, validate_access_token}
use pkd_server_go.Api.Handler.{go}
use pkd_server_go.Api.AuthMiddleware.{TokenServer, token_service, validated, is_admin}

-- A token that decrypts under the key of a key file, as an access token of the administration whose
-- time has not ended.
pub record Authorizes (s : TokenServer) (km : FileKeyManager) (file : File) (token : String)
    : Type 0 where
  pub seed : Bytes
  pub seed_is : get_paseto_symmetric_key s.ciphers s.files km file ≡ ok seed
  pub key : Bytes
  pub key_is : s.paseto.local_key seed ≡ some key
  pub payload : Option Json
  pub decrypted : s.paseto.decrypt key token ≡ some payload
  pub claims : Fields
  pub claims_are : as_map payload ≡ some claims
  pub exp_text : String
  pub exp_is : string_claim "exp" claims ≡ some exp_text
  pub exp : ℕ
  pub exp_parsed : s.paseto.parse_time exp_text ≡ some exp
  pub in_time : s.now ≤ exp
  pub is_access : string_claim "token-type" claims ≡ some "access"
  pub of_admin : is_admin (member "pkd-admin" claims) ≡ true

module _ (s : TokenServer) (km : FileKeyManager) (file : File) (token : String) where
  validate-Authorizes :
      (claims : Fields)
      → validate_access_token (token_service s km file) s.now token ≡ ok claims
      → is_admin (member "pkd-admin" claims) ≡ true
      → Authorizes s km file token
  unfolding validate_access_token validate_token token_service
  validate-Authorizes claims e admin =
      elim (Result-cases (get_paseto_symmetric_key s.ciphers s.files km file)) [
        | inr (x, xe) ↦ ground arith
        | inl (seed, se) ↦ elim (Option-cases (s.paseto.local_key seed)) [
          | inl n ↦ ground arith
          | inr (key, ke) ↦ elim (Option-cases (s.paseto.decrypt key token)) [
            | inl n ↦ ground arith
            | inr (payload, pe) ↦ elim (Option-cases (as_map payload)) [
              | inl n ↦ ground arith
              | inr (claims', ce) ↦ elim (Option-cases (string_claim "exp" claims')) [
                | inl n ↦ ground arith
                | inr (text, te) ↦ elim (Option-cases (s.paseto.parse_time text)) [
                  | inl n ↦ ground arith
                  | inr (exp, ee) ↦ elim (Option-cases (string_claim "token-type" claims')) [
                    | inl n ↦ ground arith
                    | inr (kind, de) ↦
                        let same : claims' ≡ claims = ground arith in
                        let is : kind ≡ "access" = ground (arith, eq_iff kind "access") in
                        record {
                          seed = seed;
                          seed_is = se;
                          key = key;
                          key_is = ke;
                          payload = payload;
                          decrypted = pe;
                          claims = claims';
                          claims_are = ce;
                          exp_text = text;
                          exp_is = te;
                          exp = exp;
                          exp_parsed = ee;
                          in_time = ground arith;
                          is_access = de ∙ ap some is;
                          of_admin = ap (λ c. is_admin (member "pkd-admin" c)) same ∙ admin;
                        }
                  ]
                ]
              ]
            ]
          ]
        ]
      ]

  pub validated-Authorizes :
      (claims : Fields)
      → validated s km file token ≡ go claims
      → is_admin (member "pkd-admin" claims) ≡ true
      → Authorizes s km file token
  validated-Authorizes claims e admin =
      elim (Result-cases (validate_access_token (token_service s km file) s.now token)) [
        | inr (x, xe) ↦ ground arith
        | inl (c, ce) ↦
            let same : c ≡ claims = ground arith in
            validate-Authorizes claims (ce ∙ ap ok same) admin
      ]
