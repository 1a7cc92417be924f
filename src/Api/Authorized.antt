-- ===== src/Api/Authorized.antt =====
-- Who is let through to the administration of internal/api.
use pkd_server_go.Prelude.{
  ℕ, String, ◌≡◌, refl, sym, ◌∙◌, subst, ◌⊎◌, true, false, some, ok, arith, inl, inr, Option-cases,
  Result-cases, Bool-cases, ◌==◌,
}
use pkd_server_go.Json.{Fields, member}
use pkd_server_go.Auth.KeyFile.{
  FileKeyManager, File, new_file_key_manager, needs_key, KeyCiphers, FileSystem,
  generate_and_save_key,
}
use pkd_server_go.Checkpoint.{Sender}
use pkd_server_go.Api.Handler.{Server, World, Problem, go, stop}
use pkd_server_go.Api.Dispatch.{First}
use pkd_server_go.Api.AuthMiddleware.{
  TokenServer, bearer_token, requested, validated, claims_of, is_admin, auth_middleware,
}
use pkd_server_go.Api.AdminTokens.{Authorizes, validated-Authorizes}
use pkd_server_go.Api.Routes.{Outcome-cases}
use pkd_server_go.Api.Admin.{AdminRoute, serve_admin}

-- A manager of the request's password, or the configured one, and a token that it authorizes.
pub record Admits (s : TokenServer) (header : String → String) (file : File) : Type 0 where
  pub token : String
  pub is_bearer : bearer_token (header "Authorization") ≡ some token
  pub km : FileKeyManager
  pub km_is : (km ≡ s.configured) ⊎ (km ≡ requested s (header "X-PKD-Key-Password"))
  pub authorizes : Authorizes s km file token

pub manager_is :
    (p : KeyCiphers) (fs : FileSystem) (asked : FileKeyManager) (file : File) (km : FileKeyManager)
    → (new_file_key_manager p fs asked file).0 ≡ ok km
    → km ≡ asked
unfolding new_file_key_manager
manager_is p fs asked file km e = elim (Result-cases (generate_and_save_key p fs asked file).0) [
  | inl (u, ue) ↦ ground arith
  | inr (x, xe) ↦ ground arith
]

module _ (s : TokenServer) (header : String → String) where
  claims_of-file :
      (password token : String) (file : File)
      → needs_key file ≡ false
      → (claims_of s password token file).1 ≡ file
  unfolding claims_of new_file_key_manager
  claims_of-file password token file old = ground arith

  auth_middleware-file :
      (file : File) → needs_key file ≡ false → (auth_middleware s header file).1 ≡ file
  unfolding auth_middleware
  auth_middleware-file file old = elim (Option-cases (bearer_token (header "Authorization"))) [
    | inl n ↦ ground arith
    | inr (token, te) ↦
        let same = claims_of-file (header "X-PKD-Key-Password") token file old in ground arith
  ]

  claims_of-Authorizes :
      (password token : String) (file file' : File) (claims : Fields)
      → claims_of s password token file ≡ (go claims, file')
      → is_admin (member "pkd-admin" claims) ≡ true
      → (km : FileKeyManager) × ((km ≡ s.configured) ⊎ (km ≡ requested s password))
        × Authorizes s km file' token
  unfolding claims_of
  claims_of-Authorizes password token file file' claims e admin =
      elim (Bool-cases (password == "")) [
        | inl absent ↦
            let same : file ≡ file' = ground arith in
            let v : validated s s.configured file token ≡ go claims = ground arith in
            (
              s.configured,
              inl refl,
              subst (λ f. Authorizes s s.configured f token) same
                  (validated-Authorizes s s.configured file token claims v admin),
            )
        | inr given ↦
            let made = new_file_key_manager s.ciphers s.files (requested s password) file in
            elim (Result-cases made.0) [
              | inr (x, xe) ↦ ground arith
              | inl (km, ke) ↦
                  let is = manager_is s.ciphers s.files (requested s password) file km ke in
                  let same : made.1 ≡ file' = ground arith in
                  let v : validated s km made.1 token ≡ go claims = ground arith in
                  (
                    km,
                    inr is,
                    subst (λ f. Authorizes s km f token) same
                        (validated-Authorizes s km made.1 token claims v admin),
                  )
            ]
      ]

  auth_middleware-Admits :
      (file file' : File) (claims : Fields)
      → auth_middleware s header file ≡ (go claims, file')
      → Admits s header file'
  unfolding auth_middleware
  auth_middleware-Admits file file' claims e =
      elim (Option-cases (bearer_token (header "Authorization"))) [
        | inl n ↦ ground arith
        | inr (token, te) ↦
            let c = claims_of s (header "X-PKD-Key-Password") token file in
            elim (Outcome-cases c.0) [
              | inr (p, pe) ↦ ground arith
              | inl (given, ge) ↦
                  let admin : is_admin (member "pkd-admin" given) ≡ true = ground arith in
                  let whole : c ≡ (go given, file') = ground arith in
                  let (km, km_is, a) =
                    claims_of-Authorizes (header "X-PKD-Key-Password") token file file' given whole
                      admin in
                  record { token = token; is_bearer = te; km = km; km_is = km_is; authorizes = a }
            ]
      ]

  -- A request for an administration's route either gets an error of the middleware and reaches no
  -- handler, so that database, log and cache are as before, or its Authorization header has a bearer
  -- token that decrypts, under the key of the key file, to an access token of the administration
  -- whose time has not ended; the file is read with the configured password or with that of the
  -- request's header. No request changes a key file that is there and not empty.
  pub serve_admin-Admits :
      (srv : Server) (sender : Sender) (nanos : ℕ) (route : AdminRoute) (first : First) (w : World)
      (file : File)
      → let r = serve_admin srv sender s nanos route header first w file in
        (((p : Problem) × (r.0 ≡ stop p) × (r.1 ≡ w)) ⊎ Admits s header r.2)
        × (needs_key file ≡ false → r.2 ≡ file)
  unfolding serve_admin
  serve_admin-Admits srv sender nanos route first w file =
      let m = auth_middleware s header file in
      let kept = auth_middleware-file file in
      elim (Outcome-cases m.0) [
        | inr (p, pe) ↦ (inl (p, ground arith, ground arith), λ old. ground (arith, kept old))
        | inl (claims, ce) ↦
            let a = auth_middleware-Admits file m.1 claims (ground arith) in
            let same : (serve_admin srv sender s nanos route header first w file).2 ≡ m.1 =
              ground arith in
            (inr (subst (λ f. Admits s header f) (sym same) a), λ old. same ∙ kept old)
      ]
