-- ===== src/Commands/Minted.antt =====
-- The tokens of cmd/token.go before the middleware of internal/api.
use pkd_server_go.Prelude.{
  ℕ, String, ◌≡◌, refl, sym, ap, ◌∙◌, true, false, Option, none, some, Result, ok, err, arith, ltb,
  ◌==◌, eq_iff, if◌then◌else◌, Result-cases, Option-cases, Bool-cases, inl, inr,
}
use pkd_server_go.Json.{Fields, boolean, member}
use pkd_server_go.Signing.{Bytes}
use pkd_server_go.Config.{Config}
use pkd_server_go.Text.{split}
use pkd_server_go.Auth.KeyFile.{
  FileKeyManager, FileSystem, File, needs_key, new_file_key_manager, get_paseto_symmetric_key,
  KeyCiphers,
}
use pkd_server_go.Auth.Tokens.{
  Paseto, TokenService, Moment, TokenError, access_ttl, new_pair, new_access_token, new_token,
  validate_token, validate_access_token, expired,
}
use pkd_server_go.Auth.Lifetime.{AreTokens, end_of, new_pair-validity}
use pkd_server_go.Api.Handler.{
  Outcome, problem, problem_of, unauthorized, forbidden, go, stop, of_token,
}
use pkd_server_go.Api.AuthMiddleware.{
  TokenServer, token_service, bearer_token, requested, claims_of, is_admin, auth_middleware,
}
use pkd_server_go.Api.Authorized.{manager_is}
use pkd_server_go.Commands.{Shell, open_repository, manager_for, token_service_of, mint}

-- A validation reads the key and the ciphers of its service, and nothing else.
validate_alike :
    (s t : TokenService) (now : ℕ) (token kind : String)
    → s.paseto ≡ t.paseto
    → s.symmetric_key ≡ t.symmetric_key
    → validate_token s now token kind ≡ validate_token t now token kind
unfolding validate_token
validate_alike s t now token kind p k =
    let with_both : Paseto → Option Bytes → Result TokenError Fields =
      λ q key. validate_token (record s { paseto = q; symmetric_key = key }) now token kind in
    ap (λ q. with_both q s.symmetric_key) p ∙ ap (with_both t.paseto) k

-- What mint has gone through.
record Minted (c : KeyCiphers) (p : Paseto) (utf8 : String → Bytes) (sh : Shell) (password : String)
    (first next : Moment) (access refresh : String) (file : File) : Type 0 where
  cfg : Config
  cfg_is : open_repository sh ≡ ok cfg
  made :
      new_pair (token_service_of c p sh cfg (manager_for utf8 cfg password) file) first next
      ≡ ok (access, refresh)

mint-Minted :
    (c : KeyCiphers) (p : Paseto) (utf8 : String → Bytes) (sh : Shell) (password : String)
    (first next : Moment) (access refresh : String) (file file' : File)
    → mint c p utf8 sh password first next file ≡ (ok (access, refresh), file')
    → Minted c p utf8 sh password first next access refresh file'
unfolding mint
mint-Minted c p utf8 sh password first next access refresh file file' e =
    elim (Result-cases (open_repository sh)) [
      | inr (x, xe) ↦ ground arith
      | inl (cfg, ce) ↦
          let asked = manager_for utf8 cfg password in
          elim (Result-cases (new_file_key_manager c sh.files asked file).0) [
            | inr (x, xe) ↦ ground arith
            | inl (km, ke) ↦
                let is = manager_is c sh.files asked file km ke in
                elim (Result-cases
                  (new_pair (token_service_of c p sh cfg asked file') first next)) [
                    | inr (x, xe) ↦ ground arith
                    | inl (pair, pe) ↦
                        let same : pair ≡ (access, refresh) = ground arith in
                        record { cfg = cfg; cfg_is = ce; made = pe ∙ ap ok same }
                  ]
          ]
    ]

-- The key that one file system lets a manager read, any other one does.
read_alike :
    (c : KeyCiphers) (fs gs : FileSystem) (km : FileKeyManager) (file : File) (key : Bytes)
    → get_paseto_symmetric_key c fs km file ≡ ok key
    → gs.read_fails ≡ false
    → get_paseto_symmetric_key c gs km file ≡ ok key
unfolding get_paseto_symmetric_key
read_alike c fs gs km none key e r = ground arith
read_alike c fs gs km (some text) key e r = elim (Bool-cases fs.read_fails) [
  | inl failed ↦ ground arith
  | inr fine ↦ ground arith
]

made_with_key :
    (s : TokenService) (m n : Moment) (pair : String × String)
    → new_pair s m n ≡ ok pair
    → (seed : Bytes) × (s.symmetric_key ≡ some seed)
unfolding new_pair new_access_token new_token
made_with_key s m n pair e = elim (Option-cases s.symmetric_key) [
  | inl nothing ↦ ground arith
  | inr (seed, se) ↦ (seed, se)
]

-- The middleware's answer to a validation.
abbrev judged : Result TokenError Fields → Outcome Fields
judged (err e) = stop (problem_of unauthorized "Invalid access token: " (of_token e))
judged (ok claims) =
    if is_admin (member "pkd-admin" claims)
    then go claims
    else stop (problem forbidden "Not an admin token")

bearer_empty : bearer_token "" ≡ none
unfolding bearer_token split
bearer_empty = refl

module _ (s : TokenServer) (laws : AreTokens s.paseto) (header : String → String)
    (file : File) where
  header_there :
      (token : String)
      → bearer_token (header "Authorization") ≡ some token
      → (header "Authorization" == "") ≡ false
  header_there token b = elim (Bool-cases (header "Authorization" == "")) [
    | inl e ↦
        let empty = ap bearer_token ((eq_iff (header "Authorization") "").0 e) in
        let nothing = bearer_empty in cc
    | inr e ↦ e
  ]

  -- The middleware on a bearer token with a password.
  with_password :
      (password token : String) (km : FileKeyManager)
      → bearer_token (header "Authorization") ≡ some token
      → header "X-PKD-Key-Password" ≡ password
      → (password == "") ≡ false
      → requested s password ≡ km
      → needs_key file ≡ false
      → s.files.stat_fails ≡ false
      → (answer : Result TokenError Fields)
      → validate_access_token (token_service s km file) s.now token ≡ answer
      → auth_middleware s header file ≡ (judged answer, file)
  unfolding auth_middleware claims_of new_file_key_manager
  with_password password token km b h g r n st (err e) v =
      let there = header_there token b in ground arith
  with_password password token km b h g r n st (ok claims) v =
      let there = header_there token b in ground arith

-- An access token that `token mint` has printed is let through by the middleware, with the claims of
-- the administration, up to the second in which its 15 minutes end, and refused as expired later:
-- where the request has the password of `mint` in its header, the server's key file is the one that
-- `mint` has left and can be read, and the parameters of Argon2id are the same in both configurations.
-- The middleware leaves the key file as it is.
pub auth_middleware-mint :
    (s : TokenServer) (laws : AreTokens s.paseto) (sh : Shell) (cfg : Config) (password : String)
    (first next : Moment) (access refresh : String) (file file' : File) (header : String → String)
    → mint s.ciphers s.paseto s.utf8 sh password first next file ≡ (ok (access, refresh), file')
    → sh.config ≡ some cfg
    → requested s password ≡ manager_for s.utf8 cfg password
    → bearer_token (header "Authorization") ≡ some access
    → header "X-PKD-Key-Password" ≡ password
    → (password == "") ≡ false
    → needs_key file' ≡ false
    → s.files.stat_fails ≡ false
    → s.files.read_fails ≡ false
    → (claims : Fields) × (member "pkd-admin" claims ≡ some (boolean true))
      × (auth_middleware s header file' ≡ (
        if ltb (end_of first access_ttl) s.now
            then stop (problem_of unauthorized "Invalid access token: " (of_token expired))
            else go claims,
        file',
      ))
unfolding open_repository validate_access_token token_service
auth_middleware-mint s laws sh cfg password first next access refresh file file' header e ce same b
      h g n st rd =
    let d =
      mint-Minted s.ciphers s.paseto s.utf8 sh password first next access refresh file file' e in
    let is : d.cfg ≡ cfg = (let opened = d.cfg_is in ground arith) in
    let km = manager_for s.utf8 d.cfg password in
    let t = token_service_of s.ciphers s.paseto sh d.cfg km file' in
    let (seed, se) = made_with_key t first next (access, refresh) d.made in
    let read : get_paseto_symmetric_key s.ciphers sh.files km file' ≡ ok seed = ground arith in
    let again = read_alike s.ciphers sh.files s.files km file' seed read rd in
    let key : (token_service s km file').symmetric_key ≡ t.symmetric_key = ground arith in
    let (claims, claims', admin, v) = new_pair-validity t laws first next access refresh d.made in
    let answer : Result TokenError Fields =
      if ltb (end_of first access_ttl) s.now then err expired else ok claims in
    let alike = validate_alike (token_service s km file') t s.now access "access" refl key in
    let ran =
      with_password s laws header file' password access km b h g
        (same ∙ ap (λ c. manager_for s.utf8 c password) (sym is)) n st answer
        (alike ∙ (v s.now).0) in
    (
      claims,
      admin,
      ran ∙ elim (Bool-cases (ltb (end_of first access_ttl) s.now)) [
        | inl late ↦ ground arith
        | inr in_time ↦ ground arith
      ],
    )
