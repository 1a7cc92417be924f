-- ===== src/Auth/Lifetime.antt =====
-- How long and for what a token of internal/auth/token_service.go is accepted.
use pkd_server_go.Prelude.{
  ℕ, ◌+◌, ◌*◌, ◌/◌, String, ◌≡◌, refl, ap, ◌∙◌, true, some, Result, ok, err, arith, ltb, ◌==◌,
  Result-cases, Option-cases, inl, inr, if◌then◌else◌,
}
use pkd_server_go.Json.{Json, Fields, boolean, str, obj, member}
use pkd_server_go.Signing.{Bytes}
use pkd_server_go.Auth.Tokens.{
  Paseto, TokenService, Moment, TokenError, second, access_ttl, refresh_ttl, access_claims,
  refresh_claims, token_claims, new_token, new_access_token, new_refresh_token, new_pair,
  validate_token, expired, invalid_type,
}

-- What the documentation says: a token is decrypted with the key of its encryption, and RFC 3339
-- keeps a time up to its second.
pub record AreTokens (p : Paseto) : Type 0 where
  pub decrypt-encrypt :
      (key random : Bytes) (payload : Json) (token : String)
      → p.encrypt key random payload ≡ some token
      → p.decrypt key token ≡ some (some payload)
  pub parse-format : (t : ℕ) → p.parse_time (p.format_time t) ≡ some (t / second * second)

-- A token that new_token has made, with its claims.
record Made (s : TokenService) (m : Moment) (claims : Fields) (ttl : ℕ) (token : String)
    : Type 0 where
  jti : String
  seed : Bytes
  seed_is : s.symmetric_key ≡ some seed
  key : Bytes
  key_is : s.paseto.local_key seed ≡ some key
  made : s.paseto.encrypt key m.random (obj (token_claims s m jti ttl claims)) ≡ some token

module _ (s : TokenService) (m : Moment) where
  new_token-Made :
      (claims : Fields) (ttl : ℕ) (token : String)
      → new_token s m claims ttl ≡ ok token
      → Made s m claims ttl token
  unfolding new_token
  new_token-Made claims ttl token e = elim (Option-cases s.symmetric_key) [
    | inl n ↦ ground arith
    | inr (seed, se) ↦ elim (Option-cases (s.paseto.local_key seed)) [
      | inl n ↦ ground arith
      | inr (key, ke) ↦ elim (Option-cases m.uuid) [
        | inl n ↦ ground arith
        | inr (jti, je) ↦ record {
          jti = jti;
          seed = seed;
          seed_is = se;
          key = key;
          key_is = ke;
          made = ground arith;
        }
      ]
    ]
  ]

-- The second in which a token of that lifetime ends.
abbrev pub end_of : Moment → ℕ → ℕ
end_of m ttl = (m.now + ttl) / second * second

abbrev pub verdict : ℕ → ℕ → String → String → Fields → Result TokenError Fields
verdict exp now kind asked claims =
    if ltb exp now then err expired else if kind == asked then ok claims else err invalid_type

-- Validation, where the token decrypts to claims with a time and a type.
validate-decrypted :
    (s : TokenService) (laws : AreTokens s.paseto) (now : ℕ) (token asked : String)
    → (seed key : Bytes) (claims : Fields) (exp : ℕ) (kind : String) → s.symmetric_key ≡ some seed
    → s.paseto.local_key seed ≡ some key
    → s.paseto.decrypt key token ≡ some (some (obj claims))
    → member "exp" claims ≡ some (str (s.paseto.format_time exp))
    → member "token-type" claims ≡ some (str kind)
    → validate_token s now token asked ≡ verdict (exp / second * second) now kind asked claims
unfolding validate_token
validate-decrypted s laws now token asked seed key claims exp kind se ke de ee te =
    let parsed = laws.parse-format exp in ground arith

module _ (s : TokenService) (laws : AreTokens s.paseto) (m : Moment) (token : String) where
  -- Until the second in which its time ends, an access token that NewPair has made is accepted as an
  -- access token, with the claim of the administration, and after it no more; as a refresh token it
  -- never is.
  access_token-validity :
      new_access_token s m ≡ ok token
      → (claims : Fields) × (member "pkd-admin" claims ≡ some (boolean true))
        × ((now : ℕ) (asked : String)
            → validate_token s now token asked
              ≡ verdict (end_of m access_ttl) now "access" asked claims)
  unfolding new_access_token member
  access_token-validity e =
      let d = new_token-Made s m access_claims access_ttl token e in
      (
        token_claims s m d.jti access_ttl access_claims,
        refl,
        λ now asked.
            validate-decrypted s laws now token asked d.seed d.key _ (m.now + access_ttl) "access"
              d.seed_is d.key_is (laws.decrypt-encrypt d.key m.random _ token d.made) refl refl,
      )

  refresh_token-validity :
      new_refresh_token s m ≡ ok token
      → (claims : Fields) × ((now : ℕ) (asked : String)
          → validate_token s now token asked
            ≡ verdict (end_of m refresh_ttl) now "refresh" asked claims)
  unfolding new_refresh_token member
  refresh_token-validity e =
      let d = new_token-Made s m refresh_claims refresh_ttl token e in
      (
        token_claims s m d.jti refresh_ttl refresh_claims,
        λ now asked.
            validate-decrypted s laws now token asked d.seed d.key _ (m.now + refresh_ttl) "refresh"
              d.seed_is d.key_is (laws.decrypt-encrypt d.key m.random _ token d.made) refl refl,
      )

-- Of a pair that NewPair has made, the access token is accepted as one, with the claim of the
-- administration, up to the second in which its 15 minutes end, and later refused as expired; the
-- refresh token is accepted as one up to the second in which its 12 hours end. Neither is ever
-- accepted in the place of the other.
pub new_pair-validity :
    (s : TokenService) (laws : AreTokens s.paseto) (m n : Moment) (access refresh : String)
    → new_pair s m n ≡ ok (access, refresh)
    → (claims claims' : Fields) × (member "pkd-admin" claims ≡ some (boolean true))
      × ((now : ℕ)
          → (validate_token s now access "access"
              ≡ (if ltb (end_of m access_ttl) now then err expired else ok claims))
            × (validate_token s now refresh "refresh"
                ≡ (if ltb (end_of n refresh_ttl) now then err expired else ok claims'))
            × (validate_token s now access "refresh"
                ≡ (if ltb (end_of m access_ttl) now then err expired else err invalid_type))
            × (validate_token s now refresh "access"
                ≡ (if ltb (end_of n refresh_ttl) now then err expired else err invalid_type)))
unfolding new_pair
new_pair-validity s laws m n access refresh e = elim (Result-cases (new_access_token s m)) [
  | inr (f, fe) ↦ ground arith
  | inl (a, ae) ↦ elim (Result-cases (new_refresh_token s n)) [
    | inr (f, fe) ↦ ground arith
    | inl (r, re) ↦
        let same : a ≡ access = ground arith in
        let also : r ≡ refresh = ground arith in
        let (claims, admin, va) = access_token-validity s laws m access (ae ∙ ap ok same) in
        let (claims', vr) = refresh_token-validity s laws n refresh (re ∙ ap ok also) in
        (
          claims,
          claims',
          admin,
          λ now. (va now "access", vr now "refresh", va now "refresh", vr now "access"),
        )
  ]
]
