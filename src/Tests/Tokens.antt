-- ===== src/Tests/Tokens.antt =====
-- Runs of internal/auth.
use pkd_server_go.Prelude.{
  ℕ, ◌*◌, String, ◌≡◌, refl, true, false, [], ◌∷◌, some, none, ok, err, arith, inr, ◌⊎◌, All, any,
  ltb, if◌then◌else◌,
}
use pkd_server_go.Encoding.RoundTrip.{IsByte}
use pkd_server_go.Json.{Fields, boolean, member}
use pkd_server_go.Text.{split}
use pkd_server_go.Auth.KeyFile.{
  FileSystem, new_file_key_manager, get_paseto_symmetric_key, invalid_format,
}
use pkd_server_go.Auth.KeyFileRoundTrip.{get-new_file_key_manager}
use pkd_server_go.Auth.KeyFileFormat.{get_paseto_symmetric_key-braced}
use pkd_server_go.Auth.Tokens.{
  TokenService, second, access_ttl, refresh_ttl, new_token, new_access_token, new_refresh_token,
  new_pair, validate_token, validate_refresh_token, ask, mark_used, refresh, expired, invalid_type,
  already_used,
}
use pkd_server_go.Auth.Lifetime.{end_of, new_pair-validity}
use pkd_server_go.Auth.Refreshes.{Calls, marks, here, next, asked, refresh_again}
use pkd_server_go.Tests.TokenFixtures.{
  repeat, same_json, same_fields, key_ciphers, key_ciphers-AreKeyCiphers, files, manager, bits,
  of_bits, first_moment, second_moment, paseto-AreTokens, service, service_now,
}

key_bytes : All IsByte (repeat 32 5)
key_bytes = ground arith

salt_bytes : All IsByte (repeat 16 6)
salt_bytes = ground arith

get-new_file_key_manager_example :
    (text : String) × (new_file_key_manager key_ciphers files manager none
      ≡ (ok manager, some text))
    × ((later : FileSystem)
        → later.read_fails ≡ false
        → get_paseto_symmetric_key key_ciphers later manager (some text) ≡ ok (repeat 32 5))
    × ((later : FileSystem)
        → later.stat_fails ≡ false
        → new_file_key_manager key_ciphers later manager (some text) ≡ (ok manager, some text))
get-new_file_key_manager_example =
    get-new_file_key_manager key_ciphers key_ciphers-AreKeyCiphers files manager (repeat 32 5) none
      refl refl key_bytes (inr (repeat 16 6, refl, salt_bytes, omega arith, omega arith)) refl refl
      refl

get_paseto_symmetric_key-braced_example :
    get_paseto_symmetric_key key_ciphers files manager (some "{}") ≡ ok (repeat 32 5) → ⊥
get_paseto_symmetric_key-braced_example =
    get_paseto_symmetric_key-braced key_ciphers files manager "}" (repeat 32 5)

no_separator :
    get_paseto_symmetric_key key_ciphers files manager (some "invalid-format") ≡ err invalid_format
unfolding get_paseto_symmetric_key split
no_separator = refl

made : new_pair service first_moment second_moment ≡ ok ("A", "R")
unfolding new_pair new_access_token new_refresh_token new_token same_json same_fields bits
made = refl

late : validate_token service (2000 * second) "A" "access" ≡ err expired
unfolding validate_token member bits of_bits
late = refl

new_pair-validity_example :
    (claims claims' : Fields) × (member "pkd-admin" claims ≡ some (boolean true))
    × ((now : ℕ)
        → (validate_token service now "A" "access"
            ≡ (if ltb (end_of first_moment access_ttl) now then err expired else ok claims))
          × (validate_token service now "R" "refresh"
              ≡ (if ltb (end_of second_moment refresh_ttl) now then err expired else ok claims'))
          × (validate_token service now "A" "refresh" ≡ (
              if ltb (end_of first_moment access_ttl) now then err expired else err invalid_type))
          × (validate_token service now "R" "access" ≡ (
              if ltb (end_of second_moment refresh_ttl) now
              then err expired
              else err invalid_type)))
new_pair-validity_example =
    new_pair-validity service paseto-AreTokens first_moment second_moment "A" "R" made

asked_name : ask service service_now "R" [] ≡ ok "u2"
unfolding ask validate_refresh_token validate_token member any bits of_bits
asked_name = refl

abbrev tokens : ℕ → String
tokens i = "R"

-- A table without a constraint.
abbrev lax : TokenService
lax = record service { unique_jti = false }

refreshed : refresh lax service_now first_moment second_moment "R" [] ≡ (ok ("A", "R"), "u2" ∷ [])
unfolding refresh ask validate_refresh_token validate_token mark_used new_pair new_access_token
    new_refresh_token new_token same_json same_fields member any bits of_bits
refreshed = refl

-- Another call has asked for the token before it was marked.
abbrev in_flight : Calls
in_flight = record { phase = λ i. asked "u2"; used = "u2" ∷ [] }

-- That call goes on, and marks the token again: both give a pair.
marked_again : mark_used lax "u2" ("u2" ∷ []) ≡ ok ("u2" ∷ "u2" ∷ [])
unfolding mark_used any
marked_again = refl

refresh_again_example :
    (refresh lax service_now first_moment second_moment "R" ("u2" ∷ "u2" ∷ [])
      ≡ (err expired, "u2" ∷ "u2" ∷ []))
    ⊎ (refresh lax service_now first_moment second_moment "R" ("u2" ∷ "u2" ∷ [])
        ≡ (err already_used, "u2" ∷ "u2" ∷ []))
refresh_again_example =
    refresh_again lax tokens "R" service_now service_now first_moment second_moment first_moment
      second_moment ("A", "R") [] ("u2" ∷ []) in_flight
      (record { phase = _; used = "u2" ∷ "u2" ∷ [] }) refreshed refl
      (next here (marks 0 refl marked_again))

used_twice :
    (refresh service service_now first_moment second_moment "R" ("u2" ∷ [])).0 ≡ err already_used
unfolding refresh ask validate_refresh_token validate_token member any bits of_bits
used_twice = refl
