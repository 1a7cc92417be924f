-- ===== src/Tests/Minting.antt =====
-- A run of `token mint` of cmd/token.go, and the request that uses its token.
use pkd_server_go.Prelude.{
  String, ◌≡◌, refl, true, false, [], ◌∷◌, none, some, ok, ltb, ◌==◌, if◌then◌else◌, take, drop,
}
use pkd_server_go.Json.{Fields, boolean, member}
use pkd_server_go.Encoding.{encode_raw_url, decode_raw_url, char_of, digits_of, decode_digit, pack}
use pkd_server_go.Text.{split, to_lower}
use pkd_server_go.Config.{Config}
use pkd_server_go.Auth.KeyFile.{
  File, new_file_key_manager, generate_and_save_key, key_file_text, derive_file_key,
  encrypt_with_aes_gcm, decrypt_with_aes_gcm, get_paseto_symmetric_key,
}
use pkd_server_go.Auth.Tokens.{
  access_ttl, expired, new_pair, new_access_token, new_refresh_token, new_token,
}
use pkd_server_go.Auth.Lifetime.{end_of}
use pkd_server_go.Api.Handler.{problem_of, unauthorized, go, stop, of_token}
use pkd_server_go.Api.AuthMiddleware.{TokenServer, bearer_token, auth_middleware}
use pkd_server_go.Commands.{Shell, open_repository, command_repository, mint}
use pkd_server_go.Commands.Minted.{auth_middleware-mint}
use pkd_server_go.Tests.TokenFixtures.{
  key_ciphers, files, service_now, paseto, paseto-AreTokens, first_moment, second_moment, same_json,
  same_fields, bits,
}

abbrev config : Config
config = record {
  server = record {
    host = "pkd";
    port = 8080;
    private_key = "";
    hpke_secret_key = "";
    key_file = record {
      path = "";
      password = "";
      argon2id_time = 1;
      argon2id_memory = 1;
      argon2id_threads = 1;
    };
  };
  database = record { driver = "sqlite"; dsn = "pkd.db" };
  sigsum = record { url = ""; public_key = "" };
  peers = [];
  checkpoint_policy = record { target_directory = ""; interval = ""; message_threshold = 0 };
  allow_private_ips = false;
}

abbrev shell : Shell
shell = record {
  config = some config;
  opens = λ repo dsn. true;
  files = files;
  select_fails = false;
  insert_fails = false;
  unique_jti = true;
}

abbrev server : TokenServer
server = record {
  ciphers = key_ciphers;
  files = files;
  paseto = paseto;
  host = "pkd";
  configured = record {
    password = [];
    argon2id_time = 1;
    argon2id_memory = 1;
    argon2id_threads = 1;
  };
  select_fails = false;
  insert_fails = false;
  unique_jti = true;
  utf8 = λ text. 112 ∷ 119 ∷ [];
  now = service_now;
}

abbrev header : String → String
header name = if name == "Authorization" then "Bearer A" else "pw"

-- what `mint` leaves at the path of the key file
abbrev minted_file : File
minted_file = (mint key_ciphers paseto server.utf8 shell "pw" first_moment second_moment none).1

minted :
    mint key_ciphers paseto server.utf8 shell "pw" first_moment second_moment none
    ≡ (ok ("A", "R"), minted_file)
unfolding mint open_repository command_repository new_file_key_manager generate_and_save_key
    key_file_text derive_file_key encrypt_with_aes_gcm new_pair new_access_token new_refresh_token
    new_token get_paseto_symmetric_key split encode_raw_url char_of decode_raw_url digits_of
    decode_digit decrypt_with_aes_gcm pack drop take same_json same_fields bits
minted = refl

auth_middleware-mint_example :
    (claims : Fields) × (member "pkd-admin" claims ≡ some (boolean true))
    × (auth_middleware server header minted_file ≡ (
      if ltb (end_of first_moment access_ttl) service_now
          then stop (problem_of unauthorized "Invalid access token: " (of_token expired))
          else go claims,
      minted_file,
    ))
unfolding mint open_repository command_repository new_file_key_manager generate_and_save_key
    key_file_text derive_file_key encrypt_with_aes_gcm encode_raw_url char_of bearer_token split
    to_lower
auth_middleware-mint_example =
    auth_middleware-mint server paseto-AreTokens shell config "pw" first_moment second_moment "A"
      "R" none minted_file header minted refl refl refl refl refl refl refl refl
