-- ===== src/Commands.antt =====
-- The subcommands of cmd/token.go and cmd/actor.go, and the choice of the database in them and in
-- server/main.go. What they print is their value.
use pkd_server_go.Prelude.{
  ℕ, String, Bool, ◌||◌, Option, none, some, Result, ok, err, ◌>>=◌, ◌>>◌, or_fail, if◌then◌else◌,
  ◌==◌,
}
use pkd_server_go.Signing.{Bytes}
use pkd_server_go.Store.Driver.{Driver}
use pkd_server_go.Store.Rows.{Db}
use pkd_server_go.Domain.Transaction.{Failure}
use pkd_server_go.Domain.Service.{crypto_shred}
use pkd_server_go.Config.{Config}
use pkd_server_go.Auth.KeyFile.{
  KeyCiphers, FileKeyManager, FileSystem, File, KeyFileError, new_file_key_manager,
  get_paseto_symmetric_key,
}
use pkd_server_go.Auth.Tokens.{Paseto, TokenService, Moment, TokenError, new_pair}
pub mod Minted

pub data Repository : Type 0 where
  sqlite postgres : Repository

-- the switch of the subcommands on cfg.Database.Driver
unfoldable pub command_repository : String → Option Repository
command_repository driver =
    if driver == "sqlite"
    then some sqlite
    else if driver == "postgres" || driver == ""
    then some postgres
    else none

-- the switch of the server, which takes no empty name
unfoldable pub server_repository : String → Option Repository
server_repository driver =
    if driver == "sqlite" then some sqlite else if driver == "postgres" then some postgres else none

pub data CommandError : Type 0 where
  config_failed : CommandError
  unsupported_driver : String → CommandError
  open_failed : Repository → CommandError
  of_key_file : KeyFileError → CommandError
  of_token : TokenError → CommandError
  of_service : Failure → CommandError

-- What a subcommand meets: the configuration as viper reads it (loadConfig), whether a repository
-- opens, the file system, and the table of used tokens.
pub record Shell : Type 0 where
  pub config : Option Config
  pub opens : Repository → String → Bool
  pub files : FileSystem
  pub select_fails : Bool
  pub insert_fails : Bool
  pub unique_jti : Bool

-- loadConfig, and the opening of the repository
unfoldable pub open_repository : Shell → Result CommandError Config
open_repository sh = do
  cfg ← or_fail config_failed sh.config
  repo ← or_fail (unsupported_driver cfg.database.driver) (command_repository cfg.database.driver)
  (if sh.opens repo cfg.database.dsn then ok tt else err (open_failed repo))
  ok cfg

-- The manager for the flag --password; the parameters are those of the configuration.
abbrev pub manager_for : (String → Bytes) → Config → String → FileKeyManager
manager_for utf8 cfg password = record {
  password = utf8 password;
  argon2id_time = cfg.server.key_file.argon2id_time;
  argon2id_memory = cfg.server.key_file.argon2id_memory;
  argon2id_threads = cfg.server.key_file.argon2id_threads;
}

abbrev key_read : Result KeyFileError Bytes → Option Bytes
key_read (ok key) = some key
key_read (err e) = none

abbrev pub token_service_of :
    KeyCiphers → Paseto → Shell → Config → FileKeyManager → File → TokenService
token_service_of c p sh cfg km file = record {
  paseto = p;
  symmetric_key = key_read (get_paseto_symmetric_key c sh.files km file);
  host = cfg.server.host;
  select_fails = sh.select_fails;
  insert_fails = sh.insert_fails;
  unique_jti = sh.unique_jti;
}

abbrev pub minted_pair : Result TokenError (String × String) → Result CommandError (String × String)
minted_pair (ok pair) = ok pair
minted_pair (err e) = err (of_token e)

abbrev minted_with :
    KeyCiphers
    → Paseto
    → Shell
    → Config
    → Moment
    → Moment
    → Result KeyFileError FileKeyManager × File
    → Result CommandError (String × String) × File
minted_with c p sh cfg first next (err e, file) = (err (of_key_file e), file)
minted_with c p sh cfg first next (ok km, file) =
    (minted_pair (new_pair (token_service_of c p sh cfg km file) first next), file)

abbrev minted_from :
    KeyCiphers
    → Paseto
    → (String → Bytes)
    → Shell
    → String
    → Moment
    → Moment
    → File
    → Result CommandError Config
    → Result CommandError (String × String) × File
minted_from c p utf8 sh password first next file (err e) = (err e, file)
minted_from c p utf8 sh password first next file (ok cfg) =
    minted_with c p sh cfg first next
      (new_file_key_manager c sh.files (manager_for utf8 cfg password) file)

-- token mint; `file` is what is at the path of the flag --key-file.
unfoldable pub mint :
    KeyCiphers
    → Paseto
    → (String → Bytes)
    → Shell
    → String
    → Moment
    → Moment
    → File
    → Result CommandError (String × String) × File
mint c p utf8 sh password first next file =
    minted_from c p utf8 sh password first next file (open_repository sh)

abbrev shred_answer : Result Failure (Unit {0}) × Db → Result CommandError (Unit {0}) × Db
shred_answer (ok u, db) = (ok tt, db)
shred_answer (err e, db) = (err (of_service e), db)

abbrev shredded_from :
    Driver → ℕ → String → Db → Result CommandError Config → Result CommandError (Unit {0}) × Db
shredded_from d nanos actor db (err e) = (err e, db)
shredded_from d nanos actor db (ok cfg) = shred_answer (crypto_shred d nanos actor db)

-- actor crypto-shred
unfoldable pub crypto_shred_command :
    Shell → Driver → ℕ → String → Db → Result CommandError (Unit {0}) × Db
crypto_shred_command sh d nanos actor db = shredded_from d nanos actor db (open_repository sh)
