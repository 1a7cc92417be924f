-- ===== src/Config/Keygen.antt =====
-- cmd/keygen.go: the command that makes the server's keys.
use pkd_server_go.Prelude.{
  String, Bool, not, ◌&&◌, ◌||◌, [], ◌∷◌, Option, none, some, Result, ok, err, ◌==◌, if◌then◌else◌,
}
use pkd_server_go.Encoding.{encode_raw_url}
use pkd_server_go.Signing.{Bytes, encode_private_key}
use pkd_server_go.Config.{Entries, get_string}

-- The flags of the command; `config` and `key_file` are paths.
pub record Flags : Type 0 where
  pub config : String
  pub force : Bool
  pub driver : String
  pub dsn : String
  pub key_file : String

-- What the random source and the two writes of one run give.
pub record Generator : Type 0 where
  pub private_key : Option Bytes
  pub hpke_secret_key : Option Bytes
  pub key_file_fails : Bool
  pub config_fails : Bool

pub data KeygenError : Type 0 where
  keys_exist generate_failed hpke_failed write_keys_failed write_config_failed : KeygenError

-- The files by their paths, with the entries that viper reads from them.
abbrev pub Files : Type 0
Files = String → Option Entries

abbrev pub put : String → Entries → Files → Files
put path entries files other = if other == path then some entries else files other

abbrev pub entries_of : Option Entries → Entries
entries_of none = []
entries_of (some entries) = entries

-- The configuration, empty where there is none that can be read.
abbrev pub read_config : Flags → Files → Entries
read_config flags files = entries_of (files flags.config)

abbrev pub key_entries : Bytes → Bytes → Entries
key_entries private_key hpke_key =
    ("server.private_key", encode_private_key private_key)
    ∷ ("server.hpke_secret_key", encode_raw_url hpke_key)
    ∷ []

-- viper.Set: of two entries of a name the first is the one that is read.
abbrev pub config_entries : Flags → Entries → Entries
config_entries flags config =
    ("database.dsn", (if flags.driver == "sqlite" then "pkd.db" else flags.dsn))
    ∷ ("database.driver", flags.driver)
    ∷ ("server.key_file.path", flags.key_file)
    ∷ config

abbrev pub has_keys : Entries → Bool
has_keys config =
    not (get_string "server.private_key" config == "")
    || not (get_string "server.hpke_secret_key" config == "")

abbrev write_files :
    Flags → Generator → Bytes → Bytes → Files → Result KeygenError (Unit {0}) × Files
write_files flags g private_key hpke_key files =
    if g.key_file_fails
    then (err write_keys_failed, files)
    else (let written = put flags.key_file (key_entries private_key hpke_key) files in
        if g.config_fails
        then (err write_config_failed, written)
        else (ok tt, put flags.config (config_entries flags (read_config flags files)) written))

abbrev generated :
    Flags → Generator → Option Bytes → Option Bytes → Files → Result KeygenError (Unit {0}) × Files
generated flags g none hpke_key files = (err generate_failed, files)
generated flags g (some private_key) none files = (err hpke_failed, files)
generated flags g (some private_key) (some hpke_key) files =
    write_files flags g private_key hpke_key files

unfoldable pub generate_keys : Flags → Generator → Files → Result KeygenError (Unit {0}) × Files
generate_keys flags g files =
    if has_keys (read_config flags files) && not flags.force
    then (err keys_exist, files)
    else generated flags g g.private_key g.hpke_secret_key files
