-- ===== src/Tests/Startup.antt =====
-- Runs of cmd/keygen.go, internal/config and internal/checkpoint.
use pkd_server_go.Prelude.{
  none, ◌≢◌, ℕ, suc, ◌≤◌, ◌<◌, ◌≡◌, ◌≢◌, refl, ◌⊎◌, false, some, ok, err, arith, eq_iff,
}
use pkd_server_go.Encoding.{encode_raw_url}
use pkd_server_go.Store.Driver.{DbError}
use pkd_server_go.Api.Handler.{lookup}
use pkd_server_go.Checkpoint.{Sender, bad_private_key}
use pkd_server_go.Checkpoint.Scheduler.{no_target, root_failed, not_signed, trigger_checkpoint}
use pkd_server_go.Checkpoint.Padding.{trigger_checkpoint-unpadded}
use pkd_server_go.Checkpoint.Loop.{
  ParseDuration, Scheduler, new_scheduler, start, Reach, here, next, starts, ticks, stops, looping,
  stop_returns,
}
use pkd_server_go.Config.{Config, Environment, new_config, load_and_validate}
use pkd_server_go.Config.Keygen.{Flags, Generator, Files, key_entries, generate_keys}
use pkd_server_go.Config.Generated.{load_and_validate-generate_keys, generate_keys-again}
use pkd_server_go.Tests.Fixtures.{driver, primitives, db}
use pkd_server_go.Tests.TokenFixtures.{repeat}

abbrev flags : Flags
flags = record {
  config = "config.yaml";
  force = false;
  driver = "sqlite";
  dsn = "";
  key_file = "keys.json";
}

abbrev generator : Generator
generator = record {
  private_key = some (repeat 64 1);
  hpke_secret_key = some (repeat 32 2);
  key_file_fails = false;
  config_fails = false;
}

abbrev other_generator : Generator
other_generator = record generator { private_key = some (repeat 64 3) }

abbrev no_files : Files
no_files path = none

generated : (generate_keys flags generator no_files).0 ≡ ok tt
unfolding generate_keys lookup
generated = refl

two_files : flags.config ≢ flags.key_file
two_files e = ground (arith, eq_iff "config.yaml" "keys.json")

-- The configuration that the run has written, as viper reads it.
abbrev written : Config
written = record new_config {
  server = record new_config.server {
    key_file = record new_config.server.key_file { path = "keys.json" };
  };
}

abbrev environment : Environment
environment = record {
  load = some written;
  read_key_file = (generate_keys flags generator no_files).1;
  seed_size = 32;
  derive_key_pair = λ seed. (seed, seed);
}

load_and_validate-generate_keys_example :
    (loaded : Config) × (load_and_validate environment
      ≡ ok (
        loaded,
        record {
          signing_key = repeat 64 1;
          hpke_public_key = repeat 32 2;
          hpke_private_key = repeat 32 2;
        },
      ))
unfolding new_config generate_keys lookup
load_and_validate-generate_keys_example =
    load_and_validate-generate_keys flags generator no_files (repeat 64 1) (repeat 32 2) refl refl
      environment written generated two_files refl refl (λ e. ground arith) (ground arith)
      (ground arith) refl refl (λ e. ground (arith, eq_iff "keys.json" "")) refl

generate_keys-again_example :
    ((generate_keys flags generator no_files).1 "keys.json"
      ≡ some (key_entries (repeat 64 1) (repeat 32 2)))
    × ((generate_keys flags other_generator (generate_keys flags generator no_files).1).0 ≡ ok tt)
    × ((generate_keys flags other_generator (generate_keys flags generator no_files).1).1
          "keys.json"
        ≡ some (key_entries (repeat 64 3) (repeat 32 2)))
unfolding lookup
generate_keys-again_example =
    generate_keys-again flags generator no_files (repeat 64 1) (repeat 32 2) refl refl flags
      other_generator (repeat 64 3) (repeat 32 2) refl generated two_files refl refl refl refl refl
      refl refl

abbrev sender : Sender
sender = record {
  primitives = primitives;
  ed25519_sign = λ key text. repeat 64 7;
  host = "a";
  port = 80;
  private_key = encode_raw_url (repeat 64 1);
  now_text = "now";
  post = λ url body. some 200;
}

trigger_checkpoint-unpadded_example :
    (trigger_checkpoint sender driver "http://b" db ≡ err no_target)
    ⊎ ((e : DbError) × (trigger_checkpoint sender driver "http://b" db ≡ err (root_failed e)))
    ⊎ (trigger_checkpoint sender driver "http://b" db ≡ err (not_signed bad_private_key))
trigger_checkpoint-unpadded_example =
    trigger_checkpoint-unpadded sender driver "http://b" db (repeat 64 1) refl refl (ground arith)

-- Every text is a minute.
abbrev parse : ParseDuration
parse text = some 60_000_000_000

-- Start, a tick, and a Stop that comes while the checkpoint is sent.
stopping : (s : Scheduler) × Reach parse "1m" new_scheduler s × (s.waiting ≡ 1) × (s.triggering ≡ 1)
unfolding start
stopping = (_, next (next (next here (starts refl)) (ticks refl refl)) stops, refl, refl)

stop_returns_example :
    let s = stopping.0 in
    (s.returned ≤ s.starts)
    × (start parse "1m" ≢ looping → s.returned ≡ 0)
    × ((n : ℕ)
        → s.waiting ≡ suc n
        → s.returned < s.starts
        → (t : Scheduler) × Reach parse "1m" s t × (t.returned ≡ suc s.returned))
stop_returns_example = stop_returns parse "1m" stopping.0 stopping.1
