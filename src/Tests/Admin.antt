-- ===== src/Tests/Admin.antt =====
-- Runs of the administration and of the reads of internal/api.
use pkd_server_go.Prelude.{
  String, ◌≡◌, ◌≢◌, refl, ◌⊎◌, true, false, [], ◌∷◌, some, ok, arith, All, length, any, find,
  select, update, ◌==◌, if◌then◌else◌,
}
use pkd_server_go.Encoding.{encode_raw_url, char_of}
use pkd_server_go.Json.{field, end, str, obj, fold_eq, read_string}
use pkd_server_go.Signing.{bytes_eq}
use pkd_server_go.Protocol.Messages.{ProtocolMessage, marshal_checkpoint}
use pkd_server_go.Store.Reads.{active_keys, active_aux, find_actor_by_actor_id}
use pkd_server_go.Store.Writes.{
  all_hashes, tx_get_message_hashes_for_actor, tx_revoke_all_keys_for_actor,
  tx_delete_symmetric_keys_by_hashes, is_hash_in,
}
use pkd_server_go.Domain.Transaction.{commit, run_body, transaction}
use pkd_server_go.Domain.Service.{decimal, burn_down_body, process_burn_down, crypto_shred}
use pkd_server_go.Domain.BurnDown.{is_hash_of, keys_of_hash}
use pkd_server_go.Checkpoint.{Sender, checkpoint_message, sign_message, signed_checkpoint}
use pkd_server_go.Auth.KeyFile.{File, needs_key}
use pkd_server_go.Api.Handler.{
  Server, Problem, go, stop, status_text, crypto_shredded, key_list, key_info, aux_list, aux_info,
  ensure, writes, lookup,
}
use pkd_server_go.Api.Dispatch.{First, value_of, value, handle_protocol_message}
use pkd_server_go.Api.AuthMiddleware.{TokenServer}
use pkd_server_go.Api.Admin.{read_request, to_crypto_shred, handle_crypto_shred, serve_admin}
use pkd_server_go.Api.Authorized.{Admits, serve_admin-Admits}
use pkd_server_go.Api.Shredding.{handle_crypto_shred-success}
use pkd_server_go.Api.Gossip.{ArePeers, posted, handle_protocol_message-signed_checkpoint}
use pkd_server_go.Api.Reads.{
  handle_get_actor_keys, handle_get_key_info, handle_get_actor_auxiliary,
  handle_get_auxiliary_data_info,
}
use pkd_server_go.Api.Listings.{listings_agree}
use pkd_server_go.Tests.Fixtures.{server, primitives, db, db-IsConsistent, world}
use pkd_server_go.Tests.TokenFixtures.{repeat, key_ciphers, files, manager, paseto, service_now}

-- A key file without a password, with 32 bytes 5.
abbrev key_file : File
key_file = some "BQUFBQUFBQUFBQUFBQUFBQUFBQUFBQUFBQUFBQUFBQU"

abbrev token_server : TokenServer
token_server = record {
  ciphers = key_ciphers;
  files = files;
  paseto = paseto;
  host = "pkd";
  configured = record manager { password = [] };
  select_fails = false;
  insert_fails = false;
  unique_jti = true;
  utf8 = λ text. [];
  now = service_now;
}

abbrev sender : Sender
sender = record {
  primitives = primitives;
  ed25519_sign = λ key text. repeat 32 7;
  host = "a";
  port = 80;
  private_key = "";
  now_text = "now";
  post = λ url body. some 200;
}

abbrev header : String → String
header name = if name == "Authorization" then "Bearer A" else ""

abbrev first : First
first = value (obj (field "actor-id" (str "alice") end))

serve_admin-Admits_example :
    let r = serve_admin server sender token_server 3 to_crypto_shred header first world key_file in
    (((p : Problem) × (r.0 ≡ stop p) × (r.1 ≡ world)) ⊎ Admits token_server header r.2)
    × (needs_key key_file ≡ false → r.2 ≡ key_file)
serve_admin-Admits_example =
    serve_admin-Admits token_server header server sender 3 to_crypto_shred first world key_file

shredded : (handle_crypto_shred server 3 first world).0 ≡ go (crypto_shredded "alice")
unfolding handle_crypto_shred crypto_shred process_burn_down burn_down_body transaction run_body
    commit ensure writes read_string fold_eq find_actor_by_actor_id find
    tx_get_message_hashes_for_actor select all_hashes tx_delete_symmetric_keys_by_hashes is_hash_in
    tx_revoke_all_keys_for_actor update any
shredded = refl

handle_crypto_shred-success_example :
    let after = (handle_crypto_shred server 3 first world).1.db in
    (actor : String) × (read_request "actor-id" (value_of first) ≡ some actor)
    × (actor ≢ "")
    × (crypto_shredded "alice" ≡ crypto_shredded actor)
    × (active_keys actor after ≡ [])
    × ((h : String) → is_hash_of actor db h ≡ true → keys_of_hash h after ≡ [])
    × ((n : String) → n ≢ actor → active_keys n after ≡ active_keys n db)
    × ((handle_crypto_shred server 3 first world).1.logged ≡ [])
handle_crypto_shred-success_example =
    handle_crypto_shred-success server 3 first world db-IsConsistent (crypto_shredded "alice")
      shredded

-- The directory at http://a:80, whose key is 32 bytes 7.
abbrev peer : Server
peer = record server { peers = ("http://a:80", "BwcHBwcHBwcHBwcHBwcHBwcHBwcHBwcHBwcHBwcHBwc") ∷ [] }

are_peers : ArePeers sender peer (repeat 64 1) (repeat 32 7)
unfolding encode_raw_url char_of bytes_eq lookup decimal
are_peers = record {
  known = refl;
  public_length = refl;
  public_bytes = ground arith;
  secret_length = refl;
  signature_bytes = λ text. ground arith;
  same_form = λ j. refl;
  verifies = λ text. refl;
}

abbrev signed : ProtocolMessage
signed = record {
  pkd_context = "https://github.com/fedi-e2ee/public-key-directory/v1";
  action = "Checkpoint";
  key_id = "";
  message = some (marshal_checkpoint (checkpoint_message sender "r1" "http://b"));
  recent_merkle_root = "";
  signature = encode_raw_url (repeat 32 7);
  symmetric_keys = [];
  otp = "";
}

signed_is : signed_checkpoint sender (some (repeat 64 1)) "r1" "http://b" ≡ ok signed
unfolding signed_checkpoint sign_message
signed_is = refl

handle_protocol_message-signed_checkpoint_example :
    let r = handle_protocol_message peer (λ text. []) (posted signed) world in
    (r.0 ≡ go (status_text "Checkpoint processed successfully"))
    × (length r.1.db.message_logs.rows ≡ 1)
unfolding any
handle_protocol_message-signed_checkpoint_example =
    handle_protocol_message-signed_checkpoint sender peer (repeat 64 1) (repeat 32 7) are_peers "r1"
      "http://b" signed (λ text. []) world signed_is refl refl

listings_agree_example :
    (handle_get_actor_keys server "alice" world ≡ (go (key_list (active_keys "alice" db)), world))
    × All
        (λ k. handle_get_key_info server k.key_id world ≡ (go (key_info k), world))
        (active_keys "alice" db)
    × (handle_get_actor_auxiliary server "alice" world
        ≡ (go (aux_list (active_aux "alice" db)), world))
    × All
        (λ x. handle_get_auxiliary_data_info server x.aux_id world ≡ (go (aux_info x), world))
        (active_aux "alice" db)
listings_agree_example = listings_agree server world db-IsConsistent (λ q. refl) "alice"
