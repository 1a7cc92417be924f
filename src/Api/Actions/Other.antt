-- ===== src/Api/Actions/Other.antt =====
-- Query and Checkpoint.
use pkd_server_go.Prelude.{Result, ok, err}
use pkd_server_go.Json.{Json}
use pkd_server_go.Protocol.Messages.{ProtocolMessage, marshal_message}
use pkd_server_go.Protocol.Unmarshal.{unmarshal_query, unmarshal_checkpoint}
use pkd_server_go.Signing.{hash_bytes, verify_message_signature}
use pkd_server_go.Store.Driver.{DbError}
use pkd_server_go.Store.Rows.{Db}
use pkd_server_go.Store.Reads.{list_keys_for_actor, store_message}
use pkd_server_go.Api.Handler.{
  Server, Handler, Payload, status_text, key_list, problem, problem_of, of_db, of_peer, bad_request,
  unauthorized, internal_error, ◌>>=◌, ◌>>◌, respond, need, need_ok, reads, writes,
  get_directory_public_key,
}

unfoldable pub process_query_action : Server → ProtocolMessage → Handler Payload
process_query_action s msg = do
  query ← need (unmarshal_query msg.message) (problem bad_request "Invalid Query message format")
  keys ←
      reads (list_keys_for_actor s.driver query.actor)
        (λ e. problem internal_error "Failed to retrieve actor keys")
  respond (key_list keys)

-- A statement outside a transaction: where it fails, it has changed nothing.
abbrev pub kept : Db → Result DbError Db → Result DbError (Unit {0}) × Db
kept db (ok db') = (ok tt, db')
kept db (err e) = (err e, db)

unfoldable pub process_checkpoint_action : Server → ProtocolMessage → Handler Payload
process_checkpoint_action s msg = do
  checkpoint ←
      need (unmarshal_checkpoint msg.message)
        (problem bad_request "Invalid Checkpoint message format")
  key ←
      need_ok (get_directory_public_key s checkpoint.from_directory)
        (λ e. problem_of bad_request "Unknown or invalid from-directory: " (of_peer e))
  need_ok (verify_message_signature s.primitives msg key)
      (λ e. problem unauthorized "Invalid signature from directory server")
  let raw : Json = marshal_message msg
  writes (λ db. kept db (store_message s.driver (hash_bytes s.primitives raw) raw raw db))
      (λ e. problem_of internal_error "Failed to store checkpoint message: " (of_db e))
  respond (status_text "Checkpoint processed successfully")
