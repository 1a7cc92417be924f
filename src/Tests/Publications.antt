-- ===== src/Tests/Publications.antt =====
-- Runs of the handlers of Fireproof, auxiliary data, Query and Checkpoint of internal/api.
use pkd_server_go.Prelude.{false, ◌≡◌, refl, [], ◌∷◌, ◌==◌, any, all, find, select, update, count}
use pkd_server_go.Encoding.{encode_raw_url, char_of, decode_digit, digits_of, pack, decode_raw_url}
use pkd_server_go.Signing.{hash_bytes}
use pkd_server_go.Json.{Fields, field, end, str, member, fold_code, fold_eq, read_string}
use pkd_server_go.Signing.{cut_prefix, decode_public_key, verify_message_signature, bytes_eq}
use pkd_server_go.Protocol.Messages.{ProtocolMessage, signed_part, marshal_message}
use pkd_server_go.Protocol.Unmarshal.{unmarshal_with_checks}
use pkd_server_go.Store.Reads.{owned_by, active_keys, list_keys_for_actor}
use pkd_server_go.Store.Writes.{get_or_create_actor}
use pkd_server_go.Domain.Transaction.{commit, run_body, transaction}
use pkd_server_go.Domain.Service.{generate_key_id}
use pkd_server_go.Api.Handler.{
  status_text, ensure, need, need_ok, reads, writes, submit_message, submit, lookup,
}
use pkd_server_go.Api.Signatures.{key_verifies, signed_by_one}
use pkd_server_go.Store.Reads.{set_fireproof, store_message}
use pkd_server_go.Store.Writes.{tx_insert_aux_data, tx_revoke_aux_data}
use pkd_server_go.Domain.Service.{
  registered, add_aux_data_body, process_add_aux_data, revoke_aux_data_body,
  process_revoke_aux_data,
}
use pkd_server_go.Protocol.Unmarshal.{
  unmarshal_fireproof, unmarshal_add_aux_data, unmarshal_revoke_aux_data, unmarshal_checkpoint,
}
use pkd_server_go.Api.Handler.{Server, get_directory_public_key, aux_added}
use pkd_server_go.Api.Actions.Identity.{process_fireproof_action}
use pkd_server_go.Api.Actions.Auxiliary.{
  process_add_aux_data_action, process_revoke_aux_data_action,
}
use pkd_server_go.Api.Actions.Other.{process_checkpoint_action}
use pkd_server_go.Api.Published.{
  process_fireproof_action-success, process_add_aux_data_action-success,
  process_revoke_aux_data_action-success, process_checkpoint_action-success,
}
use pkd_server_go.Tests.Fixtures.{server, world, message, db-IsConsistent}

abbrev actor_fields : Fields → Fields
actor_fields rest = field "actor" (str "alice") (field "time" (str "1") rest)

abbrev fireproof : ProtocolMessage
fireproof = message "Fireproof" (actor_fields end)

process_fireproof_action-success_example :
    (process_fireproof_action server fireproof world).1.logged ≡ signed_part fireproof ∷ []
unfolding process_fireproof_action unmarshal_fireproof set_fireproof update ensure need all member
    read_string fold_eq fold_code reads list_keys_for_actor active_keys select owned_by any
    decode_public_key cut_prefix decode_raw_url digits_of decode_digit pack key_verifies
    verify_message_signature bytes_eq submit submit_message writes unmarshal_with_checks
    signed_by_one
process_fireproof_action-success_example =
    (process_fireproof_action-success server fireproof world
      (status_text "Fireproof processed successfully") refl).3

abbrev new_aux : ProtocolMessage
new_aux =
    message "AddAuxData"
      (actor_fields (field "aux-type" (str "pronouns") (field "aux-data" (str "y") end)))

process_add_aux_data_action-success_example :
    (process_add_aux_data_action server new_aux world).1.logged ≡ signed_part new_aux ∷ []
unfolding process_add_aux_data_action unmarshal_add_aux_data process_add_aux_data add_aux_data_body
    registered get_or_create_actor generate_key_id encode_raw_url char_of tx_insert_aux_data find
    ensure need all member read_string fold_eq fold_code reads list_keys_for_actor active_keys
    select owned_by any decode_public_key cut_prefix decode_raw_url digits_of decode_digit pack
    key_verifies verify_message_signature bytes_eq submit submit_message writes
    unmarshal_with_checks signed_by_one transaction run_body commit
process_add_aux_data_action-success_example =
    (process_add_aux_data_action-success server new_aux world (aux_added "AQ") db-IsConsistent
      refl).4

abbrev old_aux : ProtocolMessage
old_aux =
    message "RevokeAuxData"
      (actor_fields (field "aux-type" (str "avatar") (field "aux-id" (str "a1") end)))

process_revoke_aux_data_action-success_example :
    (process_revoke_aux_data_action server old_aux world).1.logged ≡ signed_part old_aux ∷ []
unfolding process_revoke_aux_data_action unmarshal_revoke_aux_data process_revoke_aux_data
    revoke_aux_data_body tx_revoke_aux_data update count ensure need all member read_string fold_eq
    fold_code reads list_keys_for_actor active_keys select owned_by any decode_public_key cut_prefix
    decode_raw_url digits_of decode_digit pack key_verifies verify_message_signature bytes_eq submit
    submit_message writes unmarshal_with_checks signed_by_one transaction run_body commit
process_revoke_aux_data_action-success_example =
    (process_revoke_aux_data_action-success server old_aux world
      (status_text "RevokeAuxData processed successfully") db-IsConsistent refl).3

abbrev query : ProtocolMessage
query = message "Query" (actor_fields end)

abbrev with_peer : Server
with_peer = record server {
  peers = ("https://d", "AQEBAQEBAQEBAQEBAQEBAQEBAQEBAQEBAQEBAQEBAQE") ∷ [];
}

abbrev checkpoint : ProtocolMessage
checkpoint = message "Checkpoint" (
    field "time" (str "1") (
      field "from-directory" (str "https://d") (
        field "from-root" (str "r") (
          field "from-public-key" (str "k")
            (field "to-directory" (str "https://e") (field "to-validated-root" (str "v") end))))))

process_checkpoint_action-success_example :
    any
      (λ l. l.message_hash == hash_bytes with_peer.primitives (marshal_message checkpoint))
      world.db.message_logs.rows
    ≡ false
unfolding process_checkpoint_action unmarshal_checkpoint get_directory_public_key lookup
    store_message need_ok need all member read_string fold_eq fold_code any decode_raw_url digits_of
    decode_digit pack verify_message_signature bytes_eq writes unmarshal_with_checks
process_checkpoint_action-success_example =
    (process_checkpoint_action-success with_peer checkpoint world
      (status_text "Checkpoint processed successfully") refl).6
