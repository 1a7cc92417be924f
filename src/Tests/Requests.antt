-- ===== src/Tests/Requests.antt =====
-- Runs of the handlers and of the endpoint of internal/api.
use pkd_server_go.Prelude.{
  String, ◌≡◌, refl, ◌⊎◌, [], ◌∷◌, ◌++◌, some, ◌==◌, any, all, find, select, update, count,
  if◌then◌else◌,
}
use pkd_server_go.Encoding.{
  encode_raw_url, char_of, decode_digit, digits_of, pack, decode_raw_url, decode_std_digit,
  pack_std, decode_std,
}
use pkd_server_go.Json.{Fields, field, end, str, obj, member, fold_code, fold_eq, read_string}
use pkd_server_go.Signing.{Bytes, cut_prefix, decode_public_key, verify_message_signature, bytes_eq}
use pkd_server_go.Text.{
  is_space, trim_left, trim_right, has_suffix, contains, split, fields, cut, to_lower,
}
use pkd_server_go.Protocol.Messages.{ProtocolMessage, signed_part, marshal_signed}
use pkd_server_go.Protocol.Unmarshal.{
  unmarshal_with_checks, unmarshal_add_key, unmarshal_revoke_key, unmarshal_move_identity,
  unmarshal_burn_down, decode_message, decode_preliminary,
}
use pkd_server_go.Store.Reads.{
  owned_by, find_actor_by_actor_id, active_keys, list_keys_for_actor, get_totp_secret,
}
use pkd_server_go.Store.Writes.{
  get_or_create_actor, tx_actor_exists, tx_update_actor_id, tx_insert_public_key,
  tx_find_key_to_revoke, tx_revoke_key, all_hashes, tx_get_message_hashes_for_actor,
  tx_revoke_all_keys_for_actor, tx_delete_symmetric_keys_by_hashes, is_hash_in,
}
use pkd_server_go.Domain.Transaction.{commit, run_body, transaction}
use pkd_server_go.Domain.Service.{
  generate_key_id, store_keys, add_key_body, process_add_key, revoke_key_body, process_revoke_key,
  move_identity_body, process_move_identity, burn_down_body, process_burn_down,
}
use pkd_server_go.Api.Handler.{
  key_added, status_text, problem, bad_request, ensure, need, need_ok, reads, writes,
  submit_message, submit, lookup,
}
use pkd_server_go.Api.Signatures.{
  key_verifies, signed_by_one, other_key_verifies, signed_by_other, decode_symmetric_keys,
}
use pkd_server_go.Api.HttpSignature.{
  is_public_host, validate_url, pem_of, key_of_answer, fetch_actor_public_key,
  parse_signature_header,
}
use pkd_server_go.Api.Dispatch.{
  Request, complete, value, value_of, signed_header, signing_string, check_http_signature,
  check_activity, action_handlers, is_activity, check_request, handle_protocol_message,
  pkd_context_v1,
}
use pkd_server_go.Api.Actions.Keys.{
  check_add_signature, process_add_key_action, process_revoke_key_action,
}
use pkd_server_go.Api.Actions.Identity.{
  check_otp, process_move_identity_action, process_burn_down_action,
}
use pkd_server_go.Api.Accepted.{
  process_add_key_action-success, process_revoke_key_action-success,
  process_move_identity_action-success, process_burn_down_action-success,
}
use pkd_server_go.Api.Transparency.{directory, after, handle_protocol_message-IsLogged}
use pkd_server_go.Api.Errors.{handle_protocol_message-error}
use pkd_server_go.Api.Invariant.{handle_protocol_message-IsConsistent}
use pkd_server_go.Store.Consistency.{IsConsistent}
use pkd_server_go.Api.Signed.{HttpSigned, handle_protocol_message-HttpSigned}
use pkd_server_go.Tests.Fixtures.{server, world, message, db-IsConsistent, text_one, text_two}

abbrev key_fields : String → Fields
key_fields text =
    field "actor" (str "alice") (field "time" (str "1") (field "public-key" (str text) end))

abbrev revocation : ProtocolMessage
revocation = message "RevokeKey" (key_fields text_two)

process_revoke_key_action-success_example :
    (process_revoke_key_action server revocation world).1.logged ≡ signed_part revocation ∷ []
unfolding process_revoke_key_action unmarshal_revoke_key need_ok other_key_verifies signed_by_other
    decode_symmetric_keys process_revoke_key revoke_key_body tx_find_key_to_revoke tx_revoke_key
    store_keys find update ensure need all member read_string fold_eq fold_code reads
    list_keys_for_actor active_keys select owned_by any decode_public_key cut_prefix decode_raw_url
    digits_of decode_digit pack key_verifies verify_message_signature bytes_eq submit submit_message
    writes transaction run_body commit unmarshal_with_checks
process_revoke_key_action-success_example =
    (process_revoke_key_action-success server revocation world
      (status_text "RevokeKey processed successfully") db-IsConsistent refl).5

abbrev addition : ProtocolMessage
addition = message "AddKey" (key_fields text_one)

process_add_key_action-success_example :
    (process_add_key_action server addition world).1.logged ≡ signed_part addition ∷ []
unfolding process_add_key_action check_add_signature unmarshal_add_key need_ok signed_by_one
    decode_symmetric_keys process_add_key add_key_body get_or_create_actor generate_key_id
    encode_raw_url char_of tx_insert_public_key store_keys find ensure need all member read_string
    fold_eq fold_code reads list_keys_for_actor active_keys select owned_by any decode_public_key
    cut_prefix decode_raw_url digits_of decode_digit pack key_verifies verify_message_signature
    bytes_eq submit submit_message writes transaction run_body commit unmarshal_with_checks
process_add_key_action-success_example =
    (process_add_key_action-success server addition world (key_added "AQ" "root") db-IsConsistent
      refl).4

abbrev move : ProtocolMessage
move =
    message "MoveIdentity"
      (field "old-actor" (str "alice") (field "new-actor" (str "bob") (field "time" (str "1") end)))

process_move_identity_action-success_example :
    (process_move_identity_action server move world).1.logged ≡ signed_part move ∷ []
unfolding process_move_identity_action unmarshal_move_identity signed_by_one process_move_identity
    move_identity_body tx_actor_exists tx_update_actor_id update count ensure need all member
    read_string fold_eq fold_code reads list_keys_for_actor active_keys select owned_by any
    decode_public_key cut_prefix decode_raw_url digits_of decode_digit pack key_verifies
    verify_message_signature bytes_eq submit submit_message writes transaction run_body commit
    unmarshal_with_checks
process_move_identity_action-success_example =
    (process_move_identity_action-success server move world
      (status_text "MoveIdentity processed successfully") refl).3

abbrev end_of_alice : ProtocolMessage
end_of_alice =
    message "BurnDown"
      (field "actor" (str "alice") (field "operator" (str "op") (field "time" (str "1") end)))

process_burn_down_action-success_example :
    (process_burn_down_action server end_of_alice world).1.logged ≡ signed_part end_of_alice ∷ []
unfolding process_burn_down_action unmarshal_burn_down signed_by_one get_totp_secret check_otp
    process_burn_down burn_down_body find_actor_by_actor_id tx_get_message_hashes_for_actor
    tx_delete_symmetric_keys_by_hashes tx_revoke_all_keys_for_actor all_hashes is_hash_in find
    update ensure need all member read_string fold_eq fold_code reads list_keys_for_actor
    active_keys select owned_by any decode_public_key cut_prefix decode_raw_url digits_of
    decode_digit pack key_verifies verify_message_signature bytes_eq submit submit_message writes
    transaction run_body commit unmarshal_with_checks
process_burn_down_action-success_example =
    (process_burn_down_action-success server end_of_alice world
      (status_text "BurnDown processed successfully") db-IsConsistent refl).6

-- The move as a request from ActivityPub, with a header that names key one.
abbrev headers : String → String
headers name =
    if name == "Content-Type"
    then "application/activity+json"
    else if name == "Signature"
    then "keyId=\"https://example.org/u\",headers=\"(request-target)\",signature=\"AQEBAQEBAQEBAQEBAQEBAQEBAQEBAQEBAQEBAQEBAQE=\""
    else ""

abbrev request : Request
request = record {
  method = "POST";
  path = "/protocol";
  header = headers;
  read_all = complete;
  first = value (
      obj (
        field "!pkd-context" (str pkd_context_v1) (
          field "action" (str "MoveIdentity") (
            field "message"
              (obj (
                field "old-actor" (str "alice")
                  (field "new-actor" (str "bob") (field "time" (str "1") end))))
              (field "signature" (str "AQEBAQEBAQEBAQEBAQEBAQEBAQEBAQEBAQEBAQEBAQE") end)))));
}

abbrev to_bytes : String → Bytes
to_bytes text = []

handle_protocol_message-HttpSigned_example : HttpSigned server to_bytes request world
unfolding handle_protocol_message check_request check_activity check_http_signature is_activity
    decode_message decode_preliminary signed_header signing_string action_handlers lookup contains
    split fields cut to_lower is_space trim_left trim_right has_suffix is_public_host validate_url
    pem_of key_of_answer fetch_actor_public_key parse_signature_header decode_std pack_std
    decode_std_digit process_move_identity_action unmarshal_move_identity signed_by_one
    process_move_identity move_identity_body tx_actor_exists tx_update_actor_id update count ensure
    need all member read_string fold_eq fold_code reads list_keys_for_actor active_keys select
    owned_by any decode_public_key cut_prefix decode_raw_url digits_of decode_digit pack
    key_verifies verify_message_signature bytes_eq submit submit_message writes transaction run_body
    commit unmarshal_with_checks
handle_protocol_message-HttpSigned_example =
    handle_protocol_message-HttpSigned server to_bytes request world
      (status_text "MoveIdentity processed successfully") refl refl

handle_protocol_message-IsLogged_example :
    (((after server to_bytes request world).logged ≡ world.logged)
      × (directory (after server to_bytes request world).db ≡ directory world.db))
    ⊎ ((m : ProtocolMessage) × (root : String) × (decode_message (value_of request.first) ≡ some m)
        × (submit_message (server.post_sigsum (marshal_signed (signed_part m))) ≡ some root)
        × ((after server to_bytes request world).logged ≡ world.logged ++ signed_part m ∷ []))
handle_protocol_message-IsLogged_example =
    handle_protocol_message-IsLogged server to_bytes request world

-- The same request with a body of another context.
abbrev refused : Request
refused = record request {
  first = value (obj (field "!pkd-context" (str "x") end));
  header = λ name. "";
}

handle_protocol_message-error_example :
    (handle_protocol_message server to_bytes refused world).1.db ≡ world.db
unfolding handle_protocol_message check_request is_activity contains cut_prefix decode_message
    read_string fold_eq fold_code ensure need
handle_protocol_message-error_example =
    handle_protocol_message-error server to_bytes refused world
      (problem bad_request "Invalid !pkd-context") refl refl

handle_protocol_message-IsConsistent_example :
    IsConsistent (handle_protocol_message server to_bytes request world).1.db
handle_protocol_message-IsConsistent_example =
    handle_protocol_message-IsConsistent server to_bytes request world db-IsConsistent
