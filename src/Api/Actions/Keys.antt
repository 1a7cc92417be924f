-- ===== src/Api/Actions/Keys.antt =====
-- AddKey and RevokeKey.
use pkd_server_go.Prelude.{not, List, [], ◌∷◌, ltb, length}
use pkd_server_go.Protocol.Messages.{ProtocolMessage, AddKeyMessage, signed_part}
use pkd_server_go.Protocol.Unmarshal.{unmarshal_add_key, unmarshal_revoke_key}
use pkd_server_go.Signing.{decode_public_key, verify_message_signature}
use pkd_server_go.Store.Reads.{list_keys_for_actor}
use pkd_server_go.Store.Rows.{PublicKey}
use pkd_server_go.Domain.Service.{process_add_key, process_revoke_key}
use pkd_server_go.Api.Handler.{
  Server, Handler, Payload, key_added, status_text, problem, problem_of, of_failure, of_key,
  of_text, bad_request, unauthorized, internal_error, ◌>>=◌, ◌>>◌, respond, ensure, need, need_ok,
  reads, writes, submit,
}
use pkd_server_go.Api.Signatures.{signed_by_one, signed_by_other, decode_symmetric_keys}

-- The first key of an actor signs itself, and a later one is signed by an existing key.
unfoldable pub check_add_signature :
    Server → ProtocolMessage → AddKeyMessage → List PublicKey → Handler (Unit {0})
check_add_signature s msg add [] = do
  key ←
      need_ok (decode_public_key add.public_key)
        (λ e. problem_of bad_request "Invalid public key format for self-signing: " (of_key e))
  need_ok (verify_message_signature s.primitives msg key)
      (λ e. problem unauthorized "Invalid self-signature on first AddKey message")
check_add_signature s msg add (k ∷ ks) =
    ensure (signed_by_one s.primitives msg (k ∷ ks))
      (problem unauthorized "Invalid signature: AddKey must be signed by an existing key")

unfoldable pub process_add_key_action : Server → ProtocolMessage → Handler Payload
process_add_key_action s msg = do
  add ← need (unmarshal_add_key msg.message) (problem bad_request "Invalid AddKey message format")
  existing ←
      reads (list_keys_for_actor s.driver add.actor)
        (λ e. problem internal_error "Failed to check for existing keys")
  check_add_signature s msg add existing
  root ← submit s (signed_part msg)
  keys ←
      need_ok (decode_symmetric_keys msg.symmetric_keys)
        (λ a. problem_of bad_request "Invalid base64 for symmetric key: " (of_text a))
  key ←
      writes (process_add_key s.driver s.random add root keys)
        (λ e. problem_of internal_error "Failed to process AddKey in database: " (of_failure e))
  respond (key_added key.key_id key.merkle_root)

unfoldable pub process_revoke_key_action : Server → ProtocolMessage → Handler Payload
process_revoke_key_action s msg = do
  revoke ←
      need (unmarshal_revoke_key msg.message)
        (problem bad_request "Invalid RevokeKey message format")
  existing ←
      reads (list_keys_for_actor s.driver revoke.actor)
        (λ e. problem internal_error "Failed to fetch existing keys")
  ensure (not (ltb (length existing) 2))
      (problem bad_request "Cannot use RevokeKey on the last remaining key")
  key ←
      need_ok (decode_public_key revoke.public_key)
        (λ e. problem bad_request "Invalid public key format in revocation message")
  ensure (signed_by_other s.primitives msg key existing) (
      problem unauthorized
        "Invalid signature: RevokeKey must be signed by another valid key for the actor")
  root ← submit s (signed_part msg)
  keys ←
      need_ok (decode_symmetric_keys msg.symmetric_keys)
        (λ a. problem_of bad_request "Invalid base64 for symmetric key: " (of_text a))
  writes (process_revoke_key s.driver revoke root keys)
      (λ e. problem_of internal_error "Failed to process RevokeKey in database: " (of_failure e))
  respond (status_text "RevokeKey processed successfully")
