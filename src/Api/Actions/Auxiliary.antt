-- ===== src/Api/Actions/Auxiliary.antt =====
-- AddAuxData and RevokeAuxData.
use pkd_server_go.Prelude.{not}
use pkd_server_go.Protocol.Messages.{ProtocolMessage, signed_part}
use pkd_server_go.Protocol.Unmarshal.{unmarshal_add_aux_data, unmarshal_revoke_aux_data}
use pkd_server_go.Store.Reads.{list_keys_for_actor}
use pkd_server_go.Domain.Service.{process_add_aux_data, process_revoke_aux_data}
use pkd_server_go.Api.Handler.{
  Server, Handler, Payload, aux_added, status_text, problem, problem_of, of_failure, bad_request,
  unauthorized, internal_error, ◌>>=◌, ◌>>◌, respond, ensure, need, reads, writes, submit,
}
use pkd_server_go.Api.Signatures.{signed_by_one}
use pkd_server_go.Api.Actions.Identity.{is_nil}

unfoldable pub process_add_aux_data_action : Server → ProtocolMessage → Handler Payload
process_add_aux_data_action s msg = do
  add ←
      need (unmarshal_add_aux_data msg.message)
        (problem bad_request "Invalid AddAuxData message format")
  existing ←
      reads (list_keys_for_actor s.driver add.actor)
        (λ e. problem internal_error "Failed to fetch existing keys for actor")
  ensure (not (is_nil existing)) (problem bad_request "Actor has no keys to sign with")
  ensure (signed_by_one s.primitives msg existing)
      (problem unauthorized "Invalid signature: AddAuxData must be signed by a key from the actor")
  root ← submit s (signed_part msg)
  aux ←
      writes (process_add_aux_data s.validators s.driver s.random add root)
        (λ e. problem_of internal_error "Failed to process AddAuxData in database: " (of_failure e))
  respond (aux_added aux.aux_id)

unfoldable pub process_revoke_aux_data_action : Server → ProtocolMessage → Handler Payload
process_revoke_aux_data_action s msg = do
  revoke ←
      need (unmarshal_revoke_aux_data msg.message)
        (problem bad_request "Invalid RevokeAuxData message format")
  existing ←
      reads (list_keys_for_actor s.driver revoke.actor)
        (λ e. problem internal_error "Failed to fetch existing keys for actor")
  ensure (not (is_nil existing)) (problem bad_request "Actor has no keys to sign with")
  ensure (signed_by_one s.primitives msg existing) (
      problem unauthorized
        "Invalid signature: RevokeAuxData must be signed by a key from the actor")
  root ← submit s (signed_part msg)
  writes (process_revoke_aux_data s.driver revoke root) (λ e.
      problem_of internal_error "Failed to process RevokeAuxData in database: " (of_failure e))
  respond (status_text "RevokeAuxData processed successfully")
