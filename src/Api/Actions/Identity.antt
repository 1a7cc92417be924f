-- ===== src/Api/Actions/Identity.antt =====
-- MoveIdentity, BurnDown, Fireproof and UndoFireproof.
use pkd_server_go.Prelude.{Bool, true, false, not, List, [], ◌∷◌, Option, none, some, ◌==◌}
use pkd_server_go.Protocol.Messages.{ProtocolMessage, signed_part}
use pkd_server_go.Protocol.Unmarshal.{
  unmarshal_move_identity, unmarshal_burn_down, unmarshal_fireproof, unmarshal_undo_fireproof,
}
use pkd_server_go.Signing.{Bytes, decrypt_with_hpke, validate_totp}
use pkd_server_go.Store.Reads.{list_keys_for_actor, get_totp_secret, set_fireproof}
use pkd_server_go.Store.Rows.{PublicKey}
use pkd_server_go.Domain.Service.{process_move_identity, process_burn_down}
use pkd_server_go.Api.Handler.{
  Server, Handler, Payload, status_text, problem, problem_of, of_failure, of_db, bad_request,
  unauthorized, internal_error, ◌>>=◌, ◌>>◌, respond, ensure, need, reads, writes, submit,
}
use pkd_server_go.Api.Signatures.{signed_by_one}

-- `len(keys) == 0`
abbrev pub is_nil : List PublicKey → Bool
is_nil [] = true
is_nil (k ∷ ks) = false

unfoldable pub process_move_identity_action : Server → ProtocolMessage → Handler Payload
process_move_identity_action s msg = do
  move ←
      need (unmarshal_move_identity msg.message)
        (problem bad_request "Invalid MoveIdentity message format")
  existing ←
      reads (list_keys_for_actor s.driver move.old_actor)
        (λ e. problem internal_error "Failed to fetch existing keys for old actor")
  ensure (not (is_nil existing)) (problem bad_request "Old actor has no keys to sign with")
  ensure (signed_by_one s.primitives msg existing) (
      problem unauthorized
        "Invalid signature: MoveIdentity must be signed by a key from the old actor")
  root ← submit s (signed_part msg)
  writes (process_move_identity s.driver move root)
      (λ e. problem_of internal_error "Failed to process MoveIdentity in database: " (of_failure e))
  respond (status_text "MoveIdentity processed successfully")

-- The code is asked for where the operator has enrolled a secret.
unfoldable pub check_otp : Server → ProtocolMessage → Option Bytes → Handler (Unit {0})
check_otp s msg none = respond tt
check_otp s msg (some encrypted) = do
  ensure (not (msg.otp == "")) (problem bad_request "Missing OTP for BurnDown action")
  ensure s.has_kem_key (problem internal_error "Internal server error processing key")
  secret ←
      need (decrypt_with_hpke s.primitives encrypted)
        (problem internal_error "Could not process TOTP secret")
  ensure (validate_totp s.primitives secret msg.otp) (problem unauthorized "Invalid OTP")

unfoldable pub process_burn_down_action : Server → ProtocolMessage → Handler Payload
process_burn_down_action s msg = do
  burn ←
      need (unmarshal_burn_down msg.message) (problem bad_request "Invalid BurnDown message format")
  operator_keys ←
      reads (list_keys_for_actor s.driver burn.operator)
        (λ e. problem internal_error "Failed to fetch existing keys for operator")
  ensure (not (is_nil operator_keys)) (problem bad_request "Operator has no keys to sign with")
  ensure (signed_by_one s.primitives msg operator_keys)
      (problem unauthorized "Invalid signature: BurnDown must be signed by a key from the operator")
  encrypted ←
      reads (get_totp_secret s.driver burn.operator)
        (λ e. problem internal_error "Failed to retrieve TOTP secret")
  check_otp s msg encrypted
  root ← submit s (signed_part msg)
  writes (process_burn_down s.driver burn.actor root)
      (λ e. problem_of internal_error "Failed to process BurnDown in database: " (of_failure e))
  respond (status_text "BurnDown processed successfully")

unfoldable pub process_fireproof_action : Server → ProtocolMessage → Handler Payload
process_fireproof_action s msg = do
  fireproof ←
      need (unmarshal_fireproof msg.message)
        (problem bad_request "Invalid Fireproof message format")
  existing ←
      reads (list_keys_for_actor s.driver fireproof.actor)
        (λ e. problem internal_error "Failed to fetch existing keys for actor")
  ensure (not (is_nil existing)) (problem bad_request "Actor has no keys to sign with")
  ensure (signed_by_one s.primitives msg existing)
      (problem unauthorized "Invalid signature: Fireproof must be signed by a key from the actor")
  root ← submit s (signed_part msg)
  writes (set_fireproof s.driver fireproof.actor true)
      (λ e. problem_of internal_error "Failed to set fireproof status: " (of_db e))
  respond (status_text "Fireproof processed successfully")

unfoldable pub process_undo_fireproof_action : Server → ProtocolMessage → Handler Payload
process_undo_fireproof_action s msg = do
  undo ←
      need (unmarshal_undo_fireproof msg.message)
        (problem bad_request "Invalid UndoFireproof message format")
  existing ←
      reads (list_keys_for_actor s.driver undo.actor)
        (λ e. problem internal_error "Failed to fetch existing keys for actor")
  ensure (not (is_nil existing)) (problem bad_request "Actor has no keys to sign with")
  ensure (signed_by_one s.primitives msg existing) (
      problem unauthorized
        "Invalid signature: UndoFireproof must be signed by a key from the actor")
  root ← submit s (signed_part msg)
  writes (set_fireproof s.driver undo.actor false)
      (λ e. problem_of internal_error "Failed to set fireproof status: " (of_db e))
  respond (status_text "UndoFireproof processed successfully")
