-- ===== src/Api/Transparency.antt =====
-- The transparency log: what the handlers of internal/api/protocol_actions.go have submitted to the
-- SigSum server when they change the directory.
use pkd_server_go.Prelude.{String, ◌≡◌, ◌⊎◌, inl, inr, [], ◌∷◌, ◌++◌, some, arith}
use pkd_server_go.Signing.{Bytes, hash_bytes}
use pkd_server_go.Json.{Json}
use pkd_server_go.Protocol.Messages.{ProtocolMessage, signed_part, marshal_signed}
use pkd_server_go.Protocol.Unmarshal.{decode_message}
use pkd_server_go.Protocol.Messages.{marshal_message}
use pkd_server_go.Store.Driver.{Driver}
use pkd_server_go.Store.Reads.{store_message}
use pkd_server_go.Store.Rows.{Db, empty_table}
use pkd_server_go.Api.Handler.{
  Server, World, Handler, Payload, ensure, need, need_ok, reads, writes, submit, submit_message,
}
use pkd_server_go.Api.Actions.Keys.{
  check_add_signature, process_add_key_action, process_revoke_key_action,
}
use pkd_server_go.Api.Actions.Identity.{
  check_otp, process_move_identity_action, process_burn_down_action, process_fireproof_action,
  process_undo_fireproof_action,
}
use pkd_server_go.Api.Actions.Auxiliary.{
  process_add_aux_data_action, process_revoke_aux_data_action,
}
use pkd_server_go.Api.Actions.Other.{kept, process_checkpoint_action, process_query_action}
use pkd_server_go.Api.Dispatch.{Request, value_of, action_handler, handle_protocol_message}
use pkd_server_go.Api.Routes.{
  checked, every_action, check_request-quiet, handle_protocol_message-cases,
}

-- The directory: all tables but the log of messages from other directories.
abbrev pub directory : Db → Db
directory db = record db { message_logs = empty_table }

-- The message is in the log, with a Merkle root from the SigSum server, or the directory and the
-- log are as before.
abbrev pub IsLogged : Server → ProtocolMessage → World → World → Type 0
IsLogged s msg w w' =
    ((w'.logged ≡ w.logged ++ signed_part msg ∷ [])
      × ((root : String) × (submit_message (s.post_sigsum (marshal_signed (signed_part msg)))
            ≡ some root)))
    ⊎ ((w'.logged ≡ w.logged) × (directory w'.db ≡ directory w.db))

directory-store_message :
    (d : Driver) (h : String) (raw text : Json) (db : Db)
    → directory (kept db (store_message d h raw text db)).1 ≡ directory db
unfolding store_message
directory-store_message d h raw text db = ground arith

module _ (s : Server) (msg : ProtocolMessage) (w : World) where
  add_key-IsLogged : IsLogged s msg w (process_add_key_action s msg w).1
  unfolding process_add_key_action check_add_signature ensure need need_ok reads writes submit
  add_key-IsLogged = ground arith

  revoke_key-IsLogged : IsLogged s msg w (process_revoke_key_action s msg w).1
  unfolding process_revoke_key_action ensure need need_ok reads writes submit
  revoke_key-IsLogged = ground arith

  move_identity-IsLogged : IsLogged s msg w (process_move_identity_action s msg w).1
  unfolding process_move_identity_action ensure need reads writes submit
  move_identity-IsLogged = ground arith

  burn_down-IsLogged : IsLogged s msg w (process_burn_down_action s msg w).1
  unfolding process_burn_down_action check_otp ensure need reads writes submit
  burn_down-IsLogged = ground arith

  fireproof-IsLogged : IsLogged s msg w (process_fireproof_action s msg w).1
  unfolding process_fireproof_action ensure need reads writes submit
  fireproof-IsLogged = ground arith

  undo_fireproof-IsLogged : IsLogged s msg w (process_undo_fireproof_action s msg w).1
  unfolding process_undo_fireproof_action ensure need reads writes submit
  undo_fireproof-IsLogged = ground arith

  add_aux_data-IsLogged : IsLogged s msg w (process_add_aux_data_action s msg w).1
  unfolding process_add_aux_data_action ensure need reads writes submit
  add_aux_data-IsLogged = ground arith

  revoke_aux_data-IsLogged : IsLogged s msg w (process_revoke_aux_data_action s msg w).1
  unfolding process_revoke_aux_data_action ensure need reads writes submit
  revoke_aux_data-IsLogged = ground arith

  pub query-directory : directory (process_query_action s msg w).1.db ≡ directory w.db
  unfolding process_query_action need reads
  query-directory = ground arith

  pub checkpoint-directory : directory (process_checkpoint_action s msg w).1.db ≡ directory w.db
  unfolding process_checkpoint_action need need_ok writes
  checkpoint-directory =
      let raw = marshal_message msg in
      ground (arith, directory-store_message s.driver (hash_bytes s.primitives raw) raw raw w.db)

  query-IsLogged : IsLogged s msg w (process_query_action s msg w).1
  unfolding process_query_action need reads
  query-IsLogged = ground arith

  checkpoint-IsLogged : IsLogged s msg w (process_checkpoint_action s msg w).1
  unfolding process_checkpoint_action need need_ok writes
  checkpoint-IsLogged = let same = checkpoint-directory in ground arith

  action-IsLogged :
      (handler : ProtocolMessage → Handler Payload)
      → action_handler s msg.action ≡ some handler
      → IsLogged s msg w (handler msg w).1
  action-IsLogged handler e =
      every_action s (λ h. IsLogged s msg w (h msg w).1) msg.action handler e add_key-IsLogged
        revoke_key-IsLogged move_identity-IsLogged burn_down-IsLogged fireproof-IsLogged
        undo_fireproof-IsLogged add_aux_data-IsLogged revoke_aux_data-IsLogged checkpoint-IsLogged
        query-IsLogged

-- The world after a request.
abbrev pub after : Server → (String → Bytes) → Request → World → World
after s sign_bytes r w = (handle_protocol_message s sign_bytes r w).1

-- Whatever a request to the protocol's endpoint is and however it is answered, either the log and
-- the directory (all tables but the one of messages from other directories) are as before, or its
-- body holds a message for which the SigSum server has answered with a Merkle root, and that message
-- and nothing else is new in the log.
pub handle_protocol_message-IsLogged :
    (s : Server) (sign_bytes : String → Bytes) (r : Request) (w : World)
    → (((after s sign_bytes r w).logged ≡ w.logged)
        × (directory (after s sign_bytes r w).db ≡ directory w.db))
      ⊎ ((m : ProtocolMessage) × (root : String) × (decode_message (value_of r.first) ≡ some m)
          × (submit_message (s.post_sigsum (marshal_signed (signed_part m))) ≡ some root)
          × ((after s sign_bytes r w).logged ≡ w.logged ++ signed_part m ∷ []))
handle_protocol_message-IsLogged s sign_bytes r w =
    let (same_db, same_log) = check_request-quiet s sign_bytes r w in
    elim (handle_protocol_message-cases s sign_bytes r w) [
      | inr (p, e) ↦ ground arith
      | inl (m, h, decoded, context, found, passed, e) ↦
          elim (action-IsLogged s m (checked s sign_bytes r w).1 h found) [
            | inl (appended, (root, answered)) ↦ inr (m, root, decoded, answered, ground arith)
            | inr (same, kept_) ↦ inl (ground arith, ground arith)
          ]
    ]
