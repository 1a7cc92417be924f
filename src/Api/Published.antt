-- ===== src/Api/Published.antt =====
-- What the handlers of Fireproof, UndoFireproof, auxiliary data, Query and Checkpoint of
-- internal/api/protocol_actions.go have done where they answer with success.
use pkd_server_go.Prelude.{
  suc, String, ◌≡◌, refl, ap, ◌∙◌, inl, inr, Bool, true, false, List, [], ◌∷◌, ◌++◌, some, ok,
  arith, Result-cases, Option-cases, ◌==◌, any, find, update,
}
use pkd_server_go.Signing.{Bytes, hash_bytes, verify_message_signature}
use pkd_server_go.Protocol.Messages.{
  ProtocolMessage, FireproofMessage, UndoFireproofMessage, AddAuxDataMessage, RevokeAuxDataMessage,
  QueryMessage, CheckpointMessage, signed_part, marshal_message,
}
use pkd_server_go.Protocol.Unmarshal.{
  unmarshal_fireproof, unmarshal_undo_fireproof, unmarshal_add_aux_data, unmarshal_revoke_aux_data,
  unmarshal_query, unmarshal_checkpoint,
}
use pkd_server_go.Store.Driver.{Driver}
use pkd_server_go.Store.Rows.{Actor, AuxiliaryData, MessageLog, Db}
use pkd_server_go.Store.Reads.{
  has_actor_id, fireproof_of, set_fireproof_row, set_fireproof, list_keys_for_actor, active_keys,
  active_aux, store_message,
}
use pkd_server_go.Store.Consistency.{IsConsistent}
use pkd_server_go.Domain.Service.{
  accepts, registered, process_add_aux_data, process_revoke_aux_data,
}
use pkd_server_go.Domain.Auxiliary.{
  active_aux-process_add_aux_data, active_aux-process_revoke_aux_data, without_aux,
}
use pkd_server_go.Api.Handler.{
  Server, World, Payload, go, key_list, need, need_ok, reads, writes, get_directory_public_key,
}
use pkd_server_go.Api.Actions.Identity.{process_fireproof_action, process_undo_fireproof_action}
use pkd_server_go.Api.Actions.Auxiliary.{
  process_add_aux_data_action, process_revoke_aux_data_action,
}
use pkd_server_go.Api.Actions.Other.{process_query_action, process_checkpoint_action}
use pkd_server_go.Api.Runs.{
  fireproof_run, undo_fireproof_run, add_aux_data_run, revoke_aux_data_run,
}
use pkd_server_go.Api.Accepted.{succeeded}
use pkd_server_go.Api.Authority.{Holds, Signs, signed_by_one-true}

-- The flag of the actor of a name, and false where there is none, as IsFireproof reads it.
abbrev pub flag_of : String → Db → Bool
flag_of name db = fireproof_of (find (has_actor_id name) db.actors.rows)

set_rows-flag :
    (d : Driver) (name : String) (flag : Bool) (xs : List Actor)
    → any (has_actor_id name) xs ≡ true
    → fireproof_of
        (find (has_actor_id name) (update (has_actor_id name) (set_fireproof_row d flag) xs))
      ≡ flag
unfolding find update any
set_rows-flag d name flag [] h = cc
set_rows-flag d name flag (x ∷ xs) h = ground (arith, set_rows-flag d name flag xs)

set_fireproof-flag :
    (d : Driver) (name : String) (flag : Bool) (db : Db)
    → (set_fireproof d name flag db).0 ≡ ok tt
    → flag_of name (set_fireproof d name flag db).1 ≡ flag
unfolding set_fireproof
set_fireproof-flag d name flag db h = ground (arith, set_rows-flag d name flag db.actors.rows)

module _ (s : Server) (msg : ProtocolMessage) (w : World) (payload : Payload) where
  -- Where the handler of Fireproof answers with success: an active key of the actor verifies the
  -- message; the message is logged; and the actor's flag is set.
  pub process_fireproof_action-success :
      (process_fireproof_action s msg w).0 ≡ go payload
      → (m : FireproofMessage) × (unmarshal_fireproof msg.message ≡ some m)
        × Holds (Signs s.primitives msg) (active_keys m.actor w.db)
        × ((process_fireproof_action s msg w).1.logged ≡ w.logged ++ signed_part msg ∷ [])
        × (flag_of m.actor (process_fireproof_action s msg w).1.db ≡ true)
  process_fireproof_action-success h = elim (fireproof_run s msg w) [
    | inl refused ↦ ground arith
    | inr (m, a, decoded, called) ↦
        let (done, result) =
          succeeded (set_fireproof s.driver m.actor true w.db).0 (ground arith) in
        (
          m,
          decoded,
          signed_by_one-true s.primitives msg _ a.signed,
          a.submitted.1,
          ap (flag_of m.actor) called.0 ∙ set_fireproof-flag s.driver m.actor true w.db result,
        )
  ]

  -- Where the handler of UndoFireproof answers with success: an active key of the actor verifies the
  -- message; the message is logged; and the actor's flag is not set.
  process_undo_fireproof_action-success :
      (process_undo_fireproof_action s msg w).0 ≡ go payload
      → (m : UndoFireproofMessage) × (unmarshal_undo_fireproof msg.message ≡ some m)
        × Holds (Signs s.primitives msg) (active_keys m.actor w.db)
        × ((process_undo_fireproof_action s msg w).1.logged ≡ w.logged ++ signed_part msg ∷ [])
        × (flag_of m.actor (process_undo_fireproof_action s msg w).1.db ≡ false)
  process_undo_fireproof_action-success h = elim (undo_fireproof_run s msg w) [
    | inl refused ↦ ground arith
    | inr (m, a, decoded, called) ↦
        let (done, result) =
          succeeded (set_fireproof s.driver m.actor false w.db).0 (ground arith) in
        (
          m,
          decoded,
          signed_by_one-true s.primitives msg _ a.signed,
          a.submitted.1,
          ap (flag_of m.actor) called.0 ∙ set_fireproof-flag s.driver m.actor false w.db result,
        )
  ]

  -- Where the handler of AddAuxData answers with success on a consistent database: an active key of
  -- the actor verifies the message; the message is logged; the validator of the type, if there is
  -- one, accepts the data; and the data are appended to the actor's active auxiliary data.
  pub process_add_aux_data_action-success :
      IsConsistent w.db
      → (process_add_aux_data_action s msg w).0 ≡ go payload
      → (m : AddAuxDataMessage) × (aux : AuxiliaryData) × (unmarshal_add_aux_data msg.message
          ≡ some m)
        × Holds (Signs s.primitives msg) (active_keys m.actor w.db)
        × ((process_add_aux_data_action s msg w).1.logged ≡ w.logged ++ signed_part msg ∷ [])
        × (accepts (registered s.validators m.aux_type) m.aux_data ≡ true)
        × (aux.aux_data ≡ m.aux_data)
        × (active_aux m.actor (process_add_aux_data_action s msg w).1.db
            ≡ active_aux m.actor w.db ++ aux ∷ [])
  process_add_aux_data_action-success c h = elim (add_aux_data_run s msg w) [
    | inl refused ↦ ground arith
    | inr (m, a, decoded, called) ↦
        let call = process_add_aux_data s.validators s.driver s.random m a.root w.db in
        let (aux, result) = succeeded call.0 (ground arith) in
        let (accepted, own, others, type, text, under) =
          active_aux-process_add_aux_data s.validators s.driver s.random m a.root w.db aux c
            result in
        (
          m,
          aux,
          decoded,
          signed_by_one-true s.primitives msg _ a.signed,
          a.submitted.1,
          accepted,
          text,
          ap (active_aux m.actor) called.0 ∙ own,
        )
  ]

  -- Where the handler of RevokeAuxData answers with success on a consistent database: an active key
  -- of the actor verifies the message; the message is logged; and the actor's active auxiliary data
  -- are those that the actor had but for the id of the message.
  pub process_revoke_aux_data_action-success :
      IsConsistent w.db
      → (process_revoke_aux_data_action s msg w).0 ≡ go payload
      → (m : RevokeAuxDataMessage) × (unmarshal_revoke_aux_data msg.message ≡ some m)
        × Holds (Signs s.primitives msg) (active_keys m.actor w.db)
        × ((process_revoke_aux_data_action s msg w).1.logged ≡ w.logged ++ signed_part msg ∷ [])
        × (active_aux m.actor (process_revoke_aux_data_action s msg w).1.db
            ≡ without_aux m.aux_id (active_aux m.actor w.db))
  process_revoke_aux_data_action-success c h = elim (revoke_aux_data_run s msg w) [
    | inl refused ↦ ground arith
    | inr (m, a, decoded, called) ↦
        let (done, result) =
          succeeded (process_revoke_aux_data s.driver m a.root w.db).0 (ground arith) in
        let (there, own, others, keys) =
          active_aux-process_revoke_aux_data s.driver m a.root w.db c result in
        (
          m,
          decoded,
          signed_by_one-true s.primitives msg _ a.signed,
          a.submitted.1,
          ap (active_aux m.actor) called.0 ∙ own,
        )
  ]

  -- Where the handler of Query answers with success, it has answered with the active keys of the
  -- actor and changed nothing.
  process_query_action-success :
      (process_query_action s msg w).0 ≡ go payload
      → (m : QueryMessage) × (unmarshal_query msg.message ≡ some m)
        × (payload ≡ key_list (active_keys m.actor w.db))
        × ((process_query_action s msg w).1 ≡ w)
  unfolding process_query_action need reads list_keys_for_actor
  process_query_action-success h = elim (Option-cases (unmarshal_query msg.message)) [
    | inl e ↦ ground arith
    | inr (m, decoded) ↦ (m, decoded, ground arith, ground arith)
  ]

  -- Where the handler of Checkpoint answers with success: the key that the configuration has for
  -- the sending directory verifies the message; no message with its hash was stored before; and it is
  -- stored now.
  pub process_checkpoint_action-success :
      (process_checkpoint_action s msg w).0 ≡ go payload
      → (m : CheckpointMessage) × (key : Bytes) × (log : MessageLog) × (unmarshal_checkpoint
            msg.message
          ≡ some m)
        × (get_directory_public_key s m.from_directory ≡ ok key)
        × (verify_message_signature s.primitives msg key ≡ ok tt)
        × (any
              (λ l. l.message_hash == hash_bytes s.primitives (marshal_message msg))
              w.db.message_logs.rows
            ≡ false)
        × ((process_checkpoint_action s msg w).1.db.message_logs.rows
            ≡ w.db.message_logs.rows ++ log ∷ [])
        × (log.message_hash ≡ hash_bytes s.primitives (marshal_message msg))
  unfolding process_checkpoint_action need need_ok writes store_message
  process_checkpoint_action-success h = elim (Option-cases (unmarshal_checkpoint msg.message)) [
    | inl e ↦ ground arith
    | inr (m, decoded) ↦ elim (Result-cases (get_directory_public_key s m.from_directory)) [
      | inr e ↦ ground arith
      | inl (key, known) ↦
          let log : MessageLog = record {
            id = suc w.db.message_logs.seq;
            message_hash = hash_bytes s.primitives (marshal_message msg);
            encrypted_message = marshal_message msg;
            decrypted_message = marshal_message msg;
            created_at = s.driver.now;
          } in
          (m, key, log, decoded, known, ground arith, ground arith, ground arith, refl)
    ]
  ]
