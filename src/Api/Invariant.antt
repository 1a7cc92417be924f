-- ===== src/Api/Invariant.antt =====
-- The tables under the endpoint of internal/api/protocol_handler.go.
use pkd_server_go.Prelude.{String, true, false, ◌≡◌, sym, subst, inl, inr}
use pkd_server_go.Signing.{Bytes}
use pkd_server_go.Protocol.Messages.{ProtocolMessage}
use pkd_server_go.Store.Rows.{Db}
use pkd_server_go.Store.Consistency.{IsConsistent}
use pkd_server_go.Store.Renaming.{set_fireproof-IsConsistent}
use pkd_server_go.Domain.Consistency.{
  add_key, revoke_key, move_identity, burn_down, add_aux_data, revoke_aux_data, perform,
  perform-IsConsistent,
}
use pkd_server_go.Api.Handler.{Server, World}
use pkd_server_go.Api.Actions.Keys.{process_add_key_action, process_revoke_key_action}
use pkd_server_go.Api.Actions.Identity.{
  process_move_identity_action, process_burn_down_action, process_fireproof_action,
  process_undo_fireproof_action,
}
use pkd_server_go.Api.Actions.Auxiliary.{
  process_add_aux_data_action, process_revoke_aux_data_action,
}
use pkd_server_go.Api.Dispatch.{Request, handle_protocol_message}
use pkd_server_go.Api.Routes.{
  checked, every_action, check_request-quiet, handle_protocol_message-cases,
}
use pkd_server_go.Api.Runs.{
  move_identity_run, fireproof_run, undo_fireproof_run, add_aux_data_run, revoke_aux_data_run,
  burn_down_run,
}
use pkd_server_go.Api.KeyRuns.{add_key_run, revoke_key_run}
use pkd_server_go.Api.Transparency.{directory, query-directory, checkpoint-directory}

-- The log of messages from other directories has no part in the invariant.
directory-IsConsistent :
    (db db' : Db) → directory db' ≡ directory db → IsConsistent db → IsConsistent db'
directory-IsConsistent db db' same c =
    let d : IsConsistent (directory db) = record {
      actors_fresh = c.actors_fresh;
      actors_distinct = c.actors_distinct;
      names_distinct = c.names_distinct;
      keys_fresh = c.keys_fresh;
      keys_distinct = c.keys_distinct;
      key_ids_distinct = c.key_ids_distinct;
      keys_owned = c.keys_owned;
      keys_stamped = c.keys_stamped;
      aux_ids_distinct = c.aux_ids_distinct;
      aux_owned = c.aux_owned;
      aux_stamped = c.aux_stamped;
      attributes_distinct = c.attributes_distinct;
    } in
    let d' = subst IsConsistent (sym same) d in
    record {
      actors_fresh = d'.actors_fresh;
      actors_distinct = d'.actors_distinct;
      names_distinct = d'.names_distinct;
      keys_fresh = d'.keys_fresh;
      keys_distinct = d'.keys_distinct;
      key_ids_distinct = d'.key_ids_distinct;
      keys_owned = d'.keys_owned;
      keys_stamped = d'.keys_stamped;
      aux_ids_distinct = d'.aux_ids_distinct;
      aux_owned = d'.aux_owned;
      aux_stamped = d'.aux_stamped;
      attributes_distinct = d'.attributes_distinct;
    }

module _ (s : Server) (msg : ProtocolMessage) (w : World) (c : IsConsistent w.db) where
  add_key-IsConsistent : IsConsistent (process_add_key_action s msg w).1.db
  unfolding perform
  add_key-IsConsistent = elim (add_key_run s msg w) [
    | inl refused ↦ subst IsConsistent (sym refused.1) c
    | inr run ↦ subst IsConsistent (sym run.called.0) (
        perform-IsConsistent s.validators (s.driver, s.random, add_key run.add run.root run.keys)
          w.db c)
  ]

  revoke_key-IsConsistent : IsConsistent (process_revoke_key_action s msg w).1.db
  unfolding perform
  revoke_key-IsConsistent = elim (revoke_key_run s msg w) [
    | inl refused ↦ subst IsConsistent (sym refused.1) c
    | inr run ↦ subst IsConsistent (sym run.called.0) (
        perform-IsConsistent s.validators
          (s.driver, s.random, revoke_key run.revoke run.root run.keys) w.db c)
  ]

  move_identity-IsConsistent : IsConsistent (process_move_identity_action s msg w).1.db
  unfolding perform
  move_identity-IsConsistent = elim (move_identity_run s msg w) [
    | inl refused ↦ subst IsConsistent (sym refused.1) c
    | inr (m, a, decoded, called) ↦
        subst IsConsistent (sym called.0)
          (perform-IsConsistent s.validators (s.driver, s.random, move_identity m a.root) w.db c)
  ]

  burn_down-IsConsistent : IsConsistent (process_burn_down_action s msg w).1.db
  unfolding perform
  burn_down-IsConsistent = elim (burn_down_run s msg w) [
    | inl refused ↦ subst IsConsistent (sym refused.1) c
    | inr (m, a, enrolled, decoded, stored, otp, called) ↦
        subst IsConsistent (sym called.0)
          (perform-IsConsistent s.validators (s.driver, s.random, burn_down m.actor a.root) w.db c)
  ]

  add_aux_data-IsConsistent : IsConsistent (process_add_aux_data_action s msg w).1.db
  unfolding perform
  add_aux_data-IsConsistent = elim (add_aux_data_run s msg w) [
    | inl refused ↦ subst IsConsistent (sym refused.1) c
    | inr (m, a, decoded, called) ↦
        subst IsConsistent (sym called.0)
          (perform-IsConsistent s.validators (s.driver, s.random, add_aux_data m a.root) w.db c)
  ]

  revoke_aux_data-IsConsistent : IsConsistent (process_revoke_aux_data_action s msg w).1.db
  unfolding perform
  revoke_aux_data-IsConsistent = elim (revoke_aux_data_run s msg w) [
    | inl refused ↦ subst IsConsistent (sym refused.1) c
    | inr (m, a, decoded, called) ↦
        subst IsConsistent (sym called.0)
          (perform-IsConsistent s.validators (s.driver, s.random, revoke_aux_data m a.root) w.db c)
  ]

  fireproof-IsConsistent : IsConsistent (process_fireproof_action s msg w).1.db
  fireproof-IsConsistent = elim (fireproof_run s msg w) [
    | inl refused ↦ subst IsConsistent (sym refused.1) c
    | inr (m, a, decoded, called) ↦
        subst IsConsistent (sym called.0) (set_fireproof-IsConsistent s.driver m.actor true w.db c)
  ]

  undo_fireproof-IsConsistent : IsConsistent (process_undo_fireproof_action s msg w).1.db
  undo_fireproof-IsConsistent = elim (undo_fireproof_run s msg w) [
    | inl refused ↦ subst IsConsistent (sym refused.1) c
    | inr (m, a, decoded, called) ↦
        subst IsConsistent (sym called.0) (set_fireproof-IsConsistent s.driver m.actor false w.db c)
  ]

-- Whatever a request to the protocol's endpoint is and however it is answered, it keeps the tables
-- consistent: ids, names, key ids, aux ids and attributes stay distinct, every key and every aux row
-- belongs to an actor, and revocation stamps come in pairs.
pub handle_protocol_message-IsConsistent :
    (s : Server) (sign_bytes : String → Bytes) (r : Request) (w : World)
    → IsConsistent w.db
    → IsConsistent (handle_protocol_message s sign_bytes r w).1.db
handle_protocol_message-IsConsistent s sign_bytes r w c =
    let w₁ = (checked s sign_bytes r w).1 in
    let c₁ : IsConsistent w₁.db =
      subst IsConsistent (sym (check_request-quiet s sign_bytes r w).0) c in
    elim (handle_protocol_message-cases s sign_bytes r w) [
      | inr (p, e) ↦ subst (λ x. IsConsistent x.1.db) (sym e) c₁
      | inl (m, h, decoded, context, found, passed, e) ↦
          subst (λ x. IsConsistent x.1.db) (sym e)
            (every_action s (λ h. IsConsistent (h m w₁).1.db) m.action h found
              (add_key-IsConsistent s m w₁ c₁) (revoke_key-IsConsistent s m w₁ c₁)
              (move_identity-IsConsistent s m w₁ c₁) (burn_down-IsConsistent s m w₁ c₁)
              (fireproof-IsConsistent s m w₁ c₁) (undo_fireproof-IsConsistent s m w₁ c₁)
              (add_aux_data-IsConsistent s m w₁ c₁) (revoke_aux_data-IsConsistent s m w₁ c₁)
              (directory-IsConsistent w₁.db _ (checkpoint-directory s m w₁) c₁)
              (directory-IsConsistent w₁.db _ (query-directory s m w₁) c₁))
    ]
