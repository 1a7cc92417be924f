-- ===== src/Api/Errors.antt =====
-- The error responses of internal/api: a request that is refused has changed nothing.
use pkd_server_go.Prelude.{
  ℕ, String, ◌≡◌, refl, sym, ap, ◌∙◌, inl, inr, Bool, true, false, List, [], ◌∷◌, Option, Result,
  arith, Result-cases, Bool-cases, update, any,
}
use pkd_server_go.Signing.{Bytes}
use pkd_server_go.Protocol.Messages.{ProtocolMessage, AddAuxDataMessage}
use pkd_server_go.Store.Driver.{Driver, fireproof_rows}
use pkd_server_go.Store.Rows.{Db}
use pkd_server_go.Store.Reads.{has_actor_id, set_fireproof_row, set_fireproof, store_message}
use pkd_server_go.Domain.Transaction.{Tx, transaction, transaction-error}
use pkd_server_go.Domain.Service.{
  Validator, accepts, registered, process_add_key, process_revoke_key, process_move_identity,
  process_burn_down, add_aux_data_body, process_add_aux_data, process_revoke_aux_data,
}
use pkd_server_go.Api.Handler.{
  Server, World, Payload, Problem, Outcome, stop, need, need_ok, reads, writes,
}
use pkd_server_go.Api.Actions.Keys.{process_add_key_action, process_revoke_key_action}
use pkd_server_go.Api.Actions.Identity.{
  process_move_identity_action, process_burn_down_action, process_fireproof_action,
  process_undo_fireproof_action,
}
use pkd_server_go.Api.Actions.Auxiliary.{
  process_add_aux_data_action, process_revoke_aux_data_action,
}
use pkd_server_go.Api.Actions.Other.{process_checkpoint_action, process_query_action}
use pkd_server_go.Api.Dispatch.{Request, handle_protocol_message}
use pkd_server_go.Api.Routes.{
  checked, every_action, check_request-quiet, handle_protocol_message-cases,
}
use pkd_server_go.Api.Runs.{
  is_ok, is_go, move_identity_run, fireproof_run, undo_fireproof_run, add_aux_data_run,
  revoke_aux_data_run, burn_down_run,
}
use pkd_server_go.Api.KeyRuns.{add_key_run, revoke_key_run}

-- A call that fails leaves the database.
abbrev Atomic : {E A : Type 0} → Db → Result E A × Db → Type 0
Atomic db c = is_ok c.0 ≡ false → c.1 ≡ db

update-none :
    {A : Type 0} (p : A → Bool) (f : A → A) (xs : List A) → any p xs ≡ false → update p f xs ≡ xs
unfolding update any
update-none p f [] e = refl
update-none p f (x ∷ xs) e = ground (arith, update-none p f xs)

set_fireproof-Atomic :
    (d : Driver) (name : String) (flag : Bool) (db : Db)
    → d.down fireproof_rows ≡ false
    → Atomic db (set_fireproof d name flag db)
unfolding set_fireproof
set_fireproof-Atomic d name flag db up e =
    elim (Bool-cases (any (has_actor_id name) db.actors.rows)) [
      | inl there ↦ ground arith
      | inr absent ↦
          ground (
            arith,
            update-none (has_actor_id name) (set_fireproof_row d flag) db.actors.rows absent,
          )
    ]

transaction-Atomic :
    {A : Type 0} (d : Driver) (body : Tx A) (db : Db) → Atomic db (transaction d body db)
transaction-Atomic d body db h = elim (Result-cases (transaction d body db).0) [
  | inl (a, done) ↦ ground arith
  | inr (e, failed) ↦ transaction-error d body db failed
]

add_aux_data-Atomic :
    (vs : List Validator) (d : Driver) (random : Option (List ℕ)) (msg : AddAuxDataMessage)
    (root : String) (db : Db)
    → Atomic db (process_add_aux_data vs d random msg root db)
unfolding process_add_aux_data
add_aux_data-Atomic vs d random msg root db h =
    elim (Bool-cases (accepts (registered vs msg.aux_type) msg.aux_data)) [
      | inr refused ↦ ground arith
      | inl accepted ↦ ground (arith, transaction-Atomic d (add_aux_data_body d random msg root) db)
    ]

-- A handler that fails leaves the database.
abbrev Restores : World → Outcome Payload × World → Type 0
Restores w r = is_go r.0 ≡ false → r.1.db ≡ w.db

module _ (s : Server) (msg : ProtocolMessage) (w : World) where
  query-Restores : Restores w (process_query_action s msg w)
  unfolding process_query_action need reads
  query-Restores e = ground arith

  checkpoint-Restores : Restores w (process_checkpoint_action s msg w)
  unfolding process_checkpoint_action need need_ok writes store_message
  checkpoint-Restores e = ground arith

  add_key-Restores : Restores w (process_add_key_action s msg w)
  unfolding process_add_key
  add_key-Restores = elim (add_key_run s msg w) [
    | inl refused ↦ λ e. refused.1
    | inr run ↦ λ e. run.called.0 ∙ transaction-Atomic s.driver _ w.db (sym run.called.1 ∙ e)
  ]

  revoke_key-Restores : Restores w (process_revoke_key_action s msg w)
  unfolding process_revoke_key
  revoke_key-Restores = elim (revoke_key_run s msg w) [
    | inl refused ↦ λ e. refused.1
    | inr run ↦ λ e. run.called.0 ∙ transaction-Atomic s.driver _ w.db (sym run.called.1 ∙ e)
  ]

  move_identity-Restores : Restores w (process_move_identity_action s msg w)
  unfolding process_move_identity
  move_identity-Restores = elim (move_identity_run s msg w) [
    | inl refused ↦ λ e. refused.1
    | inr (m, a, decoded, called) ↦
        λ e. called.0 ∙ transaction-Atomic s.driver _ w.db (sym called.1 ∙ e)
  ]

  burn_down-Restores : Restores w (process_burn_down_action s msg w)
  unfolding process_burn_down
  burn_down-Restores = elim (burn_down_run s msg w) [
    | inl refused ↦ λ e. refused.1
    | inr (m, a, enrolled, decoded, stored, otp, called) ↦
        λ e. called.0 ∙ transaction-Atomic s.driver _ w.db (sym called.1 ∙ e)
  ]

  add_aux_data-Restores : Restores w (process_add_aux_data_action s msg w)
  add_aux_data-Restores = elim (add_aux_data_run s msg w) [
    | inl refused ↦ λ e. refused.1
    | inr (m, a, decoded, called) ↦ λ e.
        called.0
        ∙ add_aux_data-Atomic s.validators s.driver s.random m a.root w.db (sym called.1 ∙ e)
  ]

  revoke_aux_data-Restores : Restores w (process_revoke_aux_data_action s msg w)
  unfolding process_revoke_aux_data
  revoke_aux_data-Restores = elim (revoke_aux_data_run s msg w) [
    | inl refused ↦ λ e. refused.1
    | inr (m, a, decoded, called) ↦
        λ e. called.0 ∙ transaction-Atomic s.driver _ w.db (sym called.1 ∙ e)
  ]

  module _ (up : s.driver.down fireproof_rows ≡ false) where
    fireproof-Restores : Restores w (process_fireproof_action s msg w)
    fireproof-Restores = elim (fireproof_run s msg w) [
      | inl refused ↦ λ e. refused.1
      | inr (m, a, decoded, called) ↦
          λ e. called.0 ∙ set_fireproof-Atomic s.driver m.actor true w.db up (sym called.1 ∙ e)
    ]

    undo_fireproof-Restores : Restores w (process_undo_fireproof_action s msg w)
    undo_fireproof-Restores = elim (undo_fireproof_run s msg w) [
      | inl refused ↦ λ e. refused.1
      | inr (m, a, decoded, called) ↦
          λ e. called.0 ∙ set_fireproof-Atomic s.driver m.actor false w.db up (sym called.1 ∙ e)
    ]

-- A request to the protocol's endpoint that gets an error response leaves the database as it was,
-- unless the driver fails to count the rows of the update that sets a fireproof flag.
pub handle_protocol_message-error :
    (s : Server) (sign_bytes : String → Bytes) (r : Request) (w : World) (p : Problem)
    → s.driver.down fireproof_rows ≡ false
    → (handle_protocol_message s sign_bytes r w).0 ≡ stop p
    → (handle_protocol_message s sign_bytes r w).1.db ≡ w.db
handle_protocol_message-error s sign_bytes r w p up failed =
    let (same_db, same_log) = check_request-quiet s sign_bytes r w in
    elim (handle_protocol_message-cases s sign_bytes r w) [
      | inr (q, e) ↦ ground arith
      | inl (m, h, decoded, context, found, passed, e) ↦
          let w₁ = (checked s sign_bytes r w).1 in
          let restores : Restores w₁ (h m w₁) =
            every_action s (λ h. Restores w₁ (h m w₁)) m.action h found (add_key-Restores s m w₁)
              (revoke_key-Restores s m w₁) (move_identity-Restores s m w₁)
              (burn_down-Restores s m w₁) (fireproof-Restores s m w₁ up)
              (undo_fireproof-Restores s m w₁ up) (add_aux_data-Restores s m w₁)
              (revoke_aux_data-Restores s m w₁) (checkpoint-Restores s m w₁)
              (query-Restores s m w₁) in
          ap (λ x. x.1.db) e ∙ (restores (ap (λ x. is_go x.0) (sym e) ∙ ap is_go failed) ∙ same_db)
    ]
