-- ===== src/Api/Routes.antt =====
-- What the dispatch of internal/api/protocol_handler.go does with a request, whatever the action.
use pkd_server_go.Prelude.{
  String, ◌≡◌, refl, subst, ◌⊎◌, inl, inr, some, arith, ◌==◌, List, [], ◌∷◌, All, Option-cases,
  Bool-cases, eq_iff,
}
use pkd_server_go.Signing.{Bytes}
use pkd_server_go.Protocol.Messages.{ProtocolMessage}
use pkd_server_go.Protocol.Unmarshal.{decode_message}
use pkd_server_go.Api.Handler.{
  Server, World, Handler, Payload, Outcome, Problem, go, stop, problem, problem_of, of_text,
  bad_request, ensure, need, lookup,
}
use pkd_server_go.Api.HttpSignature.{fetch_actor_public_key}
use pkd_server_go.Api.Actions.Keys.{process_add_key_action, process_revoke_key_action}
use pkd_server_go.Api.Actions.Identity.{
  process_move_identity_action, process_burn_down_action, process_fireproof_action,
  process_undo_fireproof_action,
}
use pkd_server_go.Api.Actions.Auxiliary.{
  process_add_aux_data_action, process_revoke_aux_data_action,
}
use pkd_server_go.Api.Actions.Other.{process_checkpoint_action, process_query_action}
use pkd_server_go.Api.Dispatch.{
  Request, First, value, limit_reached, malformed, decode_failed, value_of, action_handlers,
  action_handler, pkd_context_v1, check_http_signature, check_activity, check_request,
  handle_protocol_message,
}

lookup-All :
    {A : Type 0} (P : A → Type 0) (k : String) (xs : List (String × A)) (y : A)
    → All (λ x. P x.1) xs
    → lookup k xs ≡ some y
    → P y
unfolding lookup
lookup-All P k [] y h e = cc
lookup-All P k ((j, x) ∷ xs) y h e = elim (Bool-cases (j == k)) [
  | inl hit ↦ subst P (ground arith) h.0
  | inr miss ↦ lookup-All P k xs y h.1 (ground arith)
]

-- What holds of all ten handlers holds of the one that the table has for an action.
pub every_action :
    (s : Server) (P : (ProtocolMessage → Handler Payload) → Type 0) (action : String)
    (handler : ProtocolMessage → Handler Payload)
    → action_handler s action ≡ some handler
    → P (process_add_key_action s)
    → P (process_revoke_key_action s)
    → P (process_move_identity_action s)
    → P (process_burn_down_action s)
    → P (process_fireproof_action s)
    → P (process_undo_fireproof_action s)
    → P (process_add_aux_data_action s)
    → P (process_revoke_aux_data_action s)
    → P (process_checkpoint_action s)
    → P (process_query_action s)
    → P handler
unfolding action_handlers
every_action s P action handler e add revoke move burn fire undo add_aux revoke_aux check query =
    lookup-All P action (action_handlers s) handler
      (add, (revoke, (move, (burn, (fire, (undo, (add_aux, (revoke_aux, (check, (query, tt))))))))))
      e

pub Outcome-cases :
    {A : Type 0} (o : Outcome A) → ((a : A) × (o ≡ go a)) ⊎ ((p : Problem) × (o ≡ stop p))
Outcome-cases (go a) = inl (a, refl)
Outcome-cases (stop p) = inr (p, refl)

decode_failed-stops :
    {A : Type 0} (f : First) (w : World) → (p : Problem) × (decode_failed {A = A} f w ≡ (stop p, w))
decode_failed-stops (value j) w = (_, refl)
decode_failed-stops limit_reached w = (_, refl)
decode_failed-stops malformed w = (_, refl)

module _ (s : Server) (sign_bytes : String → Bytes) (r : Request) (w : World) where
  abbrev pub checked : Outcome (Unit {0}) × World
  checked = check_request s sign_bytes r w

  -- The check of a request changes the cache of keys alone.
  pub check_request-quiet : (checked.1.db ≡ w.db) × (checked.1.logged ≡ w.logged)
  unfolding check_request check_activity check_http_signature fetch_actor_public_key ensure need
  check_request-quiet = ground arith

  -- A handler runs, on the message that the body holds, or the request ends with an error.
  pub handle_protocol_message-cases :
      ((m : ProtocolMessage) × (h : ProtocolMessage → Handler Payload) × (decode_message
            (value_of r.first)
          ≡ some m)
        × (m.pkd_context ≡ pkd_context_v1)
        × (action_handler s m.action ≡ some h)
        × (checked.0 ≡ go tt)
        × (handle_protocol_message s sign_bytes r w ≡ h m checked.1))
      ⊎ ((p : Problem) × (handle_protocol_message s sign_bytes r w ≡ (stop p, checked.1)))
  unfolding handle_protocol_message ensure need
  handle_protocol_message-cases = elim (Outcome-cases checked.0) [
    | inr (p, e) ↦ inr (p, ground arith)
    | inl (u, e) ↦ elim (Option-cases (decode_message (value_of r.first))) [
      | inl undecoded ↦
          let (p, q) = decode_failed-stops {A = ProtocolMessage} r.first checked.1 in
          inr (p, ground arith)
      | inr (m, d) ↦ elim (Bool-cases (m.pkd_context == pkd_context_v1)) [
        | inr c ↦ inr (problem bad_request "Invalid !pkd-context", ground arith)
        | inl c ↦ elim (Option-cases (action_handler s m.action)) [
          | inl unknown ↦
              inr (problem_of bad_request "Unsupported action: " (of_text m.action), ground arith)
          | inr (h, a) ↦ inl (m, h, d, (eq_iff _ _).0 c, a, e, ground arith)
        ]
      ]
    ]
  ]
