-- ===== src/Api/Runs.antt =====
-- What a handler of internal/api/protocol_actions.go has checked when it comes to its call of
-- PKDService, and what it then answers.
use pkd_server_go.Prelude.{
  String, ◌≡◌, refl, ◌⊎◌, inl, inr, Bool, true, false, not, ◌&&◌, [], ◌∷◌, ◌++◌, Option, none, some,
  Result, ok, err, arith, Result-cases, Option-cases, Bool-cases, ◌==◌,
}
use pkd_server_go.Signing.{Bytes, decrypt_with_hpke, validate_totp}
use pkd_server_go.Protocol.Messages.{
  ProtocolMessage, MoveIdentityMessage, BurnDownMessage, FireproofMessage, UndoFireproofMessage,
  AddAuxDataMessage, RevokeAuxDataMessage, signed_part, marshal_signed,
}
use pkd_server_go.Protocol.Unmarshal.{
  unmarshal_move_identity, unmarshal_burn_down, unmarshal_fireproof, unmarshal_undo_fireproof,
  unmarshal_add_aux_data, unmarshal_revoke_aux_data,
}
use pkd_server_go.Store.Driver.{select_keys}
use pkd_server_go.Store.Rows.{Db}
use pkd_server_go.Store.Reads.{set_fireproof, get_totp_secret, list_keys_for_actor, active_keys}
use pkd_server_go.Domain.Service.{
  process_move_identity, process_burn_down, process_add_aux_data, process_revoke_aux_data,
}
use pkd_server_go.Api.Handler.{
  Server, World, Payload, Outcome, go, stop, ensure, need, reads, writes, submit, submit_message,
}
use pkd_server_go.Api.Signatures.{signed_by_one}
use pkd_server_go.Api.Actions.Identity.{
  is_nil, check_otp, process_move_identity_action, process_burn_down_action,
  process_fireproof_action, process_undo_fireproof_action,
}
use pkd_server_go.Api.Actions.Auxiliary.{
  process_add_aux_data_action, process_revoke_aux_data_action,
}

abbrev pub is_go : {A : Type 0} → Outcome A → Bool
is_go (go a) = true
is_go (stop p) = false

abbrev pub is_ok : {E A : Type 0} → Result E A → Bool
is_ok (ok a) = true
is_ok (err e) = false

-- A refusal before the call.
abbrev pub Refused : World → Outcome Payload × World → Type 0
Refused w r = (is_go r.0 ≡ false) × (r.1.db ≡ w.db)

-- The answer after the call, whose result and database are `c`.
abbrev pub Answered : {E A : Type 0} → Result E A × Db → Outcome Payload × World → Type 0
Answered c r = (r.1.db ≡ c.1) × (is_go r.0 ≡ is_ok c.0)

module _ (s : Server) (msg : ProtocolMessage) where
  -- The code that a BurnDown has to have, where a secret is enrolled.
  pub HasOtp : Option Bytes → Type 0
  HasOtp none = Unit {0}
  HasOtp (some encrypted) =
      (secret : Bytes) × (decrypt_with_hpke s.primitives encrypted ≡ some secret)
      × (validate_totp s.primitives secret msg.otp ≡ true)

module _ (s : Server) (msg : ProtocolMessage) (w : World) where
  -- What is so after the submission to the SigSum server.
  abbrev pub Submitted : String → World → Type 0
  Submitted root w' =
      (submit_message (s.post_sigsum (marshal_signed (signed_part msg))) ≡ some root)
      × (w'.logged ≡ w.logged ++ signed_part msg ∷ [])

  -- What the handlers that one of an actor's keys has to sign for have in common.
  pub record Approved (name : String) (w' : World) : Type 0 where
    pub root : String
    pub has_keys : is_nil (active_keys name w.db) ≡ false
    pub signed : signed_by_one s.primitives msg (active_keys name w.db) ≡ true
    pub submitted : Submitted root w'

  -- the tests of such a handler up to the submission, in one
  abbrev pub passes : String → Bool
  passes name =
      not (s.driver.down select_keys)
      && (not (is_nil (active_keys name w.db))
          && signed_by_one s.primitives msg (active_keys name w.db))

  abbrev pub posted : Option String
  posted = submit_message (s.post_sigsum (marshal_signed (signed_part msg)))

  pub move_identity_run :
      Refused w (process_move_identity_action s msg w)
      ⊎ ((m : MoveIdentityMessage) × (a : Approved m.old_actor
            (process_move_identity_action s msg w).1)
          × (unmarshal_move_identity msg.message ≡ some m)
          × Answered
              (process_move_identity s.driver m a.root w.db)
              (process_move_identity_action s msg w))
  unfolding process_move_identity_action ensure need reads writes submit list_keys_for_actor
  move_identity_run = elim (Option-cases (unmarshal_move_identity msg.message)) [
    | inl e ↦ inl (ground arith)
    | inr (m, decoded) ↦ elim (Option-cases posted) [
      | inl e ↦ inl (ground arith)
      | inr (root, answered) ↦ elim (Bool-cases (passes m.old_actor)) [
        | inr e ↦ inl (ground arith)
        | inl e ↦
            let a : Approved m.old_actor (process_move_identity_action s msg w).1 = record {
              root = root;
              has_keys = ground arith;
              signed = ground arith;
              submitted = (answered, ground arith);
            } in
            inr (m, a, decoded, ground arith)
      ]
    ]
  ]

  pub fireproof_run :
      Refused w (process_fireproof_action s msg w)
      ⊎ ((m : FireproofMessage) × (a : Approved m.actor (process_fireproof_action s msg w).1)
          × (unmarshal_fireproof msg.message ≡ some m)
          × Answered (set_fireproof s.driver m.actor true w.db) (process_fireproof_action s msg w))
  unfolding process_fireproof_action ensure need reads writes submit list_keys_for_actor
  fireproof_run = elim (Option-cases (unmarshal_fireproof msg.message)) [
    | inl e ↦ inl (ground arith)
    | inr (m, decoded) ↦ elim (Option-cases posted) [
      | inl e ↦ inl (ground arith)
      | inr (root, answered) ↦ elim (Bool-cases (passes m.actor)) [
        | inr e ↦ inl (ground arith)
        | inl e ↦
            let a : Approved m.actor (process_fireproof_action s msg w).1 = record {
              root = root;
              has_keys = ground arith;
              signed = ground arith;
              submitted = (answered, ground arith);
            } in
            inr (m, a, decoded, ground arith)
      ]
    ]
  ]

  pub undo_fireproof_run :
      Refused w (process_undo_fireproof_action s msg w)
      ⊎ ((m : UndoFireproofMessage) × (a : Approved m.actor
            (process_undo_fireproof_action s msg w).1)
          × (unmarshal_undo_fireproof msg.message ≡ some m)
          × Answered
              (set_fireproof s.driver m.actor false w.db)
              (process_undo_fireproof_action s msg w))
  unfolding process_undo_fireproof_action ensure need reads writes submit list_keys_for_actor
  undo_fireproof_run = elim (Option-cases (unmarshal_undo_fireproof msg.message)) [
    | inl e ↦ inl (ground arith)
    | inr (m, decoded) ↦ elim (Option-cases posted) [
      | inl e ↦ inl (ground arith)
      | inr (root, answered) ↦ elim (Bool-cases (passes m.actor)) [
        | inr e ↦ inl (ground arith)
        | inl e ↦
            let a : Approved m.actor (process_undo_fireproof_action s msg w).1 = record {
              root = root;
              has_keys = ground arith;
              signed = ground arith;
              submitted = (answered, ground arith);
            } in
            inr (m, a, decoded, ground arith)
      ]
    ]
  ]

  pub add_aux_data_run :
      Refused w (process_add_aux_data_action s msg w)
      ⊎ ((m : AddAuxDataMessage) × (a : Approved m.actor (process_add_aux_data_action s msg w).1)
          × (unmarshal_add_aux_data msg.message ≡ some m)
          × Answered
              (process_add_aux_data s.validators s.driver s.random m a.root w.db)
              (process_add_aux_data_action s msg w))
  unfolding process_add_aux_data_action ensure need reads writes submit list_keys_for_actor
  add_aux_data_run = elim (Option-cases (unmarshal_add_aux_data msg.message)) [
    | inl e ↦ inl (ground arith)
    | inr (m, decoded) ↦ elim (Option-cases posted) [
      | inl e ↦ inl (ground arith)
      | inr (root, answered) ↦ elim (Bool-cases (passes m.actor)) [
        | inr e ↦ inl (ground arith)
        | inl e ↦
            let a : Approved m.actor (process_add_aux_data_action s msg w).1 = record {
              root = root;
              has_keys = ground arith;
              signed = ground arith;
              submitted = (answered, ground arith);
            } in
            inr (m, a, decoded, ground arith)
      ]
    ]
  ]

  pub revoke_aux_data_run :
      Refused w (process_revoke_aux_data_action s msg w)
      ⊎ ((m : RevokeAuxDataMessage) × (a : Approved m.actor
            (process_revoke_aux_data_action s msg w).1)
          × (unmarshal_revoke_aux_data msg.message ≡ some m)
          × Answered
              (process_revoke_aux_data s.driver m a.root w.db)
              (process_revoke_aux_data_action s msg w))
  unfolding process_revoke_aux_data_action ensure need reads writes submit list_keys_for_actor
  revoke_aux_data_run = elim (Option-cases (unmarshal_revoke_aux_data msg.message)) [
    | inl e ↦ inl (ground arith)
    | inr (m, decoded) ↦ elim (Option-cases posted) [
      | inl e ↦ inl (ground arith)
      | inr (root, answered) ↦ elim (Bool-cases (passes m.actor)) [
        | inr e ↦ inl (ground arith)
        | inl e ↦
            let a : Approved m.actor (process_revoke_aux_data_action s msg w).1 = record {
              root = root;
              has_keys = ground arith;
              signed = ground arith;
              submitted = (answered, ground arith);
            } in
            inr (m, a, decoded, ground arith)
      ]
    ]
  ]

  check_otp-cases :
      (o : Option Bytes) (w₁ : World)
      → ((check_otp s msg o w₁).1 ≡ w₁)
        × ((is_go (check_otp s msg o w₁).0 ≡ false)
            ⊎ ((check_otp s msg o w₁).0 ≡ go tt) × HasOtp s msg o)
  unfolding check_otp HasOtp ensure need
  check_otp-cases none w₁ = (refl, inr (refl, tt))
  check_otp-cases (some encrypted) w₁ =
      elim (Option-cases (decrypt_with_hpke s.primitives encrypted)) [
        | inl e ↦ (ground arith, inl (ground arith))
        | inr (secret, e) ↦ elim (Bool-cases (validate_totp s.primitives secret msg.otp)) [
          | inr f ↦ (ground arith, inl (ground arith))
          | inl f ↦ elim (Bool-cases (not (msg.otp == "") && s.has_kem_key)) [
            | inr g ↦ (ground arith, inl (ground arith))
            | inl g ↦ (ground arith, inr (ground arith, (secret, e, f)))
          ]
        ]
      ]

  pub burn_down_run :
      Refused w (process_burn_down_action s msg w)
      ⊎ ((m : BurnDownMessage) × (a : Approved m.operator (process_burn_down_action s msg w).1)
          × (enrolled : Option Bytes) × (unmarshal_burn_down msg.message ≡ some m)
          × (get_totp_secret s.driver m.operator w.db ≡ ok enrolled)
          × HasOtp s msg enrolled
          × Answered
              (process_burn_down s.driver m.actor a.root w.db)
              (process_burn_down_action s msg w))
  unfolding process_burn_down_action ensure need reads writes submit list_keys_for_actor
  burn_down_run = elim (Option-cases (unmarshal_burn_down msg.message)) [
    | inl e ↦ inl (ground arith)
    | inr (m, decoded) ↦ elim (Bool-cases (passes m.operator)) [
      | inr e ↦ inl (ground arith)
      | inl e ↦ elim (Result-cases (get_totp_secret s.driver m.operator w.db)) [
        | inr f ↦ inl (ground arith)
        | inl (enrolled, stored) ↦ elim (check_otp-cases enrolled w).1 [
          | inl f ↦ let quiet = (check_otp-cases enrolled w).0 in inl (ground arith)
          | inr (done, otp) ↦
              let quiet = (check_otp-cases enrolled w).0 in
              elim (Option-cases posted) [
                | inl f ↦ inl (ground arith)
                | inr (root, answered) ↦
                    let a : Approved m.operator (process_burn_down_action s msg w).1 = record {
                      root = root;
                      has_keys = ground arith;
                      signed = ground arith;
                      submitted = (answered, ground arith);
                    } in
                    inr (m, a, enrolled, decoded, stored, otp, ground arith)
              ]
        ]
      ]
    ]
  ]
