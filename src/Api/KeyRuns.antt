-- ===== src/Api/KeyRuns.antt =====
-- What the handlers of AddKey and RevokeKey, internal/api/protocol_actions.go, have checked when they
-- come to their calls of PKDService.
use pkd_server_go.Prelude.{
  String, ◌≡◌, ◌⊎◌, inl, inr, true, false, List, [], ◌∷◌, some, ok, arith, Result-cases,
  Option-cases, Bool-cases, ltb, length,
}
use pkd_server_go.Signing.{Bytes, decode_public_key, verify_message_signature}
use pkd_server_go.Protocol.Messages.{ProtocolMessage, AddKeyMessage, RevokeKeyMessage}
use pkd_server_go.Protocol.Unmarshal.{unmarshal_add_key, unmarshal_revoke_key}
use pkd_server_go.Store.Driver.{select_keys}
use pkd_server_go.Store.Rows.{PublicKey}
use pkd_server_go.Store.Reads.{list_keys_for_actor, active_keys}
use pkd_server_go.Domain.Service.{process_add_key, process_revoke_key}
use pkd_server_go.Api.Handler.{Server, World, go, ensure, need, need_ok, reads, writes, submit}
use pkd_server_go.Api.Signatures.{signed_by_one, signed_by_other, decode_symmetric_keys}
use pkd_server_go.Api.Actions.Keys.{
  check_add_signature, process_add_key_action, process_revoke_key_action,
}
use pkd_server_go.Api.Runs.{is_go, Refused, Answered, Submitted, posted}

module _ (s : Server) (msg : ProtocolMessage) where
  -- Who has signed an AddKey: the new key, where the actor has none, or one of the actor's keys.
  pub AddSigned : AddKeyMessage → List PublicKey → Type 0
  AddSigned add [] =
      (key : Bytes) × (decode_public_key add.public_key ≡ ok key)
      × (verify_message_signature s.primitives msg key ≡ ok tt)
  AddSigned add (k ∷ ks) = signed_by_one s.primitives msg (k ∷ ks) ≡ true

module _ (s : Server) (msg : ProtocolMessage) (w : World) where
  pub record RevokeKeyRun : Type 0 where
    pub revoke : RevokeKeyMessage
    pub key : Bytes
    pub root : String
    pub keys : List (String × Bytes)
    pub decoded : unmarshal_revoke_key msg.message ≡ some revoke
    pub two : ltb (length (active_keys revoke.actor w.db)) 2 ≡ false
    pub key_decoded : decode_public_key revoke.public_key ≡ ok key
    pub signed : signed_by_other s.primitives msg key (active_keys revoke.actor w.db) ≡ true
    pub submitted : Submitted s msg w root (process_revoke_key_action s msg w).1
    pub called :
        Answered
          (process_revoke_key s.driver revoke root keys w.db)
          (process_revoke_key_action s msg w)

  pub revoke_key_run : Refused w (process_revoke_key_action s msg w) ⊎ RevokeKeyRun
  unfolding process_revoke_key_action ensure need need_ok reads writes submit list_keys_for_actor
  revoke_key_run = elim (Option-cases (unmarshal_revoke_key msg.message)) [
    | inl e ↦ inl (ground arith)
    | inr (revoke, a) ↦ elim (Result-cases (decode_public_key revoke.public_key)) [
      | inr e ↦ inl (ground arith)
      | inl (key, b) ↦ elim (Option-cases (posted s msg w)) [
        | inl e ↦ inl (ground arith)
        | inr (root, c) ↦ elim (Result-cases (decode_symmetric_keys msg.symmetric_keys)) [
          | inr e ↦ inl (ground arith)
          | inl (keys, d) ↦ elim (Bool-cases (s.driver.down select_keys)) [
            | inl e ↦ inl (ground arith)
            | inr up ↦ elim (Bool-cases (ltb (length (active_keys revoke.actor w.db)) 2)) [
              | inl e ↦ inl (ground arith)
              | inr two ↦
                  elim (Bool-cases
                    (signed_by_other s.primitives msg key (active_keys revoke.actor w.db))) [
                      | inr e ↦ inl (ground arith)
                      | inl signed ↦ inr (record {
                        revoke = revoke;
                        key = key;
                        root = root;
                        keys = keys;
                        decoded = a;
                        two = two;
                        key_decoded = b;
                        signed = signed;
                        submitted = (c, ground arith);
                        called = ground arith;
                      })
                    ]
            ]
          ]
        ]
      ]
    ]
  ]

  check_add_signature-cases :
      (add : AddKeyMessage) (ks : List PublicKey) (w₁ : World)
      → ((check_add_signature s msg add ks w₁).1 ≡ w₁)
        × ((is_go (check_add_signature s msg add ks w₁).0 ≡ false)
            ⊎ ((check_add_signature s msg add ks w₁).0 ≡ go tt) × AddSigned s msg add ks)
  unfolding check_add_signature AddSigned ensure need_ok
  check_add_signature-cases add [] w₁ = elim (Result-cases (decode_public_key add.public_key)) [
    | inr e ↦ (ground arith, inl (ground arith))
    | inl (key, e) ↦ elim (Result-cases (verify_message_signature s.primitives msg key)) [
      | inr f ↦ (ground arith, inl (ground arith))
      | inl (u, f) ↦ (ground arith, inr (ground arith, (key, e, f)))
    ]
  ]
  check_add_signature-cases add (k ∷ ks) w₁ = ground arith

  pub record AddKeyRun : Type 0 where
    pub add : AddKeyMessage
    pub root : String
    pub keys : List (String × Bytes)
    pub decoded : unmarshal_add_key msg.message ≡ some add
    pub signed : AddSigned s msg add (active_keys add.actor w.db)
    pub submitted : Submitted s msg w root (process_add_key_action s msg w).1
    pub called :
        Answered
          (process_add_key s.driver s.random add root keys w.db)
          (process_add_key_action s msg w)

  pub add_key_run : Refused w (process_add_key_action s msg w) ⊎ AddKeyRun
  unfolding process_add_key_action ensure need need_ok reads writes submit list_keys_for_actor
  add_key_run = elim (Option-cases (unmarshal_add_key msg.message)) [
    | inl e ↦ inl (ground arith)
    | inr (add, a) ↦ elim (Bool-cases (s.driver.down select_keys)) [
      | inl e ↦ inl (ground arith)
      | inr up ↦
          let (quiet, outcome) = check_add_signature-cases add (active_keys add.actor w.db) w in
          elim outcome [
            | inl e ↦ inl (ground arith)
            | inr (passed, signed) ↦ elim (Option-cases (posted s msg w)) [
              | inl e ↦ inl (ground arith)
              | inr (root, c) ↦ elim (Result-cases (decode_symmetric_keys msg.symmetric_keys)) [
                | inr e ↦ inl (ground arith)
                | inl (keys, d) ↦ inr (record {
                  add = add;
                  root = root;
                  keys = keys;
                  decoded = a;
                  signed = signed;
                  submitted = (c, ground arith);
                  called = ground arith;
                })
              ]
            ]
          ]
    ]
  ]
