-- ===== src/Api/Accepted.antt =====
-- What a message that internal/api/protocol_actions.go answers with success was signed by, and what
-- it has done to the directory.
use pkd_server_go.Prelude.{
  suc, ◌<◌, String, ◌≡◌, ◌≢◌, refl, sym, ap, ◌∙◌, inl, inr, true, List, [], ◌∷◌, ◌++◌, Option, some,
  Result, ok, arith, Result-cases, length, count,
}
use pkd_server_go.Signing.{Bytes, decode_public_key}
use pkd_server_go.Protocol.Messages.{
  ProtocolMessage, AddKeyMessage, RevokeKeyMessage, MoveIdentityMessage, BurnDownMessage,
  signed_part,
}
use pkd_server_go.Protocol.Unmarshal.{
  unmarshal_add_key, unmarshal_revoke_key, unmarshal_move_identity, unmarshal_burn_down,
}
use pkd_server_go.Store.Rows.{Db, PublicKey}
use pkd_server_go.Store.Reads.{get_totp_secret, active_keys, active_aux}
use pkd_server_go.Store.Consistency.{IsConsistent}
use pkd_server_go.Domain.Service.{
  process_add_key, process_revoke_key, process_move_identity, process_burn_down,
}
use pkd_server_go.Domain.Keys.{active_keys-process_add_key}
use pkd_server_go.Domain.Revocation.{active_keys-process_revoke_key}
use pkd_server_go.Domain.Identity.{active_keys-process_move_identity}
use pkd_server_go.Domain.BurnDown.{active_keys-process_burn_down}
use pkd_server_go.Api.Handler.{Server, World, Payload, go}
use pkd_server_go.Api.Actions.Keys.{process_add_key_action, process_revoke_key_action}
use pkd_server_go.Api.Actions.Identity.{process_move_identity_action, process_burn_down_action}
use pkd_server_go.Api.Runs.{is_ok, HasOtp, move_identity_run, burn_down_run}
use pkd_server_go.Api.KeyRuns.{AddSigned, add_key_run, revoke_key_run}
use pkd_server_go.Api.Authority.{Holds, Signs, SignsOther, signed_by_one-true, signed_by_other-true}

pub succeeded : {E A : Type 0} (r : Result E A) → is_ok r ≡ true → (a : A) × (r ≡ ok a)
succeeded r h = elim (Result-cases r) [ inl done ↦ done | inr (e, f) ↦ ground arith ]

count-true : {A : Type 0} (xs : List A) → count (λ _. true) xs ≡ length xs
unfolding count
count-true [] = refl
count-true (x ∷ xs) = ap suc (count-true xs)

module _ (s : Server) (msg : ProtocolMessage) (w : World) (payload : Payload) where
  -- Where the handler of RevokeKey answers with success on a consistent database: the actor of the
  -- message had an active key, other than the key of the message, that verifies the message; the
  -- message is logged; the actor has one active key less than before, and one at least; and all
  -- other actors have the active keys that they had.
  pub process_revoke_key_action-success :
      IsConsistent w.db
      → (process_revoke_key_action s msg w).0 ≡ go payload
      → (revoke : RevokeKeyMessage) × (revoked : Bytes) × (unmarshal_revoke_key msg.message
          ≡ some revoke)
        × (decode_public_key revoke.public_key ≡ ok revoked)
        × Holds (SignsOther s.primitives msg revoked) (active_keys revoke.actor w.db)
        × ((process_revoke_key_action s msg w).1.logged ≡ w.logged ++ signed_part msg ∷ [])
        × (length (active_keys revoke.actor w.db)
            ≡ suc (length (active_keys revoke.actor (process_revoke_key_action s msg w).1.db)))
        × (0 < length (active_keys revoke.actor (process_revoke_key_action s msg w).1.db))
        × ((n : String)
            → n ≢ revoke.actor
            → active_keys n (process_revoke_key_action s msg w).1.db ≡ active_keys n w.db)
  process_revoke_key_action-success c h = elim (revoke_key_run s msg w) [
    | inl refused ↦ ground arith
    | inr run ↦
        let call = process_revoke_key s.driver run.revoke run.root run.keys w.db in
        let (done, result) = succeeded call.0 (ground arith) in
        let (key, text, left, less, others) =
          active_keys-process_revoke_key s.driver run.revoke run.root run.keys w.db c result in
        let same = run.called.0 in
        let fewer = λ (n : String). ap (λ (db : Db). active_keys n db) same in
        let counted : length (active_keys run.revoke.actor w.db)
            ≡ suc (length (active_keys run.revoke.actor call.1)) =
          sym (count-true _) ∙ (less (λ _. true) refl ∙ ap suc (count-true _)) in
        let one_less =
          counted ∙ ap (λ (ks : List PublicKey). suc (length ks)) (sym (fewer run.revoke.actor)) in
        (
          run.revoke,
          run.key,
          run.decoded,
          run.key_decoded,
          signed_by_other-true s.primitives msg run.key _ run.signed,
          run.submitted.1,
          one_less,
          (let two = run.two in ground arith),
          λ n ne. fewer n ∙ others n ne,
        )
  ]

  -- Where the handler of AddKey answers with success on a consistent database: one of the actor's
  -- active keys verifies the message, or, where the actor has none, the new key itself does; the
  -- message is logged; a key with the message's key text is appended to the actor's active keys; and
  -- all other actors have the active keys that they had.
  pub process_add_key_action-success :
      IsConsistent w.db
      → (process_add_key_action s msg w).0 ≡ go payload
      → (add : AddKeyMessage) × (key : PublicKey) × (unmarshal_add_key msg.message ≡ some add)
        × AddSigned s msg add (active_keys add.actor w.db)
        × ((process_add_key_action s msg w).1.logged ≡ w.logged ++ signed_part msg ∷ [])
        × (key.public_key ≡ add.public_key)
        × (active_keys add.actor (process_add_key_action s msg w).1.db
            ≡ active_keys add.actor w.db ++ key ∷ [])
        × ((n : String)
            → n ≢ add.actor
            → active_keys n (process_add_key_action s msg w).1.db ≡ active_keys n w.db)
  process_add_key_action-success c h = elim (add_key_run s msg w) [
    | inl refused ↦ ground arith
    | inr run ↦
        let call = process_add_key s.driver s.random run.add run.root run.keys w.db in
        let (key, result) = succeeded call.0 (ground arith) in
        let (own, others, text, root, active) =
          active_keys-process_add_key s.driver s.random run.add run.root run.keys w.db key c
            result in
        let lists = λ (n : String). ap (λ (db : Db). active_keys n db) run.called.0 in
        (
          run.add,
          key,
          run.decoded,
          run.signed,
          run.submitted.1,
          text,
          lists run.add.actor ∙ own,
          λ n ne. lists n ∙ others n ne,
        )
  ]

  -- Where the handler of MoveIdentity answers with success: an active key of the old actor verifies
  -- the message; the message is logged; the new actor has the active keys and auxiliary data that
  -- the old one had, and the old one has no active key and no active auxiliary data.
  pub process_move_identity_action-success :
      (process_move_identity_action s msg w).0 ≡ go payload
      → (move : MoveIdentityMessage) × (unmarshal_move_identity msg.message ≡ some move)
        × Holds (Signs s.primitives msg) (active_keys move.old_actor w.db)
        × ((process_move_identity_action s msg w).1.logged ≡ w.logged ++ signed_part msg ∷ [])
        × (active_keys move.new_actor (process_move_identity_action s msg w).1.db
            ≡ active_keys move.old_actor w.db)
        × (active_aux move.new_actor (process_move_identity_action s msg w).1.db
            ≡ active_aux move.old_actor w.db)
        × (active_keys move.old_actor (process_move_identity_action s msg w).1.db ≡ [])
        × (active_aux move.old_actor (process_move_identity_action s msg w).1.db ≡ [])
  process_move_identity_action-success h = elim (move_identity_run s msg w) [
    | inl refused ↦ ground arith
    | inr (move, a, decoded, called) ↦
        let call = process_move_identity s.driver move a.root w.db in
        let (done, result) = succeeded call.0 (ground arith) in
        let (keys, aux, old_keys, old_aux, others) =
          active_keys-process_move_identity s.driver move a.root w.db result in
        let lists = λ (n : String). ap (λ (db : Db). active_keys n db) called.0 in
        (
          move,
          decoded,
          signed_by_one-true s.primitives msg _ a.signed,
          a.submitted.1,
          lists move.new_actor ∙ keys,
          ap (λ (db : Db). active_aux move.new_actor db) called.0 ∙ aux,
          lists move.old_actor ∙ old_keys,
          ap (λ (db : Db). active_aux move.old_actor db) called.0 ∙ old_aux,
        )
  ]

  -- Where the handler of BurnDown answers with success on a consistent database: an active key of
  -- the operator verifies the message; where a TOTP secret is stored under the operator's name, the
  -- message has a valid code; the message is logged; the actor has no active key left; and all
  -- other actors have the active keys that they had.
  pub process_burn_down_action-success :
      IsConsistent w.db
      → (process_burn_down_action s msg w).0 ≡ go payload
      → (burn : BurnDownMessage) × (enrolled : Option Bytes) × (unmarshal_burn_down msg.message
          ≡ some burn)
        × Holds (Signs s.primitives msg) (active_keys burn.operator w.db)
        × (get_totp_secret s.driver burn.operator w.db ≡ ok enrolled)
        × HasOtp s msg enrolled
        × ((process_burn_down_action s msg w).1.logged ≡ w.logged ++ signed_part msg ∷ [])
        × (active_keys burn.actor (process_burn_down_action s msg w).1.db ≡ [])
        × ((n : String)
            → n ≢ burn.actor
            → active_keys n (process_burn_down_action s msg w).1.db ≡ active_keys n w.db)
  process_burn_down_action-success c h = elim (burn_down_run s msg w) [
    | inl refused ↦ ground arith
    | inr (burn, a, enrolled, decoded, stored, otp, called) ↦
        let call = process_burn_down s.driver burn.actor a.root w.db in
        let (done, result) = succeeded call.0 (ground arith) in
        let (own, others, shredded, left, aux) =
          active_keys-process_burn_down s.driver burn.actor a.root w.db c result in
        let lists = λ (n : String). ap (λ (db : Db). active_keys n db) called.0 in
        (
          burn,
          enrolled,
          decoded,
          signed_by_one-true s.primitives msg _ a.signed,
          stored,
          otp,
          a.submitted.1,
          lists burn.actor ∙ own,
          λ n ne. lists n ∙ others n ne,
        )
  ]
