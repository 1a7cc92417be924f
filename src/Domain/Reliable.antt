-- ===== src/Domain/Reliable.antt =====
-- The answers of PKDService where no statement fails: the errors that are left, and when they come.
use pkd_server_go.Prelude.{
  String, ◌≡◌, refl, inl, inr, Bool, true, false, not, List, [], ◌∷◌, Option, none, some, Result,
  ok, err, arith, eqb_iff, any, find, count, count-any, any-count, find-any, find-eq-none, ◌==◌,
  ◌&&◌, Result-cases, Option-cases,
}
use pkd_server_go.Protocol.Messages.{RevokeKeyMessage, MoveIdentityMessage, RevokeAuxDataMessage}
use pkd_server_go.Store.Driver.{
  Driver, Statement, begin_tx, commit_tx, select_actor, actor_exists, update_actor_id,
  select_key_to_revoke, select_message_hashes, revoke_all_keys, delete_symmetric_keys,
}
use pkd_server_go.Store.Rows.{Actor, Db}
use pkd_server_go.Store.Reads.{has_actor_id, find_actor_by_actor_id}
use pkd_server_go.Store.Writes.{
  is_revocable, is_revocable_aux, tx_actor_exists, tx_update_actor_id, tx_find_key_to_revoke,
  tx_revoke_key, tx_get_message_hashes_for_actor, tx_revoke_all_keys_for_actor, tx_revoke_aux_data,
  tx_delete_symmetric_keys_by_hashes,
}
use pkd_server_go.Domain.Transaction.{
  Failure, key_not_found, new_actor_exists, actor_to_move_not_found, actor_not_found, aux_not_found,
  commit, run_body, transaction,
}
use pkd_server_go.Domain.Service.{
  store_keys, revoke_key_body, process_revoke_key, move_identity_body, process_move_identity,
  burn_down_body, process_burn_down, revoke_aux_data_body, process_revoke_aux_data,
}
use pkd_server_go.Domain.Steps.{hashes_of_actor}

-- Where a name is free, no other row has it.
other_row :
    (new old : String) (xs : List Actor)
    → any (has_actor_id new) xs ≡ false
    → any (λ a. a.actor_id == new && not (a.actor_id == old)) xs ≡ false
unfolding any
other_row new old [] h = refl
other_row new old (x ∷ xs) h = ground (arith, other_row new old xs)

deleted :
    (d : Driver) (up : (s : Statement) → d.down s ≡ false) (hashes : List String) (db : Db)
    → (db' : Db) × (tx_delete_symmetric_keys_by_hashes d hashes db ≡ ok db')
unfolding tx_delete_symmetric_keys_by_hashes
deleted d up [] db = (db, refl)
deleted d up (h ∷ hs) db =
    let works = up delete_symmetric_keys in
    elim (Result-cases (tx_delete_symmetric_keys_by_hashes d (h ∷ hs) db)) [
      | inl done ↦ done
      | inr (e, failed) ↦ ground arith
    ]

-- The answer of MoveIdentity, by whether there are actors of the two names.
abbrev pub move_answer : MoveIdentityMessage → Bool → Bool → Result Failure (Unit {0})
move_answer msg true old = err (new_actor_exists msg.new_actor)
move_answer msg false false = err (actor_to_move_not_found msg.old_actor)
move_answer msg false true = ok tt

-- The answer of a call that looks a row up.
abbrev pub answer_of : {A : Type 0} → Failure → Option A → Result Failure (Unit {0})
answer_of e none = err e
answer_of e (some a) = ok tt

module _ (d : Driver) (up : (s : Statement) → d.down s ≡ false) (root : String) (db : Db) where
  -- Where no statement fails, MoveIdentity succeeds exactly when there is an actor of the old name
  -- and none of the new one; it answers that the new actor exists where there is one, and else
  -- that there is no actor to move.
  pub process_move_identity-reliable :
      (msg : MoveIdentityMessage)
      → (process_move_identity d msg root db).0
        ≡ move_answer msg
            (any (has_actor_id msg.new_actor) db.actors.rows)
            (any (has_actor_id msg.old_actor) db.actors.rows)
  unfolding process_move_identity move_identity_body transaction run_body commit tx_actor_exists
      tx_update_actor_id
  process_move_identity-reliable msg =
      let begun = up begin_tx in
      let committed = up commit_tx in
      let asked = up actor_exists in
      let updated = up update_actor_id in
      let free = other_row msg.new_actor msg.old_actor db.actors.rows in
      let none_of = count-any (has_actor_id msg.old_actor) db.actors.rows in
      let some_of = any-count (has_actor_id msg.old_actor) db.actors.rows in
      ground (arith, eqb_iff (count (has_actor_id msg.old_actor) db.actors.rows) 0)

  process_burn_down-reliable :
      (name : String)
      → (process_burn_down d name root db).0
        ≡ answer_of actor_not_found (find (has_actor_id name) db.actors.rows)
  unfolding process_burn_down burn_down_body transaction run_body commit find_actor_by_actor_id
      tx_get_message_hashes_for_actor tx_revoke_all_keys_for_actor
  process_burn_down-reliable name =
      let begun = up begin_tx in
      let committed = up commit_tx in
      let selected = up select_actor in
      let gathered = up select_message_hashes in
      let stamped = up revoke_all_keys in
      elim (Option-cases (find (has_actor_id name) db.actors.rows)) [
        | inl absent ↦ ground arith
        | inr (a, found) ↦
            let (db₁, done) = deleted d up (hashes_of_actor d name root db a) db in ground arith
      ]

  process_revoke_key-reliable :
      (msg : RevokeKeyMessage)
      → (process_revoke_key d msg root [] db).0
        ≡ answer_of
            (key_not_found msg.public_key)
            (find (is_revocable msg.actor msg.public_key db.actors.rows) db.public_keys.rows)
  unfolding process_revoke_key revoke_key_body transaction run_body commit tx_find_key_to_revoke
      tx_revoke_key store_keys
  process_revoke_key-reliable msg =
      let begun = up begin_tx in
      let committed = up commit_tx in
      let selected = up select_key_to_revoke in
      let stamped = up pkd_server_go.Store.Driver.revoke_key in ground arith

  process_revoke_aux_data-reliable :
      (msg : RevokeAuxDataMessage)
      → (process_revoke_aux_data d msg root db).0
        ≡ answer_of
            (aux_not_found msg.aux_id)
            (find (is_revocable_aux msg.actor msg.aux_id db.actors.rows) db.auxiliary_data.rows)
  unfolding process_revoke_aux_data revoke_aux_data_body transaction run_body commit
      tx_revoke_aux_data
  process_revoke_aux_data-reliable msg =
      let begun = up begin_tx in
      let committed = up commit_tx in
      let stamped = up pkd_server_go.Store.Driver.revoke_aux_data in
      elim (Option-cases
        (find (is_revocable_aux msg.actor msg.aux_id db.actors.rows) db.auxiliary_data.rows)) [
          | inl absent ↦
              let none_of = count-any _ _ (find-eq-none _ db.auxiliary_data.rows absent) in
              ground arith
          | inr (x, found) ↦
              let some_of = any-count _ _ (find-any _ db.auxiliary_data.rows x found) in
              ground (
                arith,
                eqb_iff
                    (count (is_revocable_aux msg.actor msg.aux_id db.actors.rows)
                      db.auxiliary_data.rows)
                    0,
              )
        ]

  -- Where no statement fails, BurnDown succeeds exactly when there is an actor of the name, RevokeKey
  -- without symmetric keys exactly when the actor has an active row with the key text, and
  -- RevokeAuxData exactly when it has active auxiliary data with the id of the message; otherwise
  -- each answers that there is none.
  pub revocations_reliable :
      (name : String) (msg : RevokeKeyMessage) (aux : RevokeAuxDataMessage)
      → ((process_burn_down d name root db).0
          ≡ answer_of actor_not_found (find (has_actor_id name) db.actors.rows))
        × ((process_revoke_key d msg root [] db).0
            ≡ answer_of
                (key_not_found msg.public_key)
                (find (is_revocable msg.actor msg.public_key db.actors.rows) db.public_keys.rows))
        × ((process_revoke_aux_data d aux root db).0
            ≡ answer_of (aux_not_found aux.aux_id) (
                find (is_revocable_aux aux.actor aux.aux_id db.actors.rows) db.auxiliary_data.rows))
  revocations_reliable name msg aux = (
    process_burn_down-reliable name,
    process_revoke_key-reliable msg,
    process_revoke_aux_data-reliable aux,
  )
