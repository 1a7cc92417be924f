-- ===== src/Tests/Service.antt =====
-- Runs of the operations of internal/domain/service.go.
use pkd_server_go.Prelude.{
  false, ℕ, suc, ◌≡◌, refl, true, List, [], ◌∷◌, Option, none, some, any, find, select, update,
  count, ◌==◌,
}
use pkd_server_go.Store.Rows.{PublicKey, AuxiliaryData, Db}
use pkd_server_go.Store.Reads.{owned_by, find_actor_by_actor_id, active_keys, active_aux}
use pkd_server_go.Protocol.Messages.{AddKeyMessage}
use pkd_server_go.Store.Writes.{
  get_or_create_actor, create_actor, tx_find_key_to_revoke, tx_revoke_key, all_hashes,
  tx_get_message_hashes_for_actor, tx_revoke_all_keys_for_actor, tx_revoke_aux_data,
  tx_delete_symmetric_keys_by_hashes,
}
use pkd_server_go.Store.Consistency.{IsConsistent}
use pkd_server_go.Domain.Transaction.{commit, run_body, transaction}
use pkd_server_go.Domain.Service.{
  generate_key_id, add_key_body, store_keys, process_add_key, revoke_key_body, process_revoke_key,
  process_move_identity, burn_down_body, process_burn_down, process_add_aux_data,
  revoke_aux_data_body, process_revoke_aux_data,
}
use pkd_server_go.Domain.Consistency.{
  Call, add_key, revoke_key, move_identity, burn_down, perform, perform_all,
  perform_all-IsConsistent,
}
use pkd_server_go.Domain.Atomicity.{failure, perform-failure}
use pkd_server_go.Domain.History.{Extends, perform_all-Extends}
use pkd_server_go.Domain.Revocation.{active_keys-process_revoke_key}
use pkd_server_go.Domain.BurnDown.{active_keys-process_burn_down}
use pkd_server_go.Domain.Auxiliary.{active_aux-process_revoke_aux_data}
use pkd_server_go.Domain.Reliable.{
  move_answer, answer_of, process_move_identity-reliable, revocations_reliable,
}
use pkd_server_go.Store.Driver.{Statement}
use pkd_server_go.Store.Reads.{has_actor_id}
use pkd_server_go.Store.Writes.{is_revocable, is_revocable_aux}
use pkd_server_go.Domain.Transaction.{
  generate_id_failed, actor_not_found, key_not_found, aux_not_found,
}
use pkd_server_go.Domain.Directory.{directory, specified_all}
use pkd_server_go.Domain.Refinement.{perform_all-specified}
use pkd_server_go.Tests.Fixtures.{
  driver, broken_commit, text_one, text_two, db, db-IsConsistent, add_key_message,
  revoke_key_message, move_message, add_aux_message, revoke_aux_message,
}

driver_up : (s : Statement) → driver.down s ≡ false
driver_up s = refl

abbrev new_key : PublicKey
new_key = record {
  id = 4;
  actor_id = 1;
  key_id = "AQ";
  public_key = text_one;
  created_at = 7;
  merkle_root = "root";
  revoked_at = none;
  revoke_root = none;
  inclusion_proof = [];
}

abbrev after_add : Db
after_add = (process_add_key driver (some (1 ∷ [])) add_key_message "root" [] db).1

abbrev after_revoke : Db
after_revoke = (process_revoke_key driver revoke_key_message "root" [] db).1

active_keys-process_revoke_key_example :
    count (λ k. true) (active_keys "alice" db)
    ≡ suc (count (λ k. true) (active_keys "alice" after_revoke))
unfolding process_revoke_key revoke_key_body transaction run_body commit tx_find_key_to_revoke
    tx_revoke_key store_keys find any owned_by
active_keys-process_revoke_key_example =
    (active_keys-process_revoke_key driver revoke_key_message "root" [] db db-IsConsistent refl).3
      (λ k. true) refl

abbrev after_move : Db
after_move = (process_move_identity driver move_message "root" db).1

abbrev after_burn : Db
after_burn = (process_burn_down driver "alice" "root" db).1

active_keys-process_burn_down_example : active_keys "alice" after_burn ≡ []
unfolding process_burn_down burn_down_body transaction run_body commit find_actor_by_actor_id
    tx_get_message_hashes_for_actor tx_delete_symmetric_keys_by_hashes tx_revoke_all_keys_for_actor
    all_hashes select find any
active_keys-process_burn_down_example =
    (active_keys-process_burn_down driver "alice" "root" db db-IsConsistent refl).0

abbrev new_aux : AuxiliaryData
new_aux = record {
  id = 2;
  actor_id = 1;
  aux_id = "AQ";
  aux_type = "pronouns";
  aux_data = "y";
  created_at = 7;
  merkle_root = "root";
  revoked_at = none;
  revoke_root = none;
}

abbrev after_add_aux : Db
after_add_aux = (process_add_aux_data [] driver (some (1 ∷ [])) add_aux_message "root" db).1

abbrev after_revoke_aux : Db
after_revoke_aux = (process_revoke_aux_data driver revoke_aux_message "root" db).1

active_aux-process_revoke_aux_data_example :
    any (λ x. x.aux_id == "a1") (active_aux "alice" db) ≡ true
unfolding process_revoke_aux_data revoke_aux_data_body transaction run_body commit
    tx_revoke_aux_data update count any owned_by
active_aux-process_revoke_aux_data_example =
    (active_aux-process_revoke_aux_data driver revoke_aux_message "root" db db-IsConsistent refl).0

-- A key for Alice, the loss of the other one, a move, and the end of the operator's keys.
abbrev calls : List (pkd_server_go.Store.Driver.Driver × Option (List ℕ) × Call)
calls =
    (driver, some (1 ∷ []), add_key add_key_message "root" [])
    ∷ (driver, none, revoke_key revoke_key_message "root" [])
    ∷ (broken_commit, none, move_identity move_message "root")
    ∷ (driver, none, move_identity move_message "root")
    ∷ (driver, none, burn_down "op" "root")
    ∷ []

perform_all-IsConsistent_example : IsConsistent (perform_all [] calls db)
perform_all-IsConsistent_example = perform_all-IsConsistent [] calls db db-IsConsistent

perform_all-Extends_example : Extends db.public_keys.rows (perform_all [] calls db).public_keys.rows
perform_all-Extends_example = perform_all-Extends [] calls db db-IsConsistent

-- A new actor's row is written before the random bytes for its key's id fail.
abbrev newcomer : AddKeyMessage
newcomer = record add_key_message { actor = "eve" }

partial_work :
    any (has_actor_id "eve") (add_key_body driver none newcomer "root" [] db).1.actors.rows ≡ true
unfolding add_key_body get_or_create_actor create_actor generate_key_id find any
partial_work = refl

perform-failure_example : perform [] (driver, none, add_key newcomer "root" []) db ≡ db
unfolding failure process_add_key add_key_body transaction run_body get_or_create_actor create_actor
    generate_key_id find any
perform-failure_example =
    perform-failure [] (driver, none, add_key newcomer "root" []) db generate_id_failed refl

process_move_identity-reliable_example :
    (process_move_identity driver move_message "root" db).0
    ≡ move_answer move_message
        (any (has_actor_id "bob") db.actors.rows)
        (any (has_actor_id "alice") db.actors.rows)
process_move_identity-reliable_example =
    process_move_identity-reliable driver driver_up "root" db move_message

revocations_reliable_example :
    ((process_burn_down driver "eve" "root" db).0
      ≡ answer_of actor_not_found (find (has_actor_id "eve") db.actors.rows))
    × ((process_revoke_key driver revoke_key_message "root" [] db).0
        ≡ answer_of
            (key_not_found text_two)
            (find (is_revocable "alice" text_two db.actors.rows) db.public_keys.rows))
    × ((process_revoke_aux_data driver revoke_aux_message "root" db).0
        ≡ answer_of
            (aux_not_found "a1")
            (find (is_revocable_aux "alice" "a1" db.actors.rows) db.auxiliary_data.rows))
revocations_reliable_example =
    revocations_reliable driver driver_up "root" db "eve" revoke_key_message revoke_aux_message

perform_all-specified_example :
    directory (perform_all [] calls db) ≡ specified_all [] calls db (directory db)
perform_all-specified_example = perform_all-specified [] calls db db-IsConsistent
