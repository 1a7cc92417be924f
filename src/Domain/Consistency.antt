-- ===== src/Domain/Consistency.antt =====
-- Every operation of PKDService keeps the tables consistent, whether it succeeds or fails.
use pkd_server_go.Prelude.{
  ℕ, String, ◌≡◌, sym, subst, inl, inr, List, [], ◌∷◌, Option, ok, Unique, Unique-select,
  Bool-cases, arith,
}
use pkd_server_go.Protocol.Messages.{
  AddKeyMessage, RevokeKeyMessage, MoveIdentityMessage, AddAuxDataMessage, RevokeAuxDataMessage,
}
use pkd_server_go.Store.Driver.{Driver}
use pkd_server_go.Store.Rows.{Db}
use pkd_server_go.Store.Consistency.{IsConsistent, same_attribute}
use pkd_server_go.Store.Outcomes.{
  tx_insert_public_key-ok, tx_revoke_key-ok, tx_update_actor_id-ok, tx_revoke_all_keys_for_actor-ok,
  tx_insert_aux_data-ok, tx_revoke_aux_data-ok, tx_store_symmetric_keys-ok,
  tx_delete_symmetric_keys_by_hashes-ok,
}
use pkd_server_go.Store.Preservation.{
  get_or_create_actor-IsConsistent, with_key-IsConsistent, revoked-IsConsistent,
  with_aux-IsConsistent, revoked_aux-IsConsistent, with_symmetric-IsConsistent,
  insert_symmetric_rows-Unique,
}
use pkd_server_go.Store.Renaming.{renamed-IsConsistent}
use pkd_server_go.Domain.Transaction.{transaction_keeps}
use pkd_server_go.Domain.Service.{
  SymmetricKeys, store_keys, Validator, accepts, registered, process_add_key, process_revoke_key,
  process_move_identity, process_burn_down, crypto_shred, process_add_aux_data,
  process_revoke_aux_data,
}
use pkd_server_go.Domain.Steps.{
  store_keys-inserted, add_key_steps, revoke_key_steps, move_steps, burn_steps, add_aux_steps,
  revoke_aux_steps,
}

-- The table of symmetric keys alone changes, and stays consistent.
store_keys-IsConsistent :
    (d : Driver) (root : String) (keys : SymmetricKeys) (db db' : Db)
    → IsConsistent db
    → store_keys d root keys db ≡ (ok tt, db')
    → IsConsistent db'
unfolding store_keys
store_keys-IsConsistent d root [] db db' c h = subst IsConsistent (ground arith) c
store_keys-IsConsistent d root (k ∷ ks) db db' c h =
    let (t, inserted, same) =
      tx_store_symmetric_keys-ok d root (k ∷ ks) db db'
        (store_keys-inserted d root k ks db db' h) in
    subst IsConsistent (sym same) (
      with_symmetric-IsConsistent db c t (
        insert_symmetric_rows-Unique d root (k ∷ ks) db.symmetric_keys t c.attributes_distinct
          inserted))

add_key-IsConsistent :
    (d : Driver) (random : Option (List ℕ)) (msg : AddKeyMessage) (root : String)
    (keys : SymmetricKeys) (db : Db)
    → IsConsistent db
    → IsConsistent (process_add_key d random msg root keys db).1
unfolding process_add_key
add_key-IsConsistent d random msg root keys db c =
    transaction_keeps IsConsistent d _ db c λ key db' h.
      let s = add_key_steps d random msg root keys db key db' h in
      let c₁ = get_or_create_actor-IsConsistent d msg.actor db c s.actor s.with_actor s.found in
      let (there, absent, made, same) =
        tx_insert_public_key-ok d s.actor.id s.key_id msg.public_key root s.with_actor key
          s.with_key s.inserted in
      store_keys-IsConsistent d root keys s.with_key db'
        (subst IsConsistent (sym same) (
          with_key-IsConsistent s.with_actor c₁ d s.actor.id s.key_id msg.public_key root there
            absent))
        s.stored

revoke_key-IsConsistent :
    (d : Driver) (msg : RevokeKeyMessage) (root : String) (keys : SymmetricKeys) (db : Db)
    → IsConsistent db
    → IsConsistent (process_revoke_key d msg root keys db).1
unfolding process_revoke_key
revoke_key-IsConsistent d msg root keys db c = transaction_keeps IsConsistent d _ db c λ u db' h.
    let s = revoke_key_steps d msg root keys db db' h in
    store_keys-IsConsistent d root keys s.without_key db'
      (subst IsConsistent (sym (tx_revoke_key-ok d s.key.id root db s.without_key s.revoked_row))
        (revoked-IsConsistent db c d _ root))
      s.stored

move_identity-IsConsistent :
    (d : Driver) (msg : MoveIdentityMessage) (root : String) (db : Db)
    → IsConsistent db
    → IsConsistent (process_move_identity d msg root db).1
unfolding process_move_identity
move_identity-IsConsistent d msg root db c = transaction_keeps IsConsistent d _ db c λ u db' h.
    let s = move_steps d msg db db' h in
    subst IsConsistent
      (sym (tx_update_actor_id-ok d msg.old_actor msg.new_actor db s.rows db' s.updated).1)
      (renamed-IsConsistent d msg.old_actor msg.new_actor db c s.absent)

burn_down-IsConsistent :
    (d : Driver) (name root : String) (db : Db)
    → IsConsistent db
    → IsConsistent (process_burn_down d name root db).1
unfolding process_burn_down
burn_down-IsConsistent d name root db c = transaction_keeps IsConsistent d _ db c λ u db' h.
    let s = burn_steps d name root db db' h in
    let (t, same, kept) = tx_delete_symmetric_keys_by_hashes-ok d _ db s.shredded s.deleted in
    let c₁ = subst IsConsistent (sym same) (
      with_symmetric-IsConsistent db c t (
        subst (Unique same_attribute) (sym kept)
          (Unique-select same_attribute _ db.symmetric_keys.rows c.attributes_distinct))) in
    subst IsConsistent
      (sym (tx_revoke_all_keys_for_actor-ok d s.actor.id root s.shredded db' s.revoked_rows))
      (revoked-IsConsistent s.shredded c₁ d _ root)

add_aux_data-IsConsistent :
    (vs : List Validator) (d : Driver) (random : Option (List ℕ)) (msg : AddAuxDataMessage)
    (root : String) (db : Db)
    → IsConsistent db
    → IsConsistent (process_add_aux_data vs d random msg root db).1
unfolding process_add_aux_data
add_aux_data-IsConsistent vs d random msg root db c =
    elim (Bool-cases (accepts (registered vs msg.aux_type) msg.aux_data)) [
      | inr refused ↦ rw refused c
      | inl accepted ↦ rw accepted (
          transaction_keeps IsConsistent d _ db c λ aux db' h.
            let s = add_aux_steps d random msg root db aux db' h in
            let c₁ =
              get_or_create_actor-IsConsistent d msg.actor db c s.actor s.with_actor s.found in
            let (there, absent, made, same) =
              tx_insert_aux_data-ok d s.actor.id s.aux_id msg.aux_type msg.aux_data root
                s.with_actor aux db' s.inserted in
            subst IsConsistent (sym same) (
              with_aux-IsConsistent s.with_actor c₁ d s.actor.id s.aux_id msg.aux_type msg.aux_data
                root there absent))
    ]

revoke_aux_data-IsConsistent :
    (d : Driver) (msg : RevokeAuxDataMessage) (root : String) (db : Db)
    → IsConsistent db
    → IsConsistent (process_revoke_aux_data d msg root db).1
unfolding process_revoke_aux_data
revoke_aux_data-IsConsistent d msg root db c = transaction_keeps IsConsistent d _ db c λ u db' h.
    let s = revoke_aux_steps d msg root db db' h in
    subst IsConsistent
      (sym (tx_revoke_aux_data-ok d msg.actor msg.aux_id root db s.rows db' s.updated).1)
      (revoked_aux-IsConsistent db c d _ root)

-- A call of the interface `Service`.
pub data Call : Type 0 where
  add_key : AddKeyMessage → String → SymmetricKeys → Call
  revoke_key : RevokeKeyMessage → String → SymmetricKeys → Call
  move_identity : MoveIdentityMessage → String → Call
  burn_down : String → String → Call
  shred : ℕ → String → Call
  add_aux_data : AddAuxDataMessage → String → Call
  revoke_aux_data : RevokeAuxDataMessage → String → Call

-- The database after a call, with the answers that the call got from outside.
unfoldable pub perform : List Validator → Driver × Option (List ℕ) × Call → Db → Db
perform vs (d, random, add_key msg root keys) db = (process_add_key d random msg root keys db).1
perform vs (d, random, revoke_key msg root keys) db = (process_revoke_key d msg root keys db).1
perform vs (d, random, move_identity msg root) db = (process_move_identity d msg root db).1
perform vs (d, random, burn_down name root) db = (process_burn_down d name root db).1
perform vs (d, random, shred nanos name) db = (crypto_shred d nanos name db).1
perform vs (d, random, add_aux_data msg root) db = (process_add_aux_data vs d random msg root db).1
perform vs (d, random, revoke_aux_data msg root) db = (process_revoke_aux_data d msg root db).1

unfoldable pub perform_all : List Validator → List (Driver × Option (List ℕ) × Call) → Db → Db
perform_all vs [] db = db
perform_all vs (c ∷ cs) db = perform_all vs cs (perform vs c db)

-- Every call of the service keeps the tables consistent, whether it succeeds or fails: ids, names,
-- key ids, aux ids and attributes stay distinct, every key and every aux row belongs to an actor,
-- and a row has a time of revocation exactly when it has a root of revocation.
pub perform-IsConsistent :
    (vs : List Validator) (c : Driver × Option (List ℕ) × Call) (db : Db)
    → IsConsistent db
    → IsConsistent (perform vs c db)
unfolding perform crypto_shred
perform-IsConsistent vs (d, random, add_key msg root keys) db h =
    add_key-IsConsistent d random msg root keys db h
perform-IsConsistent vs (d, random, revoke_key msg root keys) db h =
    revoke_key-IsConsistent d msg root keys db h
perform-IsConsistent vs (d, random, move_identity msg root) db h =
    move_identity-IsConsistent d msg root db h
perform-IsConsistent vs (d, random, burn_down name root) db h =
    burn_down-IsConsistent d name root db h
perform-IsConsistent vs (d, random, shred nanos name) db h = burn_down-IsConsistent d name _ db h
perform-IsConsistent vs (d, random, add_aux_data msg root) db h =
    add_aux_data-IsConsistent vs d random msg root db h
perform-IsConsistent vs (d, random, revoke_aux_data msg root) db h =
    revoke_aux_data-IsConsistent d msg root db h

-- From any consistent database, any history of calls of the service, failing ones included, ends in
-- a consistent database.
pub perform_all-IsConsistent :
    (vs : List Validator) (cs : List (Driver × Option (List ℕ) × Call)) (db : Db)
    → IsConsistent db
    → IsConsistent (perform_all vs cs db)
unfolding perform_all
perform_all-IsConsistent vs [] db h = h
perform_all-IsConsistent vs (c ∷ cs) db h =
    perform_all-IsConsistent vs cs (perform vs c db) (perform-IsConsistent vs c db h)
