-- ===== src/Domain/Steps.antt =====
-- The statements that a successful operation of PKDService has gone through.
use pkd_server_go.Prelude.{
  ℕ, String, ◌≡◌, inl, inr, false, List, Option, some, arith, eqb, any, find, select, ok, ◌∷◌,
  Result-cases, Option-cases,
}
use pkd_server_go.Protocol.Messages.{
  AddKeyMessage, RevokeKeyMessage, MoveIdentityMessage, AddAuxDataMessage, RevokeAuxDataMessage,
}
use pkd_server_go.Store.Driver.{Driver}
use pkd_server_go.Store.Rows.{Actor, PublicKey, AuxiliaryData, Db}
use pkd_server_go.Store.Writes.{
  all_hashes, is_revocable, get_or_create_actor, tx_actor_exists, tx_update_actor_id,
  tx_insert_public_key, tx_find_key_to_revoke, tx_revoke_key, tx_get_message_hashes_for_actor,
  tx_revoke_all_keys_for_actor, tx_insert_aux_data, tx_revoke_aux_data,
  tx_delete_symmetric_keys_by_hashes, tx_store_symmetric_keys,
}
use pkd_server_go.Store.Reads.{has_actor_id, find_actor_by_actor_id}
use pkd_server_go.Domain.Service.{
  SymmetricKeys, store_keys, add_key_body, revoke_key_body, move_identity_body, burn_down_body,
  add_aux_data_body, revoke_aux_data_body, generate_key_id,
}

-- A batch that has been stored is one that the statement has inserted.
pub store_keys-inserted :
    (d : Driver) (root : String) (k : String × List ℕ) (ks : SymmetricKeys) (db db' : Db)
    → store_keys d root (k ∷ ks) db ≡ (ok tt, db')
    → tx_store_symmetric_keys d root (k ∷ ks) db ≡ ok db'
unfolding store_keys
store_keys-inserted d root k ks db db' h =
    elim (Result-cases (tx_store_symmetric_keys d root (k ∷ ks) db)) [
      | inl (db₁, e) ↦ ground arith
      | inr (x, e) ↦ ground arith
    ]

module _ (d : Driver) (random : Option (List ℕ)) (msg : AddKeyMessage) (root : String)
    (keys : SymmetricKeys) (db : Db) where
  pub record AddKeySteps (key : PublicKey) (db' : Db) : Type 0 where
    pub actor : Actor
    pub with_actor : Db
    pub with_key : Db
    pub key_id : String
    pub found : get_or_create_actor d msg.actor db ≡ ok (actor, with_actor)
    pub inserted :
        tx_insert_public_key d actor.id key_id msg.public_key root with_actor ≡ ok (key, with_key)
    pub stored : store_keys d root keys with_key ≡ (ok tt, db')

  pub add_key_steps :
      (key : PublicKey) (db' : Db)
      → add_key_body d random msg root keys db ≡ (ok key, db')
      → AddKeySteps key db'
  unfolding add_key_body
  add_key_steps key db' h = elim (Result-cases (get_or_create_actor d msg.actor db)) [
    | inr (e, p) ↦ ground arith
    | inl ((actor, db₁), p) ↦ elim (Option-cases (generate_key_id random)) [
      | inl none_left ↦ ground arith
      | inr (key_id, q) ↦
          elim (Result-cases (tx_insert_public_key d actor.id key_id msg.public_key root db₁)) [
            | inr (e, r) ↦ ground arith
            | inl ((key', db₂), r) ↦ record {
              actor = actor;
              with_actor = db₁;
              with_key = db₂;
              key_id = key_id;
              found = p;
              inserted = ground arith;
              stored = ground arith;
            }
          ]
    ]
  ]

module _ (d : Driver) (msg : RevokeKeyMessage) (root : String) (keys : SymmetricKeys)
    (db : Db) where
  pub record RevokeKeySteps (db' : Db) : Type 0 where
    pub key : PublicKey
    pub without_key : Db
    pub found :
        find (is_revocable msg.actor msg.public_key db.actors.rows) db.public_keys.rows ≡ some key
    pub revoked_row : tx_revoke_key d key.id root db ≡ ok without_key
    pub stored : store_keys d root keys without_key ≡ (ok tt, db')

  pub revoke_key_steps :
      (db' : Db) → revoke_key_body d msg root keys db ≡ (ok tt, db') → RevokeKeySteps db'
  unfolding revoke_key_body tx_find_key_to_revoke
  revoke_key_steps db' h =
      elim (Option-cases
        (find (is_revocable msg.actor msg.public_key db.actors.rows) db.public_keys.rows)) [
          | inl missing ↦ ground arith
          | inr (key, p) ↦ elim (Result-cases (tx_revoke_key d key.id root db)) [
            | inr (e, q) ↦ ground arith
            | inl (db₁, q) ↦ record {
              key = key;
              without_key = db₁;
              found = p;
              revoked_row = q;
              stored = ground arith;
            }
          ]
        ]

module _ (d : Driver) (msg : MoveIdentityMessage) (db : Db) where
  pub record MoveSteps (db' : Db) : Type 0 where
    pub rows : ℕ
    pub absent : any (has_actor_id msg.new_actor) db.actors.rows ≡ false
    pub updated : tx_update_actor_id d msg.old_actor msg.new_actor db ≡ ok (rows, db')
    pub some_row : eqb rows 0 ≡ false

  pub move_steps : (db' : Db) → move_identity_body d msg db ≡ (ok tt, db') → MoveSteps db'
  unfolding move_identity_body tx_actor_exists
  move_steps db' h = elim (Result-cases (tx_update_actor_id d msg.old_actor msg.new_actor db)) [
    | inr (e, q) ↦ ground arith
    | inl ((rows, db₁), q) ↦ record {
      rows = rows;
      absent = ground arith;
      updated = ground arith;
      some_row = ground arith;
    }
  ]

module _ (d : Driver) (name root : String) (db : Db) where
  abbrev pub hashes_of_actor : Actor → List String
  hashes_of_actor a = all_hashes (select (λ k. eqb k.actor_id a.id) db.public_keys.rows)

  pub record BurnSteps (db' : Db) : Type 0 where
    pub actor : Actor
    pub shredded : Db
    pub found : find (has_actor_id name) db.actors.rows ≡ some actor
    pub deleted : tx_delete_symmetric_keys_by_hashes d (hashes_of_actor actor) db ≡ ok shredded
    pub revoked_rows : tx_revoke_all_keys_for_actor d actor.id root shredded ≡ ok db'

  pub burn_steps : (db' : Db) → burn_down_body d name root db ≡ (ok tt, db') → BurnSteps db'
  unfolding burn_down_body find_actor_by_actor_id tx_get_message_hashes_for_actor
  burn_steps db' h = elim (Option-cases (find (has_actor_id name) db.actors.rows)) [
    | inl missing ↦ ground arith
    | inr (actor, p) ↦
        elim (Result-cases (tx_delete_symmetric_keys_by_hashes d (hashes_of_actor actor) db)) [
          | inr (e, q) ↦ ground arith
          | inl (db₁, q) ↦ record {
            actor = actor;
            shredded = db₁;
            found = p;
            deleted = q;
            revoked_rows = ground arith;
          }
        ]
  ]

module _ (d : Driver) (random : Option (List ℕ)) (msg : AddAuxDataMessage) (root : String)
    (db : Db) where
  pub record AddAuxSteps (aux : AuxiliaryData) (db' : Db) : Type 0 where
    pub actor : Actor
    pub with_actor : Db
    pub aux_id : String
    pub found : get_or_create_actor d msg.actor db ≡ ok (actor, with_actor)
    pub inserted :
        tx_insert_aux_data d actor.id aux_id msg.aux_type msg.aux_data root with_actor
        ≡ ok (aux, db')

  pub add_aux_steps :
      (aux : AuxiliaryData) (db' : Db)
      → add_aux_data_body d random msg root db ≡ (ok aux, db')
      → AddAuxSteps aux db'
  unfolding add_aux_data_body
  add_aux_steps aux db' h = elim (Result-cases (get_or_create_actor d msg.actor db)) [
    | inr (e, p) ↦ ground arith
    | inl ((actor, db₁), p) ↦ elim (Option-cases (generate_key_id random)) [
      | inl none_left ↦ ground arith
      | inr (aux_id, q) ↦ record {
        actor = actor;
        with_actor = db₁;
        aux_id = aux_id;
        found = p;
        inserted = ground arith;
      }
    ]
  ]

module _ (d : Driver) (msg : RevokeAuxDataMessage) (root : String) (db : Db) where
  pub record RevokeAuxSteps (db' : Db) : Type 0 where
    pub rows : ℕ
    pub updated : tx_revoke_aux_data d msg.actor msg.aux_id root db ≡ ok (rows, db')
    pub some_row : eqb rows 0 ≡ false

  pub revoke_aux_steps :
      (db' : Db) → revoke_aux_data_body d msg root db ≡ (ok tt, db') → RevokeAuxSteps db'
  unfolding revoke_aux_data_body
  revoke_aux_steps db' h = elim (Result-cases (tx_revoke_aux_data d msg.actor msg.aux_id root db)) [
    | inr (e, q) ↦ ground arith
    | inl ((rows, db₁), q) ↦ record { rows = rows; updated = ground arith; some_row = ground arith }
  ]
