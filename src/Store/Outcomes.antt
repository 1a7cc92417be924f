-- ===== src/Store/Outcomes.antt =====
-- What a statement of a transaction has done where it succeeds.
use pkd_server_go.Prelude.{
  ℕ, suc, String, ◌≡◌, ◌⊎◌, true, false, not, ◌&&◌, List, [], ◌∷◌, none, some, arith, eqb, ◌==◌, ok,
  any, find, select, update, count, sym, select_everything,
}
use pkd_server_go.Store.Driver.{Driver}
use pkd_server_go.Store.Rows.{Actor, PublicKey, AuxiliaryData, SymmetricKey, Table, Db}
use pkd_server_go.Store.Reads.{has_actor_id, is_active}
use pkd_server_go.Store.Writes.{
  append_row, new_actor, create_actor, get_or_create_actor, tx_update_actor_id,
  tx_insert_public_key, revoked, tx_revoke_key, tx_revoke_all_keys_for_actor, tx_insert_aux_data,
  is_revocable_aux, tx_revoke_aux_data, insert_symmetric_rows, tx_store_symmetric_keys, is_hash_in,
  tx_delete_symmetric_keys_by_hashes,
}
use pkd_server_go.Store.Consistency.{has_id}

-- The actor was there, or has been appended.
pub get_or_create_actor-ok :
    (d : Driver) (name : String) (db : Db) (actor : Actor) (db' : Db)
    → get_or_create_actor d name db ≡ ok (actor, db')
    → ((find (has_actor_id name) db.actors.rows ≡ some actor) × (db' ≡ db))
      ⊎ ((any (has_actor_id name) db.actors.rows ≡ false)
          × (actor ≡ new_actor d name (suc db.actors.seq))
          × (db' ≡ record db { actors = append_row (new_actor d name) db.actors }))
unfolding get_or_create_actor create_actor
get_or_create_actor-ok d name db actor db' h = ground arith

abbrev pub renamed : Driver → String → Actor → Actor
renamed d new a = record a { actor_id = new; updated_at = d.now }

pub tx_update_actor_id-ok :
    (d : Driver) (old new : String) (db : Db) (rows : ℕ) (db' : Db)
    → tx_update_actor_id d old new db ≡ ok (rows, db')
    → (rows ≡ count (has_actor_id old) db.actors.rows)
      × (db' ≡ record db {
        actors = record db.actors {
          rows = update (has_actor_id old) (renamed d new) db.actors.rows;
        };
      })
unfolding tx_update_actor_id
tx_update_actor_id-ok d old new db rows db' h = ground arith

abbrev pub new_key : Driver → ℕ → String → String → String → ℕ → PublicKey
new_key d owner key_id public_key root id = record {
  id = id;
  actor_id = owner;
  key_id = key_id;
  public_key = public_key;
  created_at = d.now;
  merkle_root = root;
  revoked_at = none;
  revoke_root = none;
  inclusion_proof = [];
}

pub tx_insert_public_key-ok :
    (d : Driver) (owner : ℕ) (key_id public_key root : String) (db : Db) (key : PublicKey)
    (db' : Db)
    → tx_insert_public_key d owner key_id public_key root db ≡ ok (key, db')
    → (any (has_id owner) db.actors.rows ≡ true)
      × (any (λ k. k.key_id == key_id) db.public_keys.rows ≡ false)
      × (key ≡ new_key d owner key_id public_key root (suc db.public_keys.seq))
      × (db' ≡ record db {
        public_keys = append_row (new_key d owner key_id public_key root) db.public_keys;
      })
unfolding tx_insert_public_key
tx_insert_public_key-ok d owner key_id public_key root db key db' h = ground arith

pub tx_revoke_key-ok :
    (d : Driver) (id : ℕ) (root : String) (db db' : Db)
    → tx_revoke_key d id root db ≡ ok db'
    → db' ≡ record db {
      public_keys = record db.public_keys {
        rows = update (λ k. eqb k.id id) (revoked d root) db.public_keys.rows;
      };
    }
unfolding tx_revoke_key
tx_revoke_key-ok d id root db db' h = ground arith

pub tx_revoke_all_keys_for_actor-ok :
    (d : Driver) (owner : ℕ) (root : String) (db db' : Db)
    → tx_revoke_all_keys_for_actor d owner root db ≡ ok db'
    → db' ≡ record db {
      public_keys = record db.public_keys {
        rows =
            update (λ k. eqb k.actor_id owner && is_active k) (revoked d root) db.public_keys.rows;
      };
    }
unfolding tx_revoke_all_keys_for_actor
tx_revoke_all_keys_for_actor-ok d owner root db db' h = ground arith

abbrev pub new_aux : Driver → ℕ → String → String → String → String → ℕ → AuxiliaryData
new_aux d owner aux_id aux_type aux_data root id = record {
  id = id;
  actor_id = owner;
  aux_id = aux_id;
  aux_type = aux_type;
  aux_data = aux_data;
  created_at = d.now;
  merkle_root = root;
  revoked_at = none;
  revoke_root = none;
}

pub tx_insert_aux_data-ok :
    (d : Driver) (owner : ℕ) (aux_id aux_type aux_data root : String) (db : Db)
    (aux : AuxiliaryData) (db' : Db)
    → tx_insert_aux_data d owner aux_id aux_type aux_data root db ≡ ok (aux, db')
    → (any (has_id owner) db.actors.rows ≡ true)
      × (any (λ x. x.aux_id == aux_id) db.auxiliary_data.rows ≡ false)
      × (aux ≡ new_aux d owner aux_id aux_type aux_data root (suc db.auxiliary_data.seq))
      × (db' ≡ record db {
        auxiliary_data =
            append_row (new_aux d owner aux_id aux_type aux_data root) db.auxiliary_data;
      })
unfolding tx_insert_aux_data
tx_insert_aux_data-ok d owner aux_id aux_type aux_data root db aux db' h = ground arith

abbrev pub revoked_aux : Driver → String → AuxiliaryData → AuxiliaryData
revoked_aux d root x = record x { revoked_at = some d.now; revoke_root = some root }

pub tx_revoke_aux_data-ok :
    (d : Driver) (name aux_id root : String) (db : Db) (rows : ℕ) (db' : Db)
    → tx_revoke_aux_data d name aux_id root db ≡ ok (rows, db')
    → (rows ≡ count (is_revocable_aux name aux_id db.actors.rows) db.auxiliary_data.rows)
      × (db' ≡ record db {
        auxiliary_data = record db.auxiliary_data {
          rows =
              update
                (is_revocable_aux name aux_id db.actors.rows)
                (revoked_aux d root)
                db.auxiliary_data.rows;
        };
      })
unfolding tx_revoke_aux_data
tx_revoke_aux_data-ok d name aux_id root db rows db' h = ground arith

pub tx_store_symmetric_keys-ok :
    (d : Driver) (hash : String) (keys : List (String × List ℕ)) (db db' : Db)
    → tx_store_symmetric_keys d hash keys db ≡ ok db'
    → (t : Table SymmetricKey) × (insert_symmetric_rows d hash keys db.symmetric_keys ≡ some t)
      × (db' ≡ record db { symmetric_keys = t })
unfolding tx_store_symmetric_keys
tx_store_symmetric_keys-ok d hash keys db db' h = ground arith

pub tx_delete_symmetric_keys_by_hashes-ok :
    (d : Driver) (hashes : List String) (db db' : Db)
    → tx_delete_symmetric_keys_by_hashes d hashes db ≡ ok db'
    → (t : Table SymmetricKey) × (db' ≡ record db { symmetric_keys = t })
      × (t.rows ≡ select (λ s. not (is_hash_in hashes s)) db.symmetric_keys.rows)
unfolding tx_delete_symmetric_keys_by_hashes is_hash_in any
tx_delete_symmetric_keys_by_hashes-ok d [] db db' h =
    (db.symmetric_keys, ground arith, sym (select_everything db.symmetric_keys.rows))
tx_delete_symmetric_keys_by_hashes-ok d (x ∷ xs) db db' h =
    (db'.symmetric_keys, ground arith, ground arith)
