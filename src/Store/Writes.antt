-- ===== src/Store/Writes.antt =====
-- Statements of internal/db/sqlite.go inside a transaction: each maps the transaction's working
-- copy of the database to an answer and the new copy.
use pkd_server_go.Prelude.{
  ℕ, suc, String, Bool, true, ◌&&◌, not, List, [], ◌∷◌, ◌++◌, Option, none, some, eqb, ◌==◌, Result,
  ok, err, ◌>>=◌, ◌>>◌, select, update, any, find, count,
}
use pkd_server_go.Store.Driver.{
  Driver, DbError, attempt, require, select_actor, insert_actor, actor_exists, update_actor_id,
  insert_public_key, select_key_to_revoke, revoke_key, select_message_hashes, revoke_all_keys,
  insert_aux_data, revoke_aux_data, insert_symmetric_keys, delete_symmetric_keys,
}
use pkd_server_go.Store.Rows.{Actor, PublicKey, AuxiliaryData, SymmetricKey, Table, Db}
use pkd_server_go.Store.Reads.{has_actor_id, owned_by, is_active, is_active_aux}

-- INSERT INTO t ... RETURNING: the row gets the next id.
abbrev pub append_row {ℓ} : {A : Type ℓ} → (ℕ → A) → Table A → Table A
append_row row t = record { rows = t.rows ++ row (suc t.seq) ∷ []; seq = suc t.seq }

abbrev pub new_actor : Driver → String → ℕ → Actor
new_actor d name id = record {
  id = id;
  actor_id = name;
  is_fireproof = Bool.false;
  created_at = d.now;
  updated_at = d.now;
}

unfoldable pub create_actor : Driver → String → Db → Result DbError (Actor × Db)
create_actor d name db = do
  require insert_actor (not (any (has_actor_id name) db.actors.rows))
  attempt d insert_actor (
    new_actor d name (suc db.actors.seq),
    record db { actors = append_row (new_actor d name) db.actors },
  )

abbrev actor_or_create : Driver → String → Db → Option Actor → Result DbError (Actor × Db)
actor_or_create d name db none = create_actor d name db
actor_or_create d name db (some a) = ok (a, db)

unfoldable pub get_or_create_actor : Driver → String → Db → Result DbError (Actor × Db)
get_or_create_actor d name db = do
  found ← attempt d select_actor (find (has_actor_id name) db.actors.rows)
  actor_or_create d name db found

unfoldable pub tx_actor_exists : Driver → String → Db → Result DbError Bool
tx_actor_exists d name db = attempt d actor_exists (any (has_actor_id name) db.actors.rows)

-- UPDATE actors SET actor_id: the count of rows, and a violation of UNIQUE where another actor has
-- the new name.
unfoldable pub tx_update_actor_id : Driver → String → String → Db → Result DbError (ℕ × Db)
tx_update_actor_id d old new db = do
  require update_actor_id (
      not (
        any (has_actor_id old) db.actors.rows
        && any (λ a. a.actor_id == new && not (a.actor_id == old)) db.actors.rows))
  attempt d update_actor_id (
    count (has_actor_id old) db.actors.rows,
    record db {
      actors = record db.actors {
        rows =
            update (has_actor_id old) (λ a. record a { actor_id = new; updated_at = d.now })
              db.actors.rows;
      };
    },
  )

-- Foreign key on actors(id), UNIQUE on key_id.
unfoldable pub tx_insert_public_key :
    Driver → ℕ → String → String → String → Db → Result DbError (PublicKey × Db)
tx_insert_public_key d owner key_id public_key merkle_root db = do
  let row : ℕ → PublicKey = λ id. record {
    id = id;
    actor_id = owner;
    key_id = key_id;
    public_key = public_key;
    created_at = d.now;
    merkle_root = merkle_root;
    revoked_at = none;
    revoke_root = none;
    inclusion_proof = [];
  }
  require insert_public_key (any (λ a. eqb a.id owner) db.actors.rows)
  require insert_public_key (not (any (λ k. k.key_id == key_id) db.public_keys.rows))
  attempt d insert_public_key
      (row (suc db.public_keys.seq), record db { public_keys = append_row row db.public_keys })

abbrev pub is_revocable : String → String → List Actor → PublicKey → Bool
is_revocable name public_key actors k =
    owned_by name actors k.actor_id && (k.public_key == public_key && is_active k)

unfoldable pub tx_find_key_to_revoke :
    Driver → String → String → Db → Result DbError (Option PublicKey)
tx_find_key_to_revoke d name public_key db =
    attempt d select_key_to_revoke
      (find (is_revocable name public_key db.actors.rows) db.public_keys.rows)

abbrev pub revoked : Driver → String → PublicKey → PublicKey
revoked d root k = record k { revoked_at = some d.now; revoke_root = some root }

unfoldable pub tx_revoke_key : Driver → ℕ → String → Db → Result DbError Db
tx_revoke_key d id root db = attempt d revoke_key (record db {
  public_keys = record db.public_keys {
    rows = update (λ k. eqb k.id id) (revoked d root) db.public_keys.rows;
  };
})

abbrev pub hashes_of : PublicKey → List String
hashes_of k = elim k.revoke_root [ none ↦ k.merkle_root ∷ [] | some r ↦ k.merkle_root ∷ r ∷ [] ]

unfoldable pub all_hashes : List PublicKey → List String
all_hashes [] = []
all_hashes (k ∷ ks) = hashes_of k ++ all_hashes ks

-- UNION drops the doubles and the order; the result is only used for membership.
unfoldable pub tx_get_message_hashes_for_actor : Driver → ℕ → Db → Result DbError (List String)
tx_get_message_hashes_for_actor d owner db =
    attempt d select_message_hashes
      (all_hashes (select (λ k. eqb k.actor_id owner) db.public_keys.rows))

unfoldable pub tx_revoke_all_keys_for_actor : Driver → ℕ → String → Db → Result DbError Db
tx_revoke_all_keys_for_actor d owner root db = attempt d revoke_all_keys (record db {
  public_keys = record db.public_keys {
    rows = update (λ k. eqb k.actor_id owner && is_active k) (revoked d root) db.public_keys.rows;
  };
})

unfoldable pub tx_insert_aux_data :
    Driver → ℕ → String → String → String → String → Db → Result DbError (AuxiliaryData × Db)
tx_insert_aux_data d owner aux_id aux_type aux_data merkle_root db = do
  let row : ℕ → AuxiliaryData = λ id. record {
    id = id;
    actor_id = owner;
    aux_id = aux_id;
    aux_type = aux_type;
    aux_data = aux_data;
    created_at = d.now;
    merkle_root = merkle_root;
    revoked_at = none;
    revoke_root = none;
  }
  require insert_aux_data (any (λ a. eqb a.id owner) db.actors.rows)
  require insert_aux_data (not (any (λ x. x.aux_id == aux_id) db.auxiliary_data.rows))
  attempt d insert_aux_data (
    row (suc db.auxiliary_data.seq),
    record db { auxiliary_data = append_row row db.auxiliary_data },
  )

abbrev pub is_revocable_aux : String → String → List Actor → AuxiliaryData → Bool
is_revocable_aux name aux_id actors x =
    owned_by name actors x.actor_id && (x.aux_id == aux_id && is_active_aux x)

unfoldable pub tx_revoke_aux_data : Driver → String → String → String → Db → Result DbError (ℕ × Db)
tx_revoke_aux_data d name aux_id root db = attempt d revoke_aux_data (
  count (is_revocable_aux name aux_id db.actors.rows) db.auxiliary_data.rows,
  record db {
    auxiliary_data = record db.auxiliary_data {
      rows =
          update (is_revocable_aux name aux_id db.actors.rows)
            (λ x. record x { revoked_at = some d.now; revoke_root = some root })
            db.auxiliary_data.rows;
    };
  },
)

abbrev pub is_symmetric_key : String → String → SymmetricKey → Bool
is_symmetric_key hash attribute s = s.message_hash == hash && s.attribute == attribute

-- The loop over the map of keys: UNIQUE (message_hash, attribute).
unfoldable pub insert_symmetric_rows :
    Driver → String → List (String × List ℕ) → Table SymmetricKey → Option (Table SymmetricKey)
insert_symmetric_rows d hash [] t = some t
insert_symmetric_rows d hash ((attribute, key) ∷ rest) t =
    let row : ℕ → SymmetricKey = λ id. record {
      id = id;
      message_hash = hash;
      attribute = attribute;
      key = key;
      created_at = d.now;
    } in
    elim (any (is_symmetric_key hash attribute) t.rows) [
      | true ↦ none
      | Bool.false ↦ insert_symmetric_rows d hash rest (append_row row t)
    ]

-- What the loop has inserted where it ends, or where it fails.
unfoldable pub symmetric_rows_left :
    Driver → String → List (String × List ℕ) → Table SymmetricKey → Table SymmetricKey
symmetric_rows_left d hash [] t = t
symmetric_rows_left d hash ((attribute, key) ∷ rest) t =
    let row : ℕ → SymmetricKey = λ id. record {
      id = id;
      message_hash = hash;
      attribute = attribute;
      key = key;
      created_at = d.now;
    } in
    elim (any (is_symmetric_key hash attribute) t.rows) [
      | true ↦ t
      | Bool.false ↦ symmetric_rows_left d hash rest (append_row row t)
    ]

abbrev with_symmetric_keys : Db → Option (Table SymmetricKey) → Result DbError Db
with_symmetric_keys db none = err (DbError.statement insert_symmetric_keys)
with_symmetric_keys db (some t) = ok (record db { symmetric_keys = t })

unfoldable pub tx_store_symmetric_keys :
    Driver → String → List (String × List ℕ) → Db → Result DbError Db
tx_store_symmetric_keys d hash keys db = do
  attempt d insert_symmetric_keys tt
  with_symmetric_keys db (insert_symmetric_rows d hash keys db.symmetric_keys)

-- message_hash IN (hashes)
unfoldable pub is_hash_in : List String → SymmetricKey → Bool
is_hash_in hashes s = any (λ h. s.message_hash == h) hashes

abbrev delete_hashed : Driver → List String → Db → Result DbError Db
delete_hashed d hashes db = attempt d delete_symmetric_keys (record db {
  symmetric_keys = record db.symmetric_keys {
    rows = select (λ s. not (is_hash_in hashes s)) db.symmetric_keys.rows;
  };
})

unfoldable pub tx_delete_symmetric_keys_by_hashes : Driver → List String → Db → Result DbError Db
tx_delete_symmetric_keys_by_hashes d [] db = ok db
tx_delete_symmetric_keys_by_hashes d (h ∷ hs) db = delete_hashed d (h ∷ hs) db
