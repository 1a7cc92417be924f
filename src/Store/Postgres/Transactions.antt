-- ===== src/Store/Postgres/Transactions.antt =====
-- Statements of internal/db/postgres.go inside a transaction (PostgresTx), by the names of its methods
-- with pg_tx_ in front, on the transaction's working copy of the database.
use pkd_server_go.Prelude.{
  ℕ, String, Bool, true, false, ◌&&◌, not, List, [], ◌∷◌, ◌++◌, Option, none, some, eqb, ◌==◌,
  Result, ok, err, ◌>>=◌, ◌>>◌, select, update, any, count,
}
use pkd_server_go.Store.Driver.{
  Driver, DbError, attempt, require, select_actor, insert_actor, actor_exists, update_actor_id,
  insert_public_key, select_key_to_revoke, revoke_key, select_message_hashes, revoke_all_keys,
  insert_aux_data, revoke_aux_data, insert_symmetric_keys, delete_symmetric_keys,
}
use pkd_server_go.Store.Rows.{Actor, PublicKey, AuxiliaryData, SymmetricKey, Table, Db}
use pkd_server_go.Store.Reads.{has_actor_id, is_active, is_active_aux}
use pkd_server_go.Store.Writes.{new_actor, revoked, is_symmetric_key, is_hash_in}
use pkd_server_go.Store.Postgres.{Postgres, first_of, join, lefts, insert_row}
use pkd_server_go.Store.Postgres.Queries.{key_of, aux_of}

unfoldable pub pg_create_actor : Postgres → Driver → String → Db → Result DbError (Actor × Db)
pg_create_actor p d name db = do
  require insert_actor (not (any (has_actor_id name) db.actors.rows))
  let actors = insert_row (p.lost insert_actor) (new_actor d name) db.actors
  attempt d insert_actor (new_actor d name actors.seq, record db { actors = actors })

abbrev pg_actor_or_create :
    Postgres → Driver → String → Db → Option Actor → Result DbError (Actor × Db)
pg_actor_or_create p d name db none = pg_create_actor p d name db
pg_actor_or_create p d name db (some a) = ok (a, db)

-- SELECT ... FOR UPDATE, then INSERT ... RETURNING
unfoldable pub pg_get_or_create_actor :
    Postgres → Driver → String → Db → Result DbError (Actor × Db)
pg_get_or_create_actor p d name db = do
  found ←
      attempt d select_actor
        (first_of (p.arrange select_actor (select (has_actor_id name) db.actors.rows)))
  pg_actor_or_create p d name db found

unfoldable pub pg_tx_actor_exists : Driver → String → Db → Result DbError Bool
pg_tx_actor_exists d name db = attempt d actor_exists (any (has_actor_id name) db.actors.rows)

-- UPDATE actors SET actor_id: the constraint UNIQUE is checked with the statement.
unfoldable pub pg_tx_update_actor_id : Driver → String → String → Db → Result DbError (ℕ × Db)
pg_tx_update_actor_id d old new db = do
  require update_actor_id (
      not (
        any (has_actor_id old) db.actors.rows
        && any (λ a. a.actor_id == new && not (a.actor_id == old)) db.actors.rows))
  attempt d update_actor_id (
    count (has_actor_id old) db.actors.rows,
    record db {
      actors = record db.actors {
        rows =
            update (has_actor_id old) (λ a. record a { actor_id = new; updated_at = d.now })
              db.actors.rows;
      };
    },
  )

unfoldable pub pg_tx_insert_public_key :
    Postgres → Driver → ℕ → String → String → String → Db → Result DbError (PublicKey × Db)
pg_tx_insert_public_key p d owner key_id public_key merkle_root db = do
  let row : ℕ → PublicKey = λ id. record {
    id = id;
    actor_id = owner;
    key_id = key_id;
    public_key = public_key;
    created_at = d.now;
    merkle_root = merkle_root;
    revoked_at = none;
    revoke_root = none;
    inclusion_proof = [];
  }
  require insert_public_key (any (λ a. eqb a.id owner) db.actors.rows)
  require insert_public_key (not (any (λ k. k.key_id == key_id) db.public_keys.rows))
  let keys = insert_row (p.lost insert_public_key) row db.public_keys
  attempt d insert_public_key (row keys.seq, record db { public_keys = keys })

-- FROM public_keys pk JOIN actors a ON pk.actor_id = a.id
-- WHERE a.actor_id = $1 AND pk.public_key = $2 AND pk.revoked_at IS NULL
unfoldable pub pg_tx_find_key_to_revoke :
    Postgres → Driver → String → String → Db → Result DbError (Option PublicKey)
pg_tx_find_key_to_revoke p d name public_key db = attempt d select_key_to_revoke (
    first_of (
      p.arrange select_key_to_revoke (
        lefts (
          select (λ r. has_actor_id name r.1 && (r.0.public_key == public_key && is_active r.0))
            (join key_of db.public_keys.rows db.actors.rows)))))

unfoldable pub pg_tx_revoke_key : Driver → ℕ → String → Db → Result DbError Db
pg_tx_revoke_key d id root db = attempt d revoke_key (record db {
  public_keys = record db.public_keys {
    rows = update (λ k. eqb k.id id) (revoked d root) db.public_keys.rows;
  };
})

-- SELECT merkle_root
unfoldable pub merkle_roots : List PublicKey → List String
merkle_roots [] = []
merkle_roots (k ∷ ks) = k.merkle_root ∷ merkle_roots ks

-- SELECT revoke_root WHERE revoke_root IS NOT NULL
unfoldable pub revoke_roots : List PublicKey → List String
revoke_roots [] = []
revoke_roots (k ∷ ks) = elim k.revoke_root [ none ↦ revoke_roots ks | some r ↦ r ∷ revoke_roots ks ]

-- UNION: without doubles
unfoldable pub distinct : List String → List String
distinct [] = []
distinct (h ∷ hs) = h ∷ select (λ g. not (g == h)) (distinct hs)

unfoldable pub pg_tx_get_message_hashes_for_actor :
    Postgres → Driver → ℕ → Db → Result DbError (List String)
pg_tx_get_message_hashes_for_actor p d owner db =
    let keys = select (λ k. eqb k.actor_id owner) db.public_keys.rows in
    attempt d select_message_hashes
      (p.arrange select_message_hashes (distinct (merkle_roots keys ++ revoke_roots keys)))

unfoldable pub pg_tx_revoke_all_keys_for_actor : Driver → ℕ → String → Db → Result DbError Db
pg_tx_revoke_all_keys_for_actor d owner root db = attempt d revoke_all_keys (record db {
  public_keys = record db.public_keys {
    rows = update (λ k. eqb k.actor_id owner && is_active k) (revoked d root) db.public_keys.rows;
  };
})

unfoldable pub pg_tx_insert_aux_data :
    Postgres
    → Driver
    → ℕ
    → String
    → String
    → String
    → String
    → Db
    → Result DbError (AuxiliaryData × Db)
pg_tx_insert_aux_data p d owner aux_id aux_type aux_data merkle_root db = do
  let row : ℕ → AuxiliaryData = λ id. record {
    id = id;
    actor_id = owner;
    aux_id = aux_id;
    aux_type = aux_type;
    aux_data = aux_data;
    created_at = d.now;
    merkle_root = merkle_root;
    revoked_at = none;
    revoke_root = none;
  }
  require insert_aux_data (any (λ a. eqb a.id owner) db.actors.rows)
  require insert_aux_data (not (any (λ x. x.aux_id == aux_id) db.auxiliary_data.rows))
  let aux = insert_row (p.lost insert_aux_data) row db.auxiliary_data
  attempt d insert_aux_data (row aux.seq, record db { auxiliary_data = aux })

-- UPDATE auxiliary_data ad FROM actors a: a row is changed where some actor joins it.
abbrev pub joins_aux : String → String → List Actor → AuxiliaryData → Bool
joins_aux name aux_id actors x =
    any (λ a. aux_of x a && (has_actor_id name a && (x.aux_id == aux_id && is_active_aux x))) actors

unfoldable pub pg_tx_revoke_aux_data :
    Driver → String → String → String → Db → Result DbError (ℕ × Db)
pg_tx_revoke_aux_data d name aux_id root db = attempt d revoke_aux_data (
  count (joins_aux name aux_id db.actors.rows) db.auxiliary_data.rows,
  record db {
    auxiliary_data = record db.auxiliary_data {
      rows =
          update (joins_aux name aux_id db.actors.rows)
            (λ x. record x { revoked_at = some d.now; revoke_root = some root })
            db.auxiliary_data.rows;
    };
  },
)

-- The loop over the map of keys: UNIQUE (message_hash, attribute).
unfoldable pub pg_insert_symmetric_rows :
    Postgres
    → Driver
    → String
    → List (String × List ℕ)
    → Table SymmetricKey
    → Option (Table SymmetricKey)
pg_insert_symmetric_rows p d hash [] t = some t
pg_insert_symmetric_rows p d hash ((attribute, key) ∷ rest) t =
    let row : ℕ → SymmetricKey = λ id. record {
      id = id;
      message_hash = hash;
      attribute = attribute;
      key = key;
      created_at = d.now;
    } in
    elim (any (is_symmetric_key hash attribute) t.rows) [
      | true ↦ none
      | false ↦
          pg_insert_symmetric_rows p d hash rest (insert_row (p.lost insert_symmetric_keys) row t)
    ]

abbrev pg_with_symmetric_keys : Db → Option (Table SymmetricKey) → Result DbError Db
pg_with_symmetric_keys db none = err (DbError.statement insert_symmetric_keys)
pg_with_symmetric_keys db (some t) = ok (record db { symmetric_keys = t })

unfoldable pub pg_tx_store_symmetric_keys :
    Postgres → Driver → String → List (String × List ℕ) → Db → Result DbError Db
pg_tx_store_symmetric_keys p d hash keys db = do
  attempt d insert_symmetric_keys tt
  pg_with_symmetric_keys db (pg_insert_symmetric_rows p d hash keys db.symmetric_keys)

abbrev pg_delete_hashed : Driver → List String → Db → Result DbError Db
pg_delete_hashed d hashes db = attempt d delete_symmetric_keys (record db {
  symmetric_keys = record db.symmetric_keys {
    rows = select (λ s. not (is_hash_in hashes s)) db.symmetric_keys.rows;
  };
})

unfoldable pub pg_tx_delete_symmetric_keys_by_hashes : Driver → List String → Db → Result DbError Db
pg_tx_delete_symmetric_keys_by_hashes d [] db = ok db
pg_tx_delete_symmetric_keys_by_hashes d (h ∷ hs) db = pg_delete_hashed d (h ∷ hs) db
