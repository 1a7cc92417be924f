-- ===== src/Store/Postgres/Queries.antt =====
-- Statements of internal/db/postgres.go outside a transaction, by the names of its methods with pg_ in
-- front.
use pkd_server_go.Prelude.{
  ℕ, suc, ◌+◌, String, Bool, ◌&&◌, not, List, Option, if◌then◌else◌, eqb, ◌==◌, Result, ok, err,
  ◌>>◌, select, update, any,
}
use pkd_server_go.Json.{Json}
use pkd_server_go.Store.Driver.{
  Driver, DbError, actor_not_found, totp_not_found, attempt, require, select_actor,
  select_fireproof, update_fireproof, fireproof_rows, select_keys, select_key, select_aux_list,
  select_aux, select_symmetric_keys, insert_message, select_latest_root, upsert_totp, select_totp,
  delete_totp, totp_rows,
}
use pkd_server_go.Store.Rows.{Actor, PublicKey, AuxiliaryData, SymmetricKey, Db}
use pkd_server_go.Store.Reads.{
  has_actor_id, is_active, is_active_aux, fireproof_of, set_fireproof_row, latest, root_of,
  secret_of,
}
use pkd_server_go.Store.Postgres.{Postgres, first_of, join, lefts, insert_row}

-- pk.actor_id = a.id
abbrev pub key_of : PublicKey → Actor → Bool
key_of k a = eqb k.actor_id a.id

-- ad.actor_id = a.id
abbrev pub aux_of : AuxiliaryData → Actor → Bool
aux_of x a = eqb x.actor_id a.id

unfoldable pub pg_find_actor_by_actor_id :
    Postgres → Driver → String → Db → Result DbError (Option Actor)
pg_find_actor_by_actor_id p d name db =
    attempt d select_actor
      (first_of (p.arrange select_actor (select (has_actor_id name) db.actors.rows)))

unfoldable pub pg_is_fireproof : Postgres → Driver → String → Db → Result DbError Bool
pg_is_fireproof p d name db = attempt d select_fireproof (
    fireproof_of
      (first_of (p.arrange select_fireproof (select (has_actor_id name) db.actors.rows))))

-- As with SQLite, the update is not in a transaction.
unfoldable pub pg_set_fireproof : Driver → String → Bool → Db → Result DbError (Unit {0}) × Db
pg_set_fireproof d name flag db =
    let db' = record db {
      actors = record db.actors {
        rows = update (has_actor_id name) (set_fireproof_row d flag) db.actors.rows;
      };
    } in
    if d.down update_fireproof
    then (err (DbError.statement update_fireproof), db)
    else if d.down fireproof_rows
    then (err (DbError.statement fireproof_rows), db')
    else if any (has_actor_id name) db.actors.rows
    then (ok tt, db')
    else (err (actor_not_found name), db')

-- ORDER BY created_at DESC LIMIT 1
unfoldable pub pg_get_latest_merkle_root : Postgres → Driver → Db → Result DbError String
pg_get_latest_merkle_root p d db =
    attempt d select_latest_root
      (root_of (latest (p.arrange select_latest_root db.public_keys.rows)))

-- FROM public_keys pk JOIN actors a ON pk.actor_id = a.id
-- WHERE a.actor_id = $1 AND pk.revoked_at IS NULL
unfoldable pub pg_list_keys_for_actor :
    Postgres → Driver → String → Db → Result DbError (List PublicKey)
pg_list_keys_for_actor p d name db = attempt d select_keys (
    p.arrange select_keys (
      lefts (
        select (λ r. has_actor_id name r.1 && is_active r.0)
          (join key_of db.public_keys.rows db.actors.rows))))

unfoldable pub pg_find_key_by_key_id :
    Postgres → Driver → String → Db → Result DbError (Option PublicKey)
pg_find_key_by_key_id p d name db =
    attempt d select_key
      (first_of (p.arrange select_key (select (λ k. k.key_id == name) db.public_keys.rows)))

-- FROM auxiliary_data ad JOIN actors a ON ad.actor_id = a.id
-- WHERE a.actor_id = $1 AND ad.revoked_at IS NULL
unfoldable pub pg_list_aux_data_for_actor :
    Postgres → Driver → String → Db → Result DbError (List AuxiliaryData)
pg_list_aux_data_for_actor p d name db = attempt d select_aux_list (
    p.arrange select_aux_list (
      lefts (
        select (λ r. has_actor_id name r.1 && is_active_aux r.0)
          (join aux_of db.auxiliary_data.rows db.actors.rows))))

unfoldable pub pg_find_aux_data_by_aux_id :
    Postgres → Driver → String → Db → Result DbError (Option AuxiliaryData)
pg_find_aux_data_by_aux_id p d name db =
    attempt d select_aux
      (first_of (p.arrange select_aux (select (λ x. x.aux_id == name) db.auxiliary_data.rows)))

unfoldable pub pg_find_symmetric_keys_by_message_hash :
    Postgres → Driver → String → Db → Result DbError (List SymmetricKey)
pg_find_symmetric_keys_by_message_hash p d hash db =
    attempt d select_symmetric_keys (
      p.arrange select_symmetric_keys (select (λ s. s.message_hash == hash) db.symmetric_keys.rows))

-- message_hash TEXT UNIQUE
unfoldable pub pg_store_message : Postgres → Driver → String → Json → Json → Db → Result DbError Db
pg_store_message p d hash raw decrypted db = do
  require insert_message (not (any (λ m. m.message_hash == hash) db.message_logs.rows))
  attempt d insert_message (record db {
    message_logs =
        insert_row (p.lost insert_message)
          (λ id. record {
            id = id;
            message_hash = hash;
            encrypted_message = raw;
            decrypted_message = decrypted;
            created_at = d.now;
          })
          db.message_logs;
  })

-- INSERT ... ON CONFLICT (instance) DO UPDATE: a number is drawn also where the row is updated.
unfoldable pub pg_store_totp_secret : Postgres → Driver → String → List ℕ → Db → Result DbError Db
pg_store_totp_secret p d host secret db = attempt d upsert_totp (
    if any (λ t. t.instance_name == host) db.totp_secrets.rows
    then record db {
      totp_secrets = record {
        rows =
            update (λ t. t.instance_name == host)
              (λ t. record t { encrypted_secret = secret; updated_at = d.now })
              db.totp_secrets.rows;
        seq = suc (db.totp_secrets.seq + p.lost upsert_totp);
      };
    }
    else record db {
      totp_secrets =
          insert_row (p.lost upsert_totp)
            (λ id. record {
              id = id;
              instance_name = host;
              encrypted_secret = secret;
              created_at = d.now;
              updated_at = d.now;
            })
            db.totp_secrets;
    })

unfoldable pub pg_get_totp_secret :
    Postgres → Driver → String → Db → Result DbError (Option (List ℕ))
pg_get_totp_secret p d host db = attempt d select_totp (
    secret_of (
      first_of
        (p.arrange select_totp (select (λ t. t.instance_name == host) db.totp_secrets.rows))))

unfoldable pub pg_delete_totp_secret : Driver → String → Db → Result DbError (Unit {0}) × Db
pg_delete_totp_secret d host db =
    let db' = record db {
      totp_secrets = record db.totp_secrets {
        rows = select (λ t. not (t.instance_name == host)) db.totp_secrets.rows;
      };
    } in
    if d.down delete_totp
    then (err (DbError.statement delete_totp), db)
    else if d.down totp_rows
    then (err (DbError.statement totp_rows), db')
    else if any (λ t. t.instance_name == host) db.totp_secrets.rows
    then (ok tt, db')
    else (err (totp_not_found host), db')
