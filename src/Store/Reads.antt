-- ===== src/Store/Reads.antt =====
-- Statements of internal/db/sqlite.go outside a transaction. Rows come in the order of insertion,
-- and a join on the primary key of `actors` is a test whether such an actor is there.
use pkd_server_go.Prelude.{
  ℕ, suc, String, Bool, false, ◌&&◌, not, List, [], ◌∷◌, ◌++◌, Option, none, some, leb, eqb, ◌==◌,
  is_none, if◌then◌else◌, Result, ok, err, ◌>>◌, select, update, any, find,
}
use pkd_server_go.Json.{Json}
use pkd_server_go.Store.Driver.{
  Driver, DbError, actor_not_found, totp_not_found, attempt, require, select_actor,
  select_fireproof, update_fireproof, fireproof_rows, select_keys, select_key, select_aux_list,
  select_aux, select_symmetric_keys, insert_message, select_latest_root, upsert_totp, select_totp,
  delete_totp, totp_rows,
}
use pkd_server_go.Store.Rows.{Actor, PublicKey, AuxiliaryData, SymmetricKey, TotpSecret, Db}

-- WHERE actor_id = ?
abbrev pub has_actor_id : String → Actor → Bool
has_actor_id name a = a.actor_id == name

-- JOIN actors a ON x.actor_id = a.id WHERE a.actor_id = ?
unfoldable pub owned_by : String → List Actor → ℕ → Bool
owned_by name actors owner = any (λ a. eqb a.id owner && a.actor_id == name) actors

abbrev pub is_active : PublicKey → Bool
is_active k = is_none k.revoked_at

abbrev pub is_active_aux : AuxiliaryData → Bool
is_active_aux x = is_none x.revoked_at

unfoldable pub find_actor_by_actor_id : Driver → String → Db → Result DbError (Option Actor)
find_actor_by_actor_id d name db = attempt d select_actor (find (has_actor_id name) db.actors.rows)

abbrev pub fireproof_of : Option Actor → Bool
fireproof_of none = false
fireproof_of (some a) = a.is_fireproof

unfoldable pub is_fireproof : Driver → String → Db → Result DbError Bool
is_fireproof d name db =
    attempt d select_fireproof (fireproof_of (find (has_actor_id name) db.actors.rows))

abbrev pub set_fireproof_row : Driver → Bool → Actor → Actor
set_fireproof_row d flag a = record a { is_fireproof = flag; updated_at = d.now }

-- The update is not in a transaction: where only its count of rows fails, it has been made.
unfoldable pub set_fireproof : Driver → String → Bool → Db → Result DbError (Unit {0}) × Db
set_fireproof d name flag db =
    let db' = record db {
      actors = record db.actors {
        rows = update (has_actor_id name) (set_fireproof_row d flag) db.actors.rows;
      };
    } in
    if d.down update_fireproof
    then (err (DbError.statement update_fireproof), db)
    else if d.down fireproof_rows
    then (err (DbError.statement fireproof_rows), db')
    else if any (has_actor_id name) db.actors.rows
    then (ok tt, db')
    else (err (actor_not_found name), db')

-- The non-revoked keys of an actor.
unfoldable pub active_keys : String → Db → List PublicKey
active_keys name db =
    select (λ k. owned_by name db.actors.rows k.actor_id && is_active k) db.public_keys.rows

unfoldable pub list_keys_for_actor : Driver → String → Db → Result DbError (List PublicKey)
list_keys_for_actor d name db = attempt d select_keys (active_keys name db)

unfoldable pub find_key_by_key_id : Driver → String → Db → Result DbError (Option PublicKey)
find_key_by_key_id d name db =
    attempt d select_key (find (λ k. k.key_id == name) db.public_keys.rows)

-- The non-revoked auxiliary data of an actor.
unfoldable pub active_aux : String → Db → List AuxiliaryData
active_aux name db =
    select (λ x. owned_by name db.actors.rows x.actor_id && is_active_aux x) db.auxiliary_data.rows

unfoldable pub list_aux_data_for_actor : Driver → String → Db → Result DbError (List AuxiliaryData)
list_aux_data_for_actor d name db = attempt d select_aux_list (active_aux name db)

unfoldable pub find_aux_data_by_aux_id :
    Driver → String → Db → Result DbError (Option AuxiliaryData)
find_aux_data_by_aux_id d name db =
    attempt d select_aux (find (λ x. x.aux_id == name) db.auxiliary_data.rows)

unfoldable pub find_symmetric_keys_by_message_hash :
    Driver → String → Db → Result DbError (List SymmetricKey)
find_symmetric_keys_by_message_hash d hash db =
    attempt d select_symmetric_keys (select (λ s. s.message_hash == hash) db.symmetric_keys.rows)

-- ORDER BY created_at DESC LIMIT 1; of the keys of one time the first.
unfoldable pub latest : List PublicKey → Option PublicKey
latest [] = none
latest (k ∷ ks) = elim (latest ks) [
  | none ↦ some k
  | some best ↦ if leb best.created_at k.created_at then some k else some best
]

abbrev pub root_of : Option PublicKey → String
root_of none = ""
root_of (some k) = k.merkle_root

unfoldable pub get_latest_merkle_root : Driver → Db → Result DbError String
unfolding latest
get_latest_merkle_root d db = attempt d select_latest_root (root_of (latest db.public_keys.rows))

-- The hash is UNIQUE.
unfoldable pub store_message : Driver → String → Json → Json → Db → Result DbError Db
store_message d hash raw decrypted db = do
  require insert_message (not (any (λ m. m.message_hash == hash) db.message_logs.rows))
  attempt d insert_message (record db {
    message_logs = record {
      rows =
          db.message_logs.rows
          ++ record {
            id = suc db.message_logs.seq;
            message_hash = hash;
            encrypted_message = raw;
            decrypted_message = decrypted;
            created_at = d.now;
          }
            ∷ [];
      seq = suc db.message_logs.seq;
    };
  })

-- INSERT ... ON CONFLICT (instance) DO UPDATE
unfoldable pub store_totp_secret : Driver → String → List ℕ → Db → Result DbError Db
store_totp_secret d host secret db = attempt d upsert_totp (
    if any (λ t. t.instance_name == host) db.totp_secrets.rows
    then record db {
      totp_secrets = record db.totp_secrets {
        rows =
            update (λ t. t.instance_name == host)
              (λ t. record t { encrypted_secret = secret; updated_at = d.now })
              db.totp_secrets.rows;
      };
    }
    else record db {
      totp_secrets = record {
        rows =
            db.totp_secrets.rows
            ++ record {
              id = suc db.totp_secrets.seq;
              instance_name = host;
              encrypted_secret = secret;
              created_at = d.now;
              updated_at = d.now;
            }
              ∷ [];
        seq = suc db.totp_secrets.seq;
      };
    })

abbrev pub secret_of : Option TotpSecret → Option (List ℕ)
secret_of none = none
secret_of (some t) = some t.encrypted_secret

unfoldable pub get_totp_secret : Driver → String → Db → Result DbError (Option (List ℕ))
get_totp_secret d host db =
    attempt d select_totp (secret_of (find (λ t. t.instance_name == host) db.totp_secrets.rows))

-- As with `set_fireproof`, the deletion stays where its count of rows fails.
unfoldable pub delete_totp_secret : Driver → String → Db → Result DbError (Unit {0}) × Db
delete_totp_secret d host db =
    let db' = record db {
      totp_secrets = record db.totp_secrets {
        rows = select (λ t. not (t.instance_name == host)) db.totp_secrets.rows;
      };
    } in
    if d.down delete_totp
    then (err (DbError.statement delete_totp), db)
    else if d.down totp_rows
    then (err (DbError.statement totp_rows), db')
    else if any (λ t. t.instance_name == host) db.totp_secrets.rows
    then (ok tt, db')
    else (err (totp_not_found host), db')
