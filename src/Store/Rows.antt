-- ===== src/Store/Rows.antt =====
-- The rows of internal/domain/models.go, and the database as the tables of
-- sql/sqlite/sqlite_schema.sql. A time is the number that the database's clock shows.
use pkd_server_go.Prelude.{ℕ, String, Bool, List, [], Option}
use pkd_server_go.Json.{Json}

pub record Actor : Type 0 where
  pub id : ℕ
  pub actor_id : String
  pub is_fireproof : Bool
  pub created_at : ℕ
  pub updated_at : ℕ

pub record PublicKey : Type 0 where
  pub id : ℕ
  pub actor_id : ℕ
  pub key_id : String
  pub public_key : String
  pub created_at : ℕ
  pub merkle_root : String
  pub revoked_at : Option ℕ
  pub revoke_root : Option String
  pub inclusion_proof : List String

pub record AuxiliaryData : Type 0 where
  pub id : ℕ
  pub actor_id : ℕ
  pub aux_id : String
  pub aux_type : String
  pub aux_data : String
  pub created_at : ℕ
  pub merkle_root : String
  pub revoked_at : Option ℕ
  pub revoke_root : Option String

pub record SymmetricKey : Type 0 where
  pub id : ℕ
  pub message_hash : String
  pub attribute : String
  pub key : List ℕ
  pub created_at : ℕ

pub record MessageLog : Type 0 where
  pub id : ℕ
  pub message_hash : String
  pub encrypted_message : Json
  pub decrypted_message : Json
  pub created_at : ℕ

pub record TotpSecret : Type 0 where
  pub id : ℕ
  pub instance_name : String
  pub encrypted_secret : List ℕ
  pub created_at : ℕ
  pub updated_at : ℕ

-- `id INTEGER PRIMARY KEY AUTOINCREMENT`: `seq` is the greatest id that was ever given.
pub record Table {ℓ} (A : Type ℓ) : Type ℓ where
  pub rows : List A
  pub seq : ℕ

pub record Db : Type 0 where
  pub actors : Table Actor
  pub public_keys : Table PublicKey
  pub auxiliary_data : Table AuxiliaryData
  pub symmetric_keys : Table SymmetricKey
  pub message_logs : Table MessageLog
  pub totp_secrets : Table TotpSecret

abbrev pub empty_table {ℓ} : {A : Type ℓ} → Table A
empty_table = record { rows = []; seq = 0 }

-- The database after the schema's script.
abbrev pub empty_db : Db
empty_db = record {
  actors = empty_table;
  public_keys = empty_table;
  auxiliary_data = empty_table;
  symmetric_keys = empty_table;
  message_logs = empty_table;
  totp_secrets = empty_table;
}
