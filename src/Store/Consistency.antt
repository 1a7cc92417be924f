-- ===== src/Store/Consistency.antt =====
-- What the schema and the statements of internal/db/sqlite.go keep true of the tables.
use pkd_server_go.Prelude.{
  ℕ, ◌≤◌, ◌≡◌, Bool, true, ◌&&◌, List, eqb, ◌==◌, is_none, any, All, Unique,
}
use pkd_server_go.Store.Rows.{Actor, PublicKey, AuxiliaryData, SymmetricKey, Db, empty_db}

abbrev pub same_id : Actor → Actor → Bool
same_id a b = eqb a.id b.id

abbrev pub same_name : Actor → Actor → Bool
same_name a b = a.actor_id == b.actor_id

abbrev pub same_row : PublicKey → PublicKey → Bool
same_row k l = eqb k.id l.id

abbrev pub same_key_id : PublicKey → PublicKey → Bool
same_key_id k l = k.key_id == l.key_id

abbrev pub same_aux_id : AuxiliaryData → AuxiliaryData → Bool
same_aux_id x y = x.aux_id == y.aux_id

abbrev pub same_attribute : SymmetricKey → SymmetricKey → Bool
same_attribute s t = s.message_hash == t.message_hash && s.attribute == t.attribute

abbrev pub has_id : ℕ → Actor → Bool
has_id owner a = eqb a.id owner

-- REFERENCES actors(id)
abbrev pub KeyOwned : List Actor → PublicKey → Type 0
KeyOwned actors k = any (has_id k.actor_id) actors ≡ true

abbrev pub AuxOwned : List Actor → AuxiliaryData → Type 0
AuxOwned actors x = any (has_id x.actor_id) actors ≡ true

-- A time and a root of revocation, or neither.
abbrev pub KeyStamped : PublicKey → Type 0
KeyStamped k = is_none k.revoked_at ≡ is_none k.revoke_root

abbrev pub AuxStamped : AuxiliaryData → Type 0
AuxStamped x = is_none x.revoked_at ≡ is_none x.revoke_root

pub record IsConsistent (db : Db) : Type 0 where
  pub actors_fresh : All (λ a. a.id ≤ db.actors.seq) db.actors.rows
  pub actors_distinct : Unique same_id db.actors.rows
  pub names_distinct : Unique same_name db.actors.rows
  pub keys_fresh : All (λ k. k.id ≤ db.public_keys.seq) db.public_keys.rows
  pub keys_distinct : Unique same_row db.public_keys.rows
  pub key_ids_distinct : Unique same_key_id db.public_keys.rows
  pub keys_owned : All (KeyOwned db.actors.rows) db.public_keys.rows
  pub keys_stamped : All KeyStamped db.public_keys.rows
  pub aux_ids_distinct : Unique same_aux_id db.auxiliary_data.rows
  pub aux_owned : All (AuxOwned db.actors.rows) db.auxiliary_data.rows
  pub aux_stamped : All AuxStamped db.auxiliary_data.rows
  pub attributes_distinct : Unique same_attribute db.symmetric_keys.rows

empty_db-IsConsistent : IsConsistent empty_db
empty_db-IsConsistent = record {
  actors_fresh = tt;
  actors_distinct = tt;
  names_distinct = tt;
  keys_fresh = tt;
  keys_distinct = tt;
  key_ids_distinct = tt;
  keys_owned = tt;
  keys_stamped = tt;
  aux_ids_distinct = tt;
  aux_owned = tt;
  aux_stamped = tt;
  attributes_distinct = tt;
}
