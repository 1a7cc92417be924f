-- ===== src/Domain/Service.antt =====
-- The operations of PKDService, internal/domain/service.go. A call takes the driver, the random
-- bytes that it reads (`none` where the reader fails), its message, and the Merkle root.
use Prim.Native.String.{◌++◌ as text_append}
use pkd_server_go.Prelude.{
  ℕ, zero, suc, ◌/◌, ◌%◌, String, Bool, true, false, List, [], ◌∷◌, Option, none, some, Result, ok,
  err, eqb, ◌==◌, if◌then◌else◌,
}
use pkd_server_go.Encoding.{encode_raw_url, char_of}
use pkd_server_go.Protocol.Messages.{
  AddKeyMessage, RevokeKeyMessage, MoveIdentityMessage, AddAuxDataMessage, RevokeAuxDataMessage,
}
use pkd_server_go.Store.Driver.{Driver, DbError, insert_symmetric_keys}
use pkd_server_go.Store.Rows.{Actor, PublicKey, AuxiliaryData, Db}
use pkd_server_go.Store.Reads.{find_actor_by_actor_id}
use pkd_server_go.Store.Writes.{
  get_or_create_actor, tx_actor_exists, tx_update_actor_id, tx_insert_public_key,
  tx_find_key_to_revoke, tx_revoke_key, tx_get_message_hashes_for_actor,
  tx_revoke_all_keys_for_actor, tx_insert_aux_data, tx_revoke_aux_data, tx_store_symmetric_keys,
  tx_delete_symmetric_keys_by_hashes, symmetric_rows_left,
}
use pkd_server_go.Domain.Transaction.{
  Failure, actor_failed, insert_key_failed, store_symmetric_failed, find_key_failed, revoke_failed,
  exists_failed, update_actor_failed, find_actor_failed, gather_failed, delete_symmetric_failed,
  revoke_all_failed, insert_aux_failed, revoke_aux_failed, generate_id_failed, key_not_found,
  new_actor_exists, actor_to_move_not_found, actor_not_found, invalid_aux_data, aux_not_found, Tx,
  ◌>>=◌, ◌>>◌, done, or_return, reads, executes, writes, transaction,
}

-- crypto.GenerateKeyID: 32 random bytes in base64url.
unfoldable pub generate_key_id : Option (List ℕ) → Option String
generate_key_id none = none
generate_key_id (some bytes) = some (encode_raw_url bytes)

abbrev pub generated : Option String → Result Failure String
generated none = err generate_id_failed
generated (some id) = ok id

abbrev pub SymmetricKeys : Type 0
SymmetricKeys = List (String × List ℕ)

-- `if len(symKeys) > 0 { tx.StoreSymmetricKeys(...) }`
-- A batch that fails leaves in the working copy what its loop has inserted.
abbrev stored_batch :
    Driver → String → SymmetricKeys → Db → Result DbError Db → Result Failure (Unit {0}) × Db
stored_batch d root keys db (ok db') = (ok tt, db')
stored_batch d root keys db (err e) = (
  err (store_symmetric_failed e),
  if d.down insert_symmetric_keys
      then db
      else record db { symmetric_keys = symmetric_rows_left d root keys db.symmetric_keys },
)

unfoldable pub store_keys : Driver → String → SymmetricKeys → Tx (Unit {0})
store_keys d root [] db = (ok tt, db)
store_keys d root (k ∷ ks) db =
    stored_batch d root (k ∷ ks) db (tx_store_symmetric_keys d root (k ∷ ks) db)

unfoldable pub add_key_body :
    Driver → Option (List ℕ) → AddKeyMessage → String → SymmetricKeys → Tx PublicKey
add_key_body d random msg root keys = do
  actor ← executes actor_failed (get_or_create_actor d msg.actor)
  key_id ← or_return (generated (generate_key_id random))
  key ← executes insert_key_failed (tx_insert_public_key d actor.id key_id msg.public_key root)
  store_keys d root keys
  done key

unfoldable pub process_add_key :
    Driver
    → Option (List ℕ)
    → AddKeyMessage
    → String
    → SymmetricKeys
    → Db
    → Result Failure PublicKey × Db
process_add_key d random msg root keys = transaction d (add_key_body d random msg root keys)

abbrev pub found_key : String → Option PublicKey → Result Failure PublicKey
found_key public_key none = err (key_not_found public_key)
found_key public_key (some k) = ok k

unfoldable pub revoke_key_body : Driver → RevokeKeyMessage → String → SymmetricKeys → Tx (Unit {0})
revoke_key_body d msg root keys = do
  found ← reads find_key_failed (tx_find_key_to_revoke d msg.actor msg.public_key)
  key ← or_return (found_key msg.public_key found)
  writes revoke_failed (tx_revoke_key d key.id root)
  store_keys d root keys

unfoldable pub process_revoke_key :
    Driver → RevokeKeyMessage → String → SymmetricKeys → Db → Result Failure (Unit {0}) × Db
process_revoke_key d msg root keys = transaction d (revoke_key_body d msg root keys)

abbrev pub refuse : Bool → Failure → Tx (Unit {0})
refuse b e = or_return (if b then err e else ok tt)

unfoldable pub move_identity_body : Driver → MoveIdentityMessage → Tx (Unit {0})
move_identity_body d msg = do
  exists ← reads exists_failed (tx_actor_exists d msg.new_actor)
  refuse exists (new_actor_exists msg.new_actor)
  rows ← executes update_actor_failed (tx_update_actor_id d msg.old_actor msg.new_actor)
  refuse (eqb rows 0) (actor_to_move_not_found msg.old_actor)

-- The Merkle root is not stored with a move.
unfoldable pub process_move_identity :
    Driver → MoveIdentityMessage → String → Db → Result Failure (Unit {0}) × Db
process_move_identity d msg root = transaction d (move_identity_body d msg)

abbrev pub found_actor : Option Actor → Result Failure Actor
found_actor none = err actor_not_found
found_actor (some a) = ok a

unfoldable pub burn_down_body : Driver → String → String → Tx (Unit {0})
burn_down_body d name root = do
  found ← reads find_actor_failed (find_actor_by_actor_id d name)
  actor ← or_return (found_actor found)
  hashes ← reads gather_failed (tx_get_message_hashes_for_actor d actor.id)
  writes delete_symmetric_failed (tx_delete_symmetric_keys_by_hashes d hashes)
  writes revoke_all_failed (tx_revoke_all_keys_for_actor d actor.id root)

unfoldable pub process_burn_down : Driver → String → String → Db → Result Failure (Unit {0}) × Db
process_burn_down d name root = transaction d (burn_down_body d name root)

-- `%d` of a number that is not negative. `n` rounds are enough for its digits.
decimal_rounds : ℕ → ℕ → String → String
decimal_rounds zero n rest = rest
decimal_rounds (suc fuel) n rest =
    let digits = String.◌∷◌ (char_of "0123456789" (n % 10)) rest in
    elim (eqb (n / 10) 0) [ true ↦ digits | false ↦ decimal_rounds fuel (n / 10) digits ]

unfoldable pub decimal : ℕ → String
unfolding decimal_rounds
decimal n = decimal_rounds (suc n) n ""

-- The root of an administrator's shredding: "admin-shred-%s-%d".
unfoldable pub shred_root : String → ℕ → String
shred_root name nanos =
    text_append "admin-shred-" (text_append name (text_append "-" (decimal nanos)))

unfoldable pub crypto_shred : Driver → ℕ → String → Db → Result Failure (Unit {0}) × Db
crypto_shred d nanos name = process_burn_down d name (shred_root name nanos)

-- internal/auxvalidator: `validate` is true where there is no error.
pub record Validator : Type 0 where
  pub type_name : String
  pub validate : String → Bool

-- The registry is a map: of two validators of a type the later one stays.
unfoldable pub registered : List Validator → String → Option Validator
registered [] name = none
registered (v ∷ vs) name = elim (registered vs name) [
  | some w ↦ some w
  | none ↦ if v.type_name == name then some v else none
]

abbrev pub accepts : Option Validator → String → Bool
accepts none text = true
accepts (some v) text = v.validate text

unfoldable pub add_aux_data_body :
    Driver → Option (List ℕ) → AddAuxDataMessage → String → Tx AuxiliaryData
add_aux_data_body d random msg root = do
  actor ← executes actor_failed (get_or_create_actor d msg.actor)
  aux_id ← or_return (generated (generate_key_id random))
  executes insert_aux_failed (tx_insert_aux_data d actor.id aux_id msg.aux_type msg.aux_data root)

unfoldable pub process_add_aux_data :
    List Validator
    → Driver
    → Option (List ℕ)
    → AddAuxDataMessage
    → String
    → Db
    → Result Failure AuxiliaryData × Db
process_add_aux_data vs d random msg root db =
    if accepts (registered vs msg.aux_type) msg.aux_data
    then transaction d (add_aux_data_body d random msg root) db
    else (err (invalid_aux_data msg.aux_data), db)

unfoldable pub revoke_aux_data_body : Driver → RevokeAuxDataMessage → String → Tx (Unit {0})
revoke_aux_data_body d msg root = do
  rows ← executes revoke_aux_failed (tx_revoke_aux_data d msg.actor msg.aux_id root)
  refuse (eqb rows 0) (aux_not_found msg.aux_id)

unfoldable pub process_revoke_aux_data :
    Driver → RevokeAuxDataMessage → String → Db → Result Failure (Unit {0}) × Db
process_revoke_aux_data d msg root = transaction d (revoke_aux_data_body d msg root)
