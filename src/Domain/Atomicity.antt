-- ===== src/Domain/Atomicity.antt =====
-- The all-or-nothing of the service's transactions.
use pkd_server_go.Prelude.{
  ℕ, String, ◌≡◌, inl, inr, List, Option, Result, ok, err, arith, Result-cases, Bool-cases,
}
use pkd_server_go.Protocol.Messages.{AddAuxDataMessage}
use pkd_server_go.Store.Driver.{Driver}
use pkd_server_go.Store.Rows.{Db}
use pkd_server_go.Domain.Transaction.{Failure, Tx, transaction, transaction-error}
use pkd_server_go.Domain.Service.{
  Validator, accepts, add_aux_data_body, registered, process_add_key, process_revoke_key,
  process_move_identity, process_burn_down, crypto_shred, process_add_aux_data,
  process_revoke_aux_data,
}
use pkd_server_go.Domain.Consistency.{
  Call, add_key, revoke_key, move_identity, burn_down, shred, add_aux_data, revoke_aux_data,
  perform,
}

abbrev pub failure_of : {A : Type 0} → Result Failure A → Option Failure
failure_of (ok a) = Option.none
failure_of (err e) = Option.some e

-- The error that a call returns.
unfoldable pub failure : List Validator → Driver × Option (List ℕ) × Call → Db → Option Failure
failure vs (d, random, add_key msg root keys) db =
    failure_of (process_add_key d random msg root keys db).0
failure vs (d, random, revoke_key msg root keys) db =
    failure_of (process_revoke_key d msg root keys db).0
failure vs (d, random, move_identity msg root) db =
    failure_of (process_move_identity d msg root db).0
failure vs (d, random, burn_down name root) db = failure_of (process_burn_down d name root db).0
failure vs (d, random, shred nanos name) db = failure_of (crypto_shred d nanos name db).0
failure vs (d, random, add_aux_data msg root) db =
    failure_of (process_add_aux_data vs d random msg root db).0
failure vs (d, random, revoke_aux_data msg root) db =
    failure_of (process_revoke_aux_data d msg root db).0

transaction-failure :
    {A : Type 0} (d : Driver) (body : Tx A) (db : Db) (e : Failure)
    → failure_of (transaction d body db).0 ≡ Option.some e
    → (transaction d body db).1 ≡ db
transaction-failure d body db e h = elim (Result-cases (transaction d body db).0) [
  | inl (a, done) ↦ ground arith
  | inr (e', failed) ↦ transaction-error d body db failed
]

add_aux_data-failure :
    (vs : List Validator) (d : Driver) (random : Option (List ℕ)) (msg : AddAuxDataMessage)
    (root : String) (db : Db) (e : Failure)
    → failure_of (process_add_aux_data vs d random msg root db).0 ≡ Option.some e
    → (process_add_aux_data vs d random msg root db).1 ≡ db
unfolding process_add_aux_data
add_aux_data-failure vs d random msg root db e h =
    let body = transaction-failure d (add_aux_data_body d random msg root) db e in
    elim (Bool-cases (accepts (registered vs msg.aux_type) msg.aux_data)) [
      | inr refused ↦ ground arith
      | inl accepted ↦ ground arith
    ]

-- A call of the service that returns an error leaves the database as it was, at whatever statement
-- the driver failed.
pub perform-failure :
    (vs : List Validator) (c : Driver × Option (List ℕ) × Call) (db : Db) (e : Failure)
    → failure vs c db ≡ Option.some e
    → perform vs c db ≡ db
unfolding perform failure process_add_key process_revoke_key process_move_identity process_burn_down
    process_revoke_aux_data crypto_shred
perform-failure vs (d, random, add_key msg root keys) db e h = transaction-failure d _ db e h
perform-failure vs (d, random, revoke_key msg root keys) db e h = transaction-failure d _ db e h
perform-failure vs (d, random, move_identity msg root) db e h = transaction-failure d _ db e h
perform-failure vs (d, random, burn_down name root) db e h = transaction-failure d _ db e h
perform-failure vs (d, random, shred nanos name) db e h = transaction-failure d _ db e h
perform-failure vs (d, random, add_aux_data msg root) db e h =
    add_aux_data-failure vs d random msg root db e h
perform-failure vs (d, random, revoke_aux_data msg root) db e h = transaction-failure d _ db e h
