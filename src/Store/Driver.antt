-- ===== src/Store/Driver.antt =====
-- The database driver and its errors. The driver is not the program's: a statement that fails is
-- an answer of `down`, a parameter. Within one request each statement is executed at most once
-- (the batch of symmetric keys counts as one), so the answers of one request are a function of it.
use pkd_server_go.Prelude.{ℕ, String, Bool, Result, ok, err, if◌then◌else◌}

pub data Statement : Type 0 where
  begin_tx commit_tx : Statement
  select_actor insert_actor actor_exists update_actor_id : Statement
  select_fireproof update_fireproof fireproof_rows : Statement
  insert_public_key select_key_to_revoke revoke_key select_keys select_key : Statement
  select_message_hashes revoke_all_keys select_latest_root : Statement
  insert_aux_data revoke_aux_data select_aux_list select_aux : Statement
  insert_symmetric_keys delete_symmetric_keys select_symmetric_keys : Statement
  insert_message : Statement
  upsert_totp select_totp delete_totp totp_rows : Statement

pub record Driver : Type 0 where
  pub down : Statement → Bool
  pub now : ℕ

-- `statement` stands for the error of the driver or of a constraint, wrapped by the repository.
pub data DbError : Type 0 where
  statement : Statement → DbError
  actor_not_found : String → DbError
  totp_not_found : String → DbError

abbrev pub attempt : {A : Type 0} → Driver → Statement → A → Result DbError A
attempt d s a = if d.down s then err (statement s) else ok a

-- a constraint of the table that the statement violates
abbrev pub require : Statement → Bool → Result DbError (Unit {0})
require s b = if b then ok tt else err (statement s)
