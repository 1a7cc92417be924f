-- ===== src/Domain/Directory.antt =====
-- What the service of internal/domain promises of the keys, without tables, rows, ids and their order:
-- a directory says how often a text is an active key of a name.
use pkd_server_go.Prelude.{
  Bool, ℕ, suc, ◌-◌, String, ◌==◌, ◌&&◌, Option, some, none, if◌then◌else◌, List, [], ◌∷◌, count,
}
use pkd_server_go.Store.Rows.{PublicKey, Db}
use pkd_server_go.Store.Reads.{active_keys}
use pkd_server_go.Domain.Transaction.{Failure}
use pkd_server_go.Domain.Service.{Validator}
use pkd_server_go.Store.Driver.{Driver}
use pkd_server_go.Domain.Consistency.{
  Call, add_key, revoke_key, move_identity, burn_down, shred, add_aux_data, revoke_aux_data,
  perform,
}
use pkd_server_go.Domain.Atomicity.{failure}

abbrev pub Directory : Type 0
Directory = String → String → ℕ

abbrev pub has_text : String → PublicKey → Bool
has_text text k = k.public_key == text

-- The directory that a database is.
unfoldable pub directory : Db → Directory
directory db name text = count (has_text text) (active_keys name db)

abbrev pub cleared : String → Directory → Directory
cleared name D n text = if n == name then 0 else D n text

-- What a call that succeeds does to a directory.
unfoldable pub specified : Call → Directory → Directory
specified (add_key msg root keys) D n text =
    if n == msg.actor && msg.public_key == text then suc (D n text) else D n text
specified (revoke_key msg root keys) D n text =
    if n == msg.actor && msg.public_key == text then D n text - 1 else D n text
specified (move_identity msg root) D n text =
    if n == msg.new_actor then D msg.old_actor text else cleared msg.old_actor D n text
specified (burn_down name root) D n text = cleared name D n text
specified (shred nanos name) D n text = cleared name D n text
specified (add_aux_data msg root) D n text = D n text
specified (revoke_aux_data msg root) D n text = D n text

-- A call that fails does nothing.
abbrev pub step_of : Option Failure → Call → Directory → Directory
step_of none call D = specified call D
step_of (some e) call D = D

-- The calls of a history, each with the answers that it got from outside.
abbrev pub History : Type 0
History = List (Driver × Option (List ℕ) × Call)

-- The directory after a history; which calls fail is what they answer.
unfoldable pub specified_all : List Validator → History → Db → Directory → Directory
specified_all vs [] db D = D
specified_all vs ((d, random, call) ∷ rest) db D =
    specified_all vs rest (perform vs (d, random, call) db)
      (step_of (failure vs (d, random, call) db) call D)
