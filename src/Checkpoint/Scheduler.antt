-- ===== src/Checkpoint/Scheduler.antt =====
-- triggerCheckpoint of internal/checkpoint/scheduler.go.
use Prim.Native.String.{◌++◌ as text_append}
use pkd_server_go.Prelude.{
  ℕ, String, Option, Result, ok, err, ◌>>=◌, ◌>>◌, wrap, or_fail, eqb, ◌==◌, if◌then◌else◌,
}
use pkd_server_go.Encoding.{decode_std}
use pkd_server_go.Protocol.Messages.{ProtocolMessage, marshal_message}
use pkd_server_go.Store.Driver.{Driver, DbError}
use pkd_server_go.Store.Rows.{Db}
use pkd_server_go.Store.Reads.{get_latest_merkle_root}
use pkd_server_go.Checkpoint.{Sender, SendError, signed_checkpoint}

-- The lines of the log, one for each way out. A panic of Sign ends the process.
pub data Report : Type 0 where
  no_target : Report
  root_failed : DbError → Report
  not_signed : SendError → Report
  post_failed : Report
  peer_status : ℕ → Report

abbrev pub sent_to : Sender → String → ProtocolMessage → Option ℕ
sent_to s target message = s.post (text_append target "/protocol") (marshal_message message)

-- The status of the peer's answer, where it is 200.
unfoldable pub trigger_checkpoint : Sender → Driver → String → Db → Result Report (Unit {0})
trigger_checkpoint s d target db = do
  (if target == "" then err no_target else ok tt)
  root ← wrap root_failed (get_latest_merkle_root d db)
  message ← wrap not_signed (signed_checkpoint s (decode_std s.private_key) root target)
  status ← or_fail post_failed (sent_to s target message)
  if eqb status 200 then ok tt else err (peer_status status)
