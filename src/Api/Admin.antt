-- ===== src/Api/Admin.antt =====
-- internal/api/admin_handler.go, behind the middleware, as the routes of internal/api/server.go have
-- them.
use pkd_server_go.Prelude.{ℕ, String, not, Option, none, some, Result, ok, err, ◌==◌, eqb}
use pkd_server_go.Encoding.{decode_raw_url}
use pkd_server_go.Json.{Json, Fields, read_string}
use pkd_server_go.Protocol.Unmarshal.{as_map}
use pkd_server_go.Store.Rows.{Db}
use pkd_server_go.Store.Reads.{get_latest_merkle_root}
use pkd_server_go.Domain.Transaction.{Failure, actor_not_found}
use pkd_server_go.Domain.Service.{crypto_shred}
use pkd_server_go.Checkpoint.{
  Sender, SendError, bad_private_key, not_canonical, sign_panics, signed_checkpoint,
}
use pkd_server_go.Checkpoint.Scheduler.{sent_to}
use pkd_server_go.Auth.KeyFile.{File}
use pkd_server_go.Api.Handler.{
  Server, World, Handler, Outcome, Payload, Problem, go, stop, of_failure, of_db, of_status,
  crypto_shredded, checkpoint_sent, problem, problem_of, bad_request, bad_gateway, internal_error,
  ◌>>=◌, ◌>>◌, respond, ensure, need, need_ok, reads, writes,
}
use pkd_server_go.Api.HttpSignature.{validate_url}
use pkd_server_go.Api.Dispatch.{First, value_of, decode_failed}
use pkd_server_go.Api.AuthMiddleware.{TokenServer, auth_middleware}

-- Decode into a struct with one field of the type string.
-- the field of the body, which json.Unmarshal leaves empty where it is missing
abbrev pub read_request : String → Option Json → Option String
read_request name j = elim (as_map j) [ none ↦ none | some fs ↦ read_string name fs "" ]

abbrev pub decoded : First → Option String → Handler String
decoded first none = decode_failed first
decoded first (some text) = respond text

abbrev pub decode_request : String → First → Handler String
decode_request name first = decoded first (read_request name (value_of first))

-- errors.Is(err, domain.ErrActorNotFound)
abbrev pub unless_not_found : Result Failure (Unit {0}) → Result Failure (Unit {0})
unless_not_found (ok u) = ok u
unless_not_found (err actor_not_found) = ok tt
unless_not_found (err e) = err e

abbrev shredding : Server → ℕ → String → Db → Result Failure (Unit {0}) × Db
shredding s nanos actor db =
    let (r, db') = crypto_shred s.driver nanos actor db in (unless_not_found r, db')

-- handleCryptoShred; `nanos` is time.Now().UnixNano().
unfoldable pub handle_crypto_shred : Server → ℕ → First → Handler Payload
handle_crypto_shred s nanos first = do
  actor ← decode_request "actor-id" first
  ensure (not (actor == "")) (problem bad_request "Missing actor-id in request")
  writes (shredding s nanos actor)
      (λ e. problem_of internal_error "Failed to crypto-shred actor: " (of_failure e))
  respond (crypto_shredded actor)

-- The recoverer of the router answers a panic with the status alone.
unfoldable pub send_problem : SendError → Problem
send_problem bad_private_key = problem internal_error "Failed to decode server private key"
send_problem not_canonical =
    problem internal_error "Failed to canonicalize signed message for signing"
send_problem sign_panics = problem internal_error ""

-- handleTriggerCheckpoint; the URL is posted to as it is written after its parsing.
unfoldable pub handle_trigger_checkpoint : Server → Sender → First → Handler Payload
handle_trigger_checkpoint s sender first = do
  to ← decode_request "to-directory" first
  ensure (not (to == "")) (problem bad_request "Missing to-directory in request")
  url ←
      need (validate_url s.network s.allow_private_ips to)
        (problem bad_request "Invalid to-directory URL: ")
  root ←
      reads (get_latest_merkle_root s.driver)
        (λ e. problem_of internal_error "Failed to get latest merkle root: " (of_db e))
  ensure (not (root == ""))
      (problem bad_request "No messages on server to create a checkpoint from")
  message ←
      need_ok (signed_checkpoint sender (decode_raw_url sender.private_key) root to) send_problem
  status ←
      need (sent_to sender url.text message)
        (problem internal_error "Failed to send checkpoint to peer: ")
  ensure (eqb status 200)
      (problem_of bad_gateway "Peer server responded with status " (of_status status))
  respond (checkpoint_sent to)

-- The routes under /admin: a request that the middleware stops does not reach its handler.
pub data AdminRoute : Type 0 where
  to_checkpoint to_crypto_shred : AdminRoute

abbrev admin_handler : Server → Sender → ℕ → AdminRoute → First → Handler Payload
admin_handler s sender nanos to_checkpoint = handle_trigger_checkpoint s sender
admin_handler s sender nanos to_crypto_shred = handle_crypto_shred s nanos

abbrev routed : Outcome Fields × File → Handler Payload → World → Outcome Payload × World × File
routed (stop p, file) handler w = (stop p, w, file)
routed (go claims, file) handler w = let (o, w') = handler w in (o, w', file)

unfoldable pub serve_admin :
    Server
    → Sender
    → TokenServer
    → ℕ
    → AdminRoute
    → (String → String)
    → First
    → World
    → File
    → Outcome Payload × World × File
serve_admin s sender tokens nanos route header first w file =
    routed (auth_middleware tokens header file) (admin_handler s sender nanos route first) w
