-- ===== src/Checkpoint.antt =====
-- The message that a directory sends to another one: what the administration's handler of
-- internal/api/admin_handler.go and the scheduler of internal/checkpoint/scheduler.go build alike.
use Prim.Native.String.{◌++◌ as text_append}
use pkd_server_go.Prelude.{
  ℕ, String, [], Option, some, Result, ok, err, ◌>>=◌, or_fail, eqb, length, if◌then◌else◌,
}
use pkd_server_go.Encoding.{encode_raw_url}
use pkd_server_go.Json.{Json}
use pkd_server_go.Protocol.Messages.{
  ProtocolMessage, CheckpointMessage, signed_part, marshal_signed, marshal_checkpoint,
}
use pkd_server_go.Signing.{Primitives, Bytes, private_key_size}
use pkd_server_go.Domain.Service.{decimal}
use pkd_server_go.Api.Dispatch.{pkd_context_v1}
pub mod Scheduler
pub mod Loop
pub mod Padding

-- What a directory signs and sends with, with the answers of one sending.
pub record Sender : Type 0 where
  pub primitives : Primitives
  -- ed25519.Sign, where it does not panic: private key, message
  pub ed25519_sign : Bytes → Bytes → Bytes
  pub host : String
  pub port : ℕ
  -- `Config.Server.PrivateKey`
  pub private_key : String
  -- time.Now().UTC() in RFC 3339
  pub now_text : String
  -- http.Post with the type application/json: the URL, the body; the status, unless it fails
  pub post : String → Json → Option ℕ

pub data SendError : Type 0 where
  bad_private_key not_canonical : SendError
  -- ed25519.Sign panics on a key of another length
  sign_panics : SendError

-- crypto.SignMessage
unfoldable pub sign_message : Sender → Bytes → Bytes → Result SendError String
sign_message s key message =
    if eqb (length key) private_key_size
    then ok (encode_raw_url (s.ed25519_sign key message))
    else err sign_panics

abbrev pub own_url : Sender → String
own_url s = text_append "http://" (text_append s.host (text_append ":" (decimal s.port)))

abbrev pub checkpoint_message : Sender → String → String → CheckpointMessage
checkpoint_message s root to = record {
  time = s.now_text;
  from_directory = own_url s;
  from_root = root;
  from_public_key = "";
  to_directory = to;
  to_validated_root = "";
}

-- The message before it is signed.
abbrev pub unsigned_checkpoint : Sender → String → String → ProtocolMessage
unsigned_checkpoint s root to = record {
  pkd_context = pkd_context_v1;
  action = "Checkpoint";
  key_id = "";
  message = some (marshal_checkpoint (checkpoint_message s root to));
  recent_merkle_root = "";
  signature = "";
  symmetric_keys = [];
  otp = "";
}

-- From the bytes of the private key, if they were read, to the signed message.
unfoldable pub signed_checkpoint :
    Sender → Option Bytes → String → String → Result SendError ProtocolMessage
signed_checkpoint s key root to = do
  secret ← or_fail bad_private_key key
  let message = unsigned_checkpoint s root to
  bytes ← or_fail not_canonical (s.primitives.jcs_transform (marshal_signed (signed_part message)))
  signature ← sign_message s secret bytes
  ok (record message { signature = signature })
