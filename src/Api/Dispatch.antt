-- ===== src/Api/Dispatch.antt =====
-- handleProtocolMessage of internal/api/protocol_handler.go, and the handlers' table of
-- internal/api/server.go.
use Prim.Native.String.{◌++◌ as text_append}
use pkd_server_go.Prelude.{
  String, Bool, not, ◌||◌, List, [], ◌∷◌, Option, none, some, ◌==◌, if◌then◌else◌,
}
use pkd_server_go.Encoding.{decode_std}
use pkd_server_go.Json.{Json}
use pkd_server_go.Protocol.Messages.{ProtocolMessage}
use pkd_server_go.Protocol.Unmarshal.{decode_message, decode_preliminary}
use pkd_server_go.Signing.{Bytes}
use pkd_server_go.Text.{contains, fields, to_lower}
use pkd_server_go.Api.Handler.{
  Server, Handler, Payload, go, stop, of_text, problem, problem_of, bad_request, unauthorized,
  forbidden, entity_too_large, internal_error, ◌>>=◌, ◌>>◌, respond, ensure, need, lookup,
}
use pkd_server_go.Api.HttpSignature.{fetch_actor_public_key, parse_signature_header}
use pkd_server_go.Api.Actions.Keys.{process_add_key_action, process_revoke_key_action}
use pkd_server_go.Api.Actions.Identity.{
  process_move_identity_action, process_burn_down_action, process_fireproof_action,
  process_undo_fireproof_action,
}
use pkd_server_go.Api.Actions.Auxiliary.{
  process_add_aux_data_action, process_revoke_aux_data_action,
}
use pkd_server_go.Api.Actions.Other.{process_checkpoint_action, process_query_action}

-- What io.ReadAll says of the body.
pub data ReadResult : Type 0 where
  complete oversized broken : ReadResult

-- What a json.Decoder on the body finds first: a JSON value, the size limit, or another error.
pub data First : Type 0 where
  value : Json → First
  limit_reached malformed : First

-- A request: `header` is r.Header.Get, which knows the names in any case.
pub record Request : Type 0 where
  pub method : String
  pub path : String
  pub header : String → String
  pub read_all : ReadResult
  pub first : First

abbrev pub value_of : First → Option Json
value_of (value j) = some j
value_of _ = none

abbrev pub text_of : Option String → String
text_of none = ""
text_of (some s) = s

unfoldable pub signed_header : Request → String → String
signed_header r name =
    let value =
      if name == "(request-target)"
      then text_append (to_lower r.method) (text_append " " r.path)
      else r.header name in
    text_append (to_lower name) (text_append ": " value)

-- The lines that the signature is over.
unfoldable pub signing_string : Request → List String → String
signing_string r [] = ""
signing_string r (name ∷ []) = signed_header r name
signing_string r (name ∷ next ∷ names) =
    text_append (signed_header r name) (text_append "\n" (signing_string r (next ∷ names)))

abbrev fetched : Server → String → Handler Bytes
fetched s key_id w =
    let (key, w') = fetch_actor_public_key s key_id w in
    need key (problem forbidden "Failed to fetch public key") w'

-- The check of an HTTP signature. `sign_bytes` is the text's UTF-8.
unfoldable pub check_http_signature : Server → (String → Bytes) → Request → Handler (Unit {0})
check_http_signature s sign_bytes r = do
  ensure (not (r.header "Signature" == ""))
      (problem unauthorized "Missing Signature header for ActivityPub request")
  let params = parse_signature_header (r.header "Signature")
  let key_id = text_of (lookup "keyId" params)
  let headers = text_of (lookup "headers" params)
  let signature = text_of (lookup "signature" params)
  ensure (not (key_id == "" || headers == "" || signature == ""))
      (problem bad_request "Invalid Signature header: missing keyId, headers, or signature")
  key ← fetched s key_id
  bytes ←
      need (decode_std signature) (problem bad_request "Invalid signature format: not valid base64")
  ensure (s.primitives.ed25519_verify key (sign_bytes (signing_string r (fields headers))) bytes)
      (problem forbidden "Invalid HTTP Signature")

abbrev read_body : ReadResult → Handler (Unit {0})
read_body complete w = (go tt, w)
read_body oversized w = (stop (problem entity_too_large "Request body too large"), w)
read_body broken w = (stop (problem internal_error "Failed to read request body"), w)

unfoldable pub check_activity : Server → (String → Bytes) → Request → Handler (Unit {0})
check_activity s sign_bytes r = do
  read_body r.read_all
  action ← need (decode_preliminary (value_of r.first)) (problem bad_request "Invalid JSON body")
  if action == "RevokeKeyThirdParty" then respond tt else check_http_signature s sign_bytes r

unfoldable pub action_handlers : Server → List (String × (ProtocolMessage → Handler Payload))
action_handlers s =
    ("AddKey", process_add_key_action s)
    ∷ ("RevokeKey", process_revoke_key_action s)
    ∷ ("MoveIdentity", process_move_identity_action s)
    ∷ ("BurnDown", process_burn_down_action s)
    ∷ ("Fireproof", process_fireproof_action s)
    ∷ ("UndoFireproof", process_undo_fireproof_action s)
    ∷ ("AddAuxData", process_add_aux_data_action s)
    ∷ ("RevokeAuxData", process_revoke_aux_data_action s)
    ∷ ("Checkpoint", process_checkpoint_action s)
    ∷ ("Query", process_query_action s)
    ∷ []

abbrev pub action_handler : Server → String → Option (ProtocolMessage → Handler Payload)
action_handler s action = lookup action (action_handlers s)

abbrev pub pkd_context_v1 : String
pkd_context_v1 = "https://github.com/fedi-e2ee/public-key-directory/v1"

abbrev pub decode_failed : {A : Type 0} → First → Handler A
decode_failed limit_reached w = (stop (problem entity_too_large "Request body too large"), w)
decode_failed _ w = (stop (problem bad_request "Invalid JSON body"), w)

abbrev decoded_body : First → Option ProtocolMessage → Handler ProtocolMessage
decoded_body first none = decode_failed first
decoded_body first (some msg) = respond msg

unfoldable pub is_activity : Request → Bool
is_activity r = contains "application/activity+json" (r.header "Content-Type")

-- the part of handleProtocolMessage that is for ActivityPub
unfoldable pub check_request : Server → (String → Bytes) → Request → Handler (Unit {0})
check_request s sign_bytes r = if is_activity r then check_activity s sign_bytes r else respond tt

unfoldable pub handle_protocol_message : Server → (String → Bytes) → Request → Handler Payload
handle_protocol_message s sign_bytes r = do
  check_request s sign_bytes r
  msg ← decoded_body r.first (decode_message (value_of r.first))
  ensure (msg.pkd_context == pkd_context_v1) (problem bad_request "Invalid !pkd-context")
  handler ←
      need (action_handler s msg.action)
        (problem_of bad_request "Unsupported action: " (of_text msg.action))
  handler msg
