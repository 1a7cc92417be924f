-- ===== src/Protocol/Messages.antt =====
-- The structs of internal/protocol/messages.go. A `json.RawMessage` is the JSON value that it
-- holds, and `none` where it is nil.
use pkd_server_go.Prelude.{String, List, ◌∷◌, [], Option, none, some}
use pkd_server_go.Json.{Json, Fields, null, str, obj, end, field}

pub record ProtocolMessage : Type 0 where
  pub pkd_context : String
  pub action : String
  pub key_id : String
  pub message : Option Json
  pub recent_merkle_root : String
  pub signature : String
  pub symmetric_keys : List (String × String)
  pub otp : String

pub record SignedMessage : Type 0 where
  pub pkd_context : String
  pub action : String
  pub message : Option Json
  pub recent_merkle_root : String

pub record AddKeyMessage : Type 0 where
  pub actor : String
  pub time : String
  pub public_key : String

pub record RevokeKeyMessage : Type 0 where
  pub actor : String
  pub time : String
  pub public_key : String

pub record RevokeKeyThirdPartyMessage : Type 0 where
  pub action : String
  pub revocation_token : String

pub record MoveIdentityMessage : Type 0 where
  pub old_actor : String
  pub new_actor : String
  pub time : String

pub record BurnDownMessage : Type 0 where
  pub actor : String
  pub operator : String
  pub time : String

pub record FireproofMessage : Type 0 where
  pub actor : String
  pub time : String

pub record UndoFireproofMessage : Type 0 where
  pub actor : String
  pub time : String

pub record AddAuxDataMessage : Type 0 where
  pub actor : String
  pub aux_type : String
  pub aux_data : String
  pub aux_id : String
  pub time : String

pub record RevokeAuxDataMessage : Type 0 where
  pub actor : String
  pub aux_type : String
  pub aux_data : String
  pub aux_id : String
  pub time : String

pub record QueryMessage : Type 0 where
  pub actor : String

pub record CheckpointMessage : Type 0 where
  pub time : String
  pub from_directory : String
  pub from_root : String
  pub from_public_key : String
  pub to_directory : String
  pub to_validated_root : String

-- The part of a message that is signed, as the handlers, the log and the verification build it.
abbrev pub signed_part : ProtocolMessage → SignedMessage
signed_part m = record {
  pkd_context = m.pkd_context;
  action = m.action;
  message = m.message;
  recent_merkle_root = m.recent_merkle_root;
}

abbrev raw_message : Option Json → Json
raw_message none = null
raw_message (some j) = j

-- json.Marshal of a SignedMessage: a nil RawMessage is written as null.
unfoldable pub marshal_signed : SignedMessage → Json
marshal_signed m = obj (
    field "!pkd-context" (str m.pkd_context) (
      field "action" (str m.action) (
        field "message" (raw_message m.message)
          (field "recent-merkle-root" (str m.recent_merkle_root) end))))

symmetric_fields : List (String × String) → Fields
symmetric_fields [] = end
symmetric_fields ((k, v) ∷ rest) = field k (str v) (symmetric_fields rest)

-- `omitempty` on a string and on the map of symmetric keys
abbrev optional_field : String → String → Fields → Fields
optional_field name String.[] rest = rest
optional_field name (String.◌∷◌ c s) rest = field name (str (String.◌∷◌ c s)) rest

abbrev symmetric_field : List (String × String) → Fields → Fields
symmetric_field [] rest = rest
symmetric_field (kv ∷ kvs) rest = field "symmetric-keys" (obj (symmetric_fields (kv ∷ kvs))) rest

-- json.Marshal of a ProtocolMessage
unfoldable pub marshal_message : ProtocolMessage → Json
unfolding symmetric_fields
marshal_message m = obj (
    field "!pkd-context" (str m.pkd_context) (
      field "action" (str m.action) (
        optional_field "key-id" m.key_id (
          field "message" (raw_message m.message) (
            field "recent-merkle-root" (str m.recent_merkle_root) (
              field "signature" (str m.signature)
                (symmetric_field m.symmetric_keys (optional_field "otp" m.otp end))))))))

-- json.Marshal of a CheckpointMessage
unfoldable pub marshal_checkpoint : CheckpointMessage → Json
marshal_checkpoint m = obj (
    field "time" (str m.time) (
      field "from-directory" (str m.from_directory) (
        field "from-root" (str m.from_root) (
          field "from-public-key" (str m.from_public_key) (
            field "to-directory" (str m.to_directory)
              (field "to-validated-root" (str m.to_validated_root) end))))))
