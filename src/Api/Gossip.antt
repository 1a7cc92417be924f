-- ===== src/Api/Gossip.antt =====
-- A checkpoint between two directories: what the administration of one posts, the endpoint of the
-- other accepts.
use pkd_server_go.Prelude.{
  String, ◌≡◌, refl, sym, ap, ◌∙◌, inl, inr, true, false, [], ◌∷◌, some, ok, arith, All, length,
  length-append, suc, any, all, Option-cases, ◌==◌, if◌then◌else◌,
}
use pkd_server_go.Encoding.{encode_raw_url}
use pkd_server_go.Encoding.RoundTrip.{IsByte, decode-encode_raw_url}
use pkd_server_go.Json.{Json, fold_eq, read_string, member}
use pkd_server_go.Protocol.Messages.{
  ProtocolMessage, signed_part, marshal_signed, marshal_message, marshal_checkpoint,
}
use pkd_server_go.Protocol.Unmarshal.{decode_message, unmarshal_checkpoint, unmarshal_with_checks}
use pkd_server_go.Signing.{
  Bytes, private_key_size, public_key_size, cut_prefix, verify_message_signature, hash_bytes,
}
use pkd_server_go.Text.{contains}
use pkd_server_go.Store.Driver.{insert_message}
use pkd_server_go.Store.Rows.{MessageLog}
use pkd_server_go.Store.Reads.{store_message}
use pkd_server_go.Checkpoint.{
  Sender, sign_message, own_url, checkpoint_message, unsigned_checkpoint, signed_checkpoint,
}
use pkd_server_go.Api.Handler.{
  Server, World, go, status_text, ensure, need, need_ok, writes, lookup, get_directory_public_key,
}
use pkd_server_go.Api.Dispatch.{
  Request, complete, value, action_handlers, is_activity, check_request, handle_protocol_message,
}
use pkd_server_go.Api.Actions.Other.{process_checkpoint_action}

-- What http.Post sends, as the other server meets it.
abbrev pub posted : ProtocolMessage → Request
posted message = record {
  method = "POST";
  path = "/protocol";
  header = λ name. if name == "Content-Type" then "application/json" else "";
  read_all = complete;
  first = value (marshal_message message);
}

module _ (s : Sender) (root to signature : String) where
  abbrev message : ProtocolMessage
  message = record (unsigned_checkpoint s root to) { signature = signature }

  -- The message is read back from its JSON.
  decode-marshal : decode_message (some (marshal_message message)) ≡ some message
  unfolding decode_message marshal_message read_string fold_eq marshal_checkpoint
  decode-marshal = refl

  unmarshal-marshal : unmarshal_checkpoint message.message ≡ some (checkpoint_message s root to)
  unfolding unmarshal_checkpoint unmarshal_with_checks marshal_checkpoint read_string fold_eq member
      all
  unmarshal-marshal = refl

  not_activity : is_activity (posted message) ≡ false
  unfolding is_activity contains cut_prefix
  not_activity = refl

-- A peer's configuration names the sender's URL with the public key of its private key, and Ed25519
-- and JCS are those of RFC 8032 and RFC 8785 on both sides.
pub record ArePeers (s : Sender) (peer : Server) (secret public_key : Bytes) : Type 0 where
  pub known : lookup (own_url s) peer.peers ≡ some (encode_raw_url public_key)
  pub public_length : length public_key ≡ public_key_size
  pub public_bytes : All IsByte public_key
  pub secret_length : length secret ≡ private_key_size
  pub signature_bytes : (text : Bytes) → All IsByte (s.ed25519_sign secret text)
  pub same_form : (j : Json) → peer.primitives.jcs_transform j ≡ s.primitives.jcs_transform j
  pub verifies :
      (text : Bytes)
      → peer.primitives.ed25519_verify public_key text (s.ed25519_sign secret text) ≡ true

module _ (s : Sender) (peer : Server) (secret public_key : Bytes)
    (peers : ArePeers s peer secret public_key) (root to : String) where
  peer_key : get_directory_public_key peer (own_url s) ≡ ok public_key
  unfolding get_directory_public_key
  peer_key =
      let known = peers.known in
      let size = peers.public_length in
      let read = decode-encode_raw_url public_key peers.public_bytes in ground arith

  -- A message that the sender has signed has the peer's key verify it.
  signed_checkpoint-verified :
      (msg : ProtocolMessage)
      → signed_checkpoint s (some secret) root to ≡ ok msg
      → (signature : String) × (msg ≡ message s root to signature)
        × (verify_message_signature peer.primitives (message s root to signature) public_key
            ≡ ok tt)
  unfolding signed_checkpoint sign_message verify_message_signature
  signed_checkpoint-verified msg e =
      let form = marshal_signed (signed_part (unsigned_checkpoint s root to)) in
      elim (Option-cases (s.primitives.jcs_transform form)) [
        | inl n ↦ ground arith
        | inr (text, te) ↦
            let size = peers.secret_length in
            let signature = s.ed25519_sign secret text in
            let read = decode-encode_raw_url signature (peers.signature_bytes text) in
            let same = peers.same_form form in
            let verified = peers.verifies text in
            (encode_raw_url signature, ground arith, ground arith)
      ]

  dispatched :
      (signature : String) (utf8 : String → Bytes) (w : World)
      → handle_protocol_message peer utf8 (posted (message s root to signature)) w
        ≡ process_checkpoint_action peer (message s root to signature) w
  unfolding handle_protocol_message check_request ensure need action_handlers lookup
  dispatched signature utf8 w =
      let plain = not_activity s root to signature in
      let read = decode-marshal s root to signature in ground arith

  abbrev hash : ProtocolMessage → String
  hash msg = hash_bytes peer.primitives (marshal_message msg)

  accepted :
      (signature : String) (w : World)
      → verify_message_signature peer.primitives (message s root to signature) public_key ≡ ok tt
      → peer.driver.down insert_message ≡ false
      → any (λ m. m.message_hash == hash (message s root to signature)) w.db.message_logs.rows
        ≡ false
      → let r = process_checkpoint_action peer (message s root to signature) w in
        (r.0 ≡ go (status_text "Checkpoint processed successfully"))
        × (length r.1.db.message_logs.rows ≡ suc (length w.db.message_logs.rows))
  unfolding process_checkpoint_action need need_ok writes store_message
  accepted signature w verified up fresh =
      let inner = unmarshal-marshal s root to signature in
      let key = peer_key in
      let entry : MessageLog = record {
        id = suc w.db.message_logs.seq;
        message_hash = hash (message s root to signature);
        encrypted_message = marshal_message (message s root to signature);
        decrypted_message = marshal_message (message s root to signature);
        created_at = peer.driver.now;
      } in
      let grown = length-append w.db.message_logs.rows (entry ∷ []) in (ground arith, ground arith)

  -- Of two directories, one of which has the other's URL and public key in its configuration: the
  -- checkpoint that the sender signs for it, posted to its endpoint, is answered with success and
  -- stored, where the statement does not fail and no message with its hash was stored before.
  pub handle_protocol_message-signed_checkpoint :
      (msg : ProtocolMessage) (utf8 : String → Bytes) (w : World)
      → signed_checkpoint s (some secret) root to ≡ ok msg
      → peer.driver.down insert_message ≡ false
      → any
          (λ m. m.message_hash == hash_bytes peer.primitives (marshal_message msg))
          w.db.message_logs.rows
        ≡ false
      → ((handle_protocol_message peer utf8 (posted msg) w).0
          ≡ go (status_text "Checkpoint processed successfully"))
        × (length (handle_protocol_message peer utf8 (posted msg) w).1.db.message_logs.rows
            ≡ suc (length w.db.message_logs.rows))
  handle_protocol_message-signed_checkpoint msg utf8 w e up fresh =
      let (signature, is, verified) = signed_checkpoint-verified msg e in
      let fresh' =
        ap (λ m. any (λ l. l.message_hash == hash m) w.db.message_logs.rows) (sym is) ∙ fresh in
      let (answer, stored) = accepted signature w verified up fresh' in
      let same : handle_protocol_message peer utf8 (posted msg) w
          ≡ process_checkpoint_action peer (message s root to signature) w =
        ap (λ m. handle_protocol_message peer utf8 (posted m) w) is ∙ dispatched signature utf8 w in
      (ap (λ r. r.0) same ∙ answer, ap (λ r. length r.1.db.message_logs.rows) same ∙ stored)
