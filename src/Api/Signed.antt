-- ===== src/Api/Signed.antt =====
-- The HTTP signature of an ActivityPub request, internal/api/protocol_handler.go.
use pkd_server_go.Prelude.{
  String, ◌≡◌, refl, sym, ap, ◌∙◌, ◌⊎◌, inl, inr, true, Option, none, some, arith, eq_iff,
  Option-cases,
}
use pkd_server_go.Encoding.{decode_std}
use pkd_server_go.Json.{Json}
use pkd_server_go.Signing.{Bytes}
use pkd_server_go.Text.{fields}
use pkd_server_go.Protocol.Messages.{ProtocolMessage}
use pkd_server_go.Protocol.Unmarshal.{decode_message, decode_preliminary}
use pkd_server_go.Api.Handler.{Server, World, Payload, go, ensure, need, lookup}
use pkd_server_go.Api.HttpSignature.{fetch_actor_public_key, parse_signature_header}
use pkd_server_go.Api.Dispatch.{
  Request, value_of, text_of, signing_string, check_http_signature, check_activity, check_request,
  action_handlers, action_handler, is_activity, handle_protocol_message,
}
use pkd_server_go.Api.Routes.{handle_protocol_message-cases}

-- The value of a parameter of the Signature header.
abbrev pub param : Request → String → String
param r name = text_of (lookup name (parse_signature_header (r.header "Signature")))

-- The key that the Signature header names, from the cache or from its document, verifies the
-- signature of the header over the lines that the header lists.
pub record HttpSigned (s : Server) (sign_bytes : String → Bytes) (r : Request) (w : World)
    : Type 0 where
  pub key : Bytes
  pub signature : Bytes
  pub fetched : (fetch_actor_public_key s (param r "keyId") w).0 ≡ some key
  pub decoded : decode_std (param r "signature") ≡ some signature
  pub verified :
      s.primitives.ed25519_verify key
        (sign_bytes (signing_string r (fields (param r "headers"))))
        signature
      ≡ true

check_http_signature-ok :
    (s : Server) (sign_bytes : String → Bytes) (r : Request) (w : World)
    → (check_http_signature s sign_bytes r w).0 ≡ go tt
    → HttpSigned s sign_bytes r w
unfolding check_http_signature ensure need
check_http_signature-ok s sign_bytes r w h =
    elim (Option-cases (fetch_actor_public_key s (param r "keyId") w).0) [
      | inl e ↦ ground arith
      | inr (key, fetched) ↦ elim (Option-cases (decode_std (param r "signature"))) [
        | inl e ↦ ground arith
        | inr (signature, decoded) ↦ record {
          key = key;
          signature = signature;
          fetched = fetched;
          decoded = decoded;
          verified = ground arith;
        }
      ]
    ]

preliminary-action :
    (j : Option Json) (m : ProtocolMessage)
    → decode_message j ≡ some m
    → decode_preliminary j ≡ some m.action
unfolding decode_message decode_preliminary
preliminary-action j m h = ground arith

third_party-unhandled : (s : Server) → action_handler s "RevokeKeyThirdParty" ≡ none
unfolding lookup action_handlers
third_party-unhandled s = refl

check_activity-ok :
    (s : Server) (sign_bytes : String → Bytes) (r : Request) (w : World) (action : String)
    → (check_activity s sign_bytes r w).0 ≡ go tt
    → decode_preliminary (value_of r.first) ≡ some action
    → (action ≡ "RevokeKeyThirdParty") ⊎ ((check_http_signature s sign_bytes r w).0 ≡ go tt)
unfolding check_activity need
check_activity-ok s sign_bytes r w action h e = ground (arith, eq_iff action "RevokeKeyThirdParty")

-- An ActivityPub request to the protocol's endpoint that is answered with success has a valid HTTP
-- signature. The action that is let through without one, RevokeKeyThirdParty, has no handler.
pub handle_protocol_message-HttpSigned :
    (s : Server) (sign_bytes : String → Bytes) (r : Request) (w : World) (payload : Payload)
    → is_activity r ≡ true
    → (handle_protocol_message s sign_bytes r w).0 ≡ go payload
    → HttpSigned s sign_bytes r w
unfolding check_request
handle_protocol_message-HttpSigned s sign_bytes r w payload activity h =
    elim (handle_protocol_message-cases s sign_bytes r w) [
      | inr (p, e) ↦ ground arith
      | inl (m, f, decoded, context, found, passed, e) ↦
          let check : (check_activity s sign_bytes r w).0 ≡ go tt = ground arith in
          elim (check_activity-ok s sign_bytes r w m.action check
            (preliminary-action (value_of r.first) m decoded)) [
              | inr signed ↦ check_http_signature-ok s sign_bytes r w signed
              | inl third_party ↦
                  cc (sym (ap (action_handler s) third_party ∙ third_party-unhandled s) ∙ found)
            ]
    ]
