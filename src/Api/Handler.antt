-- ===== src/Api/Handler.antt =====
-- What the handlers of internal/api share: the server's parts, the world that they change, the
-- responses, and the early return.
use pkd_server_go.Prelude.{
  ℕ, String, Bool, List, [], ◌∷◌, ◌++◌, Option, none, some, Result, ok, err, eqb, ◌==◌, length,
  if◌then◌else◌,
}
use pkd_server_go.Encoding.{decode_raw_url}
use pkd_server_go.Json.{Json}
use pkd_server_go.Protocol.Messages.{SignedMessage, marshal_signed}
use pkd_server_go.Signing.{Primitives, KeyError, Bytes, public_key_size}
use pkd_server_go.Store.Driver.{Driver, DbError}
use pkd_server_go.Store.Rows.{Actor, PublicKey, AuxiliaryData, Db}
use pkd_server_go.Domain.Transaction.{Failure}
use pkd_server_go.Auth.KeyFile.{KeyFileError}
use pkd_server_go.Auth.Tokens.{TokenError}
use pkd_server_go.Domain.Service.{Validator}

-- url.Parse, as far as it is used: the scheme and the host's name
pub record Url : Type 0 where
  pub scheme : String
  pub hostname : String
  pub text : String

-- net.IP: IsLoopback, IsPrivate, IsUnspecified
pub record Address : Type 0 where
  pub is_loopback : Bool
  pub is_private : Bool
  pub is_unspecified : Bool

-- The answer to a GET of an actor's document: its body is `none` unless it was read as JSON.
pub record ActorAnswer : Type 0 where
  pub status_code : ℕ
  pub document : Option Json

-- The network, as an outgoing request meets it; `none` is an error.
pub record Network : Type 0 where
  pub parse_url : String → Option Url
  pub lookup_ip : String → Option (List Address)
  pub get_actor : Url → Option ActorAnswer

-- The answer of the SigSum server to a POST: its status, and its body unless the reading fails.
pub record SigsumAnswer : Type 0 where
  pub status_code : ℕ
  pub body : Option String

-- `Server` of internal/api/server.go, with all that one request reads from outside: the answers of
-- the driver, the random bytes, and the answer of the SigSum server (`none` where none comes).
pub record Server : Type 0 where
  pub primitives : Primitives
  pub driver : Driver
  pub random : Option Bytes
  pub validators : List Validator
  pub post_sigsum : Json → Option SigsumAnswer
  -- `Config.Peers`: the directory's URL and its public key
  pub peers : List (String × String)
  -- whether `hpkePrivateKey` is a kem.PrivateKey
  pub has_kem_key : Bool
  pub network : Network
  -- `Config.Test.AllowPrivateIPs`
  pub allow_private_ips : Bool

-- The database, the messages for which the SigSum server has answered with a Merkle root, and the
-- process's `actorKeyCache`.
pub record World : Type 0 where
  pub db : Db
  pub logged : List SignedMessage
  pub actor_keys : List (String × Bytes)

pub data PeerError : Type 0 where
  peer_not_found peer_key_encoding peer_key_size : PeerError

-- the text that a handler appends to the detail of its error
pub data Cause : Type 0 where
  plain : Cause
  of_failure : Failure → Cause
  of_db : DbError → Cause
  of_key : KeyError → Cause
  of_peer : PeerError → Cause
  of_text : String → Cause
  of_token : TokenError → Cause
  of_key_file : KeyFileError → Cause
  of_status : ℕ → Cause

-- respondWithError: the status code and the detail
pub record Problem : Type 0 where
  pub status : ℕ
  pub detail : String
  pub cause : Cause

-- respondWithJSON(StatusOK, payload)
pub data Payload : Type 0 where
  key_added : String → String → Payload
  aux_added : String → Payload
  status_text : String → Payload
  key_list : List PublicKey → Payload
  -- of the REST reads
  actor_info : Actor → Payload
  key_info : PublicKey → Payload
  aux_list : List AuxiliaryData → Payload
  aux_info : AuxiliaryData → Payload
  server_key : Payload
  text_list : List String → Payload
  well_known : List String → Payload
  -- a handler that writes nothing
  nothing : Payload
  -- of the administration: the actor-id, and the directory
  crypto_shredded checkpoint_sent : String → Payload

-- `go` passes a value on; `stop` is `respondWithError` and `return`.
pub data Outcome (A : Type 0) : Type 0 where
  go : A → Outcome A
  stop : Problem → Outcome A

abbrev pub Handler : Type 0 → Type 0
Handler A = World → Outcome A × World

abbrev continue : {A B : Type 0} → Outcome A → (A → Handler B) → Handler B
continue (go a) f w = f a w
continue (stop p) f w = (stop p, w)

infixl 5 ◌>>=◌ ◌>>◌
abbrev pub ◌>>=◌ : {A B : Type 0} → Handler A → (A → Handler B) → Handler B
◌>>=◌ m f w = let (o, w') = m w in continue o f w'

abbrev pub ◌>>◌ : {B : Type 0} → Handler (Unit {0}) → Handler B → Handler B
first >> second = first >>= (λ u. second)

abbrev pub respond : {A : Type 0} → A → Handler A
respond a w = (go a, w)

abbrev pub problem : ℕ → String → Problem
problem status detail = record { status = status; detail = detail; cause = plain }

abbrev pub problem_of : ℕ → String → Cause → Problem
problem_of status detail cause = record { status = status; detail = detail; cause = cause }

-- the status codes of net/http
abbrev pub bad_request : ℕ
bad_request = 400

abbrev pub unauthorized : ℕ
unauthorized = 401

abbrev pub forbidden : ℕ
forbidden = 403

abbrev pub entity_too_large : ℕ
entity_too_large = 413

abbrev pub bad_gateway : ℕ
bad_gateway = 502

abbrev pub not_found : ℕ
not_found = 404

abbrev pub internal_error : ℕ
internal_error = 500

unfoldable pub ensure : Bool → Problem → Handler (Unit {0})
ensure b p w = (if b then go tt else stop p, w)

abbrev outcome_of_option : {A : Type 0} → Option A → Problem → Outcome A
outcome_of_option none p = stop p
outcome_of_option (some a) p = go a

unfoldable pub need : {A : Type 0} → Option A → Problem → Handler A
need o p w = (outcome_of_option o p, w)

abbrev outcome_of_result : {E A : Type 0} → Result E A → (E → Problem) → Outcome A
outcome_of_result (ok a) p = go a
outcome_of_result (err e) p = stop (p e)

unfoldable pub need_ok : {E A : Type 0} → Result E A → (E → Problem) → Handler A
need_ok r p w = (outcome_of_result r p, w)

-- A read of the repository: it sees the database and changes nothing.
unfoldable pub reads : {E A : Type 0} → (Db → Result E A) → (E → Problem) → Handler A
reads f p w = (outcome_of_result (f w.db) p, w)

-- A call that may change the database.
unfoldable pub writes : {E A : Type 0} → (Db → Result E A × Db) → (E → Problem) → Handler A
writes f p w = let (r, db) = f w.db in (outcome_of_result r p, record w { db = db })

-- HTTPClient.SubmitMessage of internal/sigsum/http_client.go
unfoldable pub submit_message : Option SigsumAnswer → Option String
submit_message none = none
submit_message (some a) = if eqb a.status_code 200 then a.body else none

-- The submission of a message, which every handler that changes the directory makes.
unfoldable pub submit : Server → SignedMessage → Handler String
submit s m w = elim (submit_message (s.post_sigsum (marshal_signed m))) [
  | none ↦ (stop (problem internal_error "Failed to submit message to SigSum"), w)
  | some root ↦ (go root, record w { logged = w.logged ++ m ∷ [] })
]

-- the entry of a map
unfoldable pub lookup : {A : Type 0} → String → List (String × A) → Option A
lookup k [] = none
lookup k ((j, v) ∷ rest) = let more = lookup k rest in if j == k then some v else more

abbrev peer_key : Option Bytes → Result PeerError Bytes
peer_key none = err peer_key_encoding
peer_key (some bytes) = if eqb (length bytes) public_key_size then ok bytes else err peer_key_size

-- getDirectoryPublicKey of internal/api/helpers.go
unfoldable pub get_directory_public_key : Server → String → Result PeerError Bytes
get_directory_public_key s url = elim (lookup url s.peers) [
  | none ↦ err peer_not_found
  | some text ↦ peer_key (decode_raw_url text)
]
