-- ===== src/Api/HttpSignature.antt =====
-- internal/util/url_validator.go and internal/api/http_signature_helpers.go: the key of the actor
-- who signs an ActivityPub request, and the parameters of the Signature header.
use pkd_server_go.Prelude.{
  ℕ, String, Bool, true, false, not, ◌&&◌, ◌||◌, List, [], ◌∷◌, Option, none, some, ok, err, eqb,
  ◌==◌, any, if◌then◌else◌,
}
use pkd_server_go.Json.{Json, Fields, end, field, obj, null, read_string, fold_eq}
use pkd_server_go.Signing.{Bytes, decode_public_key}
use pkd_server_go.Text.{trim, is_space, split, cut, has_suffix}
use pkd_server_go.Api.Handler.{Url, Address, ActorAnswer, Network, Server, World, lookup}

abbrev forbidden_tlds : List String
forbidden_tlds = ".example" ∷ ".internal" ∷ ".lan" ∷ ".local" ∷ ".localhost" ∷ ".test" ∷ []

abbrev is_local : Address → Bool
is_local ip = ip.is_loopback || ip.is_private || ip.is_unspecified

abbrev no_local : Option (List Address) → Bool
no_local none = false
no_local (some ips) = not (any is_local ips)

abbrev names_loopback : String → Bool
names_loopback host = host == "localhost" || host == "127.0.0.1" || host == "::1"

unfoldable pub is_public_host : Network → String → Bool
is_public_host n host =
    not (names_loopback host)
    && not (any (λ tld. has_suffix tld host) forbidden_tlds)
    && no_local (n.lookup_ip host)

-- ValidateURL
unfoldable pub validate_url : Network → Bool → String → Option Url
validate_url n allow_private_ips u = elim (n.parse_url u) [
  | none ↦ none
  | some url ↦
      if not (url.scheme == "http") && not (url.scheme == "https")
      then none
      else if allow_private_ips || is_public_host n url.hostname
      then some url
      else none
]

-- `publicKey.publicKeyPem` of an actor's document
read_pem : Fields → String → Option String
read_pem end current = some current
read_pem (field k (obj inner) rest) current = elim (fold_eq k "publicKey") [
  | false ↦ read_pem rest current
  | true ↦ elim (read_string "publicKeyPem" inner current) [
    | none ↦ none
    | some pem ↦ read_pem rest pem
  ]
]
read_pem (field k null rest) current = read_pem rest current
read_pem (field k v rest) current =
    let more = read_pem rest current in if fold_eq k "publicKey" then none else more

unfoldable pub pem_of : Option Json → Option String
unfolding read_pem
pem_of (some (obj fields)) = read_pem fields ""
pem_of (some null) = some ""
pem_of _ = none

abbrev decoded_pem : Option String → Option Bytes
decoded_pem none = none
decoded_pem (some pem) =
    if pem == "" then none else elim (decode_public_key pem) [ ok key ↦ some key | err e ↦ none ]

unfoldable pub key_of_answer : Option ActorAnswer → Option Bytes
key_of_answer none = none
key_of_answer (some a) = if eqb a.status_code 200 then decoded_pem (pem_of a.document) else none

abbrev cached : String → Option Bytes → World → Option Bytes × World
cached key_id none w = (none, w)
cached key_id (some key) w = (some key, record w { actor_keys = (key_id, key) ∷ w.actor_keys })

-- fetchActorPublicKey: a key that was fetched stays in the cache.
unfoldable pub fetch_actor_public_key : Server → String → World → Option Bytes × World
fetch_actor_public_key s key_id w = elim (lookup key_id w.actor_keys) [
  | some key ↦ (some key, w)
  | none ↦ elim (validate_url s.network s.allow_private_ips key_id) [
    | none ↦ (none, w)
    | some url ↦ cached key_id (key_of_answer (s.network.get_actor url)) w
  ]
]

abbrev is_quote : ℕ → Bool
is_quote c = eqb c 34

-- One part of the header: of two values of a name the later one stays.
abbrev add_param : Option (String × String) → List (String × String) → List (String × String)
add_param none params = params
add_param (some (key, value)) params = (key, trim is_quote value) ∷ params

read_params : List String → List (String × String) → List (String × String)
read_params [] params = params
read_params (part ∷ parts) params =
    read_params parts (add_param (cut b'=' (trim is_space part)) params)

-- parseSignatureHeader, with the latest value of a name first
unfoldable pub parse_signature_header : String → List (String × String)
unfolding read_params
parse_signature_header header = read_params (split (λ c. eqb c b',') header) []
