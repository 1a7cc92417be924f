-- ===== src/Api/Reads.antt =====
-- The handlers of internal/api/server.go that read. `hpkePublicKey` is the same value in every answer.
use pkd_server_go.Prelude.{String, List, [], ◌∷◌, Option, map}
use pkd_server_go.Store.Reads.{
  find_actor_by_actor_id, list_keys_for_actor, find_key_by_key_id, list_aux_data_for_actor,
  find_aux_data_by_aux_id,
}
use pkd_server_go.Api.Handler.{
  Server, Handler, Payload, actor_info, key_list, key_info, aux_list, aux_info, server_key,
  text_list, well_known, nothing, problem, bad_request, not_found, internal_error, ◌>>=◌, respond,
  need, reads,
}

-- url.PathUnescape
abbrev pub Unescape : Type 0
Unescape = String → Option String

-- The parameters of a route are the parts of its path, as they are escaped.
unfoldable pub handle_get_actor_info : Server → Unescape → String → Handler Payload
handle_get_actor_info s unescape part = do
  name ← need (unescape part) (problem bad_request "Invalid actor ID")
  found ←
      reads (find_actor_by_actor_id s.driver name)
        (λ e. problem internal_error "Failed to retrieve actor information")
  actor ← need found (problem not_found "Actor not found")
  respond (actor_info actor)

unfoldable pub handle_get_actor_keys : Server → String → Handler Payload
handle_get_actor_keys s part = do
  keys ←
      reads (list_keys_for_actor s.driver part)
        (λ e. problem internal_error "Failed to retrieve actor keys")
  respond (key_list keys)

unfoldable pub handle_get_key_info : Server → String → Handler Payload
handle_get_key_info s part = do
  found ←
      reads (find_key_by_key_id s.driver part)
        (λ e. problem internal_error "Failed to retrieve key information")
  key ← need found (problem not_found "Key not found")
  respond (key_info key)

unfoldable pub handle_get_actor_auxiliary : Server → String → Handler Payload
handle_get_actor_auxiliary s part = do
  rows ←
      reads (list_aux_data_for_actor s.driver part)
        (λ e. problem internal_error "Failed to retrieve auxiliary data")
  respond (aux_list rows)

unfoldable pub handle_get_auxiliary_data_info : Server → String → Handler Payload
handle_get_auxiliary_data_info s part = do
  found ←
      reads (find_aux_data_by_aux_id s.driver part)
        (λ e. problem internal_error "Failed to retrieve auxiliary data information")
  row ← need found (problem not_found "Auxiliary data not found")
  respond (aux_info row)

unfoldable pub handle_get_server_public_key : Handler Payload
handle_get_server_public_key = respond server_key

-- protocol.ExtensionURNOLM
abbrev pub extension_urn_olm : String
extension_urn_olm = "urn:fedi-e2ee:aux:olm"

unfoldable pub handle_get_extensions : Handler Payload
handle_get_extensions = respond (text_list (extension_urn_olm ∷ []))

-- The names of the configured peers. Go ranges over a map in any order.
abbrev pub peer_urls : List (String × String) → List String
peer_urls = map (λ p. p.0)

unfoldable pub handle_get_replicas : Server → Handler Payload
handle_get_replicas s = respond (text_list (peer_urls s.peers))

unfoldable pub handle_well_known_pkd : Server → Handler Payload
handle_well_known_pkd s = respond (well_known (peer_urls s.peers))

-- handleGetHistory, handleGetHistorySince, handleGetHistoryView, handleRevoke, handleTotpEnroll,
-- handleTotpDisenroll, handleTotpRotate and handleReplica have no body.
unfoldable pub handle_stub : Handler Payload
handle_stub = respond nothing
