-- ===== src/Protocol/Unmarshal.antt =====
-- internal/protocol/unmarshal.go: decoding with a check of the required fields. `none` is an error.
use pkd_server_go.Prelude.{
  String, Bool, true, false, ◌||◌, List, [], ◌∷◌, Option, none, some, is_some, all, ◌==◌,
  if◌then◌else◌,
}
use pkd_server_go.Json.{Json, Fields, end, field, obj, str, null, member, read_string, fold_eq}
use pkd_server_go.Protocol.Messages.{
  ProtocolMessage, AddKeyMessage, RevokeKeyMessage, RevokeKeyThirdPartyMessage, MoveIdentityMessage,
  BurnDownMessage, FireproofMessage, UndoFireproofMessage, AddAuxDataMessage, RevokeAuxDataMessage,
  QueryMessage, CheckpointMessage,
}

infixl 5 ◌>>=◌
abbrev ◌>>=◌ : {A B : Type 0} → Option A → (A → Option B) → Option B
none >>= f = none
some a >>= f = f a

-- `json.Unmarshal(data, &raw)` into a map: an object, or null, which leaves the map empty.
abbrev pub as_map : Option Json → Option Fields
as_map (some (obj fields)) = some fields
as_map (some null) = some end
as_map _ = none

abbrev has_field : Fields → String → Bool
has_field raw name = is_some (member name raw)

-- The check of the required fields, and then the decoding into the struct.
unfoldable pub unmarshal_with_checks :
    {A : Type 0} → Option Json → List String → (Fields → Option A) → Option A
unmarshal_with_checks data_in required decode = do
  raw ← as_map data_in
  if all (has_field raw) required then decode raw else none

abbrev text : String → Fields → Option String
text name fields = read_string name fields ""

unfoldable pub unmarshal_add_key : Option Json → Option AddKeyMessage
unmarshal_add_key j = unmarshal_with_checks j ("actor" ∷ "time" ∷ "public-key" ∷ []) λ fs. do
  actor ← text "actor" fs
  time ← text "time" fs
  public_key ← text "public-key" fs
  some (record { actor = actor; time = time; public_key = public_key })

unfoldable pub unmarshal_revoke_key : Option Json → Option RevokeKeyMessage
unmarshal_revoke_key j = unmarshal_with_checks j ("actor" ∷ "time" ∷ "public-key" ∷ []) λ fs. do
  actor ← text "actor" fs
  time ← text "time" fs
  public_key ← text "public-key" fs
  some (record { actor = actor; time = time; public_key = public_key })

unfoldable pub unmarshal_revoke_key_third_party : Option Json → Option RevokeKeyThirdPartyMessage
unmarshal_revoke_key_third_party j =
    unmarshal_with_checks j ("action" ∷ "revocation-token" ∷ []) λ fs. do
      action ← text "action" fs
      token ← text "revocation-token" fs
      some (record { action = action; revocation_token = token })

unfoldable pub unmarshal_move_identity : Option Json → Option MoveIdentityMessage
unmarshal_move_identity j = unmarshal_with_checks j ("old-actor" ∷ "new-actor" ∷ "time" ∷ []) λ fs.
    do
      old ← text "old-actor" fs
      new ← text "new-actor" fs
      time ← text "time" fs
      some (record { old_actor = old; new_actor = new; time = time })

unfoldable pub unmarshal_burn_down : Option Json → Option BurnDownMessage
unmarshal_burn_down j = unmarshal_with_checks j ("actor" ∷ "operator" ∷ "time" ∷ []) λ fs. do
  actor ← text "actor" fs
  operator ← text "operator" fs
  time ← text "time" fs
  some (record { actor = actor; operator = operator; time = time })

unfoldable pub unmarshal_fireproof : Option Json → Option FireproofMessage
unmarshal_fireproof j = unmarshal_with_checks j ("actor" ∷ "time" ∷ []) λ fs. do
  actor ← text "actor" fs
  time ← text "time" fs
  some (record { actor = actor; time = time })

unfoldable pub unmarshal_undo_fireproof : Option Json → Option UndoFireproofMessage
unmarshal_undo_fireproof j = unmarshal_with_checks j ("actor" ∷ "time" ∷ []) λ fs. do
  actor ← text "actor" fs
  time ← text "time" fs
  some (record { actor = actor; time = time })

unfoldable pub unmarshal_add_aux_data : Option Json → Option AddAuxDataMessage
unmarshal_add_aux_data j =
    unmarshal_with_checks j ("actor" ∷ "aux-type" ∷ "aux-data" ∷ "time" ∷ []) λ fs. do
      actor ← text "actor" fs
      aux_type ← text "aux-type" fs
      aux_data ← text "aux-data" fs
      aux_id ← text "aux-id" fs
      time ← text "time" fs
      some (record {
        actor = actor;
        aux_type = aux_type;
        aux_data = aux_data;
        aux_id = aux_id;
        time = time;
      })

-- One of aux-data and aux-id at least.
unfoldable pub unmarshal_revoke_aux_data : Option Json → Option RevokeAuxDataMessage
unmarshal_revoke_aux_data j = do
  raw ← as_map j
  let decoded = unmarshal_with_checks j ("actor" ∷ "aux-type" ∷ "time" ∷ []) λ fs. do
    actor ← text "actor" fs
    aux_type ← text "aux-type" fs
    aux_data ← text "aux-data" fs
    aux_id ← text "aux-id" fs
    time ← text "time" fs
    some (record {
      actor = actor;
      aux_type = aux_type;
      aux_data = aux_data;
      aux_id = aux_id;
      time = time;
    })
  if has_field raw "aux-data" || has_field raw "aux-id" then decoded else none

unfoldable pub unmarshal_query : Option Json → Option QueryMessage
unmarshal_query j =
    unmarshal_with_checks j ("actor" ∷ [])
      λ fs. do actor ← text "actor" fs; some (record { actor = actor })

unfoldable pub unmarshal_checkpoint : Option Json → Option CheckpointMessage
unmarshal_checkpoint j =
    unmarshal_with_checks j
      ("time" ∷ "from-directory" ∷ "from-root" ∷ "from-public-key" ∷ "to-directory"
        ∷ "to-validated-root" ∷ [])
      λ fs. do
        time ← text "time" fs
        from_directory ← text "from-directory" fs
        from_root ← text "from-root" fs
        from_public_key ← text "from-public-key" fs
        to_directory ← text "to-directory" fs
        to_validated_root ← text "to-validated-root" fs
        some (record {
          time = time;
          from_directory = from_directory;
          from_root = from_root;
          from_public_key = from_public_key;
          to_directory = to_directory;
          to_validated_root = to_validated_root;
        })

-- A `map[string]string`: an entry replaces an older one of its name, and null is the empty text.
set_entry : String → String → List (String × String) → List (String × String)
set_entry k v [] = (k, v) ∷ []
set_entry k v ((j, w) ∷ rest) = if j == k then (k, v) ∷ rest else (j, w) ∷ set_entry k v rest

read_entries : Fields → List (String × String) → Option (List (String × String))
unfolding set_entry
read_entries end current = some current
read_entries (field k (str v) rest) current = read_entries rest (set_entry k v current)
read_entries (field k null rest) current = read_entries rest (set_entry k "" current)
read_entries (field k _ rest) current = none

-- The fields of a struct with a map: null empties it, and objects are merged.
read_map : String → Fields → List (String × String) → Option (List (String × String))
unfolding read_entries
read_map name end current = some current
read_map name (field k (obj entries) rest) current = elim (fold_eq k name) [
  | false ↦ read_map name rest current
  | true ↦ elim (read_entries entries current) [
    | none ↦ none
    | some merged ↦ read_map name rest merged
  ]
]
read_map name (field k null rest) current =
    read_map name rest (if fold_eq k name then [] else current)
read_map name (field k v rest) current =
    let more = read_map name rest current in if fold_eq k name then none else more

-- A field of the type `json.RawMessage`: the last one that fits.
read_raw : String → Fields → Option Json → Option Json
read_raw name end current = current
read_raw name (field k v rest) current =
    read_raw name rest (if fold_eq k name then some v else current)

-- `json.NewDecoder(r.Body).Decode(&fullMsg)`, of a body that holds a JSON value.
unfoldable pub decode_message : Option Json → Option ProtocolMessage
unfolding read_map read_raw
decode_message j = do
  fs ← as_map j
  pkd_context ← text "!pkd-context" fs
  action ← text "action" fs
  key_id ← text "key-id" fs
  recent_merkle_root ← text "recent-merkle-root" fs
  signature ← text "signature" fs
  symmetric_keys ← read_map "symmetric-keys" fs []
  otp ← text "otp" fs
  some (record {
    pkd_context = pkd_context;
    action = action;
    key_id = key_id;
    message = read_raw "message" fs none;
    recent_merkle_root = recent_merkle_root;
    signature = signature;
    symmetric_keys = symmetric_keys;
    otp = otp;
  })

-- `preliminaryMessage` of internal/api/protocol_handler.go: the action alone
unfoldable pub decode_preliminary : Option Json → Option String
decode_preliminary j = do fs ← as_map j; text "action" fs
