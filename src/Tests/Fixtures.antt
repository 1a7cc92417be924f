-- ===== src/Tests/Fixtures.antt =====
-- Inputs for the runs of internal/domain and internal/api.
use pkd_server_go.Prelude.{ℕ, String, true, false, [], ◌∷◌, none, some, ◌==◌, refl, any, arith}
use pkd_server_go.Json.{Fields, field, end, str, obj}
use pkd_server_go.Signing.{Primitives, bytes_eq}
use pkd_server_go.Protocol.Messages.{
  ProtocolMessage, AddKeyMessage, RevokeKeyMessage, MoveIdentityMessage, AddAuxDataMessage,
  RevokeAuxDataMessage,
}
use pkd_server_go.Store.Driver.{Driver}
use pkd_server_go.Store.Rows.{Actor, PublicKey, AuxiliaryData, SymmetricKey, Db, empty_db}
use pkd_server_go.Store.Consistency.{IsConsistent}
use pkd_server_go.Api.Dispatch.{pkd_context_v1}
use pkd_server_go.Api.Handler.{Server, World, Network}

abbrev pub driver : Driver
driver = record { down = λ _. false; now = 7 }

abbrev pub broken_commit : Driver
broken_commit = record {
  down = λ s. elim s [ pkd_server_go.Store.Driver.commit_tx ↦ true | _ ↦ false ];
  now = 7;
}

-- The texts of the keys of 32 bytes 1, and of 32 bytes 2.
abbrev pub text_one : String
text_one = "ed25519:AQEBAQEBAQEBAQEBAQEBAQEBAQEBAQEBAQEBAQEBAQE"

abbrev pub text_two : String
text_two = "ed25519:AgICAgICAgICAgICAgICAgICAgICAgICAgICAgICAgI"

-- A verification that asks for the key itself as the signature.
abbrev pub primitives : Primitives
primitives = record {
  ed25519_verify = λ key msg sig. bytes_eq key sig;
  jcs_transform = λ j. some (0 ∷ []);
  sha256 = λ j. [];
  totp_validate = λ secret otp. some (otp == "123456");
  enc_size = 0;
  hpke_open = λ enc text. some text;
}

abbrev network : Network
network = record {
  parse_url = λ u. some (record { scheme = "https"; hostname = "example.org"; text = u });
  lookup_ip = λ host. some [];
  get_actor = λ url. some (record {
    status_code = 200;
    document = some (obj (field "publicKey" (obj (field "publicKeyPem" (str text_one) end)) end));
  });
}

abbrev pub server : Server
server = record {
  primitives = primitives;
  driver = driver;
  random = some (1 ∷ []);
  validators = [];
  post_sigsum = λ j. some (record { status_code = 200; body = some "root" });
  peers = [];
  has_kem_key = true;
  network = network;
  allow_private_ips = false;
}

abbrev alice : Actor
alice = record { id = 1; actor_id = "alice"; is_fireproof = false; created_at = 5; updated_at = 5 }

abbrev operator : Actor
operator = record { id = 2; actor_id = "op"; is_fireproof = false; created_at = 5; updated_at = 5 }

abbrev key : ℕ → ℕ → String → String → String → PublicKey
key id owner name text root = record {
  id = id;
  actor_id = owner;
  key_id = name;
  public_key = text;
  created_at = 5;
  merkle_root = root;
  revoked_at = none;
  revoke_root = none;
  inclusion_proof = [];
}

abbrev pub alice_one : PublicKey
alice_one = key 1 1 "k1" text_one "r1"

abbrev pub alice_two : PublicKey
alice_two = key 2 1 "k2" text_two "r2"

abbrev pub operator_one : PublicKey
operator_one = key 3 2 "k3" text_one "r3"

abbrev pub avatar : AuxiliaryData
avatar = record {
  id = 1;
  actor_id = 1;
  aux_id = "a1";
  aux_type = "avatar";
  aux_data = "x";
  created_at = 5;
  merkle_root = "r4";
  revoked_at = none;
  revoke_root = none;
}

abbrev symmetric : SymmetricKey
symmetric = record { id = 1; message_hash = "r1"; attribute = "name"; key = []; created_at = 5 }

-- Alice has two keys and some auxiliary data, and an operator has one key.
abbrev pub db : Db
db = record empty_db {
  actors = record { rows = alice ∷ operator ∷ []; seq = 2 };
  public_keys = record { rows = alice_one ∷ alice_two ∷ operator_one ∷ []; seq = 3 };
  auxiliary_data = record { rows = avatar ∷ []; seq = 1 };
  symmetric_keys = record { rows = symmetric ∷ []; seq = 1 };
}

abbrev pub world : World
world = record { db = db; logged = []; actor_keys = [] }

abbrev pub add_key_message : AddKeyMessage
add_key_message = record { actor = "alice"; time = "1"; public_key = text_one }

abbrev pub revoke_key_message : RevokeKeyMessage
revoke_key_message = record { actor = "alice"; time = "1"; public_key = text_two }

abbrev pub move_message : MoveIdentityMessage
move_message = record { old_actor = "alice"; new_actor = "bob"; time = "1" }

abbrev pub add_aux_message : AddAuxDataMessage
add_aux_message = record {
  actor = "alice";
  aux_type = "pronouns";
  aux_data = "y";
  aux_id = "";
  time = "1";
}

abbrev pub revoke_aux_message : RevokeAuxDataMessage
revoke_aux_message = record {
  actor = "alice";
  aux_type = "avatar";
  aux_data = "";
  aux_id = "a1";
  time = "1";
}

pub db-IsConsistent : IsConsistent db
unfolding any
db-IsConsistent = record {
  actors_fresh = ground arith;
  actors_distinct = ground arith;
  names_distinct = ground arith;
  keys_fresh = ground arith;
  keys_distinct = ground arith;
  key_ids_distinct = ground arith;
  keys_owned = (refl, (refl, (refl, tt)));
  keys_stamped = (refl, (refl, (refl, tt)));
  aux_ids_distinct = ground arith;
  aux_owned = (refl, tt);
  aux_stamped = (refl, tt);
  attributes_distinct = ground arith;
}

-- A message that is signed with key one.
abbrev pub message : String → Fields → ProtocolMessage
message action inner = record {
  pkd_context = pkd_context_v1;
  action = action;
  key_id = "";
  message = some (obj inner);
  recent_merkle_root = "";
  signature = "AQEBAQEBAQEBAQEBAQEBAQEBAQEBAQEBAQEBAQEBAQE";
  symmetric_keys = [];
  otp = "";
}
