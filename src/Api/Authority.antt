-- ===== src/Api/Authority.antt =====
-- Who has signed a message that the handlers of internal/api/protocol_actions.go carry out.
use pkd_server_go.Prelude.{
  ◌≡◌, ◌≢◌, refl, inl, inr, true, List, [], ◌∷◌, ok, arith, Result-cases, Bool-cases,
}
use pkd_server_go.Signing.{Primitives, Bytes, decode_public_key, verify_message_signature, bytes_eq}
use pkd_server_go.Protocol.Messages.{ProtocolMessage}
use pkd_server_go.Store.Rows.{PublicKey}
use pkd_server_go.Api.Signatures.{key_verifies, signed_by_one, other_key_verifies, signed_by_other}

-- A row of a list has a property.
pub data Holds {A : Type 0} (P : A → Type 0) : List A → Type 0 where
  here : {x : A} {xs : List A} → P x → Holds P (x ∷ xs)
  there : {x : A} {xs : List A} → Holds P xs → Holds P (x ∷ xs)

-- The stored key verifies the message.
abbrev pub Signs : Primitives → ProtocolMessage → PublicKey → Type 0
Signs p msg k =
    (key : Bytes) × (decode_public_key k.public_key ≡ ok key)
    × (verify_message_signature p msg key ≡ ok tt)

-- The stored key verifies the message, and is another one than the key `revoked`.
abbrev pub SignsOther : Primitives → ProtocolMessage → Bytes → PublicKey → Type 0
SignsOther p msg revoked k =
    (key : Bytes) × (decode_public_key k.public_key ≡ ok key)
    × (key ≢ revoked)
    × (verify_message_signature p msg key ≡ ok tt)

bytes_eq_refl : (xs : Bytes) → bytes_eq xs xs ≡ true
unfolding bytes_eq
bytes_eq_refl [] = refl
bytes_eq_refl (x ∷ xs) = ground (arith, bytes_eq_refl xs)

key_verifies-true :
    (p : Primitives) (msg : ProtocolMessage) (k : PublicKey)
    → key_verifies p msg k ≡ true
    → Signs p msg k
unfolding key_verifies
key_verifies-true p msg k h = elim (Result-cases (decode_public_key k.public_key)) [
  | inr e ↦ ground arith
  | inl (key, e) ↦ elim (Result-cases (verify_message_signature p msg key)) [
    | inr f ↦ ground arith
    | inl (u, f) ↦ (key, e, f)
  ]
]

other_key_verifies-true :
    (p : Primitives) (msg : ProtocolMessage) (revoked : Bytes) (k : PublicKey)
    → other_key_verifies p msg revoked k ≡ true
    → SignsOther p msg revoked k
unfolding other_key_verifies
other_key_verifies-true p msg revoked k h =
    let (key, decoded, verified) = key_verifies-true p msg k (ground arith) in
    (key, decoded, (λ same. ground (arith, bytes_eq_refl revoked)), verified)

pub signed_by_one-true :
    (p : Primitives) (msg : ProtocolMessage) (ks : List PublicKey)
    → signed_by_one p msg ks ≡ true
    → Holds (Signs p msg) ks
unfolding signed_by_one
signed_by_one-true p msg [] h = cc
signed_by_one-true p msg (k ∷ ks) h = elim (Bool-cases (key_verifies p msg k)) [
  | inl hit ↦ here (key_verifies-true p msg k hit)
  | inr miss ↦ there (signed_by_one-true p msg ks (ground arith))
]

pub signed_by_other-true :
    (p : Primitives) (msg : ProtocolMessage) (revoked : Bytes) (ks : List PublicKey)
    → signed_by_other p msg revoked ks ≡ true
    → Holds (SignsOther p msg revoked) ks
unfolding signed_by_other
signed_by_other-true p msg revoked [] h = cc
signed_by_other-true p msg revoked (k ∷ ks) h =
    elim (Bool-cases (other_key_verifies p msg revoked k)) [
      | inl hit ↦ here (other_key_verifies-true p msg revoked k hit)
      | inr miss ↦ there (signed_by_other-true p msg revoked ks (ground arith))
    ]
