-- ===== src/Attributes/Framing.antt =====
-- The length prefixes of attribute_encryption.go: what is authenticated, committed to, or derived
-- from determines its parts.
use pkd_server_go.Prelude.{
  ℕ, zero, suc, ◌/◌, ◌%◌, ◌^◌, ◌<◌, ◌≡◌, refl, sym, ◌∙◌, [], ◌++◌, arith, length, append_injective,
  append_assoc, append-nil,
}
use pkd_server_go.Signing.{Bytes}
use pkd_server_go.Attributes.{little_endian, len_encode, tag_input, commitment_input}

-- A length that PutUint64 writes whole; a slice of Go is never longer.
abbrev pub FitsPrefix : Bytes → Type 0
FitsPrefix bytes = length bytes < 2 ^ 64

length-little_endian : (n v : ℕ) → length (little_endian n v) ≡ n
unfolding little_endian
length-little_endian zero v = refl
length-little_endian (suc n) v = omega (arith, length-little_endian n (v / 256))

little_endian_injective :
    (v w : ℕ) → v < 2 ^ 64 → w < 2 ^ 64 → little_endian 8 v ≡ little_endian 8 w → v ≡ w
unfolding little_endian
little_endian_injective v w l m h = ground arith

-- The prefix says where the text ends.
len_encode_injective :
    (a b u v : Bytes)
    → FitsPrefix a
    → FitsPrefix b
    → len_encode a ++ u ≡ len_encode b ++ v
    → (a ≡ b) × (u ≡ v)
unfolding len_encode
len_encode_injective a b u v l m h =
    let pa = little_endian 8 (length a % 2 ^ 64) in
    let pb = little_endian 8 (length b % 2 ^ 64) in
    let la = length-little_endian 8 (length a % 2 ^ 64) in
    let lb = length-little_endian 8 (length b % 2 ^ 64) in
    let e : pa ++ (a ++ u) ≡ pb ++ (b ++ v) = sym (append_assoc pa a u) ∙ h ∙ append_assoc pb b v in
    let (p, rest) = append_injective pa pb (la ∙ sym lb) e in
    let same =
      little_endian_injective (length a % 2 ^ 64) (length b % 2 ^ 64) (omega arith) (omega arith)
        p in
    append_injective a b (omega arith) rest

len_encode_cancel :
    (a b : Bytes) → FitsPrefix a → FitsPrefix b → len_encode a ≡ len_encode b → a ≡ b
len_encode_cancel a b l m h =
    (len_encode_injective a b [] [] l m
      (append-nil (len_encode a) ∙ h ∙ sym (append-nil (len_encode b)))).0

-- The input of the authentication tag determines the version, the random bytes, the attribute's name,
-- the ciphertext and the commitment: for a name, a ciphertext and a commitment whose lengths fit 64
-- bits, and versions and random bytes of the same lengths, two equal inputs have equal parts.
pub tag_input_injective :
    (h h' r r' name name' c c' q q' : Bytes)
    → length h ≡ length h'
    → length r ≡ length r'
    → FitsPrefix name × FitsPrefix name'
    → FitsPrefix c × FitsPrefix c'
    → FitsPrefix q × FitsPrefix q'
    → tag_input h r name c q ≡ tag_input h' r' name' c' q'
    → (h ≡ h') × (r ≡ r') × (name ≡ name') × (c ≡ c') × (q ≡ q')
unfolding tag_input
tag_input_injective h h' r r' name name' c c' q q' lh lr (n, n') (m, m') (k, k') e =
    let (eh, e1) = append_injective h h' lh e in
    let (er, e2) = append_injective r r' lr e1 in
    let (en, e3) = len_encode_injective name name' _ _ n n' e2 in
    let (ec, e4) = len_encode_injective c c' _ _ m m' e3 in
    (eh, er, en, ec, len_encode_cancel q q' k k' e4)

-- The input of the plaintext commitment determines the Merkle root, the attribute's name and the
-- plaintext, all of lengths that fit 64 bits.
commitment_input_injective :
    (name name' plaintext plaintext' root root' : Bytes)
    → FitsPrefix name × FitsPrefix name'
    → FitsPrefix plaintext × FitsPrefix plaintext'
    → FitsPrefix root × FitsPrefix root'
    → commitment_input name plaintext root ≡ commitment_input name' plaintext' root'
    → (name ≡ name') × (plaintext ≡ plaintext') × (root ≡ root')
unfolding commitment_input
commitment_input_injective name name' plaintext plaintext' root root' (n, n') (m, m') (k, k') e =
    let (er, e1) = len_encode_injective root root' _ _ k k' e in
    let (en, e2) = len_encode_injective name name' _ _ n n' e1 in
    (en, len_encode_cancel plaintext plaintext' m m' e2, er)
