-- ===== src/Checkpoint/Padding.antt =====
-- The private key of keygen in the scheduler of internal/checkpoint/scheduler.go.
use Prim.Native.Char.{code}
use pkd_server_go.Prelude.{
  ℕ, ◌+◌, ◌*◌, ◌/◌, ◌%◌, ◌<◌, String, ◌≡◌, refl, ap, ◌∙◌, Bool, true, not, ◌||◌, List, [], ◌∷◌,
  none, err, arith, eqb, All, length, inl, inr, Result-cases, Bool-cases, ◌⊎◌, ◌==◌,
}
use pkd_server_go.Encoding.{char_of, encode_digit, encode_raw_url, codes_of, pack_std, decode_std}
use pkd_server_go.Encoding.RoundTrip.{all_below, below, IsByte}
use pkd_server_go.Signing.{Bytes, private_key_size}
use pkd_server_go.Store.Driver.{Driver, DbError}
use pkd_server_go.Store.Rows.{Db}
use pkd_server_go.Store.Reads.{get_latest_merkle_root}
use pkd_server_go.Checkpoint.{Sender, bad_private_key, signed_checkpoint}
use pkd_server_go.Checkpoint.Scheduler.{no_target, root_failed, not_signed, trigger_checkpoint}

abbrev no_line_end : ℕ → Bool
no_line_end d = not (eqb (code (encode_digit d)) 10 || eqb (code (encode_digit d)) 13)

digits_without_line_end : all_below 64 no_line_end ≡ true
unfolding all_below char_of
digits_without_line_end = refl

digit : (d : ℕ) → d < 64 → no_line_end d ≡ true
digit d l = below 64 no_line_end d digits_without_line_end l

-- One byte over a multiple of three makes two characters over a multiple of four.
codes-encode_raw_url :
    (bs : Bytes) → All IsByte bs → length bs % 3 ≡ 1 → length (codes_of (encode_raw_url bs)) % 4 ≡ 2
unfolding codes_of encode_raw_url
codes-encode_raw_url [] h e = ground arith
codes-encode_raw_url (a ∷ []) (l, h) e =
    let d1 = digit (a / 4) (omega arith) in
    let d2 = digit (a % 4 * 16) (omega arith) in ground arith
codes-encode_raw_url (a ∷ b ∷ []) h e = ground arith
codes-encode_raw_url (a ∷ b ∷ c ∷ rest) (l, (m, (n, h))) e =
    let d1 = digit (a / 4) (omega arith) in
    let d2 = digit (a % 4 * 16 + b / 16) (omega arith) in
    let d3 = digit (b % 16 * 4 + c / 64) (omega arith) in
    let d4 = digit (c % 64) (omega arith) in
    let ih = codes-encode_raw_url rest h (omega arith) in ground arith

-- The decoder of StdEncoding refuses a text that lacks its padding.
pack_std-unpadded : (cs : List ℕ) → length cs % 4 ≡ 2 → pack_std cs ≡ none
unfolding pack_std
pack_std-unpadded [] e = ground arith
pack_std-unpadded (a ∷ []) e = refl
pack_std-unpadded (a ∷ b ∷ []) e = refl
pack_std-unpadded (a ∷ b ∷ c ∷ []) e = refl
pack_std-unpadded (a ∷ b ∷ c ∷ d ∷ []) e = ground arith
pack_std-unpadded (a ∷ b ∷ c ∷ d ∷ x ∷ rest) e =
    let ih = pack_std-unpadded (x ∷ rest) (omega arith) in ground arith

decode_std-unpadded :
    (bs : Bytes) → All IsByte bs → length bs ≡ 64 → decode_std (encode_raw_url bs) ≡ none
unfolding decode_std
decode_std-unpadded bs h e = pack_std-unpadded _ (codes-encode_raw_url bs h (ap (λ n. n % 3) e))

-- With a private key of 64 bytes as it is written everywhere else, in RawURLEncoding, no scheduled
-- checkpoint is sent or even signed, whatever the peer and the database are: there is no target, the
-- latest root cannot be read, or the key does not decode.
pub trigger_checkpoint-unpadded :
    (s : Sender) (d : Driver) (target : String) (db : Db) (key : Bytes)
    → s.private_key ≡ encode_raw_url key
    → length key ≡ private_key_size
    → All IsByte key
    → (trigger_checkpoint s d target db ≡ err no_target)
      ⊎ ((e : DbError) × (trigger_checkpoint s d target db ≡ err (root_failed e)))
      ⊎ (trigger_checkpoint s d target db ≡ err (not_signed bad_private_key))
unfolding trigger_checkpoint signed_checkpoint
trigger_checkpoint-unpadded s d target db key e l h =
    let refused : decode_std s.private_key ≡ none = ap decode_std e ∙ decode_std-unpadded key h l in
    elim (Bool-cases (target == "")) [
      | inl t ↦ inl (ground arith)
      | inr t ↦ elim (Result-cases (get_latest_merkle_root d db)) [
        | inr (f, fe) ↦ inr (inl (f, ground arith))
        | inl (root, re) ↦ inr (inr (ground arith))
      ]
    ]
