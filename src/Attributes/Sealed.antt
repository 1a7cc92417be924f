-- ===== src/Attributes/Sealed.antt =====
-- The shape of a ciphertext of attribute_encryption.go, and what its decryption has checked.
use pkd_server_go.Prelude.{
  ◌+◌, ◌≤◌, ◌≡◌, refl, ◌↔◌, true, [], ◌∷◌, ◌++◌, arith, eqb_iff, length, drop, take-append,
  drop-append, append-take-drop, length-take, length-drop, length-append,
}
use pkd_server_go.Signing.{Bytes, bytes_eq}
use pkd_server_go.Attributes.{prefix_len, sealed, parts}

pub bytes_eq_iff : (xs ys : Bytes) → (bytes_eq xs ys ≡ true) ↔ (xs ≡ ys)
unfolding bytes_eq
bytes_eq_iff [] [] = (λ e. refl, λ e. refl)
bytes_eq_iff [] (y ∷ ys) = ground arith
bytes_eq_iff (x ∷ xs) [] = ground arith
bytes_eq_iff (x ∷ xs) (y ∷ ys) = ground (arith, eqb_iff x y, bytes_eq_iff xs ys)

-- The parts of a text that is sealed from parts of the right lengths.
pub parts-sealed :
    (h r q t c : Bytes)
    → length h ≡ 1
    → length r ≡ 32
    → length q ≡ 32
    → length t ≡ 32
    → parts (sealed h r q t c) ≡ record { h = h; r = r; q = q; t = t; c = c }
unfolding parts
parts-sealed h r q t c lh lr lq lt =
    let h1 = take-append 1 h (r ++ (q ++ (t ++ c))) lh in
    let h2 = drop-append 1 h (r ++ (q ++ (t ++ c))) lh in
    let r1 = take-append 32 r (q ++ (t ++ c)) lr in
    let r2 = drop-append 32 r (q ++ (t ++ c)) lr in
    let q1 = take-append 32 q (t ++ c) lq in
    let q2 = drop-append 32 q (t ++ c) lq in
    let t1 = take-append 32 t c lt in let t2 = drop-append 32 t c lt in cc

-- A long enough text is sealed from its parts.
pub sealed-parts : (bytes : Bytes) → let s = parts bytes in sealed s.h s.r s.q s.t s.c ≡ bytes
unfolding parts
sealed-parts bytes =
    let after_h = drop 1 bytes in
    let after_r = drop 32 after_h in
    let after_q = drop 32 after_r in
    let e1 = append-take-drop 1 bytes in
    let e2 = append-take-drop 32 after_h in
    let e3 = append-take-drop 32 after_r in let e4 = append-take-drop 32 after_q in cc

-- The parts of a long enough text have their lengths.
pub parts_lengths :
    (bytes : Bytes)
    → prefix_len ≤ length bytes
    → let s = parts bytes in
      (length s.h ≡ 1) × (length s.r ≡ 32) × (length s.q ≡ 32) × (length s.t ≡ 32)
unfolding parts
parts_lengths bytes l =
    let after_h = drop 1 bytes in
    let after_r = drop 32 after_h in
    let l1 = length-drop 1 bytes (omega arith) in
    let l2 = length-drop 32 after_h (omega arith) in
    let l3 = length-drop 32 after_r (omega arith) in
    (
      length-take 1 bytes (omega arith),
      length-take 32 after_h (omega arith),
      length-take 32 after_r (omega arith),
      length-take 32 (drop 32 after_r) (omega arith),
    )

pub length-sealed :
    (h r q t c : Bytes)
    → length (sealed h r q t c) ≡ length h + (length r + (length q + (length t + length c)))
length-sealed h r q t c = omega (
  arith,
  length-append h (r ++ (q ++ (t ++ c))),
  length-append r (q ++ (t ++ c)),
  length-append q (t ++ c),
  length-append t c,
)
