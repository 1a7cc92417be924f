-- ===== src/Store/Postgres/Hashes.antt =====
-- The hashes whose symmetric keys BurnDown deletes, as either repository gathers them.
use pkd_server_go.Prelude.{
  String, ◌≡◌, refl, ap, Bool, ◌||◌, not, List, [], ◌∷◌, ◌++◌, arith, ◌==◌, eq_iff, select, any,
  inl, inr, Option-cases, select-ext, All-every, any-join,
}
use pkd_server_go.Store.Driver.{Driver, attempt, delete_symmetric_keys}
use pkd_server_go.Store.Rows.{PublicKey, Db}
use pkd_server_go.Store.Writes.{
  hashes_of, all_hashes, is_hash_in, tx_delete_symmetric_keys_by_hashes,
}
use pkd_server_go.Store.Postgres.Transactions.{
  merkle_roots, revoke_roots, distinct, pg_tx_delete_symmetric_keys_by_hashes,
}

any_without :
    (h x : String) (hs : List String)
    → any (λ g. h == g) (select (λ g. not (g == x)) hs) || h == x ≡ any (λ g. h == g) hs || h == x
unfolding any select
any_without h x [] = refl
any_without h x (y ∷ ys) = ground (arith, any_without h x ys, eq_iff y x, eq_iff h x, eq_iff h y)

-- UNION drops no hash.
pub any-distinct :
    (h : String) (hs : List String) → any (λ g. h == g) (distinct hs) ≡ any (λ g. h == g) hs
unfolding distinct any
any-distinct h [] = refl
any-distinct h (x ∷ xs) = ground (arith, any-distinct h xs, any_without h x (distinct xs))

pub any-hashes :
    (h : String) (keys : List PublicKey)
    → any (λ g. h == g) (merkle_roots keys ++ revoke_roots keys)
      ≡ any (λ g. h == g) (all_hashes keys)
unfolding merkle_roots revoke_roots all_hashes any
any-hashes h [] = refl
any-hashes h (k ∷ ks) =
    let is : String → Bool = λ g. h == g in
    let rest = any-hashes h ks in
    let apart = any-join is (merkle_roots ks) (revoke_roots ks) in
    elim (Option-cases k.revoke_root) [
      | inl n ↦
          let left = any-join is (merkle_roots ks) (revoke_roots (k ∷ ks)) in
          let right = any-join is (hashes_of k) (all_hashes ks) in ground arith
      | inr (r, e) ↦
          let left = any-join is (merkle_roots ks) (r ∷ revoke_roots ks) in
          let right = any-join is (k.merkle_root ∷ r ∷ []) (all_hashes ks) in ground arith
    ]

pub delete_agrees :
    (d : Driver) (db : Db) (hs hs' : List String)
    → ((h : String) → any (λ g. h == g) hs ≡ any (λ g. h == g) hs')
    → pg_tx_delete_symmetric_keys_by_hashes d hs db ≡ tx_delete_symmetric_keys_by_hashes d hs' db
unfolding pg_tx_delete_symmetric_keys_by_hashes tx_delete_symmetric_keys_by_hashes any is_hash_in
delete_agrees d db [] [] m = refl
delete_agrees d db [] (x ∷ xs) m = let there = m x in let same = eq_iff x x in ground arith
delete_agrees d db (x ∷ xs) [] m = let there = m x in let same = eq_iff x x in ground arith
delete_agrees d db (x ∷ xs) (y ∷ ys) m =
    ap
      (λ rows.
        attempt d delete_symmetric_keys
          (record db { symmetric_keys = record db.symmetric_keys { rows = rows } }))
      (select-ext _ _ db.symmetric_keys.rows
        (All-every _ db.symmetric_keys.rows (λ s. ap not (m s.message_hash))))
