-- ===== src/Store/Postgres/Agreement.antt =====
-- The queries of internal/db/postgres.go against those of internal/db/sqlite.go, on the same tables.
use mathlib.Core.List.{Permᴰ}
use pkd_server_go.Prelude.{
  ℕ, String, ◌≡◌, refl, ap, ◌∙◌, subst, ◌⊎◌, Bool, ◌&&◌, List, Result, ok, err, arith, eqb, eqb_iff,
  ◌==◌, eq_iff, select, any, find, inl, inr, Bool-cases, any-ext, select-ext, All-every,
}
use pkd_server_go.Store.Driver.{
  Driver, DbError, Statement, attempt, select_latest_root, select_key, select_aux, select_keys,
  select_aux_list, select_symmetric_keys, select_actor, select_fireproof,
}
use pkd_server_go.Store.Rows.{Actor, PublicKey, Db}
use pkd_server_go.Store.Reads.{
  has_actor_id, owned_by, is_active, is_active_aux, find_actor_by_actor_id, is_fireproof,
  fireproof_of, list_keys_for_actor, active_keys, find_key_by_key_id, list_aux_data_for_actor,
  active_aux, find_aux_data_by_aux_id, find_symmetric_keys_by_message_hash, latest, root_of,
  get_latest_merkle_root,
}
use pkd_server_go.Store.Consistency.{IsConsistent, same_id, same_name, same_key_id, same_aux_id}
use pkd_server_go.Store.Postgres.{Postgres, first_of, join, lefts}
use pkd_server_go.Store.Postgres.Queries.{
  key_of, aux_of, pg_find_actor_by_actor_id, pg_is_fireproof, pg_list_keys_for_actor,
  pg_find_key_by_key_id, pg_list_aux_data_for_actor, pg_find_aux_data_by_aux_id,
  pg_find_symmetric_keys_by_message_hash, pg_get_latest_merkle_root,
}
use pkd_server_go.Store.Postgres.Answers.{Permᴰ-refl, first_of-arrange, lefts-join}
use pkd_server_go.Store.Postgres.Newest.{IsNewest, newest}

-- The same error, or the same rows in two orders.
abbrev pub SameRows : {A : Type 0} → Result DbError (List A) → Result DbError (List A) → Type 0
SameRows {A} a b =
    ((e : DbError) × (a ≡ err e) × (b ≡ err e))
    ⊎ ((xs : List A) × (ys : List A) × (a ≡ ok xs) × (b ≡ ok ys) × Permᴰ xs ys)

pub owned_by-any :
    (name : String) (owner : ℕ) (actors : List Actor)
    → any (λ a. eqb owner a.id && has_actor_id name a) actors ≡ owned_by name actors owner
unfolding owned_by
owned_by-any name owner actors =
    any-ext (λ a. eqb owner a.id && has_actor_id name a) (λ a. eqb a.id owner && a.actor_id == name)
      actors (λ a. ground (arith, eqb_iff owner a.id, eqb_iff a.id owner))

-- The join of a key with the actors, for the tests of one name and of the key.
pub joined_keys :
    (name : String) (test : PublicKey → Bool) (db : Db)
    → IsConsistent db
    → lefts (
        select
          (λ r. has_actor_id name r.1 && test r.0)
          (join key_of db.public_keys.rows db.actors.rows))
      ≡ select (λ k. owned_by name db.actors.rows k.actor_id && test k) db.public_keys.rows
joined_keys name test db c =
    lefts-join key_of same_id (has_actor_id name) test db.actors.rows
      (λ k a b h i.
        ground (arith, eqb_iff k.actor_id a.id, eqb_iff k.actor_id b.id, eqb_iff a.id b.id))
      c.actors_distinct db.public_keys.rows
    ∙ select-ext (λ k. any (λ a. key_of k a && has_actor_id name a) db.actors.rows && test k)
        (λ k. owned_by name db.actors.rows k.actor_id && test k) db.public_keys.rows
        (All-every _ db.public_keys.rows
          (λ k. ap (λ o. o && test k) (owned_by-any name k.actor_id db.actors.rows)))

joined_aux :
    (name : String) (db : Db)
    → IsConsistent db
    → lefts (
        select
          (λ r. has_actor_id name r.1 && is_active_aux r.0)
          (join aux_of db.auxiliary_data.rows db.actors.rows))
      ≡ active_aux name db
unfolding active_aux
joined_aux name db c =
    lefts-join aux_of same_id (has_actor_id name) is_active_aux db.actors.rows
      (λ k a b h i.
        ground (arith, eqb_iff k.actor_id a.id, eqb_iff k.actor_id b.id, eqb_iff a.id b.id))
      c.actors_distinct db.auxiliary_data.rows
    ∙ select-ext
        (λ k. any (λ a. aux_of k a && has_actor_id name a) db.actors.rows && is_active_aux k)
        (λ k. owned_by name db.actors.rows k.actor_id && is_active_aux k) db.auxiliary_data.rows
        (All-every _ db.auxiliary_data.rows
          (λ k. ap (λ o. o && is_active_aux k) (owned_by-any name k.actor_id db.actors.rows)))

module _ (g : Postgres) (d : Driver) (db : Db) (c : IsConsistent db) where
  pub same_actor :
      (s : Statement) (name : String)
      → first_of (g.arrange s (select (has_actor_id name) db.actors.rows))
        ≡ find (has_actor_id name) db.actors.rows
  same_actor s name =
      first_of-arrange g s same_name (has_actor_id name) db.actors.rows
        (λ a b h i.
          ground
            (arith, eq_iff a.actor_id name, eq_iff b.actor_id name, eq_iff a.actor_id b.actor_id))
        c.names_distinct

  same_rows :
      {A : Type 0} (s : Statement) (xs ys : List A)
      → xs ≡ ys
      → SameRows (attempt d s (g.arrange s xs)) (attempt d s ys)
  same_rows s xs ys e = elim (Bool-cases (d.down s)) [
    | inl failed ↦ inl (DbError.statement s, ground arith, ground arith)
    | inr answered ↦ inr (
      g.arrange s xs,
      ys,
      ground arith,
      ground arith,
      subst (Permᴰ (g.arrange s xs)) e (g.arranged s xs),
    )
  ]

  latest_roots :
      ((e : DbError) × (pg_get_latest_merkle_root g d db ≡ err e)
        × (get_latest_merkle_root d db ≡ err e))
      ⊎ ((r : String) × (q : String) × (pg_get_latest_merkle_root g d db ≡ ok r)
          × (get_latest_merkle_root d db ≡ ok q)
          × IsNewest db.public_keys.rows r
          × IsNewest db.public_keys.rows q)
  unfolding pg_get_latest_merkle_root get_latest_merkle_root
  latest_roots =
      let s = select_latest_root in
      let rows = db.public_keys.rows in
      elim (Bool-cases (d.down s)) [
        | inl failed ↦ inl (DbError.statement s, ground arith, ground arith)
        | inr answered ↦ inr (
          root_of (latest (g.arrange s rows)),
          root_of (latest rows),
          ground arith,
          ground arith,
          newest (g.arrange s rows) rows (g.arranged s rows),
          newest rows rows (Permᴰ-refl rows),
        )
      ]

  -- On tables that keep the schema's constraints, the repositories for PostgreSQL and for SQLite
  -- answer alike: the same actor, fireproof flag, key and auxiliary data under a name or an id, and the
  -- same keys and data of an actor, and symmetric keys of a hash, but in an order of PostgreSQL's
  -- choice; or both have the driver's error. The latest roots of both are those of keys than which
  -- none is newer, and empty where there is no key.
  pub reads_agree :
      (name : String)
      → (pg_find_actor_by_actor_id g d name db ≡ find_actor_by_actor_id d name db)
        × (pg_is_fireproof g d name db ≡ is_fireproof d name db)
        × (pg_find_key_by_key_id g d name db ≡ find_key_by_key_id d name db)
        × (pg_find_aux_data_by_aux_id g d name db ≡ find_aux_data_by_aux_id d name db)
        × SameRows (pg_list_keys_for_actor g d name db) (list_keys_for_actor d name db)
        × SameRows (pg_list_aux_data_for_actor g d name db) (list_aux_data_for_actor d name db)
        × SameRows
            (pg_find_symmetric_keys_by_message_hash g d name db)
            (find_symmetric_keys_by_message_hash d name db)
        × (((e : DbError) × (pg_get_latest_merkle_root g d db ≡ err e)
              × (get_latest_merkle_root d db ≡ err e))
            ⊎ ((r : String) × (q : String) × (pg_get_latest_merkle_root g d db ≡ ok r)
                × (get_latest_merkle_root d db ≡ ok q)
                × IsNewest db.public_keys.rows r
                × IsNewest db.public_keys.rows q))
  unfolding pg_find_actor_by_actor_id find_actor_by_actor_id pg_is_fireproof is_fireproof
      pg_find_key_by_key_id find_key_by_key_id pg_find_aux_data_by_aux_id find_aux_data_by_aux_id
      pg_list_keys_for_actor list_keys_for_actor pg_list_aux_data_for_actor list_aux_data_for_actor
      pg_find_symmetric_keys_by_message_hash find_symmetric_keys_by_message_hash
      pg_get_latest_merkle_root get_latest_merkle_root active_keys
  reads_agree name = (
    ap (attempt d select_actor) (same_actor select_actor name),
    ap (λ a. attempt d select_fireproof (fireproof_of a)) (same_actor select_fireproof name),
    ap (attempt d select_key) (
        first_of-arrange g select_key same_key_id (λ k. k.key_id == name) db.public_keys.rows
          (λ a b h i.
            ground (arith, eq_iff a.key_id name, eq_iff b.key_id name, eq_iff a.key_id b.key_id))
          c.key_ids_distinct),
    ap (attempt d select_aux) (
        first_of-arrange g select_aux same_aux_id (λ k. k.aux_id == name) db.auxiliary_data.rows
          (λ a b h i.
            ground (arith, eq_iff a.aux_id name, eq_iff b.aux_id name, eq_iff a.aux_id b.aux_id))
          c.aux_ids_distinct),
    same_rows select_keys _ (active_keys name db) (joined_keys name is_active db c),
    same_rows select_aux_list _ (active_aux name db) (joined_aux name db c),
    same_rows select_symmetric_keys _ _ refl,
    latest_roots,
  )
