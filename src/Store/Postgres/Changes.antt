-- ===== src/Store/Postgres/Changes.antt =====
-- The statements of a transaction of internal/db/postgres.go against those of internal/db/sqlite.go,
-- on the same tables.
use pkd_server_go.Prelude.{
  ℕ, ◌+◌, String, ◌≡◌, refl, ap, ◌∙◌, ◌⊎◌, Bool, true, ◌&&◌, List, [], ◌∷◌, ◌++◌, none, some, ok,
  err, ◌>>=◌, arith, eqb, eqb_iff, ◌==◌, select, update, count, any, find, inl, inr, Option-cases,
  Bool-cases, any-ext, find-any, find-eq-none, if◌then◌else◌,
}
use pkd_server_go.Store.Driver.{
  Driver, DbError, attempt, select_actor, insert_actor, select_key_to_revoke, select_message_hashes,
  insert_symmetric_keys, insert_public_key, insert_aux_data, revoke_aux_data,
}
use pkd_server_go.Store.Rows.{Actor, PublicKey, AuxiliaryData, SymmetricKey, Table, Db}
use pkd_server_go.Store.Reads.{has_actor_id, is_active, is_active_aux}
use pkd_server_go.Store.Writes.{
  get_or_create_actor, create_actor, tx_insert_public_key, is_revocable, tx_find_key_to_revoke,
  all_hashes, tx_get_message_hashes_for_actor, tx_insert_aux_data, is_revocable_aux,
  tx_revoke_aux_data, tx_store_symmetric_keys, tx_delete_symmetric_keys_by_hashes,
}
use pkd_server_go.Store.Consistency.{IsConsistent, same_row}
use pkd_server_go.Store.Postgres.{Postgres, first_of}
use pkd_server_go.Store.Postgres.Transactions.{
  pg_create_actor, pg_get_or_create_actor, pg_tx_insert_public_key, pg_tx_find_key_to_revoke,
  merkle_roots, revoke_roots, distinct, pg_tx_get_message_hashes_for_actor, pg_tx_insert_aux_data,
  joins_aux, pg_tx_revoke_aux_data, pg_tx_store_symmetric_keys,
  pg_tx_delete_symmetric_keys_by_hashes,
}
use pkd_server_go.Store.Postgres.Answers.{any-Permᴰ, first_of-found}
use pkd_server_go.Store.Postgres.Agreement.{joined_keys, owned_by-any, same_actor}
use pkd_server_go.Store.Postgres.Hashes.{any-distinct, any-hashes, delete_agrees}
use pkd_server_go.Store.Postgres.Insertions.{without_ids, inserted_alike}

-- A table whose sequence has lost numbers.
abbrev pub skipping {ℓ} : {A : Type ℓ} → ℕ → Table A → Table A
skipping n t = record t { seq = t.seq + n }

-- A test that does not look at the actor.
any_beside :
    (p : Actor → Bool) (t : Bool) (actors : List Actor)
    → any (λ a. p a && t) actors ≡ (any p actors && t)
unfolding any
any_beside p t [] = refl
any_beside p t (a ∷ actors) = ground (arith, any_beside p t actors)

joins_is :
    (name aux_id : String) (actors : List Actor) (x : AuxiliaryData)
    → joins_aux name aux_id actors x ≡ is_revocable_aux name aux_id actors x
joins_is name aux_id actors x =
    any-ext _
      (λ a. (eqb x.actor_id a.id && has_actor_id name a) && (x.aux_id == aux_id && is_active_aux x))
      actors (λ a. ground arith)
    ∙ any_beside (λ a. eqb x.actor_id a.id && has_actor_id name a)
        (x.aux_id == aux_id && is_active_aux x) actors
    ∙ ap (λ o. o && (x.aux_id == aux_id && is_active_aux x)) (owned_by-any name x.actor_id actors)

module _ (g : Postgres) (d : Driver) (db : Db) (c : IsConsistent db) where
  create_agrees :
      (name : String)
      → pg_create_actor g d name db
        ≡ create_actor d name (record db { actors = skipping (g.lost insert_actor) db.actors })
  unfolding pg_create_actor create_actor
  create_agrees name = refl

  insert_key_agrees :
      (owner : ℕ) (key_id public_key root : String)
      → pg_tx_insert_public_key g d owner key_id public_key root db
        ≡ tx_insert_public_key d owner key_id public_key root
            (record db { public_keys = skipping (g.lost insert_public_key) db.public_keys })
  unfolding pg_tx_insert_public_key tx_insert_public_key
  insert_key_agrees owner key_id public_key root = refl

  insert_aux_agrees :
      (owner : ℕ) (aux_id aux_type aux_data root : String)
      → pg_tx_insert_aux_data g d owner aux_id aux_type aux_data root db
        ≡ tx_insert_aux_data d owner aux_id aux_type aux_data root
            (record db { auxiliary_data = skipping (g.lost insert_aux_data) db.auxiliary_data })
  unfolding pg_tx_insert_aux_data tx_insert_aux_data
  insert_aux_agrees owner aux_id aux_type aux_data root = refl

  get_or_create_agrees :
      (name : String)
      → pg_get_or_create_actor g d name db
        ≡ get_or_create_actor d name (
            if any (has_actor_id name) db.actors.rows
            then db
            else record db { actors = skipping (g.lost insert_actor) db.actors })
  unfolding pg_get_or_create_actor get_or_create_actor
  get_or_create_agrees name =
      let same = same_actor g d db c select_actor name in
      let cr = create_agrees name in
      elim (Option-cases (find (has_actor_id name) db.actors.rows)) [
        | inl n ↦ let a = find-eq-none (has_actor_id name) db.actors.rows n in ground arith
        | inr (x, e) ↦ let a = find-any (has_actor_id name) db.actors.rows x e in ground arith
      ]

  revoke_aux_agrees :
      (name aux_id root : String)
      → pg_tx_revoke_aux_data d name aux_id root db ≡ tx_revoke_aux_data d name aux_id root db
  unfolding pg_tx_revoke_aux_data tx_revoke_aux_data
  revoke_aux_agrees name aux_id root =
      ap
        (λ test. attempt d revoke_aux_data (
          count test db.auxiliary_data.rows,
          record db {
            auxiliary_data = record db.auxiliary_data {
              rows =
                  update test (λ x. record x { revoked_at = some d.now; revoke_root = some root })
                    db.auxiliary_data.rows;
            };
          },
        ))
        (λ i x. joins_is name aux_id db.actors.rows x i)

  -- Which of the rows with the key text is found, PostgreSQL chooses.
  found_agrees :
      (name public_key : String)
      → let a = pg_tx_find_key_to_revoke g d name public_key db in
        let b = tx_find_key_to_revoke d name public_key db in
        ((e : DbError) × (a ≡ err e) × (b ≡ err e))
        ⊎ ((a ≡ ok none) × (b ≡ ok none))
        ⊎ ((k : PublicKey) × (l : PublicKey) × (a ≡ ok (some k))
            × (b ≡ ok (some l))
            × (is_revocable name public_key db.actors.rows k ≡ true)
            × (any (same_row k) db.public_keys.rows ≡ true))
  unfolding pg_tx_find_key_to_revoke tx_find_key_to_revoke
  found_agrees name public_key =
      let test = is_revocable name public_key db.actors.rows in
      let s = select_key_to_revoke in
      let joined = joined_keys name (λ k. k.public_key == public_key && is_active k) db c in
      let answer = ap (λ rows. attempt d s (first_of (g.arrange s rows))) joined in
      elim (Bool-cases (d.down s)) [
        | inl failed ↦ inl (DbError.statement s, ground arith, ground arith)
        | inr answered ↦ elim (first_of-found g s test db.public_keys.rows) [
          | inl (n, m) ↦ inr (inl (ground arith, ground arith))
          | inr (k, l, is, found, passes, among) ↦ inr (
              inr (
                k,
                l,
                answer ∙ ground arith,
                ground arith,
                passes,
                among (same_row k) ((eqb_iff k.id k.id).1 refl),
              ))
        ]
      ]

  hashes_agree :
      (owner : ℕ)
      → (pg_tx_get_message_hashes_for_actor g d owner db >>= λ hs.
          pg_tx_delete_symmetric_keys_by_hashes d hs db)
        ≡ (tx_get_message_hashes_for_actor d owner db >>= λ hs.
            tx_delete_symmetric_keys_by_hashes d hs db)
  unfolding pg_tx_get_message_hashes_for_actor tx_get_message_hashes_for_actor
  hashes_agree owner =
      let keys = select (λ k. eqb k.actor_id owner) db.public_keys.rows in
      let hs = distinct (merkle_roots keys ++ revoke_roots keys) in
      let same = delete_agrees d db (g.arrange select_message_hashes hs) (all_hashes keys) (λ h.
        any-Permᴰ (λ x. h == x) (g.arranged select_message_hashes hs)
        ∙ any-distinct h (merkle_roots keys ++ revoke_roots keys)
        ∙ any-hashes h keys) in
      elim (Bool-cases (d.down select_message_hashes)) [
        | inl failed ↦ ground arith
        | inr answered ↦ ground arith
      ]

  stored_alike :
      (hash : String) (keys : List (String × List ℕ))
      → let a = pg_tx_store_symmetric_keys g d hash keys db in
        let b = tx_store_symmetric_keys d hash keys db in
        ((e : DbError) × (a ≡ err e) × (b ≡ err e))
        ⊎ ((t : Table SymmetricKey) × (u : Table SymmetricKey) × (a
              ≡ ok (record db { symmetric_keys = t }))
            × (b ≡ ok (record db { symmetric_keys = u }))
            × (without_ids t.rows ≡ without_ids u.rows))
  unfolding pg_tx_store_symmetric_keys tx_store_symmetric_keys
  stored_alike hash keys = elim (Bool-cases (d.down insert_symmetric_keys)) [
    | inl failed ↦ inl (DbError.statement insert_symmetric_keys, ground arith, ground arith)
    | inr answered ↦ elim (inserted_alike g d hash keys db.symmetric_keys db.symmetric_keys refl) [
      | inl (x, y) ↦ inl (DbError.statement insert_symmetric_keys, ground arith, ground arith)
      | inr (t, u, x, y, z) ↦ inr (t, u, ground arith, ground arith, z)
    ]
  ]

  -- On tables that keep the schema's constraints, seven statements of a transaction do in PostgreSQL
  -- what they do in SQLite, the driver's errors included. An insertion of an actor, a key or data is that of
  -- SQLite on a sequence that has skipped numbers; the batch of symmetric keys stores the same rows but
  -- for their ids. RevokeAuxData changes the same rows, and the hashes that one repository gathers
  -- delete the same symmetric keys as those of the other. A key to revoke is found by both or by none,
  -- and PostgreSQL's is an active one of the actor with the key text.
  pub writes_agree :
      ((name : String)
        → pg_get_or_create_actor g d name db
          ≡ get_or_create_actor d name (
              if any (has_actor_id name) db.actors.rows
              then db
              else record db { actors = skipping (g.lost insert_actor) db.actors }))
      × ((owner : ℕ) (key_id public_key root : String)
          → pg_tx_insert_public_key g d owner key_id public_key root db
            ≡ tx_insert_public_key d owner key_id public_key root
                (record db { public_keys = skipping (g.lost insert_public_key) db.public_keys }))
      × ((owner : ℕ) (aux_id aux_type aux_data root : String)
          → pg_tx_insert_aux_data g d owner aux_id aux_type aux_data root db
            ≡ tx_insert_aux_data d owner aux_id aux_type aux_data root (record db {
              auxiliary_data = skipping (g.lost insert_aux_data) db.auxiliary_data;
            }))
      × ((hash : String) (keys : List (String × List ℕ))
          → ((e : DbError) × (pg_tx_store_symmetric_keys g d hash keys db ≡ err e)
              × (tx_store_symmetric_keys d hash keys db ≡ err e))
            ⊎ ((t : Table SymmetricKey) × (u : Table SymmetricKey) × (pg_tx_store_symmetric_keys g d
                    hash keys db
                  ≡ ok (record db { symmetric_keys = t }))
                × (tx_store_symmetric_keys d hash keys db ≡ ok (record db { symmetric_keys = u }))
                × (without_ids t.rows ≡ without_ids u.rows)))
      × ((name aux_id root : String)
          → pg_tx_revoke_aux_data d name aux_id root db ≡ tx_revoke_aux_data d name aux_id root db)
      × ((owner : ℕ)
          → (pg_tx_get_message_hashes_for_actor g d owner db >>= λ hs.
              pg_tx_delete_symmetric_keys_by_hashes d hs db)
            ≡ (tx_get_message_hashes_for_actor d owner db >>= λ hs.
                tx_delete_symmetric_keys_by_hashes d hs db))
      × ((name public_key : String)
          → ((e : DbError) × (pg_tx_find_key_to_revoke g d name public_key db ≡ err e)
              × (tx_find_key_to_revoke d name public_key db ≡ err e))
            ⊎ ((pg_tx_find_key_to_revoke g d name public_key db ≡ ok none)
                × (tx_find_key_to_revoke d name public_key db ≡ ok none))
            ⊎ ((k : PublicKey) × (l : PublicKey) × (pg_tx_find_key_to_revoke g d name public_key db
                  ≡ ok (some k))
                × (tx_find_key_to_revoke d name public_key db ≡ ok (some l))
                × (is_revocable name public_key db.actors.rows k ≡ true)
                × (any (same_row k) db.public_keys.rows ≡ true)))
  writes_agree = (
    get_or_create_agrees, insert_key_agrees, insert_aux_agrees, stored_alike, revoke_aux_agrees,
    hashes_agree, found_agrees,
  )
