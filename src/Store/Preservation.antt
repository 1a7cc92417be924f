-- ===== src/Store/Preservation.antt =====
-- The statements of a transaction keep the tables consistent.
use pkd_server_go.Prelude.{
  ℕ, suc, ◌≤◌, String, ◌≡◌, refl, subst, sym, inl, inr, Bool, true, false, List, [], ◌∷◌, Option,
  none, some, arith, ◌==◌, ok, any, update, All, Unique, All-append, All-update, All-mono,
  Unique-append, Unique-update, any-append, Bool-cases,
}
use pkd_server_go.Store.Driver.{Driver}
use pkd_server_go.Store.Rows.{Actor, PublicKey, AuxiliaryData, SymmetricKey, Table, Db}
use pkd_server_go.Store.Reads.{has_actor_id}
use pkd_server_go.Store.Writes.{
  append_row, new_actor, get_or_create_actor, revoked, insert_symmetric_rows, is_symmetric_key,
}
use pkd_server_go.Store.Consistency.{
  IsConsistent, same_id, same_name, same_row, same_key_id, same_aux_id, same_attribute, has_id,
}
use pkd_server_go.Store.Outcomes.{get_or_create_actor-ok, new_key, new_aux, revoked_aux}

fresh_id :
    (n : ℕ) (b : Actor) (xs : List Actor)
    → All (λ a. a.id ≤ n) xs
    → b.id ≡ suc n
    → any (λ x. same_id x b) xs ≡ false
unfolding any
fresh_id n b [] h e = refl
fresh_id n b (x ∷ xs) h e = ground (arith, fresh_id n b xs h.1)

fresh_row :
    (n : ℕ) (b : PublicKey) (xs : List PublicKey)
    → All (λ k. k.id ≤ n) xs
    → b.id ≡ suc n
    → any (λ x. same_row x b) xs ≡ false
unfolding any
fresh_row n b [] h e = refl
fresh_row n b (x ∷ xs) h e = ground (arith, fresh_row n b xs h.1)

module _ (d : Driver) (name : String) (db : Db) (c : IsConsistent db) where
  with_actor-IsConsistent :
      any (has_actor_id name) db.actors.rows ≡ false
      → IsConsistent (record db { actors = append_row (new_actor d name) db.actors })
  with_actor-IsConsistent absent = record {
    actors_fresh =
        All-append _ db.actors.rows (All-mono _ _ (λ a h. omega arith) c.actors_fresh)
          (omega arith);
    actors_distinct =
        Unique-append same_id db.actors.rows (new_actor d name (suc db.actors.seq))
          c.actors_distinct
          (fresh_id db.actors.seq (new_actor d name (suc db.actors.seq)) db.actors.rows
            c.actors_fresh refl);
    names_distinct =
        Unique-append same_name db.actors.rows (new_actor d name (suc db.actors.seq))
          c.names_distinct absent;
    keys_fresh = c.keys_fresh;
    keys_distinct = c.keys_distinct;
    key_ids_distinct = c.key_ids_distinct;
    keys_owned = All-mono _ _ (λ k h. rw any-append (rw h refl)) c.keys_owned;
    keys_stamped = c.keys_stamped;
    aux_ids_distinct = c.aux_ids_distinct;
    aux_owned = All-mono _ _ (λ k h. rw any-append (rw h refl)) c.aux_owned;
    aux_stamped = c.aux_stamped;
    attributes_distinct = c.attributes_distinct;
  }

  -- The actor of a message is in the table afterwards.
  pub get_or_create_actor-IsConsistent :
      (actor : Actor) (db' : Db)
      → get_or_create_actor d name db ≡ ok (actor, db')
      → IsConsistent db'
  get_or_create_actor-IsConsistent actor db' e =
      elim (get_or_create_actor-ok d name db actor db' e) [
        | inl (found, same) ↦ subst IsConsistent (sym same) c
        | inr (absent, new, same) ↦ subst IsConsistent (sym same) (with_actor-IsConsistent absent)
      ]

module _ (db : Db) (c : IsConsistent db) where
  pub with_key-IsConsistent :
      (d : Driver) (owner : ℕ) (key_id public_key root : String)
      → any (has_id owner) db.actors.rows ≡ true
      → any (λ k. k.key_id == key_id) db.public_keys.rows ≡ false
      → IsConsistent (record db {
        public_keys = append_row (new_key d owner key_id public_key root) db.public_keys;
      })
  with_key-IsConsistent d owner key_id public_key root there absent =
      let k = new_key d owner key_id public_key root (suc db.public_keys.seq) in
      record {
        actors_fresh = c.actors_fresh;
        actors_distinct = c.actors_distinct;
        names_distinct = c.names_distinct;
        keys_fresh =
            All-append _ db.public_keys.rows (All-mono _ _ (λ a h. omega arith) c.keys_fresh)
              (omega arith);
        keys_distinct =
            Unique-append same_row db.public_keys.rows k c.keys_distinct
              (fresh_row db.public_keys.seq k db.public_keys.rows c.keys_fresh refl);
        key_ids_distinct =
            Unique-append same_key_id db.public_keys.rows k c.key_ids_distinct absent;
        keys_owned = All-append _ db.public_keys.rows c.keys_owned there;
        keys_stamped = All-append _ db.public_keys.rows c.keys_stamped refl;
        aux_ids_distinct = c.aux_ids_distinct;
        aux_owned = c.aux_owned;
        aux_stamped = c.aux_stamped;
        attributes_distinct = c.attributes_distinct;
      }

  -- A revocation stamps time and root together.
  pub revoked-IsConsistent :
      (d : Driver) (p : PublicKey → Bool) (root : String)
      → IsConsistent (record db {
        public_keys = record db.public_keys {
          rows = update p (revoked d root) db.public_keys.rows;
        };
      })
  revoked-IsConsistent d p root = record {
    actors_fresh = c.actors_fresh;
    actors_distinct = c.actors_distinct;
    names_distinct = c.names_distinct;
    keys_fresh = All-update _ p (revoked d root) db.public_keys.rows (λ k h. h) c.keys_fresh;
    keys_distinct =
        Unique-update same_row p (revoked d root) db.public_keys.rows (λ k l. refl) (λ k l. refl)
          c.keys_distinct;
    key_ids_distinct =
        Unique-update same_key_id p (revoked d root) db.public_keys.rows (λ k l. refl) (λ k l. refl)
          c.key_ids_distinct;
    keys_owned = All-update _ p (revoked d root) db.public_keys.rows (λ k h. h) c.keys_owned;
    keys_stamped = All-update _ p (revoked d root) db.public_keys.rows (λ k h. refl) c.keys_stamped;
    aux_ids_distinct = c.aux_ids_distinct;
    aux_owned = c.aux_owned;
    aux_stamped = c.aux_stamped;
    attributes_distinct = c.attributes_distinct;
  }

  pub with_aux-IsConsistent :
      (d : Driver) (owner : ℕ) (aux_id aux_type aux_data root : String)
      → any (has_id owner) db.actors.rows ≡ true
      → any (λ x. x.aux_id == aux_id) db.auxiliary_data.rows ≡ false
      → IsConsistent (record db {
        auxiliary_data =
            append_row (new_aux d owner aux_id aux_type aux_data root) db.auxiliary_data;
      })
  with_aux-IsConsistent d owner aux_id aux_type aux_data root there absent =
      let x = new_aux d owner aux_id aux_type aux_data root (suc db.auxiliary_data.seq) in
      record {
        actors_fresh = c.actors_fresh;
        actors_distinct = c.actors_distinct;
        names_distinct = c.names_distinct;
        keys_fresh = c.keys_fresh;
        keys_distinct = c.keys_distinct;
        key_ids_distinct = c.key_ids_distinct;
        keys_owned = c.keys_owned;
        keys_stamped = c.keys_stamped;
        aux_ids_distinct =
            Unique-append same_aux_id db.auxiliary_data.rows x c.aux_ids_distinct absent;
        aux_owned = All-append _ db.auxiliary_data.rows c.aux_owned there;
        aux_stamped = All-append _ db.auxiliary_data.rows c.aux_stamped refl;
        attributes_distinct = c.attributes_distinct;
      }

  pub revoked_aux-IsConsistent :
      (d : Driver) (p : AuxiliaryData → Bool) (root : String)
      → IsConsistent (record db {
        auxiliary_data = record db.auxiliary_data {
          rows = update p (revoked_aux d root) db.auxiliary_data.rows;
        };
      })
  revoked_aux-IsConsistent d p root =
      let rows = db.auxiliary_data.rows in
      record {
        actors_fresh = c.actors_fresh;
        actors_distinct = c.actors_distinct;
        names_distinct = c.names_distinct;
        keys_fresh = c.keys_fresh;
        keys_distinct = c.keys_distinct;
        key_ids_distinct = c.key_ids_distinct;
        keys_owned = c.keys_owned;
        keys_stamped = c.keys_stamped;
        aux_ids_distinct =
            Unique-update same_aux_id p (revoked_aux d root) rows (λ x y. refl) (λ x y. refl)
              c.aux_ids_distinct;
        aux_owned = All-update _ p (revoked_aux d root) rows (λ x h. h) c.aux_owned;
        aux_stamped = All-update _ p (revoked_aux d root) rows (λ x h. refl) c.aux_stamped;
        attributes_distinct = c.attributes_distinct;
      }

  pub with_symmetric-IsConsistent :
      (t : Table SymmetricKey)
      → Unique same_attribute t.rows
      → IsConsistent (record db { symmetric_keys = t })
  with_symmetric-IsConsistent t u = record {
    actors_fresh = c.actors_fresh;
    actors_distinct = c.actors_distinct;
    names_distinct = c.names_distinct;
    keys_fresh = c.keys_fresh;
    keys_distinct = c.keys_distinct;
    key_ids_distinct = c.key_ids_distinct;
    keys_owned = c.keys_owned;
    keys_stamped = c.keys_stamped;
    aux_ids_distinct = c.aux_ids_distinct;
    aux_owned = c.aux_owned;
    aux_stamped = c.aux_stamped;
    attributes_distinct = u;
  }

abbrev rows_of : Option (Table SymmetricKey) → List SymmetricKey
rows_of none = []
rows_of (some t) = t.rows

-- A batch of symmetric keys keeps (message_hash, attribute) unique.
pub insert_symmetric_rows-Unique :
    (d : Driver) (hash : String) (keys : List (String × List ℕ)) (t t' : Table SymmetricKey)
    → Unique same_attribute t.rows
    → insert_symmetric_rows d hash keys t ≡ some t'
    → Unique same_attribute t'.rows
unfolding insert_symmetric_rows
insert_symmetric_rows-Unique d hash [] t t' u e =
    subst (λ (s : Option (Table SymmetricKey)). Unique same_attribute (rows_of s)) e u
insert_symmetric_rows-Unique d hash ((attribute, key) ∷ rest) t t' u e =
    elim (Bool-cases (any (is_symmetric_key hash attribute) t.rows)) [
      | inl taken ↦ cc (rw (taken, insert_symmetric_rows) at e)
      | inr free ↦
          insert_symmetric_rows-Unique d hash rest _ t'
            (Unique-append same_attribute t.rows _ u free) (rw (free, insert_symmetric_rows) at e)
    ]
