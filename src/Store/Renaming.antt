-- ===== src/Store/Renaming.antt =====
-- The updates of rows of `actors`, a new name or a new flag, keep the tables consistent.
use pkd_server_go.Prelude.{
  String, ◌≡◌, ◌≢◌, refl, ◌∙◌, Bool, false, List, [], ◌∷◌, arith, eq_iff, any, update, Unique,
  All-update, All-mono, Unique-update, any-update,
}
use pkd_server_go.Store.Driver.{Driver}
use pkd_server_go.Store.Rows.{Actor, Db}
use pkd_server_go.Store.Reads.{has_actor_id, set_fireproof}
use pkd_server_go.Store.Consistency.{IsConsistent, same_id, same_name, has_id}
use pkd_server_go.Store.Outcomes.{renamed}

-- After a renaming the new name is where the old one was.
renamed_new :
    (d : Driver) (old new : String) (a : Actor) (xs : List Actor)
    → a.actor_id ≡ new
    → any (has_actor_id new) xs ≡ false
    → any (has_actor_id old) xs ≡ false
    → any (same_name a) (update (has_actor_id old) (renamed d new) xs) ≡ false
unfolding any update
renamed_new d old new a [] e h k = refl
renamed_new d old new a (x ∷ xs) e h k = ground (
  arith,
  renamed_new d old new a xs e,
  eq_iff a.actor_id x.actor_id,
  eq_iff x.actor_id new,
  eq_iff x.actor_id old,
)

renamed_other :
    (d : Driver) (old new : String) (a : Actor) (xs : List Actor)
    → a.actor_id ≢ new
    → any (same_name a) xs ≡ false
    → any (same_name a) (update (has_actor_id old) (renamed d new) xs) ≡ false
unfolding any update
renamed_other d old new a [] e h = refl
renamed_other d old new a (x ∷ xs) e h =
    ground (arith, renamed_other d old new a xs e, eq_iff a.actor_id new)

absent_of_same :
    (a : Actor) (old : String) (xs : List Actor)
    → a.actor_id ≡ old
    → any (same_name a) xs ≡ false
    → any (has_actor_id old) xs ≡ false
unfolding any
absent_of_same a old [] e h = refl
absent_of_same a old (x ∷ xs) e h =
    ground (arith, absent_of_same a old xs e, eq_iff a.actor_id x.actor_id, eq_iff x.actor_id old)

renamed-Unique :
    (d : Driver) (old new : String) (xs : List Actor)
    → any (has_actor_id new) xs ≡ false
    → Unique same_name xs
    → Unique same_name (update (has_actor_id old) (renamed d new) xs)
unfolding any update
renamed-Unique d old new [] h u = tt
renamed-Unique d old new (x ∷ xs) h u = ground (
  arith,
  renamed-Unique d old new xs,
  renamed_new d old new (renamed d new x) xs refl,
  renamed_other d old new x xs,
  absent_of_same x old xs,
  eq_iff x.actor_id old,
  eq_iff x.actor_id new,
)

pub renamed-IsConsistent :
    (d : Driver) (old new : String) (db : Db)
    → IsConsistent db
    → any (has_actor_id new) db.actors.rows ≡ false
    → IsConsistent (record db {
      actors = record db.actors { rows = update (has_actor_id old) (renamed d new) db.actors.rows };
    })
renamed-IsConsistent d old new db c absent =
    let p = has_actor_id old in
    let f = renamed d new in
    let rows = db.actors.rows in
    record {
      actors_fresh = All-update _ p f rows (λ a h. h) c.actors_fresh;
      actors_distinct =
          Unique-update same_id p f rows (λ a b. refl) (λ a b. refl) c.actors_distinct;
      names_distinct = renamed-Unique d old new rows absent c.names_distinct;
      keys_fresh = c.keys_fresh;
      keys_distinct = c.keys_distinct;
      key_ids_distinct = c.key_ids_distinct;
      keys_owned =
          All-mono _ _ (λ k h. any-update (has_id k.actor_id) p f rows (λ a. refl) ∙ h)
            c.keys_owned;
      keys_stamped = c.keys_stamped;
      aux_ids_distinct = c.aux_ids_distinct;
      aux_owned =
          All-mono _ _ (λ x h. any-update (has_id x.actor_id) p f rows (λ a. refl) ∙ h) c.aux_owned;
      aux_stamped = c.aux_stamped;
      attributes_distinct = c.attributes_distinct;
    }

-- Either nothing is written, or the flag of the actor is.
set_fireproof_cases :
    (d : Driver) (name : String) (flag : Bool) (db : Db) (P : Db → Type 0)
    → P db
    → P (record db {
      actors = record db.actors {
        rows =
            update
              (has_actor_id name)
              (λ a. record a { is_fireproof = flag; updated_at = d.now })
              db.actors.rows;
      };
    })
    → P (set_fireproof d name flag db).1
unfolding set_fireproof
set_fireproof_cases d name flag db P before after = ground arith

-- The flag of an actor, whatever the statement answers.
pub set_fireproof-IsConsistent :
    (d : Driver) (name : String) (flag : Bool) (db : Db)
    → IsConsistent db
    → IsConsistent (set_fireproof d name flag db).1
unfolding set_fireproof
set_fireproof-IsConsistent d name flag db c =
    let p = has_actor_id name in
    let f : Actor → Actor = λ a. record a { is_fireproof = flag; updated_at = d.now } in
    let rows = db.actors.rows in
    let after : IsConsistent (record db { actors = record db.actors { rows = update p f rows } }) =
      record {
        actors_fresh = All-update _ p f rows (λ a h. h) c.actors_fresh;
        actors_distinct =
            Unique-update same_id p f rows (λ a b. refl) (λ a b. refl) c.actors_distinct;
        names_distinct =
            Unique-update same_name p f rows (λ a b. refl) (λ a b. refl) c.names_distinct;
        keys_fresh = c.keys_fresh;
        keys_distinct = c.keys_distinct;
        key_ids_distinct = c.key_ids_distinct;
        keys_owned =
            All-mono _ _ (λ k h. any-update (has_id k.actor_id) p f rows (λ a. refl) ∙ h)
              c.keys_owned;
        keys_stamped = c.keys_stamped;
        aux_ids_distinct = c.aux_ids_distinct;
        aux_owned =
            All-mono _ _ (λ x h. any-update (has_id x.actor_id) p f rows (λ a. refl) ∙ h)
              c.aux_owned;
        aux_stamped = c.aux_stamped;
        attributes_distinct = c.attributes_distinct;
      } in
    set_fireproof_cases d name flag db IsConsistent c after
