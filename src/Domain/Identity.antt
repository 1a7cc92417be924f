-- ===== src/Domain/Identity.antt =====
-- What MoveIdentity of PKDService does.
use pkd_server_go.Prelude.{
  ℕ, String, ◌≡◌, ◌≢◌, sym, ap, ◌∙◌, subst, false, ◌&&◌, [], ok, arith, any, update, All-every,
  select-ext, count-any,
}
use pkd_server_go.Protocol.Messages.{MoveIdentityMessage}
use pkd_server_go.Store.Driver.{Driver}
use pkd_server_go.Store.Rows.{Db}
use pkd_server_go.Store.Reads.{
  has_actor_id, owned_by, is_active, is_active_aux, active_keys, active_aux,
}
use pkd_server_go.Store.Outcomes.{renamed, tx_update_actor_id-ok}
use pkd_server_go.Store.ActiveKeys.{select-none, renamed-new, renamed-old, renamed-other}
use pkd_server_go.Domain.Transaction.{transaction-ok}
use pkd_server_go.Domain.Service.{move_identity_body, process_move_identity}
use pkd_server_go.Domain.Steps.{move_steps}

module _ (d : Driver) (old new : String) (db : Db) where
  abbrev moved : Db
  moved = record db {
    actors = record db.actors { rows = update (has_actor_id old) (renamed d new) db.actors.rows };
  }

  -- Two owners who own the same rows have the same lists.
  same_lists :
      (n m : String)
      → ((owner : ℕ) → owned_by n moved.actors.rows owner ≡ owned_by m db.actors.rows owner)
      → (active_keys n moved ≡ active_keys m db) × (active_aux n moved ≡ active_aux m db)
  unfolding active_keys active_aux
  same_lists n m h = (
    select-ext _ _ db.public_keys.rows
        (All-every _ db.public_keys.rows (λ k. ap (λ b. b && is_active k) (h k.actor_id))),
    select-ext _ _ db.auxiliary_data.rows
        (All-every _ db.auxiliary_data.rows (λ x. ap (λ b. b && is_active_aux x) (h x.actor_id))),
  )

  no_lists :
      (n : String)
      → ((owner : ℕ) → owned_by n moved.actors.rows owner ≡ false)
      → (active_keys n moved ≡ []) × (active_aux n moved ≡ [])
  unfolding active_keys active_aux
  no_lists n h = (
    select-none _ db.public_keys.rows
        (All-every _ db.public_keys.rows (λ k. ap (λ b. b && is_active k) (h k.actor_id))),
    select-none _ db.auxiliary_data.rows
        (All-every _ db.auxiliary_data.rows (λ x. ap (λ b. b && is_active_aux x) (h x.actor_id))),
  )

-- The new name is free and the old one is not, so they differ.
moved_ne :
    (d : Driver) (msg : MoveIdentityMessage) (db db' : Db)
    → move_identity_body d msg db ≡ (ok tt, db')
    → msg.old_actor ≢ msg.new_actor
moved_ne d msg db db' h e =
    let s = move_steps d msg db db' h in
    let (counted, same) =
      tx_update_actor_id-ok d msg.old_actor msg.new_actor db s.rows db' s.updated in
    let absent : any (has_actor_id msg.old_actor) db.actors.rows ≡ false =
      subst (λ n. any (has_actor_id n) db.actors.rows ≡ false) (sym e) s.absent in
    ground
      (arith, s.some_row, counted, count-any (has_actor_id msg.old_actor) db.actors.rows absent)

move_lists :
    (d : Driver) (msg : MoveIdentityMessage) (db db' : Db)
    → move_identity_body d msg db ≡ (ok tt, db')
    → (active_keys msg.new_actor db' ≡ active_keys msg.old_actor db)
      × (active_aux msg.new_actor db' ≡ active_aux msg.old_actor db)
      × (active_keys msg.old_actor db' ≡ [])
      × (active_aux msg.old_actor db' ≡ [])
      × ((n : String)
          → n ≢ msg.old_actor
          → n ≢ msg.new_actor
          → (active_keys n db' ≡ active_keys n db) × (active_aux n db' ≡ active_aux n db))
move_lists d msg db db' h =
    let s = move_steps d msg db db' h in
    let (counted, same) =
      tx_update_actor_id-ok d msg.old_actor msg.new_actor db s.rows db' s.updated in
    let (new_keys, new_aux) =
      same_lists d msg.old_actor msg.new_actor db msg.new_actor msg.old_actor
        (λ o. renamed-new d msg.old_actor msg.new_actor o db.actors.rows s.absent) in
    let (old_keys, old_aux) =
      no_lists d msg.old_actor msg.new_actor db msg.old_actor (λ o.
        renamed-old d msg.old_actor msg.new_actor o db.actors.rows (moved_ne d msg db db' h)) in
    (
      ap (active_keys msg.new_actor) same ∙ new_keys,
      ap (active_aux msg.new_actor) same ∙ new_aux,
      ap (active_keys msg.old_actor) same ∙ old_keys,
      ap (active_aux msg.old_actor) same ∙ old_aux,
      λ n a b.
          let (keys, aux) =
            same_lists d msg.old_actor msg.new_actor db n n
              (λ o. renamed-other d msg.old_actor msg.new_actor n o db.actors.rows a b) in
          (ap (active_keys n) same ∙ keys, ap (active_aux n) same ∙ aux),
    )

-- Where MoveIdentity succeeds, the new actor has the active keys and the active auxiliary data that
-- the old one had, the old one has none, and every third actor has what it had.
pub active_keys-process_move_identity :
    (d : Driver) (msg : MoveIdentityMessage) (root : String) (db : Db)
    → (process_move_identity d msg root db).0 ≡ ok tt
    → (active_keys msg.new_actor (process_move_identity d msg root db).1
        ≡ active_keys msg.old_actor db)
      × (active_aux msg.new_actor (process_move_identity d msg root db).1
          ≡ active_aux msg.old_actor db)
      × (active_keys msg.old_actor (process_move_identity d msg root db).1 ≡ [])
      × (active_aux msg.old_actor (process_move_identity d msg root db).1 ≡ [])
      × ((n : String)
          → n ≢ msg.old_actor
          → n ≢ msg.new_actor
          → (active_keys n (process_move_identity d msg root db).1 ≡ active_keys n db)
            × (active_aux n (process_move_identity d msg root db).1 ≡ active_aux n db))
unfolding process_move_identity
active_keys-process_move_identity d msg root db h = move_lists d msg db _ (transaction-ok d _ db h)
