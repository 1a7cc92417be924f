-- ===== src/Domain/Auxiliary.antt =====
-- What AddAuxData and RevokeAuxData of PKDService do to the lists of active auxiliary data.
use pkd_server_go.Prelude.{
  ℕ, String, ◌≡◌, ◌≢◌, refl, ap, ◌∙◌, inl, inr, Bool, true, not, ◌&&◌, List, [], ◌∷◌, ◌++◌, Option,
  ok, arith, eqb_iff, ◌==◌, any, select, update, count, All-every, select-append, append-nil,
  Bool-cases, count-any, if◌then◌else◌,
}
use pkd_server_go.Protocol.Messages.{AddAuxDataMessage, RevokeAuxDataMessage}
use pkd_server_go.Store.Driver.{Driver}
use pkd_server_go.Store.Rows.{AuxiliaryData, Actor, Db}
use pkd_server_go.Store.Reads.{owned_by, is_active_aux, active_aux, active_keys}
use pkd_server_go.Store.Writes.{get_or_create_actor, tx_insert_aux_data, is_revocable_aux}
use pkd_server_go.Store.Consistency.{IsConsistent}
use pkd_server_go.Store.Outcomes.{
  get_or_create_actor-ok, tx_insert_aux_data-ok, revoked_aux, tx_revoke_aux_data-ok,
}
use pkd_server_go.Store.Preservation.{get_or_create_actor-IsConsistent}
use pkd_server_go.Store.ActiveKeys.{active_aux-with_actor, select-update, select-idle}
use pkd_server_go.Domain.Transaction.{transaction, transaction-ok}
use pkd_server_go.Domain.Service.{
  Validator, accepts, registered, add_aux_data_body, process_add_aux_data, revoke_aux_data_body,
  process_revoke_aux_data,
}
use pkd_server_go.Domain.Steps.{add_aux_steps, revoke_aux_steps}
use pkd_server_go.Domain.Keys.{active_keys-get_or_create, actor_of_message, not_owner}

active_aux-get_or_create :
    (d : Driver) (name : String) (db : Db) (actor : Actor) (db₁ : Db) (n : String)
    → IsConsistent db
    → get_or_create_actor d name db ≡ ok (actor, db₁)
    → active_aux n db₁ ≡ active_aux n db
active_aux-get_or_create d name db actor db₁ n c h =
    elim (get_or_create_actor-ok d name db actor db₁ h) [
      | inl (found, same) ↦ ap (active_aux n) same
      | inr (absent, new, same) ↦ ap (active_aux n) same ∙ active_aux-with_actor d n name db c
    ]

active_aux-insert :
    (d : Driver) (owner : ℕ) (aux_id aux_type aux_data root n : String) (db : Db)
    (aux : AuxiliaryData) (db' : Db)
    → tx_insert_aux_data d owner aux_id aux_type aux_data root db ≡ ok (aux, db')
    → active_aux n db'
      ≡ active_aux n db ++ (if owned_by n db.actors.rows owner then aux ∷ [] else [])
unfolding active_aux
active_aux-insert d owner aux_id aux_type aux_data root n db aux db' h =
    let (there, absent, made, same) =
      tx_insert_aux_data-ok d owner aux_id aux_type aux_data root db aux db' h in
    ap (active_aux n) same ∙ (select-append _ db.auxiliary_data.rows _ ∙ ground arith)

-- A test that asks for being on the list as well.
module _ {A : Type 0} (q p r : A → Bool) (both : (x : A) → r x ≡ (q x && p x)) where
  select-within :
      (xs : List A) → select (λ x. not (r x)) (select q xs) ≡ select (λ x. not (p x)) (select q xs)
  unfolding select
  select-within [] = refl
  select-within (x ∷ xs) = ground (arith, select-within xs, both x)

  count-within : (xs : List A) → count r xs ≡ count p (select q xs)
  unfolding select count
  count-within [] = refl
  count-within (x ∷ xs) = ground (arith, count-within xs, both x)

add_aux_lists :
    (d : Driver) (random : Option (List ℕ)) (msg : AddAuxDataMessage) (root : String) (db : Db)
    (aux : AuxiliaryData) (db' : Db)
    → IsConsistent db
    → add_aux_data_body d random msg root db ≡ (ok aux, db')
    → (active_aux msg.actor db' ≡ active_aux msg.actor db ++ aux ∷ [])
      × ((n : String) → n ≢ msg.actor → active_aux n db' ≡ active_aux n db)
      × (aux.aux_type ≡ msg.aux_type)
      × (aux.aux_data ≡ msg.aux_data)
      × (aux.merkle_root ≡ root)
add_aux_lists d random msg root db aux db' c h =
    let s = add_aux_steps d random msg root db aux db' h in
    let c₁ = get_or_create_actor-IsConsistent d msg.actor db c s.actor s.with_actor s.found in
    let own = actor_of_message d msg.actor db s.actor s.with_actor s.found in
    let (there, absent, made, same) =
      tx_insert_aux_data-ok d s.actor.id s.aux_id msg.aux_type msg.aux_data root s.with_actor aux
        db' s.inserted in
    let owned = λ (n : String). owned_by n s.with_actor.actors.rows s.actor.id in
    let chain : (n : String)
        → active_aux n db' ≡ active_aux n db ++ (if owned n then aux ∷ [] else []) =
      λ n.
        active_aux-insert d s.actor.id s.aux_id msg.aux_type msg.aux_data root n s.with_actor aux
          db' s.inserted
        ∙ ap (λ (xs : List AuxiliaryData). xs ++ (if owned n then aux ∷ [] else []))
            (active_aux-get_or_create d msg.actor db s.actor s.with_actor n c s.found) in
    (
      rw own at (chain msg.actor),
      (λ n ne.
          chain n ∙ rw (not_owner n msg.actor s.actor.id s.with_actor c₁ ne own) (append-nil _)),
      ap (λ (x : AuxiliaryData). x.aux_type) made,
      ap (λ (x : AuxiliaryData). x.aux_data) made,
      ap (λ (x : AuxiliaryData). x.merkle_root) made,
    )

accepted_of_ok :
    (vs : List Validator) (d : Driver) (random : Option (List ℕ)) (msg : AddAuxDataMessage)
    (root : String) (db : Db) (aux : AuxiliaryData)
    → (process_add_aux_data vs d random msg root db).0 ≡ ok aux
    → (accepts (registered vs msg.aux_type) msg.aux_data ≡ true)
      × ((transaction d (add_aux_data_body d random msg root) db).0 ≡ ok aux)
      × ((process_add_aux_data vs d random msg root db).1
          ≡ (transaction d (add_aux_data_body d random msg root) db).1)
unfolding process_add_aux_data
accepted_of_ok vs d random msg root db aux h = ground arith

-- Where AddAuxData succeeds on a consistent database: the validator that is registered for the type,
-- if there is one, accepts the data; the new row, with the type and the data of the message and the
-- Merkle root, is appended to the active auxiliary data of the message's actor; and those of every
-- other actor stay the same.
pub active_aux-process_add_aux_data :
    (vs : List Validator) (d : Driver) (random : Option (List ℕ)) (msg : AddAuxDataMessage)
    (root : String) (db : Db) (aux : AuxiliaryData)
    → IsConsistent db
    → (process_add_aux_data vs d random msg root db).0 ≡ ok aux
    → (accepts (registered vs msg.aux_type) msg.aux_data ≡ true)
      × (active_aux msg.actor (process_add_aux_data vs d random msg root db).1
          ≡ active_aux msg.actor db ++ aux ∷ [])
      × ((n : String)
          → n ≢ msg.actor
          → active_aux n (process_add_aux_data vs d random msg root db).1 ≡ active_aux n db)
      × (aux.aux_type ≡ msg.aux_type)
      × (aux.aux_data ≡ msg.aux_data)
      × (aux.merkle_root ≡ root)
active_aux-process_add_aux_data vs d random msg root db aux c h =
    let (accepted, done, same) = accepted_of_ok vs d random msg root db aux h in
    let (own, others, type, text, under) =
      add_aux_lists d random msg root db aux _ c (transaction-ok d _ db done) in
    (
      accepted,
      ap (active_aux msg.actor) same ∙ own,
      (λ n ne. ap (active_aux n) same ∙ others n ne),
      type,
      text,
      under,
    )

-- Where AddAuxData succeeds, no active key changes.
pub active_keys-process_add_aux_data :
    (vs : List Validator) (d : Driver) (random : Option (List ℕ)) (msg : AddAuxDataMessage)
    (root : String) (db : Db) (aux : AuxiliaryData) (n : String)
    → IsConsistent db
    → (process_add_aux_data vs d random msg root db).0 ≡ ok aux
    → active_keys n (process_add_aux_data vs d random msg root db).1 ≡ active_keys n db
unfolding active_keys
active_keys-process_add_aux_data vs d random msg root db aux n c h =
    let (accepted, done, same) = accepted_of_ok vs d random msg root db aux h in
    let body = transaction-ok d (add_aux_data_body d random msg root) db done in
    let s = add_aux_steps d random msg root db aux _ body in
    let (there, absent, made, is) =
      tx_insert_aux_data-ok d s.actor.id s.aux_id msg.aux_type msg.aux_data root s.with_actor aux _
        s.inserted in
    ap (active_keys n) same
    ∙ (ap (active_keys n) is
        ∙ active_keys-get_or_create d msg.actor db s.actor s.with_actor n c s.found)

abbrev pub without_aux : String → List AuxiliaryData → List AuxiliaryData
without_aux aux_id = select (λ x. not (x.aux_id == aux_id))

-- the test of `active_aux`
abbrev lists : String → Db → AuxiliaryData → Bool
lists n db x = owned_by n db.actors.rows x.actor_id && is_active_aux x

module _ (d : Driver) (name aux_id root : String) (db : Db) where
  abbrev after_revoke : Db
  after_revoke = record db {
    auxiliary_data = record db.auxiliary_data {
      rows =
          update (is_revocable_aux name aux_id db.actors.rows) (revoked_aux d root)
            db.auxiliary_data.rows;
    };
  }

  own_aux-revoked : active_aux name after_revoke ≡ without_aux aux_id (active_aux name db)
  unfolding active_aux
  own_aux-revoked =
      select-update (lists name db) (is_revocable_aux name aux_id db.actors.rows)
        (revoked_aux d root) db.auxiliary_data.rows (λ x. ground arith)
      ∙ select-within (lists name db) (λ x. x.aux_id == aux_id)
          (is_revocable_aux name aux_id db.actors.rows) (λ x. ground arith) db.auxiliary_data.rows

  other_aux-revoked :
      (n : String) → IsConsistent db → n ≢ name → active_aux n after_revoke ≡ active_aux n db
  unfolding active_aux
  other_aux-revoked n c ne =
      select-update (lists n db) (is_revocable_aux name aux_id db.actors.rows) (revoked_aux d root)
        db.auxiliary_data.rows (λ x. ground arith)
      ∙ select-idle (lists n db) (is_revocable_aux name aux_id db.actors.rows)
          db.auxiliary_data.rows
          (All-every _ db.auxiliary_data.rows
            (λ x h. ground (arith, not_owner n name x.actor_id db c ne)))

  count-revocable :
      count (is_revocable_aux name aux_id db.actors.rows) db.auxiliary_data.rows
      ≡ count (λ x. x.aux_id == aux_id) (active_aux name db)
  unfolding active_aux
  count-revocable =
      count-within (lists name db) (λ x. x.aux_id == aux_id)
        (is_revocable_aux name aux_id db.actors.rows) (λ x. ground arith) db.auxiliary_data.rows

revoke_aux_lists :
    (d : Driver) (msg : RevokeAuxDataMessage) (root : String) (db db' : Db)
    → IsConsistent db
    → revoke_aux_data_body d msg root db ≡ (ok tt, db')
    → (any (λ x. x.aux_id == msg.aux_id) (active_aux msg.actor db) ≡ true)
      × (active_aux msg.actor db' ≡ without_aux msg.aux_id (active_aux msg.actor db))
      × ((n : String) → n ≢ msg.actor → active_aux n db' ≡ active_aux n db)
      × (db'.public_keys ≡ db.public_keys)
revoke_aux_lists d msg root db db' c h =
    let s = revoke_aux_steps d msg root db db' h in
    let (rows, same) = tx_revoke_aux_data-ok d msg.actor msg.aux_id root db s.rows db' s.updated in
    (
      (elim (Bool-cases (any (λ x. x.aux_id == msg.aux_id) (active_aux msg.actor db))) [
        | inl there ↦ there
        | inr absent ↦
            let none_left = count-any _ _ absent in
            let counted = count-revocable d msg.actor msg.aux_id root db in
            let touched = s.some_row in ground (arith, eqb_iff s.rows 0)
      ]),
      ap (active_aux msg.actor) same ∙ own_aux-revoked d msg.actor msg.aux_id root db,
      (λ n ne. ap (active_aux n) same ∙ other_aux-revoked d msg.actor msg.aux_id root db n c ne),
      ap (λ (r : Db). r.public_keys) same,
    )

-- Where RevokeAuxData succeeds on a consistent database: the message's actor had active auxiliary
-- data with the id of the message, and has all but those left; the active auxiliary data of every
-- other actor, and all keys, stay the same.
pub active_aux-process_revoke_aux_data :
    (d : Driver) (msg : RevokeAuxDataMessage) (root : String) (db : Db)
    → IsConsistent db
    → (process_revoke_aux_data d msg root db).0 ≡ ok tt
    → (any (λ x. x.aux_id == msg.aux_id) (active_aux msg.actor db) ≡ true)
      × (active_aux msg.actor (process_revoke_aux_data d msg root db).1
          ≡ without_aux msg.aux_id (active_aux msg.actor db))
      × ((n : String)
          → n ≢ msg.actor
          → active_aux n (process_revoke_aux_data d msg root db).1 ≡ active_aux n db)
      × ((process_revoke_aux_data d msg root db).1.public_keys ≡ db.public_keys)
unfolding process_revoke_aux_data
active_aux-process_revoke_aux_data d msg root db c h =
    revoke_aux_lists d msg root db _ c (transaction-ok d _ db h)

-- Where RevokeAuxData succeeds, no active key changes.
pub active_keys-process_revoke_aux_data :
    (d : Driver) (msg : RevokeAuxDataMessage) (root : String) (db : Db) (n : String)
    → (process_revoke_aux_data d msg root db).0 ≡ ok tt
    → active_keys n (process_revoke_aux_data d msg root db).1 ≡ active_keys n db
unfolding active_keys process_revoke_aux_data
active_keys-process_revoke_aux_data d msg root db n h =
    let body = transaction-ok d (revoke_aux_data_body d msg root) db h in
    let s = revoke_aux_steps d msg root db _ body in
    ap (active_keys n) (tx_revoke_aux_data-ok d msg.actor msg.aux_id root db s.rows _ s.updated).1
