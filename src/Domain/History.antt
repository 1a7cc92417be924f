-- ===== src/Domain/History.antt =====
-- The history of the table of keys: PKDService never removes a row and never changes what a row says
-- of a key, except that it stamps an active key as revoked.
use pkd_server_go.Prelude.{
  ℕ, String, ◌≡◌, refl, sym, ap, ◌∙◌, subst, inl, inr, Bool, true, false, List, [], ◌∷◌, ◌++◌,
  Option, ok, arith, eqb, update, All, All-mono, All-every, Bool-cases,
}
use pkd_server_go.Protocol.Messages.{
  AddKeyMessage, RevokeKeyMessage, MoveIdentityMessage, AddAuxDataMessage, RevokeAuxDataMessage,
}
use pkd_server_go.Store.Driver.{Driver}
use pkd_server_go.Store.Rows.{Actor, PublicKey, Db}
use pkd_server_go.Store.Reads.{is_active}
use pkd_server_go.Store.Writes.{get_or_create_actor, revoked}
use pkd_server_go.Store.Consistency.{IsConsistent}
use pkd_server_go.Store.ActiveKeys.{find-same_row}
use pkd_server_go.Store.Outcomes.{
  get_or_create_actor-ok, tx_insert_public_key-ok, tx_revoke_key-ok, tx_update_actor_id-ok,
  tx_revoke_all_keys_for_actor-ok, tx_insert_aux_data-ok, tx_revoke_aux_data-ok,
  tx_store_symmetric_keys-ok, tx_delete_symmetric_keys_by_hashes-ok,
}
use pkd_server_go.Domain.Transaction.{transaction_keeps}
use pkd_server_go.Domain.Service.{
  SymmetricKeys, store_keys, Validator, accepts, registered, process_add_key, process_revoke_key,
  process_move_identity, process_burn_down, crypto_shred, process_add_aux_data,
  process_revoke_aux_data,
}
use pkd_server_go.Domain.Steps.{
  store_keys-inserted, add_key_steps, revoke_key_steps, move_steps, burn_steps, add_aux_steps,
  revoke_aux_steps,
}
use pkd_server_go.Domain.Consistency.{
  Call, add_key, revoke_key, move_identity, burn_down, shred, add_aux_data, revoke_aux_data,
  perform, perform_all, perform-IsConsistent,
}

-- A row and what has become of it: a revoked one is as it was, and an active one has been stamped
-- at most.
pub record Kept (x y : PublicKey) : Type 0 where
  pub same_id : y.id ≡ x.id
  pub same_owner : y.actor_id ≡ x.actor_id
  pub same_key_id : y.key_id ≡ x.key_id
  pub same_key : y.public_key ≡ x.public_key
  pub same_time : y.created_at ≡ x.created_at
  pub same_root : y.merkle_root ≡ x.merkle_root
  pub final : is_active x ≡ false → y ≡ x

-- The rows are those of the first list, kept in their order, and new ones at the end.
pub data Extends : List PublicKey → List PublicKey → Type 0 where
  added : (ys : List PublicKey) → Extends [] ys
  kept :
      {x y : PublicKey} {xs ys : List PublicKey}
      → Kept x y
      → Extends xs ys
      → Extends (x ∷ xs) (y ∷ ys)

Kept-refl : (x : PublicKey) → Kept x x
Kept-refl x = record {
  same_id = refl;
  same_owner = refl;
  same_key_id = refl;
  same_key = refl;
  same_time = refl;
  same_root = refl;
  final = λ _. refl;
}

Kept-trans : (x y z : PublicKey) → Kept x y → Kept y z → Kept x z
Kept-trans x y z a b = record {
  same_id = b.same_id ∙ a.same_id;
  same_owner = b.same_owner ∙ a.same_owner;
  same_key_id = b.same_key_id ∙ a.same_key_id;
  same_key = b.same_key ∙ a.same_key;
  same_time = b.same_time ∙ a.same_time;
  same_root = b.same_root ∙ a.same_root;
  final = λ h. b.final (ap is_active (a.final h) ∙ h) ∙ a.final h;
}

Kept-revoked :
    (d : Driver) (root : String) (x : PublicKey) → is_active x ≡ true → Kept x (revoked d root x)
Kept-revoked d root x h = record {
  same_id = refl;
  same_owner = refl;
  same_key_id = refl;
  same_key = refl;
  same_time = refl;
  same_root = refl;
  final = λ e. ground arith;
}

Extends-refl : (xs : List PublicKey) → Extends xs xs
Extends-refl [] = added []
Extends-refl (x ∷ xs) = kept (Kept-refl x) (Extends-refl xs)

Extends-trans : {xs ys zs : List PublicKey} → Extends xs ys → Extends ys zs → Extends xs zs
Extends-trans (added ys) b = added _
Extends-trans (kept k a) (kept l b) = kept (Kept-trans _ _ _ k l) (Extends-trans a b)

Extends-append : (xs ys : List PublicKey) → Extends xs (xs ++ ys)
Extends-append [] ys = added ys
Extends-append (x ∷ xs) ys = kept (Kept-refl x) (Extends-append xs ys)

Extends-update :
    (d : Driver) (root : String) (p : PublicKey → Bool) (xs : List PublicKey)
    → All (λ x. p x ≡ true → is_active x ≡ true) xs
    → Extends xs (update p (revoked d root) xs)
unfolding update
Extends-update d root p [] h = added []
Extends-update d root p (x ∷ xs) h = elim (Bool-cases (p x)) [
  | inl hit ↦ rw hit (kept (Kept-revoked d root x (h.0 hit)) (Extends-update d root p xs h.1))
  | inr miss ↦ rw miss (kept (Kept-refl x) (Extends-update d root p xs h.1))
]

abbrev Grows : Db → Db → Type 0
Grows db db' = Extends db.public_keys.rows db'.public_keys.rows

Grows-same : (db db' : Db) → db'.public_keys ≡ db.public_keys → Grows db db'
Grows-same db db' e = subst (λ t. Extends db.public_keys.rows t.rows) (sym e) (Extends-refl _)

store_keys-public_keys :
    (d : Driver) (root : String) (keys : SymmetricKeys) (db db' : Db)
    → store_keys d root keys db ≡ (ok tt, db')
    → db'.public_keys ≡ db.public_keys
unfolding store_keys
store_keys-public_keys d root [] db db' h = ground arith
store_keys-public_keys d root (k ∷ ks) db db' h =
    let (t, inserted, same) =
      tx_store_symmetric_keys-ok d root (k ∷ ks) db db'
        (store_keys-inserted d root k ks db db' h) in
    ap (λ (r : Db). r.public_keys) same

get_or_create_actor-public_keys :
    (d : Driver) (name : String) (db : Db) (actor : Actor) (db' : Db)
    → get_or_create_actor d name db ≡ ok (actor, db')
    → db'.public_keys ≡ db.public_keys
get_or_create_actor-public_keys d name db actor db' h =
    elim (get_or_create_actor-ok d name db actor db' h) [
      | inl (found, same) ↦ ap (λ (r : Db). r.public_keys) same
      | inr (absent, new, same) ↦ ap (λ (r : Db). r.public_keys) same
    ]

add_key-Grows :
    (d : Driver) (random : Option (List ℕ)) (msg : AddKeyMessage) (root : String)
    (keys : SymmetricKeys) (db : Db)
    → Grows db (process_add_key d random msg root keys db).1
unfolding process_add_key
add_key-Grows d random msg root keys db =
    transaction_keeps (Grows db) d _ db (Extends-refl _) λ key db' h.
      let s = add_key_steps d random msg root keys db key db' h in
      let (there, absent, made, same) =
        tx_insert_public_key-ok d s.actor.id s.key_id msg.public_key root s.with_actor key
          s.with_key s.inserted in
      let before = get_or_create_actor-public_keys d msg.actor db s.actor s.with_actor s.found in
      let after = store_keys-public_keys d root keys s.with_key db' s.stored in
      subst (λ t. Extends t.rows db'.public_keys.rows) before
        (subst (Extends s.with_actor.public_keys.rows)
          (sym (ap (λ t. t.rows) after ∙ ap (λ (r : Db). r.public_keys.rows) same))
          (Extends-append s.with_actor.public_keys.rows _))

revoke_key-Grows :
    (d : Driver) (msg : RevokeKeyMessage) (root : String) (keys : SymmetricKeys) (db : Db)
    → IsConsistent db
    → Grows db (process_revoke_key d msg root keys db).1
unfolding process_revoke_key
revoke_key-Grows d msg root keys db c =
    transaction_keeps (Grows db) d _ db (Extends-refl _) λ u db' h.
      let s = revoke_key_steps d msg root keys db db' h in
      let same = tx_revoke_key-ok d s.key.id root db s.without_key s.revoked_row in
      let after = store_keys-public_keys d root keys s.without_key db' s.stored in
      subst (Extends db.public_keys.rows)
        (sym (ap (λ t. t.rows) after ∙ ap (λ (r : Db). r.public_keys.rows) same))
        (Extends-update d root (λ k. eqb k.id s.key.id) db.public_keys.rows
          (All-mono _ db.public_keys.rows (λ k r e. let t = r e in ground arith)
            (find-same_row _ db.public_keys.rows s.key c.keys_distinct s.found)))

move_identity-Grows :
    (d : Driver) (msg : MoveIdentityMessage) (root : String) (db : Db)
    → Grows db (process_move_identity d msg root db).1
unfolding process_move_identity
move_identity-Grows d msg root db = transaction_keeps (Grows db) d _ db (Extends-refl _) λ u db' h.
    let s = move_steps d msg db db' h in
    Grows-same db db' (
      ap (λ (r : Db). r.public_keys)
        (tx_update_actor_id-ok d msg.old_actor msg.new_actor db s.rows db' s.updated).1)

burn_down-Grows :
    (d : Driver) (name root : String) (db : Db) → Grows db (process_burn_down d name root db).1
unfolding process_burn_down
burn_down-Grows d name root db = transaction_keeps (Grows db) d _ db (Extends-refl _) λ u db' h.
    let s = burn_steps d name root db db' h in
    let (t, same₁, rows) = tx_delete_symmetric_keys_by_hashes-ok d _ db s.shredded s.deleted in
    let same₂ = tx_revoke_all_keys_for_actor-ok d s.actor.id root s.shredded db' s.revoked_rows in
    subst (λ t. Extends t.rows db'.public_keys.rows) (ap (λ (r : Db). r.public_keys) same₁)
      (subst (Extends s.shredded.public_keys.rows) (sym (ap (λ (r : Db). r.public_keys.rows) same₂))
        (Extends-update d root _ s.shredded.public_keys.rows
          (All-every _ s.shredded.public_keys.rows (λ k e. ground arith))))

add_aux_data-Grows :
    (vs : List Validator) (d : Driver) (random : Option (List ℕ)) (msg : AddAuxDataMessage)
    (root : String) (db : Db)
    → Grows db (process_add_aux_data vs d random msg root db).1
unfolding process_add_aux_data
add_aux_data-Grows vs d random msg root db =
    elim (Bool-cases (accepts (registered vs msg.aux_type) msg.aux_data)) [
      | inr refused ↦ rw refused (Extends-refl _)
      | inl accepted ↦ rw accepted (
          transaction_keeps (Grows db) d _ db (Extends-refl _) λ aux db' h.
            let s = add_aux_steps d random msg root db aux db' h in
            let (there, absent, made, same) =
              tx_insert_aux_data-ok d s.actor.id s.aux_id msg.aux_type msg.aux_data root
                s.with_actor aux db' s.inserted in
            Grows-same db db' (
              ap (λ (r : Db). r.public_keys) same
              ∙ get_or_create_actor-public_keys d msg.actor db s.actor s.with_actor s.found))
    ]

revoke_aux_data-Grows :
    (d : Driver) (msg : RevokeAuxDataMessage) (root : String) (db : Db)
    → Grows db (process_revoke_aux_data d msg root db).1
unfolding process_revoke_aux_data
revoke_aux_data-Grows d msg root db =
    transaction_keeps (Grows db) d _ db (Extends-refl _) λ u db' h.
      let s = revoke_aux_steps d msg root db db' h in
      Grows-same db db' (
        ap (λ (r : Db). r.public_keys)
          (tx_revoke_aux_data-ok d msg.actor msg.aux_id root db s.rows db' s.updated).1)

perform-Grows :
    (vs : List Validator) (c : Driver × Option (List ℕ) × Call) (db : Db)
    → IsConsistent db
    → Grows db (perform vs c db)
unfolding perform crypto_shred
perform-Grows vs (d, random, add_key msg root keys) db h = add_key-Grows d random msg root keys db
perform-Grows vs (d, random, revoke_key msg root keys) db h = revoke_key-Grows d msg root keys db h
perform-Grows vs (d, random, move_identity msg root) db h = move_identity-Grows d msg root db
perform-Grows vs (d, random, burn_down name root) db h = burn_down-Grows d name root db
perform-Grows vs (d, random, shred nanos name) db h = burn_down-Grows d name _ db
perform-Grows vs (d, random, add_aux_data msg root) db h =
    add_aux_data-Grows vs d random msg root db
perform-Grows vs (d, random, revoke_aux_data msg root) db h = revoke_aux_data-Grows d msg root db

-- Over any history of calls of the service from a consistent database, failing ones included, the
-- table of keys is append-only: every row stays at its place and keeps its id, owner, key id, key
-- text, time and Merkle root; a row that is revoked never changes again, and new rows come last.
pub perform_all-Extends :
    (vs : List Validator) (cs : List (Driver × Option (List ℕ) × Call)) (db : Db)
    → IsConsistent db
    → Extends db.public_keys.rows (perform_all vs cs db).public_keys.rows
unfolding perform_all
perform_all-Extends vs [] db h = Extends-refl _
perform_all-Extends vs (c ∷ cs) db h =
    Extends-trans (perform-Grows vs c db h)
      (perform_all-Extends vs cs (perform vs c db) (perform-IsConsistent vs c db h))
