-- ===== src/Domain/Keys.antt =====
-- What AddKey of PKDService does to the lists of active keys.
use pkd_server_go.Prelude.{
  Result, ℕ, suc, String, ◌≡◌, ◌≢◌, sym, ap, ◌∙◌, inl, inr, true, false, List, [], ◌∷◌, ◌++◌,
  Option, none, ok, arith, eq_refl, select-append, append-nil, Bool-cases, if◌then◌else◌,
}
use pkd_server_go.Protocol.Messages.{AddKeyMessage}
use pkd_server_go.Store.Driver.{Driver}
use pkd_server_go.Store.Rows.{Actor, PublicKey, Db}
use pkd_server_go.Store.Reads.{owned_by, active_keys}
use pkd_server_go.Store.Writes.{tx_insert_public_key, append_row, new_actor, get_or_create_actor}
use pkd_server_go.Store.Consistency.{IsConsistent}
use pkd_server_go.Store.Ownership.{one_owner, owned_by-append, find-owned_by}
use pkd_server_go.Store.Outcomes.{
  get_or_create_actor-ok, new_key, tx_insert_public_key-ok, tx_store_symmetric_keys-ok,
}
use pkd_server_go.Store.Preservation.{get_or_create_actor-IsConsistent}
use pkd_server_go.Store.ActiveKeys.{active_keys-with_actor}
use pkd_server_go.Domain.Transaction.{transaction-ok}
use pkd_server_go.Domain.Service.{add_key_body, SymmetricKeys, store_keys, process_add_key}
use pkd_server_go.Domain.Transaction.{Failure}
use pkd_server_go.Domain.Steps.{store_keys-inserted, add_key_steps}

-- The batch of symmetric keys touches no other table.
pub active_keys-store_keys :
    (d : Driver) (root : String) (keys : SymmetricKeys) (db db' : Db) (n : String)
    → store_keys d root keys db ≡ (ok tt, db')
    → active_keys n db' ≡ active_keys n db
unfolding store_keys active_keys
active_keys-store_keys d root [] db db' n h =
    ap (λ (r : (Result Failure (Unit {0})) × Db). active_keys n r.1) (sym h)
active_keys-store_keys d root (k ∷ ks) db db' n h =
    let (t, inserted, same) =
      tx_store_symmetric_keys-ok d root (k ∷ ks) db db'
        (store_keys-inserted d root k ks db db' h) in
    ap (λ (r : Db). active_keys n r) same

-- The actor of a message owns the id that the message's rows get.
pub actor_of_message :
    (d : Driver) (name : String) (db : Db) (actor : Actor) (db₁ : Db)
    → get_or_create_actor d name db ≡ ok (actor, db₁)
    → owned_by name db₁.actors.rows actor.id ≡ true
actor_of_message d name db actor db₁ h = elim (get_or_create_actor-ok d name db actor db₁ h) [
  | inl (found, same) ↦ rw same (find-owned_by name db.actors.rows actor found)
  | inr (absent, new, same) ↦
      rw (same, new)
        (owned_by-append name (suc db.actors.seq) db.actors.rows
            (new_actor d name (suc db.actors.seq))
          ∙ ground (arith, eq_refl name))
]

-- Finding or creating the actor of a message changes no list.
pub active_keys-get_or_create :
    (d : Driver) (name : String) (db : Db) (actor : Actor) (db₁ : Db) (n : String)
    → IsConsistent db
    → get_or_create_actor d name db ≡ ok (actor, db₁)
    → active_keys n db₁ ≡ active_keys n db
active_keys-get_or_create d name db actor db₁ n c h =
    elim (get_or_create_actor-ok d name db actor db₁ h) [
      | inl (found, same) ↦ ap (active_keys n) same
      | inr (absent, new, same) ↦ ap (active_keys n) same ∙ active_keys-with_actor d n name db c
    ]

active_keys-with_key :
    (d : Driver) (owner : ℕ) (key_id public_key root n : String) (db : Db)
    → active_keys n (record db {
      public_keys = append_row (new_key d owner key_id public_key root) db.public_keys;
    })
      ≡ active_keys n db
        ++ (if owned_by n db.actors.rows owner
            then new_key d owner key_id public_key root (suc db.public_keys.seq) ∷ []
            else [])
unfolding active_keys
active_keys-with_key d owner key_id public_key root n db =
    select-append _ db.public_keys.rows _ ∙ ground arith

active_keys-insert :
    (d : Driver) (owner : ℕ) (key_id public_key root n : String) (db : Db) (key : PublicKey)
    (db' : Db)
    → tx_insert_public_key d owner key_id public_key root db ≡ ok (key, db')
    → active_keys n db'
      ≡ active_keys n db ++ (if owned_by n db.actors.rows owner then key ∷ [] else [])
active_keys-insert d owner key_id public_key root n db key db' h =
    let (there, absent, made, same) =
      tx_insert_public_key-ok d owner key_id public_key root db key db' h in
    ap (active_keys n) same
    ∙ (active_keys-with_key d owner key_id public_key root n db
        ∙ ap
            (λ (k : PublicKey).
              active_keys n db ++ (if owned_by n db.actors.rows owner then k ∷ [] else []))
            (sym made))

-- A row is of one actor.
pub not_owner :
    (n m : String) (owner : ℕ) (db : Db)
    → IsConsistent db
    → n ≢ m
    → owned_by m db.actors.rows owner ≡ true
    → owned_by n db.actors.rows owner ≡ false
not_owner n m owner db c h own = elim (Bool-cases (owned_by n db.actors.rows owner)) [
  | inr free ↦ free
  | inl both ↦ absurd (h (one_owner n m owner db.actors.rows c.actors_distinct both own))
]

add_key_lists :
    (d : Driver) (random : Option (List ℕ)) (msg : AddKeyMessage) (root : String)
    (keys : SymmetricKeys) (db : Db) (key : PublicKey) (db' : Db)
    → IsConsistent db
    → add_key_body d random msg root keys db ≡ (ok key, db')
    → (active_keys msg.actor db' ≡ active_keys msg.actor db ++ key ∷ [])
      × ((n : String) → n ≢ msg.actor → active_keys n db' ≡ active_keys n db)
      × (key.public_key ≡ msg.public_key)
      × (key.merkle_root ≡ root)
      × (key.revoked_at ≡ none)
add_key_lists d random msg root keys db key db' c h =
    let s = add_key_steps d random msg root keys db key db' h in
    let c₁ = get_or_create_actor-IsConsistent d msg.actor db c s.actor s.with_actor s.found in
    let own = actor_of_message d msg.actor db s.actor s.with_actor s.found in
    let (there, absent, made, same) =
      tx_insert_public_key-ok d s.actor.id s.key_id msg.public_key root s.with_actor key s.with_key
        s.inserted in
    let owned = λ (n : String). owned_by n s.with_actor.actors.rows s.actor.id in
    let chain : (n : String)
        → active_keys n db' ≡ active_keys n db ++ (if owned n then key ∷ [] else []) =
      λ n.
        active_keys-store_keys d root keys s.with_key db' n s.stored
        ∙ (active_keys-insert d s.actor.id s.key_id msg.public_key root n s.with_actor key
              s.with_key s.inserted
            ∙ ap (λ (xs : List PublicKey). xs ++ (if owned n then key ∷ [] else []))
                (active_keys-get_or_create d msg.actor db s.actor s.with_actor n c s.found)) in
    (
      rw own at (chain msg.actor),
      (λ n ne.
          chain n ∙ rw (not_owner n msg.actor s.actor.id s.with_actor c₁ ne own) (append-nil _)),
      ap (λ (k : PublicKey). k.public_key) made,
      ap (λ (k : PublicKey). k.merkle_root) made,
      ap (λ (k : PublicKey). k.revoked_at) made,
    )

-- Where AddKey succeeds on a consistent database, the new key, which carries the message's key
-- text and the Merkle root, is appended to the active keys of the message's actor, and the active
-- keys of every other actor stay the same.
pub active_keys-process_add_key :
    (d : Driver) (random : Option (List ℕ)) (msg : AddKeyMessage) (root : String)
    (keys : SymmetricKeys) (db : Db) (key : PublicKey)
    → IsConsistent db
    → (process_add_key d random msg root keys db).0 ≡ ok key
    → (active_keys msg.actor (process_add_key d random msg root keys db).1
        ≡ active_keys msg.actor db ++ key ∷ [])
      × ((n : String)
          → n ≢ msg.actor
          → active_keys n (process_add_key d random msg root keys db).1 ≡ active_keys n db)
      × (key.public_key ≡ msg.public_key)
      × (key.merkle_root ≡ root)
      × (key.revoked_at ≡ none)
unfolding process_add_key
active_keys-process_add_key d random msg root keys db key c h =
    add_key_lists d random msg root keys db key _ c (transaction-ok d _ db h)
