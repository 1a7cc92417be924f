-- ===== src/Domain/BurnDown.antt =====
-- What BurnDown of PKDService does, and so an administrator's CryptoShred.
use pkd_server_go.Prelude.{
  ℕ, String, ◌≡◌, ◌≢◌, refl, sym, ap, ◌∙◌, subst, inl, inr, Bool, true, false, not, ◌&&◌, List, [],
  ◌∷◌, some, ok, arith, eqb, eqb_iff, ◌==◌, eq_iff, any, find, select, update, All-every, any-join,
  any-ext, Bool-cases,
}
use pkd_server_go.Store.Driver.{Driver}
use pkd_server_go.Store.Rows.{Actor, PublicKey, SymmetricKey, Table, Db}
use pkd_server_go.Store.Reads.{has_actor_id, owned_by, is_active, active_keys}
use pkd_server_go.Store.Writes.{revoked, all_hashes, hashes_of, is_hash_in}
use pkd_server_go.Store.Consistency.{IsConsistent}
use pkd_server_go.Store.Ownership.{find-owned_by, one_id}
use pkd_server_go.Store.Outcomes.{
  tx_delete_symmetric_keys_by_hashes-ok, tx_revoke_all_keys_for_actor-ok,
}
use pkd_server_go.Store.ActiveKeys.{select-update, select-idle, select-covered}
use pkd_server_go.Domain.Transaction.{transaction-ok}
use pkd_server_go.Domain.Service.{burn_down_body, process_burn_down}
use pkd_server_go.Domain.Steps.{burn_steps, hashes_of_actor}
use pkd_server_go.Domain.Keys.{not_owner}

abbrev pub has_hash : String → PublicKey → Bool
has_hash h k = any (λ x. h == x) (hashes_of k)

-- One of the actor's keys, revoked or not, was added or revoked under this Merkle root.
unfoldable pub is_hash_of : String → Db → String → Bool
is_hash_of name db h =
    any (λ k. owned_by name db.actors.rows k.actor_id && has_hash h k) db.public_keys.rows

-- the symmetric keys of a message hash
abbrev pub keys_of_hash : String → Db → List SymmetricKey
keys_of_hash h db = select (λ s. s.message_hash == h) db.symmetric_keys.rows

any-all_hashes :
    (h : String) (owner : ℕ) (ks : List PublicKey)
    → any (λ x. h == x) (all_hashes (select (λ k. eqb k.actor_id owner) ks))
      ≡ any (λ k. eqb k.actor_id owner && has_hash h k) ks
unfolding any all_hashes select
any-all_hashes h owner [] = refl
any-all_hashes h owner (k ∷ ks) = ground (
  arith,
  any-all_hashes h owner ks,
  any-join (λ x. h == x) (hashes_of k) (all_hashes (select (λ k. eqb k.actor_id owner) ks)),
)

-- Where a name has an actor, the actor's id owns what the name owns.
owner_eqb :
    (name : String) (a : Actor) (db : Db) (owner : ℕ)
    → IsConsistent db
    → find (has_actor_id name) db.actors.rows ≡ some a
    → owned_by name db.actors.rows owner ≡ eqb owner a.id
owner_eqb name a db owner c found =
    let own = find-owned_by name db.actors.rows a found in
    elim (Bool-cases (owned_by name db.actors.rows owner)) [
      | inl yes_ ↦
          yes_
          ∙ sym (
              (eqb_iff owner a.id).1
                (one_id name owner a.id db.actors.rows c.names_distinct yes_ own))
      | inr no_ ↦ elim (Bool-cases (eqb owner a.id)) [
        | inr differ ↦ no_ ∙ sym differ
        | inl same ↦ cc (
            subst (λ o. owned_by name db.actors.rows o ≡ true) (sym ((eqb_iff owner a.id).0 same))
              own)
      ]
    ]

shredded_keys :
    (h : String) (hashes : List String) (ss : List SymmetricKey)
    → any (λ x. h == x) hashes ≡ true
    → select (λ s. s.message_hash == h) (select (λ s. not (is_hash_in hashes s)) ss) ≡ []
unfolding select is_hash_in
shredded_keys h hashes [] e = refl
shredded_keys h hashes (s ∷ ss) e = elim (Bool-cases (s.message_hash == h)) [
  | inr differ ↦ ground (arith, shredded_keys h hashes ss e)
  | inl same ↦
      let e' : any (λ x. s.message_hash == x) hashes ≡ true =
        subst (λ g. any (λ x. g == x) hashes ≡ true) (sym ((eq_iff s.message_hash h).0 same)) e in
      ground (arith, shredded_keys h hashes ss e)
]

kept_keys :
    (h : String) (hashes : List String) (ss : List SymmetricKey)
    → any (λ x. h == x) hashes ≡ false
    → select (λ s. s.message_hash == h) (select (λ s. not (is_hash_in hashes s)) ss)
      ≡ select (λ s. s.message_hash == h) ss
unfolding select is_hash_in
kept_keys h hashes [] e = refl
kept_keys h hashes (s ∷ ss) e = elim (Bool-cases (s.message_hash == h)) [
  | inr differ ↦ ground (arith, kept_keys h hashes ss e)
  | inl same ↦
      let e' : any (λ x. s.message_hash == x) hashes ≡ false =
        subst (λ g. any (λ x. g == x) hashes ≡ false) (sym ((eq_iff s.message_hash h).0 same)) e in
      ground (arith, kept_keys h hashes ss e)
]

module _ (d : Driver) (name root : String) (a : Actor) (t : Table SymmetricKey) (db : Db)
    (c : IsConsistent db) (found : find (has_actor_id name) db.actors.rows ≡ some a) where
  abbrev burns : PublicKey → Bool
  burns k = eqb k.actor_id a.id && is_active k

  abbrev burned : Db
  burned = record db {
    symmetric_keys = t;
    public_keys = record db.public_keys {
      rows = update burns (revoked d root) db.public_keys.rows;
    };
  }

  abbrev on_list : String → PublicKey → Bool
  on_list n k = owned_by n db.actors.rows k.actor_id && is_active k

  active_keys-burned :
      (n : String) → active_keys n burned ≡ select (λ k. not (burns k)) (active_keys n db)
  unfolding active_keys
  active_keys-burned n =
      select-update (on_list n) burns (revoked d root) db.public_keys.rows (λ k. ground arith)

  no_keys-burned : active_keys name burned ≡ []
  unfolding active_keys
  no_keys-burned =
      active_keys-burned name
      ∙ select-covered (on_list name) burns db.public_keys.rows
          (λ k h. ground (arith, owner_eqb name a db k.actor_id c found))

  other_keys-burned : (n : String) → n ≢ name → active_keys n burned ≡ active_keys n db
  unfolding active_keys
  other_keys-burned n ne =
      active_keys-burned n
      ∙ select-idle (on_list n) burns db.public_keys.rows (
          All-every _ db.public_keys.rows (λ k h.
            ground
              (arith, owner_eqb name a db k.actor_id c found, not_owner n name k.actor_id db c ne)))

-- The hashes that are gathered are those of the name.
hashes_of_name :
    (name h : String) (a : Actor) (db : Db)
    → IsConsistent db
    → find (has_actor_id name) db.actors.rows ≡ some a
    → any (λ x. h == x) (all_hashes (select (λ k. eqb k.actor_id a.id) db.public_keys.rows))
      ≡ is_hash_of name db h
unfolding is_hash_of
hashes_of_name name h a db c found =
    any-all_hashes h a.id db.public_keys.rows
    ∙ any-ext _ _ db.public_keys.rows
        (λ k. ap (λ b. b && has_hash h k) (sym (owner_eqb name a db k.actor_id c found)))

burn_lists :
    (d : Driver) (name root : String) (db db' : Db)
    → IsConsistent db
    → burn_down_body d name root db ≡ (ok tt, db')
    → (active_keys name db' ≡ [])
      × ((n : String) → n ≢ name → active_keys n db' ≡ active_keys n db)
      × ((h : String) → is_hash_of name db h ≡ true → keys_of_hash h db' ≡ [])
      × ((h : String) → is_hash_of name db h ≡ false → keys_of_hash h db' ≡ keys_of_hash h db)
      × (db'.auxiliary_data ≡ db.auxiliary_data)
burn_lists d name root db db' c run =
    let s = burn_steps d name root db db' run in
    let (t, same₁, rows) = tx_delete_symmetric_keys_by_hashes-ok d _ db s.shredded s.deleted in
    let same₂ = tx_revoke_all_keys_for_actor-ok d s.actor.id root s.shredded db' s.revoked_rows in
    let same : db' ≡ burned d name root s.actor t db c s.found = ground arith in
    let gathered = λ (h : String). hashes_of_name name h s.actor db c s.found in
    let hashes = hashes_of_actor d name root db s.actor in
    let left : (h : String)
        → keys_of_hash h db'
          ≡ select (λ s. s.message_hash == h)
              (select (λ s. not (is_hash_in hashes s)) db.symmetric_keys.rows) =
      λ h. ap (keys_of_hash h) same ∙ ap (select (λ s. s.message_hash == h)) rows in
    (
      ap (active_keys name) same ∙ no_keys-burned d name root s.actor t db c s.found,
      (λ n ne. ap (active_keys n) same ∙ other_keys-burned d name root s.actor t db c s.found n ne),
      (λ h e. left h ∙ shredded_keys h hashes db.symmetric_keys.rows (gathered h ∙ e)),
      (λ h e. left h ∙ kept_keys h hashes db.symmetric_keys.rows (gathered h ∙ e)),
      ap (λ (r : Db). r.auxiliary_data) same,
    )

-- Where BurnDown succeeds on a consistent database: the actor has no active key left, and every
-- other actor has the keys that it had; of a message hash under which one of the actor's keys was
-- added or revoked no symmetric key is left, and of any other hash all are; and no auxiliary data
-- change, those of the actor included.
pub active_keys-process_burn_down :
    (d : Driver) (name root : String) (db : Db)
    → IsConsistent db
    → (process_burn_down d name root db).0 ≡ ok tt
    → (active_keys name (process_burn_down d name root db).1 ≡ [])
      × ((n : String)
          → n ≢ name
          → active_keys n (process_burn_down d name root db).1 ≡ active_keys n db)
      × ((h : String)
          → is_hash_of name db h ≡ true
          → keys_of_hash h (process_burn_down d name root db).1 ≡ [])
      × ((h : String)
          → is_hash_of name db h ≡ false
          → keys_of_hash h (process_burn_down d name root db).1 ≡ keys_of_hash h db)
      × ((process_burn_down d name root db).1.auxiliary_data ≡ db.auxiliary_data)
unfolding process_burn_down
active_keys-process_burn_down d name root db c h =
    burn_lists d name root db _ c (transaction-ok d _ db h)
