-- ===== src/Domain/Revocation.antt =====
-- What RevokeKey of PKDService does to the lists of active keys.
use pkd_server_go.Prelude.{
  suc, String, ◌≡◌, refl, inl, inr, [], ◌∷◌, false, All, All-select, Bool-cases, ◌≢◌, sym, ap, ◌∙◌,
  Bool, true, not, ◌&&◌, List, some, ok, arith, eqb, eq_iff, find, select, update, count, All-mono,
  select_comm, count-select, find-eq-some,
}
use pkd_server_go.Protocol.Messages.{RevokeKeyMessage}
use pkd_server_go.Store.Driver.{Driver}
use pkd_server_go.Store.Rows.{PublicKey, Db}
use pkd_server_go.Store.Reads.{owned_by, is_active, active_keys}
use pkd_server_go.Store.Writes.{revoked, is_revocable}
use pkd_server_go.Store.Consistency.{IsConsistent}
use pkd_server_go.Store.Outcomes.{tx_revoke_key-ok}
use pkd_server_go.Store.ActiveKeys.{select-update, select-idle, find-same_row, count-without}
use pkd_server_go.Domain.Transaction.{transaction-ok}
use pkd_server_go.Domain.Service.{SymmetricKeys, revoke_key_body, process_revoke_key}
use pkd_server_go.Domain.Steps.{revoke_key_steps}
use pkd_server_go.Domain.Keys.{active_keys-store_keys, not_owner}

abbrev pub without_row : PublicKey → List PublicKey → List PublicKey
without_row key = select (λ k. not (eqb k.id key.id))

count-without_row :
    (q : PublicKey → Bool) (key : PublicKey) (ks : List PublicKey)
    → All (λ k. eqb k.id key.id ≡ true → q k ≡ false) ks
    → count q (without_row key ks) ≡ count q ks
unfolding select count
count-without_row q key [] h = refl
count-without_row q key (k ∷ ks) h = elim (Bool-cases (eqb k.id key.id)) [
  | inl same ↦ let fails = h.0 same in ground (arith, count-without_row q key ks h.1)
  | inr other ↦ ground (arith, count-without_row q key ks h.1)
]

-- the test of `active_keys`
abbrev lists : String → Db → PublicKey → Bool
lists n db k = owned_by n db.actors.rows k.actor_id && is_active k

module _ (d : Driver) (msg : RevokeKeyMessage) (root : String) (db : Db) (c : IsConsistent db)
    (key : PublicKey)
    (found : find (is_revocable msg.actor msg.public_key db.actors.rows) db.public_keys.rows
      ≡ some key) where
  abbrev after_revoke : Db
  after_revoke = record db {
    public_keys = record db.public_keys {
      rows = update (λ k. eqb k.id key.id) (revoked d root) db.public_keys.rows;
    };
  }

  active_keys-revoked :
      (n : String) → active_keys n after_revoke ≡ without_row key (active_keys n db)
  unfolding active_keys
  active_keys-revoked n =
      select-update (lists n db) (λ k. eqb k.id key.id) (revoked d root) db.public_keys.rows
        (λ k. ground arith)

  other_keys-revoked :
      (n : String) → n ≢ msg.actor → without_row key (active_keys n db) ≡ active_keys n db
  unfolding active_keys
  other_keys-revoked n ne =
      select-idle (lists n db) (λ k. eqb k.id key.id) db.public_keys.rows
        (All-mono _ db.public_keys.rows
          (λ k same e.
            let r : is_revocable msg.actor msg.public_key db.actors.rows k ≡ true = same e in
            ground (arith, not_owner n msg.actor k.actor_id db c ne))
          (find-same_row _ db.public_keys.rows key c.keys_distinct found))

  count-revoked :
      (q : PublicKey → Bool)
      → q key ≡ true
      → count q (active_keys msg.actor db)
        ≡ suc (count q (without_row key (active_keys msg.actor db)))
  unfolding active_keys
  count-revoked q h =
      let r = find-eq-some _ db.public_keys.rows key found in
      count-select q (lists msg.actor db) db.public_keys.rows
      ∙ (count-without (λ k. lists msg.actor db k && q k) _ db.public_keys.rows key c.keys_distinct
            found (ground arith)
          ∙ ap suc (
              sym (
                ap (count q) (select_comm _ _ db.public_keys.rows)
                ∙ count-select q (lists msg.actor db) (without_row key db.public_keys.rows))))

  -- The row that is taken off counts for no test that refuses its key text.
  count-kept :
      (q : PublicKey → Bool)
      → ((k : PublicKey) → k.public_key ≡ msg.public_key → q k ≡ false)
      → count q (without_row key (active_keys msg.actor db)) ≡ count q (active_keys msg.actor db)
  unfolding active_keys
  count-kept q h = count-without_row q key _ (
      All-select _ _ db.public_keys.rows (
        All-mono _ db.public_keys.rows
          (λ k same e.
            let r : is_revocable msg.actor msg.public_key db.actors.rows k ≡ true = same e in
            h k ((eq_iff k.public_key msg.public_key).0 (ground arith)))
          (find-same_row _ db.public_keys.rows key c.keys_distinct found)))

  revocable-text : key.public_key ≡ msg.public_key
  revocable-text =
      let r = find-eq-some _ db.public_keys.rows key found in
      (eq_iff key.public_key msg.public_key).0 (ground arith)

revoke_key_lists :
    (d : Driver) (msg : RevokeKeyMessage) (root : String) (keys : SymmetricKeys) (db db' : Db)
    → IsConsistent db
    → revoke_key_body d msg root keys db ≡ (ok tt, db')
    → (key : PublicKey) × (key.public_key ≡ msg.public_key)
      × (active_keys msg.actor db' ≡ without_row key (active_keys msg.actor db))
      × ((q : PublicKey → Bool)
          → q key ≡ true
          → count q (active_keys msg.actor db) ≡ suc (count q (active_keys msg.actor db')))
      × ((n : String) → n ≢ msg.actor → active_keys n db' ≡ active_keys n db)
revoke_key_lists d msg root keys db db' c h =
    let s = revoke_key_steps d msg root keys db db' h in
    let same = tx_revoke_key-ok d s.key.id root db s.without_key s.revoked_row in
    let chain : (n : String) → active_keys n db' ≡ without_row s.key (active_keys n db) = λ n.
      active_keys-store_keys d root keys s.without_key db' n s.stored
      ∙ (ap (active_keys n) same ∙ active_keys-revoked d msg root db c s.key s.found n) in
    (
      s.key,
      revocable-text d msg root db c s.key s.found,
      chain msg.actor,
      (λ q t.
          count-revoked d msg root db c s.key s.found q t
          ∙ ap (λ (xs : List PublicKey). suc (count q xs)) (sym (chain msg.actor))),
      (λ n ne. chain n ∙ other_keys-revoked d msg root db c s.key s.found n ne),
    )

-- Where RevokeKey succeeds on a consistent database, one row with the key text of the message
-- leaves the active keys of the message's actor: whatever test it passes, the active keys of the
-- actor that pass it are one less. The active keys of every other actor stay the same.
pub active_keys-process_revoke_key :
    (d : Driver) (msg : RevokeKeyMessage) (root : String) (keys : SymmetricKeys) (db : Db)
    → IsConsistent db
    → (process_revoke_key d msg root keys db).0 ≡ ok tt
    → (key : PublicKey) × (key.public_key ≡ msg.public_key)
      × (active_keys msg.actor (process_revoke_key d msg root keys db).1
          ≡ without_row key (active_keys msg.actor db))
      × ((q : PublicKey → Bool)
          → q key ≡ true
          → count q (active_keys msg.actor db)
            ≡ suc (count q (active_keys msg.actor (process_revoke_key d msg root keys db).1)))
      × ((n : String)
          → n ≢ msg.actor
          → active_keys n (process_revoke_key d msg root keys db).1 ≡ active_keys n db)
unfolding process_revoke_key
active_keys-process_revoke_key d msg root keys db c h =
    revoke_key_lists d msg root keys db _ c (transaction-ok d _ db h)

-- Where RevokeKey succeeds, the actor keeps its active keys with other texts.
pub other_texts-process_revoke_key :
    (d : Driver) (msg : RevokeKeyMessage) (root : String) (keys : SymmetricKeys) (db : Db)
    → IsConsistent db
    → (process_revoke_key d msg root keys db).0 ≡ ok tt
    → (q : PublicKey → Bool) → ((k : PublicKey) → k.public_key ≡ msg.public_key → q k ≡ false)
    → count q (active_keys msg.actor (process_revoke_key d msg root keys db).1)
      ≡ count q (active_keys msg.actor db)
unfolding process_revoke_key
other_texts-process_revoke_key d msg root keys db c h q fails =
    let body = transaction-ok d (revoke_key_body d msg root keys) db h in
    let s = revoke_key_steps d msg root keys db _ body in
    let same = tx_revoke_key-ok d s.key.id root db s.without_key s.revoked_row in
    ap (count q) (
      active_keys-store_keys d root keys s.without_key _ msg.actor s.stored
      ∙ (ap (active_keys msg.actor) same
          ∙ active_keys-revoked d msg root db c s.key s.found msg.actor))
    ∙ count-kept d msg root db c s.key s.found q fails
