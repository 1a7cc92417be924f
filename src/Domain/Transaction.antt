-- ===== src/Domain/Transaction.antt =====
-- The failures of internal/domain/service.go, and its transactions: BeginTx, a body of statements
-- on the working copy, Commit at its end, and the deferred Rollback on every way out.
use pkd_server_go.Prelude.{
  String, Option, none, some, Result, ok, err, ◌≡◌, arith, if◌then◌else◌, inl, inr, subst, sym,
  Result-cases, wrap,
}
use pkd_server_go.Store.Driver.{Driver, DbError, begin_tx, commit_tx}
use pkd_server_go.Store.Rows.{Db}

pub data Failure : Type 0 where
  begin_failed commit_failed : Failure
  actor_failed insert_key_failed store_symmetric_failed : DbError → Failure
  find_key_failed revoke_failed : DbError → Failure
  exists_failed update_actor_failed : DbError → Failure
  find_actor_failed gather_failed delete_symmetric_failed revoke_all_failed : DbError → Failure
  insert_aux_failed revoke_aux_failed : DbError → Failure
  generate_id_failed : Failure
  key_not_found : String → Failure
  new_actor_exists : String → Failure
  actor_to_move_not_found : String → Failure
  actor_not_found : Failure
  invalid_aux_data : String → Failure
  aux_not_found : String → Failure

-- The statements between BeginTx and Commit: from the working copy to a value or an error, and the
-- working copy as the statements that were executed have left it, also where a later one fails.
abbrev pub Tx : Type 0 → Type 0
Tx A = Db → Result Failure A × Db

abbrev continue : {A B : Type 0} → Result Failure A → (A → Tx B) → Tx B
continue (err e) next db = (err e, db)
continue (ok a) next db = next a db

infixl 5 ◌>>=◌ ◌>>◌
abbrev pub ◌>>=◌ : {A B : Type 0} → Tx A → (A → Tx B) → Tx B
◌>>=◌ body next db = let (r, db') = body db in continue r next db'

abbrev pub ◌>>◌ : {B : Type 0} → Tx (Unit {0}) → Tx B → Tx B
first >> second = first >>= (λ u. second)

abbrev pub done : {A : Type 0} → A → Tx A
done a db = (ok a, db)

-- `return err`, or the value
abbrev pub or_return : {A : Type 0} → Result Failure A → Tx A
or_return r db = (r, db)

-- a statement that reads
abbrev pub reads : {A : Type 0} → (DbError → Failure) → (Db → Result DbError A) → Tx A
reads f statement db = (wrap f (statement db), db)

abbrev after_statement :
    {A : Type 0} → (DbError → Failure) → Db → Result DbError (A × Db) → Result Failure A × Db
after_statement f db (err e) = (err (f e), db)
after_statement f db (ok (a, db')) = (ok a, db')

-- a statement that writes and answers: one that fails writes nothing
abbrev pub executes : {A : Type 0} → (DbError → Failure) → (Db → Result DbError (A × Db)) → Tx A
executes f statement db = after_statement f db (statement db)

abbrev after_write : (DbError → Failure) → Db → Result DbError Db → Result Failure (Unit {0}) × Db
after_write f db (err e) = (err (f e), db)
after_write f db (ok db') = (ok tt, db')

-- a statement that writes
abbrev pub writes : (DbError → Failure) → (Db → Result DbError Db) → Tx (Unit {0})
writes f statement db = after_write f db (statement db)

-- A connection: the committed database, and the working copy of an open transaction.
pub record Connection : Type 0 where
  pub stored : Db
  pub working : Option Db

abbrev pub begin : Connection → Connection
begin c = record c { working = some c.stored }

-- `tx.Commit()`: nothing is stored where it fails.
abbrev commit_working : Connection → Option Db → Connection
commit_working c none = c
commit_working c (some db) = record { stored = db; working = none }

-- `tx.Rollback()`: drops the working copy; after a commit there is none, and the error is logged.
abbrev pub rollback : Connection → Connection
rollback c = record c { working = none }

unfoldable pub commit : {A : Type 0} → Driver → A → Connection → Result Failure A × Connection
commit d a c =
    if d.down commit_tx then (err commit_failed, c) else (ok a, commit_working c c.working)

-- The body's statements write to the working copy alone. A body that returns an error leaves there
-- what it has written so far.
unfoldable pub run_body :
    {A : Type 0} → Driver → Result Failure A × Db → Connection → Result Failure A × Connection
unfolding commit
run_body d (err e, db) c = (err e, record c { working = some db })
run_body d (ok a, db) c = commit d a (record c { working = some db })

-- What the next statement on the connection sees: the writes of a transaction that is left open too.
abbrev seen_with : Db → Option Db → Db
seen_with stored none = stored
seen_with stored (some db) = db

abbrev seen : Connection → Db
seen c = seen_with c.stored c.working

-- `defer tx.Rollback()`
abbrev deferred : {A : Type 0} → Result Failure A × Connection → Result Failure A × Connection
deferred (r, c) = (r, rollback c)

unfoldable pub transaction : {A : Type 0} → Driver → Tx A → Db → Result Failure A × Db
unfolding run_body
transaction d body db =
    let c : Connection = record { stored = db; working = none } in
    if d.down begin_tx
    then (err begin_failed, db)
    else (let (r, c') = deferred (run_body d (body db) (begin c)) in (r, seen c'))

-- What a transaction does, by the outcome of its body.
module _ {A : Type 0} (d : Driver) (body : Tx A) (db : Db) where
  pub transaction-error :
      {e : Failure} → (transaction d body db).0 ≡ err e → (transaction d body db).1 ≡ db
  unfolding transaction
  transaction-error h = ground arith

  pub transaction-ok :
      {a : A} → (transaction d body db).0 ≡ ok a → body db ≡ (ok a, (transaction d body db).1)
  unfolding transaction
  transaction-ok h = ground arith

-- A property that the body keeps where it succeeds is kept by the transaction, which may fail.
pub transaction_keeps :
    {A : Type 0} (P : Db → Type 0) (d : Driver) (body : Tx A) (db : Db)
    → P db
    → ((a : A) (db' : Db) → body db ≡ (ok a, db') → P db')
    → P (transaction d body db).1
transaction_keeps P d body db before after = elim (Result-cases (transaction d body db).0) [
  | inl (a, e) ↦ after a _ (transaction-ok d body db e)
  | inr (e, p) ↦ subst P (sym (transaction-error d body db p)) before
]
