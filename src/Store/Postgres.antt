-- ===== src/Store/Postgres.antt =====
-- What internal/db/postgres.go meets in PostgreSQL that SQLite does not do: the tables of
-- sql/pgsql have the columns of those of SQLite, but the order of rows and the ids are PostgreSQL's
-- choice.
use pkd_server_go.Prelude.{ℕ, suc, ◌+◌, Bool, List, [], ◌∷◌, ◌++◌, Option, none, some, select}
use mathlib.Core.List.{Permᴰ}
use pkd_server_go.Store.Driver.{Statement}
use pkd_server_go.Store.Rows.{Table}
pub mod Queries
pub mod Transactions
pub mod Answers
pub mod Agreement
pub mod Changes
pub mod Hashes
pub mod Insertions
pub mod Newest

-- A query without ORDER BY answers its rows in any order; a BIGSERIAL sequence does not give the
-- numbers again that a failed or undone insertion has drawn.
pub record Postgres : Type 1 where
  pub arrange : {A : Type 0} → Statement → List A → List A
  pub arranged : {A : Type 0} (s : Statement) (xs : List A) → Permᴰ (arrange s xs) xs
  pub lost : Statement → ℕ

-- GetContext: the first row of the answer
abbrev pub first_of {ℓ} : {A : Type ℓ} → List A → Option A
first_of [] = none
first_of (x ∷ xs) = some x

-- FROM xs JOIN ys ON on: the pairs
unfoldable pub pairs_with {ℓ} : {A B : Type ℓ} → A → List B → List (A × B)
pairs_with x [] = []
pairs_with x (y ∷ ys) = (x, y) ∷ pairs_with x ys

unfoldable pub join {ℓ} : {A B : Type ℓ} → (A → B → Bool) → List A → List B → List (A × B)
join on [] ys = []
join on (x ∷ xs) ys = pairs_with x (select (on x) ys) ++ join on xs ys

-- SELECT x.*
unfoldable pub lefts {ℓ} : {A B : Type ℓ} → List (A × B) → List A
lefts [] = []
lefts ((x, y) ∷ ps) = x ∷ lefts ps

-- INSERT, with the next number of the sequence that is not lost
abbrev pub insert_row {ℓ} : {A : Type ℓ} → ℕ → (ℕ → A) → Table A → Table A
insert_row n row t = record { rows = t.rows ++ row (suc (t.seq + n)) ∷ []; seq = suc (t.seq + n) }
