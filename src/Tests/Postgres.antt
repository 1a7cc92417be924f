-- ===== src/Tests/Postgres.antt =====
-- Runs of the statements of internal/db/postgres.go.
use mathlib.Core.List.{Permᴰ}
use pkd_server_go.Prelude.{select, ◌≡◌, refl, List, [], ◌∷◌, ok}
use pkd_server_go.Store.Reads.{find_actor_by_actor_id}
use pkd_server_go.Store.Writes.{tx_revoke_aux_data}
use pkd_server_go.Store.Postgres.{Postgres, lefts, join, pairs_with}
use pkd_server_go.Store.Postgres.Queries.{pg_find_actor_by_actor_id, pg_list_keys_for_actor}
use pkd_server_go.Store.Postgres.Transactions.{pg_tx_revoke_aux_data}
use pkd_server_go.Store.Postgres.Answers.{Permᴰ-refl}
use pkd_server_go.Store.Postgres.Agreement.{reads_agree}
use pkd_server_go.Store.Postgres.Changes.{writes_agree}
use pkd_server_go.Tests.Fixtures.{driver, db, db-IsConsistent, alice_one, alice_two}

module _ {A : Type 0} where
  abbrev swapped : List A → List A
  swapped [] = []
  swapped (x ∷ []) = x ∷ []
  swapped (x ∷ (y ∷ ys)) = y ∷ x ∷ ys

  swapped_permutes : (xs : List A) → Permᴰ (swapped xs) xs
  swapped_permutes [] = Permᴰ.nil
  swapped_permutes (x ∷ []) = Permᴰ-refl (x ∷ [])
  swapped_permutes (x ∷ (y ∷ ys)) = Permᴰ.swap refl refl

-- A PostgreSQL that answers the second row first and skips two numbers.
abbrev postgres : Postgres
postgres = record {
  arrange = λ s xs. swapped xs;
  arranged = λ s xs. swapped_permutes xs;
  lost = λ s. 2;
}

list_keys_run : pg_list_keys_for_actor postgres driver "alice" db ≡ ok (alice_two ∷ alice_one ∷ [])
unfolding pg_list_keys_for_actor lefts select join pairs_with
list_keys_run = refl

reads_agree_example :
    pg_find_actor_by_actor_id postgres driver "alice" db ≡ find_actor_by_actor_id driver "alice" db
reads_agree_example = (reads_agree postgres driver db db-IsConsistent "alice").0

writes_agree_example :
    pg_tx_revoke_aux_data driver "alice" "a1" "root" db
    ≡ tx_revoke_aux_data driver "alice" "a1" "root" db
writes_agree_example = (writes_agree postgres driver db db-IsConsistent).4 "alice" "a1" "root"
