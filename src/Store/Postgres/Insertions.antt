-- ===== src/Store/Postgres/Insertions.antt =====
-- The batch of symmetric keys, as either repository inserts it.
use pkd_server_go.Prelude.{
  ℕ, String, ◌≡◌, refl, sym, ap, ◌∙◌, ◌⊎◌, true, List, [], ◌∷◌, ◌++◌, Option, none, some, arith,
  update, any, inl, inr, Bool-cases, any-update,
}
use pkd_server_go.Store.Driver.{Driver, insert_symmetric_keys}
use pkd_server_go.Store.Rows.{SymmetricKey, Table}
use pkd_server_go.Store.Writes.{is_symmetric_key, insert_symmetric_rows, append_row}
use pkd_server_go.Store.Postgres.{Postgres, insert_row}
use pkd_server_go.Store.Postgres.Transactions.{pg_insert_symmetric_rows}

-- The rows but for their ids.
abbrev pub without_ids : List SymmetricKey → List SymmetricKey
without_ids rows = update (λ s. true) (λ s. record s { id = 0 }) rows

without_ids-append :
    (rows : List SymmetricKey) (s : SymmetricKey)
    → without_ids (rows ++ s ∷ []) ≡ without_ids rows ++ record s { id = 0 } ∷ []
unfolding update
without_ids-append [] s = refl
without_ids-append (x ∷ rows) s = ap (◌∷◌ (record x { id = 0 })) (without_ids-append rows s)

same_attributes :
    (hash attribute : String) (xs ys : List SymmetricKey)
    → without_ids xs ≡ without_ids ys
    → any (is_symmetric_key hash attribute) xs ≡ any (is_symmetric_key hash attribute) ys
same_attributes hash attribute xs ys e =
    let test = is_symmetric_key hash attribute in
    sym (any-update test (λ s. true) (λ s. record s { id = 0 }) xs (λ s. refl))
    ∙ ap (any test) e
    ∙ any-update test (λ s. true) (λ s. record s { id = 0 }) ys (λ s. refl)

-- Both insertions meet a key that is there, or both go through, with the same rows but for the ids.
abbrev pub AlikeTables : Option (Table SymmetricKey) → Option (Table SymmetricKey) → Type 0
AlikeTables a b =
    ((a ≡ none) × (b ≡ none))
    ⊎ ((t : Table SymmetricKey) × (u : Table SymmetricKey) × (a ≡ some t)
        × (b ≡ some u)
        × (without_ids t.rows ≡ without_ids u.rows))

pub inserted_alike :
    (g : Postgres) (d : Driver) (hash : String) (keys : List (String × List ℕ))
    (t u : Table SymmetricKey)
    → without_ids t.rows ≡ without_ids u.rows
    → AlikeTables (pg_insert_symmetric_rows g d hash keys t) (insert_symmetric_rows d hash keys u)
unfolding pg_insert_symmetric_rows insert_symmetric_rows
inserted_alike g d hash [] t u e = inr (t, u, refl, refl, e)
inserted_alike g d hash ((attribute, key) ∷ rest) t u e =
    let same = same_attributes hash attribute t.rows u.rows e in
    elim (Bool-cases (any (is_symmetric_key hash attribute) t.rows)) [
      | inl doubled ↦ inl (ground arith, ground arith)
      | inr fresh ↦
          let row : ℕ → SymmetricKey = λ id. record {
            id = id;
            message_hash = hash;
            attribute = attribute;
            key = key;
            created_at = d.now;
          } in
          let t' = insert_row (g.lost insert_symmetric_keys) row t in
          let u' = append_row row u in
          let alike : without_ids t'.rows ≡ without_ids u'.rows =
            without_ids-append t.rows (row t'.seq)
            ∙ ap (λ rows. rows ++ row 0 ∷ []) e
            ∙ sym (without_ids-append u.rows (row u'.seq)) in
          let a : pg_insert_symmetric_rows g d hash ((attribute, key) ∷ rest) t
              ≡ pg_insert_symmetric_rows g d hash rest t' =
            ground arith in
          let b : insert_symmetric_rows d hash ((attribute, key) ∷ rest) u
              ≡ insert_symmetric_rows d hash rest u' =
            ground arith in
          elim (inserted_alike g d hash rest t' u' alike) [
            | inl (x, y) ↦ inl (a ∙ x, b ∙ y)
            | inr (v, w, x, y, z) ↦ inr (v, w, a ∙ x, b ∙ y, z)
          ]
    ]
