-- ===== src/Store/ActiveKeys.antt =====
-- How the lists of active keys and of active auxiliary data change with the tables.
use pkd_server_go.Prelude.{
  ℕ, suc, ◌≤◌, String, ◌≡◌, ◌≢◌, refl, ap, subst, Bool-cases, ◌∙◌, inl, inr, Bool, true, false, not,
  ◌&&◌, List, [], ◌∷◌, ◌++◌, some, arith, eqb, eqb_iff, eq_iff, eq_refl, any, find, select, update,
  count, All, All-mono, Unique, select-ext,
}
use pkd_server_go.Store.Driver.{Driver}
use pkd_server_go.Store.Rows.{Actor, PublicKey, Db}
use pkd_server_go.Store.Reads.{
  has_actor_id, owned_by, is_active, is_active_aux, active_keys, active_aux,
}
use pkd_server_go.Store.Writes.{append_row, new_actor}
use pkd_server_go.Store.Consistency.{IsConsistent, has_id, same_row}
use pkd_server_go.Store.Ownership.{owned_by-append, has_id-le}
use pkd_server_go.Store.Outcomes.{renamed}

-- An actor with a fresh id owns no row.
owned_by-fresh :
    (n name : String) (d : Driver) (bound owner : ℕ) (xs : List Actor)
    → owner ≤ bound
    → owned_by n (xs ++ new_actor d name (suc bound) ∷ []) owner ≡ owned_by n xs owner
owned_by-fresh n name d bound owner xs h =
    ground (arith, owned_by-append n owner xs (new_actor d name (suc bound)))

module _ (d : Driver) (n name : String) (db : Db) (c : IsConsistent db) where
  abbrev pub with_actor : Db
  with_actor = record db { actors = append_row (new_actor d name) db.actors }

  owner-fresh :
      (owner : ℕ)
      → any (has_id owner) db.actors.rows ≡ true
      → owned_by n with_actor.actors.rows owner ≡ owned_by n db.actors.rows owner
  owner-fresh owner h =
      owned_by-fresh n name d db.actors.seq owner db.actors.rows
        (has_id-le owner db.actors.seq db.actors.rows c.actors_fresh h)

  -- A new actor changes no list.
  pub active_keys-with_actor : active_keys n with_actor ≡ active_keys n db
  unfolding active_keys
  active_keys-with_actor =
      select-ext _ _ db.public_keys.rows
        (All-mono _ _ (λ k h. ap (λ b. b && is_active k) (owner-fresh k.actor_id h)) c.keys_owned)

  pub active_aux-with_actor : active_aux n with_actor ≡ active_aux n db
  unfolding active_aux
  active_aux-with_actor =
      select-ext _ _ db.auxiliary_data.rows (
        All-mono _ _ (λ x h. ap (λ b. b && is_active_aux x) (owner-fresh x.actor_id h)) c.aux_owned)

module _ {ℓ} {A : Type ℓ} where
  -- A change that makes rows fail a test takes them off the list of that test.
  pub select-update :
      (q p : A → Bool) (f : A → A) (xs : List A)
      → ((x : A) → q (f x) ≡ false)
      → select q (update p f xs) ≡ select (λ x. not (p x)) (select q xs)
  unfolding select update
  select-update q p f [] h = refl
  select-update q p f (x ∷ xs) h = ground (arith, select-update q p f xs h, h x)

  -- All rows of the list are taken off it.
  pub select-covered :
      (q p : A → Bool) (xs : List A)
      → ((x : A) → q x ≡ true → p x ≡ true)
      → select (λ x. not (p x)) (select q xs) ≡ []
  unfolding select
  select-covered q p [] h = refl
  select-covered q p (x ∷ xs) h = ground (arith, select-covered q p xs h, h x)

  pub select-none : (p : A → Bool) (xs : List A) → All (λ x. p x ≡ false) xs → select p xs ≡ []
  unfolding select
  select-none p [] h = refl
  select-none p (x ∷ xs) h = ground (arith, select-none p xs h.1)

  -- A row that is on the list of one test and not of another one.
  pub select-idle :
      (q p : A → Bool) (xs : List A)
      → All (λ x. p x ≡ true → q x ≡ false) xs
      → select (λ x. not (p x)) (select q xs) ≡ select q xs
  unfolding select
  select-idle q p [] h = refl
  select-idle q p (x ∷ xs) h = ground (arith, select-idle q p xs h.1, h.0)

no_same_row :
    (p : PublicKey → Bool) (x : PublicKey) (xs : List PublicKey)
    → any (same_row x) xs ≡ false
    → All (λ k. eqb k.id x.id ≡ true → p k ≡ true) xs
unfolding any
no_same_row p x [] h = tt
no_same_row p x (y ∷ ys) h = ((λ e. ground arith), no_same_row p x ys (ground arith))

find-other_row :
    (p : PublicKey → Bool) (x key : PublicKey) (xs : List PublicKey)
    → any (same_row x) xs ≡ false
    → find p xs ≡ some key
    → eqb x.id key.id ≡ false
unfolding any find
find-other_row p x key [] h e = cc
find-other_row p x key (y ∷ ys) h e = ground (arith, find-other_row p x key ys)

-- The row that a search finds is the only one with its id.
pub find-same_row :
    (p : PublicKey → Bool) (xs : List PublicKey) (key : PublicKey)
    → Unique same_row xs
    → find p xs ≡ some key
    → All (λ k. eqb k.id key.id ≡ true → p k ≡ true) xs
unfolding find any
find-same_row p [] key u e = tt
find-same_row p (x ∷ xs) key u e = elim (Bool-cases (p x)) [
  | inl hit ↦
      let same : x ≡ key = ground arith in
      (
        (λ _. hit),
        subst (λ y. All (λ k. eqb k.id y.id ≡ true → p k ≡ true) xs) same (no_same_row p x xs u.0),
      )
  | inr miss ↦
      let later : find p xs ≡ some key = ground arith in
      ((λ h. ground (arith, find-other_row p x key xs)), find-same_row p xs key u.1 later)
]

all_other_rows :
    (x : PublicKey) (xs : List PublicKey)
    → any (same_row x) xs ≡ false
    → select (λ k. not (eqb k.id x.id)) xs ≡ xs
unfolding any select
all_other_rows x [] h = refl
all_other_rows x (y ∷ ys) h = ground (arith, all_other_rows x ys)

count_first :
    (q : PublicKey → Bool) (x : PublicKey) (xs : List PublicKey)
    → any (same_row x) xs ≡ false
    → q x ≡ true
    → count q (x ∷ xs) ≡ suc (count q (select (λ k. not (eqb k.id x.id)) (x ∷ xs)))
unfolding count select
count_first q x xs u h = rw ((eqb_iff x.id x.id).1 refl) (rw (all_other_rows x xs u) (ground arith))

-- Of the rows that pass a test, one less is left when a row that passes it is taken out.
pub count-without :
    (q p : PublicKey → Bool) (xs : List PublicKey) (key : PublicKey)
    → Unique same_row xs
    → find p xs ≡ some key
    → q key ≡ true
    → count q xs ≡ suc (count q (select (λ k. not (eqb k.id key.id)) xs))
unfolding count select find any
count-without q p [] key u e h = cc
count-without q p (x ∷ xs) key u e h = elim (Bool-cases (p x)) [
  | inl hit ↦
      let same : x ≡ key = ground arith in
      subst
        (λ (y : PublicKey).
          count q (x ∷ xs) ≡ suc (count q (select (λ k. not (eqb k.id y.id)) (x ∷ xs))))
        same (count_first q x xs u.0 (ap q same ∙ h))
  | inr miss ↦
      let later : find p xs ≡ some key = ground arith in
      ground (arith, count-without q p xs key u.1 later h, find-other_row p x key xs u.0 later)
]

-- The owners of rows after a renaming to a name that was free.
pub renamed-new :
    (d : Driver) (old new : String) (owner : ℕ) (xs : List Actor)
    → any (has_actor_id new) xs ≡ false
    → owned_by new (update (has_actor_id old) (renamed d new) xs) owner ≡ owned_by old xs owner
unfolding owned_by any update
renamed-new d old new owner [] h = refl
renamed-new d old new owner (x ∷ xs) h = ground (arith, renamed-new d old new owner xs, eq_refl new)

pub renamed-old :
    (d : Driver) (old new : String) (owner : ℕ) (xs : List Actor)
    → old ≢ new
    → owned_by old (update (has_actor_id old) (renamed d new) xs) owner ≡ false
unfolding owned_by any update
renamed-old d old new owner [] h = refl
renamed-old d old new owner (x ∷ xs) h =
    ground (arith, renamed-old d old new owner xs h, eq_iff new old)

pub renamed-other :
    (d : Driver) (old new n : String) (owner : ℕ) (xs : List Actor)
    → n ≢ old
    → n ≢ new
    → owned_by n (update (has_actor_id old) (renamed d new) xs) owner ≡ owned_by n xs owner
unfolding owned_by any update
renamed-other d old new n owner [] h k = refl
renamed-other d old new n owner (x ∷ xs) h k = ground (
  arith,
  renamed-other d old new n owner xs h k,
  eq_iff new n,
  eq_iff x.actor_id n,
  eq_iff x.actor_id old,
)
