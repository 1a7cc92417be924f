-- ===== src/Store/Ownership.antt =====
-- Whose a row is: the join on `actors` of internal/db/sqlite.go, as a partial function both ways.
use pkd_server_go.Prelude.{
  ℕ, ◌≤◌, String, ◌≡◌, refl, Bool, true, false, ◌&&◌, ◌||◌, List, [], ◌∷◌, ◌++◌, some, arith, eqb,
  eqb_iff, ◌==◌, eq_iff, any, find, All, Unique, any-append,
}
use pkd_server_go.Store.Rows.{Actor}
use pkd_server_go.Store.Reads.{owned_by, has_actor_id}
use pkd_server_go.Store.Consistency.{same_id, same_name, has_id}

-- the test of the join
abbrev pub is_owner : String → ℕ → Actor → Bool
is_owner name owner a = eqb a.id owner && a.actor_id == name

owned_by-has_id :
    (name : String) (owner : ℕ) (xs : List Actor)
    → owned_by name xs owner ≡ true
    → any (has_id owner) xs ≡ true
unfolding owned_by any
owned_by-has_id name owner [] h = cc
owned_by-has_id name owner (x ∷ xs) h = ground (arith, owned_by-has_id name owner xs)

has_id-same :
    (a : Actor) (owner : ℕ) (xs : List Actor)
    → a.id ≡ owner
    → any (has_id owner) xs ≡ any (same_id a) xs
unfolding any
has_id-same a owner [] e = refl
has_id-same a owner (x ∷ xs) e = ground (arith, has_id-same a owner xs e)

-- A row belongs to one name at most.
pub one_owner :
    (n m : String) (owner : ℕ) (xs : List Actor)
    → Unique same_id xs
    → owned_by n xs owner ≡ true
    → owned_by m xs owner ≡ true
    → n ≡ m
unfolding owned_by any
one_owner n m owner [] u h k = cc
one_owner n m owner (x ∷ xs) u h k = ground (
  arith,
  one_owner n m owner xs u.1,
  owned_by-has_id n owner xs,
  owned_by-has_id m owner xs,
  has_id-same x owner xs,
  eq_iff x.actor_id n,
  eq_iff x.actor_id m,
)

-- A name has one row of `actors` at most.
owned_by-same_name :
    (n : String) (owner : ℕ) (a : Actor) (xs : List Actor)
    → a.actor_id ≡ n
    → owned_by n xs owner ≡ true
    → any (same_name a) xs ≡ true
unfolding owned_by any
owned_by-same_name n owner a [] e h = cc
owned_by-same_name n owner a (x ∷ xs) e h =
    ground
      (arith, owned_by-same_name n owner a xs e, eq_iff x.actor_id n, eq_iff a.actor_id x.actor_id)

pub one_id :
    (n : String) (o p : ℕ) (xs : List Actor)
    → Unique same_name xs
    → owned_by n xs o ≡ true
    → owned_by n xs p ≡ true
    → o ≡ p
unfolding owned_by any
one_id n o p [] u h k = cc
one_id n o p (x ∷ xs) u h k = ground (
  arith,
  one_id n o p xs u.1,
  owned_by-same_name n o x xs,
  owned_by-same_name n p x xs,
  eq_iff x.actor_id n,
  eqb_iff x.id o,
  eqb_iff x.id p,
)

-- The actor that a name finds owns its rows.
pub find-owned_by :
    (n : String) (xs : List Actor) (a : Actor)
    → find (has_actor_id n) xs ≡ some a
    → owned_by n xs a.id ≡ true
unfolding owned_by any find
find-owned_by n [] a e = cc
find-owned_by n (x ∷ xs) a e = ground (arith, find-owned_by n xs a)

pub owned_by-append :
    (n : String) (owner : ℕ) (xs : List Actor) (a : Actor)
    → owned_by n (xs ++ a ∷ []) owner ≡ (owned_by n xs owner || is_owner n owner a)
unfolding owned_by
owned_by-append n owner xs a = any-append (is_owner n owner) xs a

-- A reference into `actors` is no greater than the last id.
pub has_id-le :
    (owner bound : ℕ) (xs : List Actor)
    → All (λ a. a.id ≤ bound) xs
    → any (has_id owner) xs ≡ true
    → owner ≤ bound
unfolding any
has_id-le owner bound [] h e = cc
has_id-le owner bound (x ∷ xs) h e = ground (arith, has_id-le owner bound xs h.1)

-- No one of a name that is not there owns a row.
not-owned_by :
    (n : String) (owner : ℕ) (xs : List Actor)
    → any (has_actor_id n) xs ≡ false
    → owned_by n xs owner ≡ false
unfolding owned_by any
not-owned_by n owner [] h = refl
not-owned_by n owner (x ∷ xs) h = ground (arith, not-owned_by n owner xs)
