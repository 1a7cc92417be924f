-- ===== src/Prelude/Laws.antt =====
-- Laws of the list functions by Boolean tests.
use mathlib.Core.Path.{◌≡◌, refl, ap}
use mathlib.Core.Bool.{Bool, true, false, ◌||◌, ◌&&◌}
use mathlib.Core.List.{List, [], ◌∷◌, ◌++◌}
use mathlib.Core.Option.{none, some}
use native.Mathlib.Omega.{arith}
use Prim.Native.Nat.{◌<◌}
use pkd_server_go.Prelude.Tests.{if◌then◌else◌}
use pkd_server_go.Prelude.Lists.{select, update, any, find, count, All}

module _ {ℓ κ} {A : Type ℓ} (P : A → Type κ) where
  pub All-append : (xs : List A) {y : A} → All P xs → P y → All P (xs ++ y ∷ [])
  All-append [] h q = (q, tt)
  All-append (x ∷ xs) h q = (h.0, All-append xs h.1 q)

  pub All-select : (p : A → Bool) (xs : List A) → All P xs → All P (select p xs)
  unfolding select
  All-select p [] h = tt
  All-select p (x ∷ xs) h = ground (arith, All-select p xs h.1)

  pub All-update :
      (p : A → Bool) (f : A → A) (xs : List A)
      → ((x : A) → P x → P (f x))
      → All P xs
      → All P (update p f xs)
  unfolding update
  All-update p f [] g h = tt
  All-update p f (x ∷ xs) g h = ground (arith, g x h.0, All-update p f xs g h.1)

  pub All-mono {ι} : {Q : A → Type ι} (xs : List A) → ((x : A) → P x → Q x) → All P xs → All Q xs
  All-mono [] g h = tt
  All-mono (x ∷ xs) g h = (g x h.0, All-mono xs g h.1)

pub All-every {ℓ κ} : {A : Type ℓ} (P : A → Type κ) (xs : List A) → ((x : A) → P x) → All P xs
All-every P [] h = tt
All-every P (x ∷ xs) h = (h x, All-every P xs h)

module _ {ℓ} {A : Type ℓ} where
  pub any-append : (p : A → Bool) (xs : List A) (y : A) → any p (xs ++ y ∷ []) ≡ (any p xs || p y)
  unfolding any
  any-append p [] y = ground arith
  any-append p (x ∷ xs) y = ground (arith, any-append p xs y)

  pub any-join : (p : A → Bool) (xs ys : List A) → any p (xs ++ ys) ≡ (any p xs || any p ys)
  unfolding any
  any-join p [] ys = refl
  any-join p (x ∷ xs) ys = ground (arith, any-join p xs ys)

  pub any-update :
      (q : A → Bool) (p : A → Bool) (f : A → A) (xs : List A)
      → ((x : A) → q (f x) ≡ q x)
      → any q (update p f xs) ≡ any q xs
  unfolding any update
  any-update q p f [] h = refl
  any-update q p f (x ∷ xs) h = ground (arith, any-update q p f xs h, h x)

  pub any-select :
      (q : A → Bool) (p : A → Bool) (xs : List A) → any q xs ≡ false → any q (select p xs) ≡ false
  unfolding any select
  any-select q p [] h = refl
  any-select q p (x ∷ xs) h = ground (arith, any-select q p xs)

  pub any-ext : (p q : A → Bool) (xs : List A) → ((x : A) → p x ≡ q x) → any p xs ≡ any q xs
  unfolding any
  any-ext p q [] h = refl
  any-ext p q (x ∷ xs) h = ground (arith, any-ext p q xs h, h x)

  pub any_mono :
      (p q : A → Bool) (xs : List A)
      → ((x : A) → p x ≡ true → q x ≡ true)
      → any p xs ≡ true
      → any q xs ≡ true
  unfolding any
  any_mono p q [] h e = cc
  any_mono p q (x ∷ xs) h e = ground (arith, any_mono p q xs h, h x)

  pub select-append :
      (p : A → Bool) (xs : List A) (y : A)
      → select p (xs ++ y ∷ []) ≡ select p xs ++ (if p y then y ∷ [] else [])
  unfolding select
  select-append p [] y = ground arith
  select-append p (x ∷ xs) y = ground (arith, select-append p xs y)

  pub select_everything : (xs : List A) → select (λ _. true) xs ≡ xs
  unfolding select
  select_everything [] = refl
  select_everything (x ∷ xs) = ap (◌∷◌ x) (select_everything xs)

  -- two tests that agree on the elements
  pub select-ext :
      (p q : A → Bool) (xs : List A) → All (λ x. p x ≡ q x) xs → select p xs ≡ select q xs
  unfolding select
  select-ext p q [] h = refl
  select-ext p q (x ∷ xs) h = ground (arith, select-ext p q xs h.1, h.0)

  pub select_comm : (p q : A → Bool) (xs : List A) → select p (select q xs) ≡ select q (select p xs)
  unfolding select
  select_comm p q [] = refl
  select_comm p q (x ∷ xs) = ground (arith, select_comm p q xs)

  pub count-select :
      (p q : A → Bool) (xs : List A) → count p (select q xs) ≡ count (λ x. q x && p x) xs
  unfolding select count
  count-select p q [] = refl
  count-select p q (x ∷ xs) = ground (arith, count-select p q xs)

  pub find-eq-some : (p : A → Bool) (xs : List A) (y : A) → find p xs ≡ some y → p y ≡ true
  unfolding find
  find-eq-some p [] y e = cc
  find-eq-some p (x ∷ xs) y e = ground (arith, find-eq-some p xs y)

  pub find-any : (p : A → Bool) (xs : List A) (y : A) → find p xs ≡ some y → any p xs ≡ true
  unfolding find any
  find-any p [] y e = cc
  find-any p (x ∷ xs) y e = ground (arith, find-any p xs y)

  pub find-eq-none : (p : A → Bool) (xs : List A) → find p xs ≡ none → any p xs ≡ false
  unfolding find any
  find-eq-none p [] e = refl
  find-eq-none p (x ∷ xs) e = ground (arith, find-eq-none p xs)

  pub count-any : (p : A → Bool) (xs : List A) → any p xs ≡ false → count p xs ≡ 0
  unfolding count any
  count-any p [] e = refl
  count-any p (x ∷ xs) e = ground (arith, count-any p xs)

  pub any-count : (p : A → Bool) (xs : List A) → any p xs ≡ true → 0 < count p xs
  unfolding count any
  any-count p [] e = cc
  any-count p (x ∷ xs) e = ground (arith, any-count p xs)

  -- No two rows are the same by a test, as UNIQUE asks.
  abbrev pub Unique : (A → A → Bool) → List A → Type 0
  Unique same [] = Unit
  Unique same (x ∷ xs) = (any (same x) xs ≡ false) × Unique same xs

  pub Unique-append :
      (same : A → A → Bool) (xs : List A) (y : A)
      → Unique same xs
      → any (λ x. same x y) xs ≡ false
      → Unique same (xs ++ y ∷ [])
  unfolding any
  Unique-append same [] y u h = (refl, tt)
  Unique-append same (x ∷ xs) y u h =
      ground (arith, Unique-append same xs y u.1, any-append (same x) xs y)

  pub Unique-select :
      (same : A → A → Bool) (p : A → Bool) (xs : List A)
      → Unique same xs
      → Unique same (select p xs)
  unfolding select
  Unique-select same p [] u = tt
  Unique-select same p (x ∷ xs) u =
      ground (arith, Unique-select same p xs u.1, any-select (same x) p xs u.0)

  pub Unique-update :
      (same : A → A → Bool) (p : A → Bool) (f : A → A) (xs : List A)
      → ((x y : A) → same (f x) y ≡ same x y)
      → ((x y : A) → same x (f y) ≡ same x y)
      → Unique same xs
      → Unique same (update p f xs)
  unfolding update any
  Unique-update same p f [] l r u = tt
  Unique-update same p f (x ∷ xs) l r u = ground (
    arith,
    Unique-update same p f xs l r u.1,
    any-update (same x) p f xs (r x),
    any-update (same (f x)) p f xs (r (f x)),
    any-ext (same (f x)) (same x) xs (l x),
  )

  -- Where no two elements are the same, a search for one finds that one.
  pub find-Unique :
      (same : A → A → Bool) (xs : List A)
      → ((x : A) → same x x ≡ true)
      → Unique same xs
      → All (λ k. find (λ j. same j k) xs ≡ some k) xs
  unfolding find any
  find-Unique same [] r u = tt
  find-Unique same (x ∷ xs) r (alone, u) =
      let self = r x in (ground arith, later xs alone (find-Unique same xs r u))
    where
      later :
          (ys : List A)
          → any (same x) ys ≡ false
          → All (λ k. find (λ j. same j k) xs ≡ some k) ys
          → All (λ k. find (λ j. same j k) (x ∷ xs) ≡ some k) ys
      later [] e h = tt
      later (y ∷ ys) e (found, h) =
          let differ : same x y ≡ false = ground arith in
          let rest : any (same x) ys ≡ false = ground arith in (ground arith, later ys rest h)
