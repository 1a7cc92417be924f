-- ===== src/Store/Postgres/Answers.antt =====
-- Answers whose rows come in any order: what is the same in all of them.
use mathlib.Core.List.{Permᴰ}
use pkd_server_go.Prelude.{
  suc, ◌≡◌, refl, sym, ap, ◌∙◌, subst, Bool, true, false, ◌&&◌, List, [], ◌∷◌, ◌++◌, none, some,
  arith, length, select, any, find, if◌then◌else◌, All, Unique, inl, inr, Option-cases, Bool-cases,
  find-eq-none, any_mono, any-select, find-any, ◌⊎◌,
}
use pkd_server_go.Store.Driver.{Statement}
use pkd_server_go.Store.Postgres.{Postgres, first_of, pairs_with, join, lefts}

module _ {A : Type 0} where
  pub any-Permᴰ : (p : A → Bool) {xs ys : List A} → Permᴰ xs ys → any p xs ≡ any p ys
  unfolding any
  any-Permᴰ p Permᴰ.nil = refl
  any-Permᴰ p (Permᴰ.cons e h) = let rest = any-Permᴰ p h in let head = ap p e in ground arith
  any-Permᴰ p (Permᴰ.swap e f) = let a = ap p e in let b = ap p f in ground arith
  any-Permᴰ p (Permᴰ.trans h k) = any-Permᴰ p h ∙ any-Permᴰ p k

  length-Permᴰ : {xs ys : List A} → Permᴰ xs ys → length xs ≡ length ys
  length-Permᴰ Permᴰ.nil = refl
  length-Permᴰ (Permᴰ.cons e h) = ap suc (length-Permᴰ h)
  length-Permᴰ (Permᴰ.swap e f) = refl
  length-Permᴰ (Permᴰ.trans h k) = length-Permᴰ h ∙ length-Permᴰ k

  pub All-Permᴰ {κ} : (P : A → Type κ) {xs ys : List A} → Permᴰ xs ys → All P ys → All P xs
  All-Permᴰ P Permᴰ.nil r = tt
  All-Permᴰ P (Permᴰ.cons e h) (r, rs) = (subst P (sym e) r, All-Permᴰ P h rs)
  All-Permᴰ P (Permᴰ.swap e f) (r, (s, rs)) = (subst P (sym e) s, (subst P (sym f) r, rs))
  All-Permᴰ P (Permᴰ.trans h k) r = All-Permᴰ P h (All-Permᴰ P k r)

  pub Permᴰ-refl : (xs : List A) → Permᴰ xs xs
  Permᴰ-refl [] = Permᴰ.nil
  Permᴰ-refl (x ∷ xs) = Permᴰ.cons refl (Permᴰ-refl xs)

  pub Permᴰ-sym : {xs ys : List A} → Permᴰ xs ys → Permᴰ ys xs
  Permᴰ-sym Permᴰ.nil = Permᴰ.nil
  Permᴰ-sym (Permᴰ.cons e h) = Permᴰ.cons (sym e) (Permᴰ-sym h)
  Permᴰ-sym (Permᴰ.swap e f) = Permᴰ.swap (sym f) (sym e)
  Permᴰ-sym (Permᴰ.trans h k) = Permᴰ.trans (Permᴰ-sym k) (Permᴰ-sym h)

  pub Permᴰ-nothing : (xs : List A) → Permᴰ xs [] → xs ≡ []
  Permᴰ-nothing [] h = refl
  Permᴰ-nothing (x ∷ xs) h = let l = length-Permᴰ h in ground arith

  Permᴰ-single : (xs : List A) (y : A) → Permᴰ xs (y ∷ []) → xs ≡ y ∷ []
  Permᴰ-single [] y h = let l = length-Permᴰ h in ground arith
  Permᴰ-single (x ∷ []) y h = ap (λ z. z ∷ []) (All-Permᴰ (λ z. z ≡ y) h (refl, tt)).0
  Permᴰ-single (x ∷ (z ∷ xs)) y h = let l = length-Permᴰ h in ground arith

  select_nothing : (p : A → Bool) (xs : List A) → any p xs ≡ false → select p xs ≡ []
  unfolding select any
  select_nothing p [] h = refl
  select_nothing p (x ∷ xs) h = ground (arith, select_nothing p xs)

  -- Rows that pass a test of a UNIQUE column are one at most.
  select_single :
      (same : A → A → Bool) (p : A → Bool) (xs : List A) (y : A)
      → ((a b : A) → p a ≡ true → p b ≡ true → same a b ≡ true)
      → Unique same xs
      → find p xs ≡ some y
      → select p xs ≡ y ∷ []
  unfolding select any find
  select_single same p [] y s u e = ground arith
  select_single same p (x ∷ xs) y s (alone, u) e = elim (Bool-cases (p x)) [
    | inr other ↦ ground (arith, select_single same p xs y s u)
    | inl passes ↦ elim (Bool-cases (any p xs)) [
      | inl more ↦ let twice = any_mono p (same x) xs (λ b h. s x b passes h) more in ground arith
      | inr alone' ↦ let rest = select_nothing p xs alone' in ground arith
    ]
  ]

  -- The one row of a query on a UNIQUE column, whatever the order is.
  pub first_of-arrange :
      (g : Postgres) (s : Statement) (same : A → A → Bool) (p : A → Bool) (xs : List A)
      → ((a b : A) → p a ≡ true → p b ≡ true → same a b ≡ true)
      → Unique same xs
      → first_of (g.arrange s (select p xs)) ≡ find p xs
  first_of-arrange g s same p xs h u = elim (Option-cases (find p xs)) [
    | inl absent ↦
        let empty = select_nothing p xs (find-eq-none p xs absent) in
        let none_there =
          Permᴰ-nothing (g.arrange s (select p xs))
            (subst (Permᴰ (g.arrange s (select p xs))) empty (g.arranged s (select p xs))) in
        ap first_of none_there ∙ sym absent
    | inr (y, found) ↦
        let single = select_single same p xs y h u found in
        let one =
          Permᴰ-single (g.arrange s (select p xs)) y
            (subst (Permᴰ (g.arrange s (select p xs))) single (g.arranged s (select p xs))) in
        ap first_of one ∙ sym found
  ]

  select_join : (p : A → Bool) (xs ys : List A) → select p (xs ++ ys) ≡ select p xs ++ select p ys
  unfolding select
  select_join p [] ys = refl
  select_join p (x ∷ xs) ys = ground (arith, select_join p xs ys)

  any_both : (p f : A → Bool) (xs : List A) → any (λ a. p a && f a) xs ≡ any f (select p xs)
  unfolding select any
  any_both p f [] = refl
  any_both p f (x ∷ xs) = ground (arith, any_both p f xs)

  select_passes : (p : A → Bool) (xs : List A) → All (λ x. p x ≡ true) (select p xs)
  unfolding select
  select_passes p [] = tt
  select_passes p (x ∷ xs) = let rest = select_passes p xs in ground arith

  some_answer :
      (p : A → Bool) (xs ys : List A) (y : A)
      → Permᴰ ys (select p xs)
      → find p xs ≡ some y
      → (k : A) × (first_of ys ≡ some k)
        × (p k ≡ true)
        × ((q : A → Bool) → q k ≡ true → any q xs ≡ true)
  unfolding any
  some_answer p xs [] y h e =
      let there = any_mono p (λ x. p x && p x) xs (λ x t. ground arith) (find-any p xs y e) in
      let both = any_both p p xs in let none_there = any-Permᴰ p h in ground arith
  some_answer p xs (k ∷ ys) y h e = (
    k,
    refl,
    (All-Permᴰ (λ x. p x ≡ true) h (select_passes p xs)).0,
    λ q t. elim (Bool-cases (any q xs)) [
      | inl is ↦ is
      | inr absent ↦
          let selected = any-select q p xs absent in let answered = any-Permᴰ q h in ground arith
    ],
  )

  -- The first row of an answer is one of those that a search in any order can find.
  pub first_of-found :
      (g : Postgres) (s : Statement) (p : A → Bool) (xs : List A)
      → ((first_of (g.arrange s (select p xs)) ≡ none) × (find p xs ≡ none))
        ⊎ ((k : A) × (l : A) × (first_of (g.arrange s (select p xs)) ≡ some k)
            × (find p xs ≡ some l)
            × (p k ≡ true)
            × ((q : A → Bool) → q k ≡ true → any q xs ≡ true))
  first_of-found g s p xs = elim (Option-cases (find p xs)) [
    | inl absent ↦
        let empty = select_nothing p xs (find-eq-none p xs absent) in
        let none_there =
          Permᴰ-nothing (g.arrange s (select p xs))
            (subst (Permᴰ (g.arrange s (select p xs))) empty (g.arranged s (select p xs))) in
        inl (ap first_of none_there, absent)
    | inr (l, found) ↦
        let (k, is, passes, among) =
          some_answer p xs (g.arrange s (select p xs)) l (g.arranged s (select p xs)) found in
        inr (k, l, is, found, passes, among)
  ]

module _ {A B : Type 0} where
  lefts-append : (xs ys : List (A × B)) → lefts (xs ++ ys) ≡ lefts xs ++ lefts ys
  unfolding lefts
  lefts-append [] ys = refl
  lefts-append ((x, y) ∷ xs) ys = ap (◌∷◌ x) (lefts-append xs ys)

  module _ (on : A → B → Bool) (same : B → B → Bool) (f : B → Bool) (g : A → Bool) (ys : List B)
      (alike : (x : A) (a b : B) → on x a ≡ true → on x b ≡ true → same a b ≡ true)
      (u : Unique same ys) where
    abbrev passes : A × B → Bool
    passes r = f r.1 && g r.0

    joined_row :
        (x : A)
        → lefts (select passes (pairs_with x (select (on x) ys)))
          ≡ (if any (λ b. on x b && f b) ys && g x then x ∷ [] else [])
    unfolding lefts select pairs_with any
    joined_row x = elim (Option-cases (find (on x) ys)) [
      | inl absent ↦
          let empty = select_nothing (on x) ys (find-eq-none (on x) ys absent) in
          let fails = any_both (on x) f ys in ground arith
      | inr (y, found) ↦
          let single = select_single same (on x) ys y (alike x) u found in
          let is = any_both (on x) f ys in ground arith
    ]

    -- A join on a UNIQUE column gives each row once, or not at all.
    pub lefts-join :
        (xs : List A)
        → lefts (select passes (join on xs ys))
          ≡ select (λ x. any (λ b. on x b && f b) ys && g x) xs
    unfolding lefts select join
    lefts-join [] = refl
    lefts-join (x ∷ xs) =
        let rest = lefts-join xs in
        let row = joined_row x in
        let parts = select_join passes (pairs_with x (select (on x) ys)) (join on xs ys) in
        let apart =
          lefts-append (select passes (pairs_with x (select (on x) ys)))
            (select passes (join on xs ys)) in
        ap lefts parts ∙ apart ∙ (ground arith)
