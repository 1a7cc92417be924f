-- ===== src/Store/Postgres/Newest.antt =====
-- The latest root, whatever the order of keys of one time is.
use mathlib.Core.List.{Permᴰ}
use pkd_server_go.Prelude.{
  ◌≤◌, String, ◌≡◌, refl, sym, ap, ◌∙◌, subst, ◌⊎◌, true, List, [], ◌∷◌, none, some, arith, leb,
  eqb_iff, any, All, inl, inr, Option-cases, Bool-cases, All-mono,
}
use pkd_server_go.Store.Rows.{PublicKey}
use pkd_server_go.Store.Reads.{latest, root_of}
use pkd_server_go.Store.Consistency.{same_row}
use pkd_server_go.Store.Postgres.Answers.{any-Permᴰ, Permᴰ-nothing, All-Permᴰ, Permᴰ-sym}

-- The root of a key than which none is newer, or no root where there is no key.
abbrev pub IsNewest : List PublicKey → String → Type 0
IsNewest keys root =
    ((keys ≡ []) × (root ≡ ""))
    ⊎ ((k : PublicKey) × (any (same_row k) keys ≡ true)
        × All (λ l. l.created_at ≤ k.created_at) keys
        × (root ≡ k.merkle_root))

latest-none : (keys : List PublicKey) → latest keys ≡ none → keys ≡ []
unfolding latest
latest-none [] e = refl
latest-none (l ∷ ls) e = elim (Option-cases (latest ls)) [
  | inl nothing ↦ ground arith
  | inr (best, b) ↦ ground arith
]

-- what `latest` takes
latest-some :
    (keys : List PublicKey) (k : PublicKey)
    → latest keys ≡ some k
    → (any (same_row k) keys ≡ true) × All (λ l. l.created_at ≤ k.created_at) keys
unfolding latest any
latest-some [] k e = ground arith
latest-some (l ∷ ls) k e = elim (Option-cases (latest ls)) [
  | inl nothing ↦
      let empty = latest-none ls nothing in
      let is : l ≡ k = ground arith in
      let self = (eqb_iff k.id l.id).1 (ap (λ x. x.id) (sym is)) in
      let rest = subst (All (λ x. x.created_at ≤ k.created_at)) (sym empty) tt in
      (ground arith, (ground arith, rest))
  | inr (best, b) ↦
      let (there, below) = latest-some ls best b in
      elim (Bool-cases (leb best.created_at l.created_at)) [
        | inl newer ↦
            let is : l ≡ k = ground arith in
            let self = (eqb_iff k.id l.id).1 (ap (λ x. x.id) (sym is)) in
            (
              ground arith,
              (
                ground arith,
                All-mono (λ x. x.created_at ≤ best.created_at) ls (λ x h. ground arith) below,
              ),
            )
        | inr older ↦
            let is : best ≡ k = ground arith in
            let there' = subst (λ x. any (same_row x) ls ≡ true) is there in
            (
              ground arith,
              (ground arith, subst (λ x. All (λ l. l.created_at ≤ x.created_at) ls) is below),
            )
      ]
]

pub newest : (keys rows : List PublicKey) → Permᴰ keys rows → IsNewest rows (root_of (latest keys))
newest keys rows h = elim (Option-cases (latest keys)) [
  | inl nothing ↦
      let empty = latest-none keys nothing in
      inl (Permᴰ-nothing rows (subst (Permᴰ rows) empty (Permᴰ-sym h)), ap root_of nothing)
  | inr (k, e) ↦
      let (there, below) = latest-some keys k e in
      inr (k, sym (any-Permᴰ (same_row k) h) ∙ there, All-Permᴰ _ (Permᴰ-sym h) below, ap root_of e)
]
