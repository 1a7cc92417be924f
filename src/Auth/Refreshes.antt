-- ===== src/Auth/Refreshes.antt =====
-- Concurrent calls of Refresh of internal/auth/token_service.go: each call asks for the token's name
-- with one statement and marks it with another, in any order with those of the other calls.
use pkd_server_go.Prelude.{
  ℕ, String, ◌≡◌, sym, ◌∙◌, subst, true, ◌∷◌, ok, err, arith, Result-cases, eq_refl, eqb, any,
  Option-cases, Bool-cases, inl, inr, ◌⊎◌, ltb, if◌then◌else◌,
}
use pkd_server_go.Protocol.Unmarshal.{as_map}
use pkd_server_go.Auth.Tokens.{
  TokenService, Moment, refresh, expired, already_used, Used, is_used, string_claim, validate_token,
  validate_refresh_token, mark_used, ask,
}

-- Where a call is: `asked` has read the table, `marked` has written to it and goes on to NewPair.
pub data Phase : Type 0 where
  waiting failed : Phase
  asked marked : String → Phase

-- The calls by their numbers, and the table.
pub record Calls : Type 0 where
  pub phase : ℕ → Phase
  pub used : Used

abbrev pub at : ℕ → Phase → (ℕ → Phase) → ℕ → Phase
at i p phases j = if eqb j i then p else phases j

module _ (s : TokenService) (token : ℕ → String) where
  pub data Step (c : Calls) : Calls → Type 0 where
    asks :
        (i now : ℕ) {jti : String}
        → c.phase i ≡ waiting
        → ask s now (token i) c.used ≡ ok jti
        → Step c (record c { phase = at i (asked jti) c.phase })
    marks :
        (i : ℕ) {jti : String} {used : Used}
        → c.phase i ≡ asked jti
        → mark_used s jti c.used ≡ ok used
        → Step c (record { phase = at i (marked jti) c.phase; used = used })
    refused : (i : ℕ) → c.phase i ≡ waiting → Step c (record c { phase = at i failed c.phase })
    loses :
        (i : ℕ) {jti : String}
        → c.phase i ≡ asked jti
        → Step c (record c { phase = at i failed c.phase })

  -- The states that some steps lead to from a first one.
  pub data Reach (from : Calls) : Calls → Type 0 where
    here : Reach from from
    next : {c d : Calls} → Reach from c → Step c d → Reach from d

any_later : (a jti : String) (used : Used) → is_used a used ≡ true → is_used a (jti ∷ used) ≡ true
unfolding any
any_later a jti used h = ground arith

-- The INSERT puts the name into the table, and takes none out.
mark-used :
    (s : TokenService) (jti : String) (used used' : Used)
    → mark_used s jti used ≡ ok used'
    → used' ≡ jti ∷ used
unfolding mark_used
mark-used s jti used used' h = ground arith

module _ (s : TokenService) (token : ℕ → String) (a : String) where
  Step-used : {c d : Calls} → Step s token c d → is_used a c.used ≡ true → is_used a d.used ≡ true
  Step-used (asks i now e h) u = u
  Step-used {c} (marks i {jti} {used} e h) u =
      subst (λ t. is_used a t ≡ true) (sym (mark-used s jti c.used used h))
        (any_later a jti c.used u)
  Step-used (refused i e) u = u
  Step-used (loses i e) u = u

  -- A name that is in the table stays there, whatever the calls do.
  Reach-used :
      {from c : Calls} → Reach s token from c → is_used a from.used ≡ true → is_used a c.used ≡ true
  Reach-used here u = u
  Reach-used (next r st) u = Step-used st (Reach-used r u)

-- A token that was read once is not read again where its name is in the table: its time has ended, or
-- it is found there.
ask_again :
    (s : TokenService) (t : String) (now later : ℕ) (a : String) (used used' : Used)
    → ask s now t used ≡ ok a
    → is_used a used' ≡ true
    → (ask s later t used' ≡ err expired) ⊎ (ask s later t used' ≡ err already_used)
unfolding ask validate_refresh_token validate_token
ask_again s t now later a used used' h u = elim (Option-cases s.symmetric_key) [
  | inl n ↦ ground arith
  | inr (seed, se) ↦ elim (Option-cases (s.paseto.local_key seed)) [
    | inl n ↦ ground arith
    | inr (key, ke) ↦ elim (Option-cases (s.paseto.decrypt key t)) [
      | inl n ↦ ground arith
      | inr (payload, pe) ↦ elim (Option-cases (as_map payload)) [
        | inl n ↦ ground arith
        | inr (claims, ce) ↦ elim (Option-cases (string_claim "exp" claims)) [
          | inl n ↦ ground arith
          | inr (text, te) ↦ elim (Option-cases (s.paseto.parse_time text)) [
            | inl n ↦ ground arith
            | inr (exp, ee) ↦ elim (Option-cases (string_claim "jti" claims)) [
              | inl n ↦ ground arith
              | inr (jti, je) ↦
                  let is : jti ≡ a = ground arith in
                  elim (Bool-cases (ltb exp later)) [
                    | inl late ↦ inl (ground arith)
                    | inr in_time ↦ inr (ground arith)
                  ]
            ]
          ]
        ]
      ]
    ]
  ]
]

-- A call that has given a pair has asked for the token's name and put it into the table.
refresh-used :
    (s : TokenService) (now : ℕ) (m n : Moment) (t : String) (pair : String × String)
    (used used' : Used)
    → refresh s now m n t used ≡ (ok pair, used')
    → (a : String) × (ask s now t used ≡ ok a) × (is_used a used' ≡ true)
unfolding refresh any
refresh-used s now m n t pair used used' h = elim (Result-cases (ask s now t used)) [
  | inr (e, f) ↦ ground arith
  | inl (a, asks_it) ↦ elim (Result-cases (mark_used s a used)) [
    | inr (e, f) ↦ ground arith
    | inl (grown, g) ↦
        let is : used' ≡ grown = ground arith in
        let whole = is ∙ mark-used s a used grown g in
        let self = eq_refl a in
        (a, asks_it, subst (λ t. is_used a t ≡ true) (sym whole) (ground arith))
  ]
]

module _ (s : TokenService) (token : ℕ → String) where
  -- Where a call of Refresh has given a pair for a token, and then any number of calls, for this and for
  -- other tokens, have taken their statements in any order: a later call with the token, at any time,
  -- gives no pair and leaves the table as it is, since the token has expired or its name is found.
  -- Nothing is assumed of the table's constraints.
  pub refresh_again :
      (t : String) (now later : ℕ) (m n m' n' : Moment) (pair : String × String) (used used' : Used)
      (from c : Calls)
      → refresh s now m n t used ≡ (ok pair, used')
      → from.used ≡ used'
      → Reach s token from c
      → (refresh s later m' n' t c.used ≡ (err expired, c.used))
        ⊎ (refresh s later m' n' t c.used ≡ (err already_used, c.used))
  unfolding refresh
  refresh_again t now later m n m' n' pair used used' from c h e r =
      let (a, asks_it, u) = refresh-used s now m n t pair used used' h in
      let kept = Reach-used s token a r (subst (λ t. is_used a t ≡ true) (sym e) u) in
      elim (ask_again s t now later a used c.used asks_it kept) [
        | inl late ↦ inl (ground arith)
        | inr found ↦ inr (ground arith)
      ]
