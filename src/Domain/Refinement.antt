-- ===== src/Domain/Refinement.antt =====
-- The service of internal/domain does what Directory says.
use pkd_server_go.Prelude.{
  ℕ, suc, String, ◌≡◌, refl, ap, ◌∙◌, inl, inr, Bool, List, [], ◌∷◌, ◌++◌, Option, none, Result, ok,
  err, arith, ◌==◌, eq_iff, count, Bool-cases, Option-cases, if◌then◌else◌,
}
use mathlib.Core.Path.{fun_ext}
use pkd_server_go.Protocol.Messages.{
  AddKeyMessage, RevokeKeyMessage, MoveIdentityMessage, AddAuxDataMessage, RevokeAuxDataMessage,
}
use pkd_server_go.Store.Driver.{Driver}
use pkd_server_go.Store.Rows.{PublicKey, AuxiliaryData, Db}
use pkd_server_go.Store.Reads.{active_keys}
use pkd_server_go.Store.Consistency.{IsConsistent}
use pkd_server_go.Domain.Transaction.{Failure}
use pkd_server_go.Domain.Service.{
  Validator, SymmetricKeys, process_add_key, process_revoke_key, process_move_identity,
  process_burn_down, crypto_shred, shred_root, process_add_aux_data, process_revoke_aux_data,
}
use pkd_server_go.Domain.Consistency.{
  Call, add_key, revoke_key, move_identity, burn_down, shred, add_aux_data, revoke_aux_data,
  perform, perform_all, perform-IsConsistent,
}
use pkd_server_go.Domain.Atomicity.{failure, failure_of, perform-failure}
use pkd_server_go.Domain.Keys.{active_keys-process_add_key}
use pkd_server_go.Domain.Revocation.{active_keys-process_revoke_key, other_texts-process_revoke_key}
use pkd_server_go.Domain.Identity.{active_keys-process_move_identity}
use pkd_server_go.Domain.BurnDown.{active_keys-process_burn_down}
use pkd_server_go.Domain.Auxiliary.{
  active_keys-process_add_aux_data, active_keys-process_revoke_aux_data,
}
use pkd_server_go.Domain.Directory.{
  has_text, directory, cleared, specified, step_of, History, specified_all,
}

count-append-one :
    (q : PublicKey → Bool) (xs : List PublicKey) (k : PublicKey)
    → count q (xs ++ k ∷ []) ≡ (if q k then suc (count q xs) else count q xs)
unfolding count
count-append-one q [] k = refl
count-append-one q (x ∷ xs) k = ground (arith, count-append-one q xs k)

module _ (db : Db) (c : IsConsistent db) (n text : String) where
  add_key-specified :
      (d : Driver) (random : Option (List ℕ)) (msg : AddKeyMessage) (root : String)
      (keys : SymmetricKeys) (key : PublicKey)
      → (process_add_key d random msg root keys db).0 ≡ ok key
      → directory (process_add_key d random msg root keys db).1 n text
        ≡ specified (add_key msg root keys) (directory db) n text
  unfolding directory specified
  add_key-specified d random msg root keys key h =
      let (own, others, is, _, _) = active_keys-process_add_key d random msg root keys db key c h in
      let grown = count-append-one (has_text text) (active_keys msg.actor db) key in
      elim (Bool-cases (n == msg.actor)) [
        | inl same ↦ let e = (eq_iff n msg.actor).0 same in ground arith
        | inr other ↦ let kept = others n (λ e. ground (arith, eq_iff n msg.actor)) in ground arith
      ]

  revoke_key-specified :
      (d : Driver) (msg : RevokeKeyMessage) (root : String) (keys : SymmetricKeys)
      → (process_revoke_key d msg root keys db).0 ≡ ok tt
      → directory (process_revoke_key d msg root keys db).1 n text
        ≡ specified (revoke_key msg root keys) (directory db) n text
  unfolding directory specified
  revoke_key-specified d msg root keys h =
      let (key, is, _, less, others) = active_keys-process_revoke_key d msg root keys db c h in
      elim (Bool-cases (n == msg.actor)) [
        | inr other ↦ let kept = others n (λ e. ground (arith, eq_iff n msg.actor)) in ground arith
        | inl same ↦
            let e = (eq_iff n msg.actor).0 same in
            elim (Bool-cases (msg.public_key == text)) [
              | inl hit ↦
                  let one_less = less (has_text text) (ap (λ t. t == text) is ∙ hit) in ground arith
              | inr differ ↦
                  let kept =
                    other_texts-process_revoke_key d msg root keys db c h (has_text text)
                      (λ k q. ap (λ t. t == text) q ∙ differ) in
                  ground arith
            ]
      ]

  move_identity-specified :
      (d : Driver) (msg : MoveIdentityMessage) (root : String)
      → (process_move_identity d msg root db).0 ≡ ok tt
      → directory (process_move_identity d msg root db).1 n text
        ≡ specified (move_identity msg root) (directory db) n text
  unfolding directory specified count
  move_identity-specified d msg root h =
      let (new, _, old, _, others) = active_keys-process_move_identity d msg root db h in
      elim (Bool-cases (n == msg.new_actor)) [
        | inl same ↦ let e = (eq_iff n msg.new_actor).0 same in ground arith
        | inr other ↦ elim (Bool-cases (n == msg.old_actor)) [
          | inl same ↦ let e = (eq_iff n msg.old_actor).0 same in ground arith
          | inr differ ↦
              let (kept, _) =
                others n (λ e. ground (arith, eq_iff n msg.old_actor))
                  (λ e. ground (arith, eq_iff n msg.new_actor)) in
              ground arith
        ]
      ]

  burn_down-specified :
      (d : Driver) (name root : String)
      → (process_burn_down d name root db).0 ≡ ok tt
      → directory (process_burn_down d name root db).1 n text ≡ cleared name (directory db) n text
  unfolding directory count
  burn_down-specified d name root h =
      let (own, others, _, _, _) = active_keys-process_burn_down d name root db c h in
      elim (Bool-cases (n == name)) [
        | inl same ↦ let e = (eq_iff n name).0 same in ground arith
        | inr other ↦ let kept = others n (λ e. ground (arith, eq_iff n name)) in ground arith
      ]

  add_aux_data-specified :
      (vs : List Validator) (d : Driver) (random : Option (List ℕ)) (msg : AddAuxDataMessage)
      (root : String) (aux : AuxiliaryData)
      → (process_add_aux_data vs d random msg root db).0 ≡ ok aux
      → directory (process_add_aux_data vs d random msg root db).1 n text ≡ directory db n text
  unfolding directory
  add_aux_data-specified vs d random msg root aux h =
      ap (count (has_text text))
        (active_keys-process_add_aux_data vs d random msg root db aux n c h)

  revoke_aux_data-specified :
      (d : Driver) (msg : RevokeAuxDataMessage) (root : String)
      → (process_revoke_aux_data d msg root db).0 ≡ ok tt
      → directory (process_revoke_aux_data d msg root db).1 n text ≡ directory db n text
  unfolding directory
  revoke_aux_data-specified d msg root h =
      ap (count (has_text text)) (active_keys-process_revoke_aux_data d msg root db n h)

failure-none : {A : Type 0} (r : Result Failure A) → failure_of r ≡ none → (a : A) × (r ≡ ok a)
failure-none (ok a) h = (a, refl)
failure-none (err e) h = ground arith

only_unit : (u : Unit {0}) → u ≡ tt
only_unit u = refl

-- A call that answers with `ok tt`.
done : (r : Result Failure (Unit {0})) → failure_of r ≡ none → r ≡ ok tt
done r h = let (u, e) = failure-none r h in e ∙ ap ok (only_unit u)

succeeds :
    (vs : List Validator) (d : Driver) (random : Option (List ℕ)) (call : Call) (db : Db)
    → IsConsistent db
    → failure vs (d, random, call) db ≡ none
    → (n text : String)
    → directory (perform vs (d, random, call) db) n text ≡ specified call (directory db) n text
unfolding perform failure specified crypto_shred
succeeds vs d random (add_key msg root keys) db c h n text =
    let (key, e) = failure-none (process_add_key d random msg root keys db).0 h in
    add_key-specified db c n text d random msg root keys key e
succeeds vs d random (revoke_key msg root keys) db c h n text =
    revoke_key-specified db c n text d msg root keys (done _ h)
succeeds vs d random (move_identity msg root) db c h n text =
    move_identity-specified db c n text d msg root (done _ h)
succeeds vs d random (burn_down name root) db c h n text =
    burn_down-specified db c n text d name root (done _ h)
succeeds vs d random (shred nanos name) db c h n text =
    burn_down-specified db c n text d name (shred_root name nanos) (done _ h)
succeeds vs d random (add_aux_data msg root) db c h n text =
    let (aux, e) = failure-none (process_add_aux_data vs d random msg root db).0 h in
    add_aux_data-specified db c n text vs d random msg root aux e
succeeds vs d random (revoke_aux_data msg root) db c h n text =
    revoke_aux_data-specified db c n text d msg root (done _ h)

perform-specified :
    (vs : List Validator) (d : Driver) (random : Option (List ℕ)) (call : Call) (db : Db)
    → IsConsistent db
    → directory (perform vs (d, random, call) db)
      ≡ step_of (failure vs (d, random, call) db) call (directory db)
perform-specified vs d random call db c = elim (Option-cases (failure vs (d, random, call) db)) [
  | inl well ↦ rw well (fun_ext λ n. fun_ext λ text. succeeds vs d random call db c well n text)
  | inr (e, failed) ↦ rw failed (ap directory (perform-failure vs (d, random, call) db e failed))
]

-- From consistent tables on, the directory that the tables are after any history of calls is the one
-- that the specification makes of the directory before it: a call that succeeds adds or takes off one
-- key text, hands all texts of a name over, or clears them, as its message says, and touches no
-- other entry; a call that fails changes nothing.
pub perform_all-specified :
    (vs : List Validator) (history : History) (db : Db)
    → IsConsistent db
    → directory (perform_all vs history db) ≡ specified_all vs history db (directory db)
unfolding perform_all specified_all
perform_all-specified vs [] db c = refl
perform_all-specified vs ((d, random, call) ∷ rest) db c =
    let later = perform vs (d, random, call) db in
    perform_all-specified vs rest later (perform-IsConsistent vs (d, random, call) db c)
    ∙ ap (specified_all vs rest later) (perform-specified vs d random call db c)
