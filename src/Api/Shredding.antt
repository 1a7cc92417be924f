-- ===== src/Api/Shredding.antt =====
-- What an administrator's request to crypto-shred an actor has done: handleCryptoShred of
-- internal/api/admin_handler.go.
use pkd_server_go.Prelude.{
  ℕ, String, ◌≡◌, ◌≢◌, refl, sym, ap, ◌∙◌, inl, inr, true, false, false≢true, ◌==◌, eq_iff, ◌&&◌,
  List, [], ◌∷◌, Option, some, none, ok, err, arith, any, find, select, find-eq-none, Result-cases,
  Option-cases,
}
use pkd_server_go.Store.Driver.{Driver}
use pkd_server_go.Store.Rows.{Actor, PublicKey, Db}
use pkd_server_go.Store.Reads.{
  has_actor_id, owned_by, is_active, active_keys, find_actor_by_actor_id,
}
use pkd_server_go.Store.Writes.{
  tx_get_message_hashes_for_actor, tx_delete_symmetric_keys_by_hashes, tx_revoke_all_keys_for_actor,
}
use pkd_server_go.Store.Consistency.{IsConsistent}
use pkd_server_go.Domain.Transaction.{
  actor_not_found, transaction, run_body, commit, transaction-error,
}
use pkd_server_go.Domain.Service.{process_burn_down, crypto_shred, shred_root, burn_down_body}
use pkd_server_go.Domain.BurnDown.{
  active_keys-process_burn_down, is_hash_of, keys_of_hash, has_hash,
}
use pkd_server_go.Api.Handler.{Server, World, Payload, go, crypto_shredded, ensure, writes}
use pkd_server_go.Api.Dispatch.{First, value_of, value, limit_reached, malformed}
use pkd_server_go.Api.Routes.{Outcome-cases}
use pkd_server_go.Api.Admin.{read_request, decoded, decode_request, handle_crypto_shred}

-- A name without an actor owns nothing.
nobody_owns :
    (name : String) (actors : List Actor) (owner : ℕ)
    → any (has_actor_id name) actors ≡ false
    → owned_by name actors owner ≡ false
unfolding owned_by any
nobody_owns name [] owner e = refl
nobody_owns name (a ∷ actors) owner e = ground (arith, nobody_owns name actors owner)

no_keys :
    (name : String) (actors : List Actor) (ks : List PublicKey)
    → any (has_actor_id name) actors ≡ false
    → (select (λ k. owned_by name actors k.actor_id && is_active k) ks ≡ [])
      × ((h : String) → any (λ k. owned_by name actors k.actor_id && has_hash h k) ks ≡ false)
unfolding select any
no_keys name actors [] e = (refl, λ h. refl)
no_keys name actors (k ∷ ks) e =
    let nobody = nobody_owns name actors k.actor_id e in
    let (keys, hashes) = no_keys name actors ks e in (ground arith, λ h. ground (arith, hashes h))

-- The body of a burn-down says that there is no such actor only where there is none.
burn_down-not_found :
    (d : Driver) (name root : String) (db : Db)
    → (process_burn_down d name root db).0 ≡ err actor_not_found
    → (any (has_actor_id name) db.actors.rows ≡ false) × ((process_burn_down d name root db).1 ≡ db)
unfolding process_burn_down burn_down_body transaction run_body commit find_actor_by_actor_id
burn_down-not_found d name root db e =
    elim (Option-cases (find (has_actor_id name) db.actors.rows)) [
      | inl absent ↦ (
        find-eq-none (has_actor_id name) db.actors.rows absent,
        transaction-error d (burn_down_body d name root) db e,
      )
      | inr (a, found) ↦ elim (Result-cases (tx_get_message_hashes_for_actor d a.id db)) [
        | inr (x, xe) ↦ ground arith
        | inl (hashes, he) ↦ elim (Result-cases (tx_delete_symmetric_keys_by_hashes d hashes db)) [
          | inr (x, xe) ↦ ground arith
          | inl (db₁, de) ↦ elim (Result-cases (tx_revoke_all_keys_for_actor d a.id root db₁)) [
            | inr (x, xe) ↦ ground arith
            | inl (db₂, re) ↦ ground arith
          ]
        ]
      ]
    ]

only_unit : (u : Unit {0}) → u ≡ tt
only_unit u = refl

decoded-keeps : (first : First) (o : Option String) (w : World) → (decoded first o w).1 ≡ w
decoded-keeps first (some text) w = refl
decoded-keeps (value j) none w = refl
decoded-keeps limit_reached none w = refl
decoded-keeps malformed none w = refl

decoded-value :
    (first : First) (o : Option String) (w : World) (text : String)
    → (decoded first o w).0 ≡ go text
    → o ≡ some text
decoded-value first (some t) w text e = ground arith
decoded-value (value j) none w text e = ground arith
decoded-value limit_reached none w text e = ground arith
decoded-value malformed none w text e = ground arith

decode_request-keeps :
    (name : String) (first : First) (w : World) → (decode_request name first w).1 ≡ w
decode_request-keeps name first w = decoded-keeps first _ w

module _ (s : Server) (nanos : ℕ) (first : First) (w : World) (c : IsConsistent w.db) where
  abbrev result : Db
  result = (handle_crypto_shred s nanos first w).1.db

  -- Where a request to crypto-shred is answered with success, on consistent tables: its body has a
  -- field actor-id that is not empty, and the answer names the actor of that field. That actor has
  -- no active key left, and of the message hashes under which its keys were added or revoked no
  -- symmetric key; every other actor has the active keys that it had. So it is also where there is
  -- no such actor. Nothing is logged for it.
  pub handle_crypto_shred-success :
      (payload : Payload)
      → (handle_crypto_shred s nanos first w).0 ≡ go payload
      → (actor : String) × (read_request "actor-id" (value_of first) ≡ some actor)
        × (actor ≢ "")
        × (payload ≡ crypto_shredded actor)
        × (active_keys actor result ≡ [])
        × ((h : String) → is_hash_of actor w.db h ≡ true → keys_of_hash h result ≡ [])
        × ((n : String) → n ≢ actor → active_keys n result ≡ active_keys n w.db)
        × ((handle_crypto_shred s nanos first w).1.logged ≡ w.logged)
  unfolding handle_crypto_shred ensure writes crypto_shred active_keys is_hash_of
  handle_crypto_shred-success payload e =
      elim (Outcome-cases (decode_request "actor-id" first w).0) [
        | inr (p, pe) ↦ ground arith
        | inl (actor, ae) ↦
            let root = shred_root actor nanos in
            let asked = decoded-value first (read_request "actor-id" (value_of first)) w actor ae in
            let given : (actor == "") ≡ false = ground arith in
            let full : actor ≢ "" = λ q. false≢true (sym given ∙ (eq_iff actor "").1 q) in
            let run = process_burn_down s.driver actor root w.db in
            let kept = decode_request-keeps "actor-id" first w in
            elim (Result-cases run.0) [
              | inl (u, ue) ↦
                  let (own, others, shredded, _, _) =
                    active_keys-process_burn_down s.driver actor root w.db c
                      (ue ∙ ap ok (only_unit u)) in
                  let same : result ≡ run.1 = ground arith in
                  (
                    actor,
                    asked,
                    full,
                    ground arith,
                    ap (active_keys actor) same ∙ own,
                    (λ h t. ap (keys_of_hash h) same ∙ shredded h t),
                    (λ n ne. ap (active_keys n) same ∙ others n ne),
                    ground arith,
                  )
              | inr (f, fe) ↦
                  let f_is : f ≡ actor_not_found = ground arith in
                  let (absent, unchanged) =
                    burn_down-not_found s.driver actor root w.db (fe ∙ ap err f_is) in
                  let (none_left, no_hashes) =
                    no_keys actor w.db.actors.rows w.db.public_keys.rows absent in
                  let same : result ≡ w.db = ground arith in
                  (
                    actor,
                    asked,
                    full,
                    ground arith,
                    ap (active_keys actor) same ∙ none_left,
                    (λ h t. absurd (false≢true (sym (no_hashes h) ∙ t))),
                    (λ n ne. ap (active_keys n) same),
                    ground arith,
                  )
            ]
      ]
