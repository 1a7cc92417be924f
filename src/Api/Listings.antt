-- ===== src/Api/Listings.antt =====
-- The answers of the reads of internal/api/server.go agree with each other.
use pkd_server_go.Prelude.{
  String, ◌≡◌, false, some, arith, eq_refl, find, All, All-select, All-mono, find-Unique,
}
use pkd_server_go.Store.Driver.{Statement, select_keys, select_key, select_aux_list, select_aux}
use pkd_server_go.Store.Rows.{PublicKey, AuxiliaryData}
use pkd_server_go.Store.Reads.{
  active_keys, active_aux, list_keys_for_actor, find_key_by_key_id, list_aux_data_for_actor,
  find_aux_data_by_aux_id,
}
use pkd_server_go.Store.Consistency.{IsConsistent, same_key_id, same_aux_id}
use pkd_server_go.Api.Handler.{
  Server, World, go, key_list, key_info, aux_list, aux_info, need, reads,
}
use pkd_server_go.Api.Reads.{
  handle_get_actor_keys, handle_get_key_info, handle_get_actor_auxiliary,
  handle_get_auxiliary_data_info,
}

module _ (s : Server) (w : World) (c : IsConsistent w.db)
    (reliable : (q : Statement) → s.driver.down q ≡ false) (name : String) where
  key_info_of :
      (k : PublicKey)
      → find (λ j. same_key_id j k) w.db.public_keys.rows ≡ some k
      → handle_get_key_info s k.key_id w ≡ (go (key_info k), w)
  unfolding handle_get_key_info reads need find_key_by_key_id
  key_info_of k found = let up = reliable select_key in ground arith

  aux_info_of :
      (x : AuxiliaryData)
      → find (λ y. same_aux_id y x) w.db.auxiliary_data.rows ≡ some x
      → handle_get_auxiliary_data_info s x.aux_id w ≡ (go (aux_info x), w)
  unfolding handle_get_auxiliary_data_info reads need find_aux_data_by_aux_id
  aux_info_of x found = let up = reliable select_aux in ground arith

  -- On consistent tables, where no statement fails: the list of an actor's keys is that of its active
  -- keys, and under the id of each of them the server shows that key and no other; so it is with the
  -- auxiliary data. These reads change nothing.
  pub listings_agree :
      (handle_get_actor_keys s name w ≡ (go (key_list (active_keys name w.db)), w))
      × All (λ k. handle_get_key_info s k.key_id w ≡ (go (key_info k), w)) (active_keys name w.db)
      × (handle_get_actor_auxiliary s name w ≡ (go (aux_list (active_aux name w.db)), w))
      × All
          (λ x. handle_get_auxiliary_data_info s x.aux_id w ≡ (go (aux_info x), w))
          (active_aux name w.db)
  unfolding handle_get_actor_keys handle_get_actor_auxiliary reads list_keys_for_actor
      list_aux_data_for_actor active_keys active_aux
  listings_agree =
      let keys_up = reliable select_keys in
      let aux_up = reliable select_aux_list in
      (
        ground arith,
        All-select _ _ w.db.public_keys.rows (
            All-mono _ w.db.public_keys.rows key_info_of (
              find-Unique same_key_id w.db.public_keys.rows (λ k. eq_refl k.key_id)
                c.key_ids_distinct)),
        ground arith,
        All-select _ _ w.db.auxiliary_data.rows (
            All-mono _ w.db.auxiliary_data.rows aux_info_of (
              find-Unique same_aux_id w.db.auxiliary_data.rows (λ x. eq_refl x.aux_id)
                c.aux_ids_distinct)),
      )
