-- ===== src/Orders/Store/Listed.antt =====
-- Which index lists an order after `addOrder`.
use swift_bot.Prelude.{
  ◌≡◌, inl, inr, String, some, not, arith, Bool-cases, leb, refl, Bool, length, subst, some_inj, ap,
  sym, ◌∙◌, ◌<◌,
}
use swift_bot.Qt.Key.{text_key, ==_refl}
use swift_bot.Qt.Map.{contains, value_or, lookup-insert_self}
use swift_bot.Qt.Json.{JsonObject, get_text}
use swift_bot.Double.{Double}
use swift_bot.Orders.Order.{Env, get_text-prepare}
use swift_bot.Orders.Index.{lookup-drop_key, lookup-add_key, value_or-lt, Bounded-contains}
use swift_bot.Orders.Store.{
  Store, file_known, update_order, append_order, add_order, hits_remote, hits_local, remote_of,
  local_of,
}
use swift_bot.Orders.Store.Valid.{IsValid, prepared, stamped, slot, Updates, update_order-Updates}

-- What `QString::toUInt` answers for the two texts that stand for a missing state.
pub record ReadsNought {D : Type 0} (env : Env D) : Type 0 where
  pub of_empty : env.to_uint "" ≡ 0
  pub of_nought : env.to_uint "0" ≡ 0

-- The order is open and not closed, or closed and not open, by its state.
abbrev pub IsListed : Store → String → Bool → Type 0
IsListed s remote is_open =
    (contains remote s.open_orders ≡ is_open) × (contains remote s.closed_orders ≡ not is_open)

module _ {D : Type 0} ⦃d : Double D⦄ (env : Env D) where
  -- Whether the state of an order is one of the two open ones.
  abbrev pub is_open_state : JsonObject → Bool
  is_open_state o = leb (env.to_uint (get_text "" "status" o)) 1

  file_known-IsListed :
      (s : Store) (remote : String) (o : JsonObject)
      → IsListed (file_known env s remote o) remote (is_open_state o)
  unfolding file_known
  file_known-IsListed s remote o = ground (
    arith,
    lookup-drop_key remote remote s.open_orders,
    lookup-drop_key remote remote s.closed_orders,
    lookup-add_key remote remote (value_or remote 0 s.ext_id) s.open_orders,
    lookup-add_key remote remote (value_or remote 0 s.ext_id) s.closed_orders,
    ==_refl remote,
  )

  append_order-IsListed :
      (s : Store) (remote local : String) (o : JsonObject)
      → IsListed
          (append_order env s remote local o)
          remote
          (leb (env.to_uint (get_text "0" "status" o)) 1)
  unfolding append_order
  append_order-IsListed s remote local o = ground (
    arith,
    lookup-drop_key remote remote s.open_orders,
    lookup-drop_key remote remote s.closed_orders,
    lookup-insert_self remote (length s.orders) s.open_orders,
    lookup-insert_self remote (length s.orders) s.closed_orders,
    ==_refl remote,
  )

  remote_of-prepared : (s : Store) (o : JsonObject) → remote_of (prepared env s o) ≡ remote_of o
  remote_of-prepared s o =
      get_text-prepare env s.uuids o "#" "remote_id" (refl, refl, refl, refl, refl, refl, refl)

  is_open_state-prepared :
      (s : Store) (o : JsonObject) → is_open_state (prepared env s o) ≡ is_open_state o
  is_open_state-prepared s o =
      ap (λ t. leb (env.to_uint t) 1)
        (get_text-prepare env s.uuids o "" "status" (refl, refl, refl, refl, refl, refl, refl))

  -- `updateOrder` lists an order by its state.
  update_order-IsListed :
      (s : Store) (o : JsonObject) (t : Store)
      → slot env s o < length s.orders
      → update_order env s o ≡ some t
      → IsListed t (remote_of o) (is_open_state o)
  update_order-IsListed s o t h e =
      let (t', e', made) = update_order-Updates env s o h in
      subst (λ u. IsListed u (remote_of o) (is_open_state o)) (some_inj (sym e' ∙ e))
        (rw (← remote_of-prepared s o, ← is_open_state-prepared s o) (listed t' made))
    where
      listed :
          (t : Store)
          → Updates env s o t
          → IsListed t (remote_of (prepared env s o)) (is_open_state (prepared env s o))
      listed t (inl (same, e)) = rw e (file_known-IsListed _ _ _)
      listed t (inr e) = rw e (file_known-IsListed _ _ _)

  status_default :
      ReadsNought env
      → (o : JsonObject)
      → env.to_uint (get_text "0" "status" o) ≡ env.to_uint (get_text "" "status" o)
  unfolding get_text
  status_default n o = ground (arith, n.of_empty, n.of_nought)

  -- The branch of `addOrder` that calls `updateOrder`.
  add_by_update :
      (s : Store) (o : JsonObject) (t : Store)
      → IsValid s
      → 0 < length s.orders
      → update_order env (stamped env s o) (prepared env s o) ≡ some t
      → IsListed t (remote_of o) (is_open_state o)
  add_by_update s o t v h e =
      rw (← remote_of-prepared s o, ← is_open_state-prepared s o)
        (update_order-IsListed (stamped env s o) (prepared env s o) t
          (value_or-lt _ _ s.ext_id h v.ext_bounded) e)

  -- Where an empty state and the state "0" read as 0: after `addOrder` on a valid store the order is in the index of the open orders and not in the other where its
  -- state is at most 1, and the other way round where it is above.
  pub add_order-IsListed :
      ReadsNought env
      → (s : Store) (o : JsonObject) (t : Store) → IsValid s
      → add_order env s o ≡ some t
      → IsListed t (remote_of o) (is_open_state o)
  unfolding add_order
  add_order-IsListed n s o t v e =
      let p = prepared env s o in
      let s' = stamped env s o in
      elim (Bool-cases (hits_remote s (remote_of p))) [
        | inl hit ↦
            add_by_update s o t v
              (Bounded-contains _ (remote_of p) s.ext_id (ground arith) v.ext_bounded)
              (rw (hit, add_order) at e)
        | inr miss ↦ elim (Bool-cases (hits_local s (remote_of p) (local_of p))) [
          | inl hit ↦
              add_by_update s o t v
                (Bounded-contains _ (local_of p) s.loc_id (ground arith) v.loc_bounded)
                (rw (miss, hit, add_order) at e)
          | inr none_hit ↦
              subst (λ u. IsListed u (remote_of o) (is_open_state o))
                (some_inj (rw (miss, none_hit, add_order) at e))
                (rw
                  (
                    ← remote_of-prepared s o,
                    ← is_open_state-prepared s o,
                    ← ap (λ k. leb k 1) (status_default n p),
                  )
                  (append_order-IsListed s' (remote_of p) (local_of p) p))
        ]
      ]
