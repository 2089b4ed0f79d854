-- ===== src/Orders/Store/Valid.antt =====
-- That the operations of the store succeed on a valid store, and keep it valid.
mod Helpers
pub use swift_bot.Orders.Store.Valid.Helpers.{IsValid, with_uuids-IsValid}
use swift_bot.Prelude.{
  ℕ, ◌≤◌, ◌<◌, ◌≡◌, ◌≢◌, none, ◌∙◌, ap, refl, ◌⊎◌, inl, inr, String, true, false, some, List, [],
  ◌∷◌, ◌++◌, length, length-append, length-set, All, arith, Bool-cases, leb,
}
use swift_bot.Qt.Key.{text_key}
use swift_bot.Qt.Map.{lookup, value_or}
use swift_bot.Qt.Json.{JsonObject, get_text, json_eq, json_eq→eq}
use swift_bot.Double.{Double}
use swift_bot.Orders.Order.{Env, Uuids, prepare_order_data, prepare-ne-nil}
use swift_bot.Orders.Index.{Bounded-contains, value_or-lt}
use swift_bot.Orders.Store.{
  Store, get_order, replace_order, overwrite, file_known, update_order, append_order, add_order,
  add_orders, empty, hits_remote, hits_local, with_uuids, remote_of, local_of, store_prepared,
}
use swift_bot.Orders.Store.Valid.Helpers.{
  overwrite-IsValid, length-overwrite, file_known-IsValid, append_order-IsValid,
}

store_known :
    (s : Store) (p : JsonObject)
    → json_eq p (get_order s (remote_of p) (local_of p)) ≡ true
    → store_prepared s p ≡ some s
unfolding store_prepared
store_known s p e = rw (e, store_prepared)

store_changed :
    (s : Store) (p : JsonObject)
    → json_eq p (get_order s (remote_of p) (local_of p)) ≡ false
    → value_or (remote_of p) 0 s.ext_id < length s.orders
    → store_prepared s p ≡ some (overwrite s (value_or (remote_of p) 0 s.ext_id) p)
unfolding store_prepared
store_changed s p e h = ground arith

module _ {D : Type 0} ⦃d : Double D⦄ (env : Env D) where
  -- What `updateOrder` makes of a valid store that is not empty.
  abbrev pub prepared : Store → JsonObject → JsonObject
  prepared s o = (prepare_order_data env s.uuids o).0

  abbrev pub stamped : Store → JsonObject → Store
  stamped s o = with_uuids s (prepare_order_data env s.uuids o).1

  abbrev pub slot : Store → JsonObject → ℕ
  slot s o = value_or (remote_of (prepared s o)) 0 s.ext_id

  abbrev pub Updates : Store → JsonObject → Store → Type 0
  Updates s o t =
      let p = prepared s o in
      ((p ≡ get_order (stamped s o) (remote_of p) (local_of p))
        × (t ≡ file_known env (stamped s o) (remote_of p) p))
      ⊎ (t ≡ file_known env (overwrite (stamped s o) (slot s o) p) (remote_of p) p)

  pub update_order-Updates :
      (s : Store) (o : JsonObject)
      → slot s o < length s.orders
      → (t : Store) × (update_order env s o ≡ some t) × Updates s o t
  unfolding update_order
  update_order-Updates s o h =
      let p = prepared s o in
      let s' = stamped s o in
      let i = slot s o in
      elim (Bool-cases (json_eq p (get_order s' (remote_of p) (local_of p)))) [
        | inl e ↦ (
          file_known env s' (remote_of p) p,
          rw (store_known s' p e, update_order) refl,
          inl (json_eq→eq _ _ e, refl),
        )
        | inr e ↦ (
          file_known env (overwrite s' i p) (remote_of p) p,
          rw (store_changed s' p e h, update_order) refl,
          inr refl,
        )
      ]

  -- On a valid store that holds an order, `updateOrder` succeeds, and the store stays valid.
  pub update_order-IsValid :
      (s : Store) (o : JsonObject)
      → IsValid s
      → 0 < length s.orders
      → (t : Store) × (update_order env s o ≡ some t) × IsValid t
  update_order-IsValid s o v h =
      let p = prepared s o in
      let lt = value_or-lt _ (remote_of p) s.ext_id h v.ext_bounded in
      let v' = with_uuids-IsValid s (prepare_order_data env s.uuids o).1 v in
      let (t, e, made) = update_order-Updates s o lt in (t, e, valid t lt h v' made)
    where
      valid :
          (t : Store)
          → slot s o < length s.orders
          → 0 < length s.orders
          → IsValid (stamped s o)
          → Updates s o t
          → IsValid t
      valid t lt h v (inl (same, e)) = rw e (file_known-IsValid env _ _ _ h v)
      valid t lt h v (inr e) = rw e (
          file_known-IsValid env _ _ _
            (rw (length-overwrite (stamped s o) (slot s o) (prepared s o)) h)
            (overwrite-IsValid _ _ (prepared s o) lt v))

  -- An order is always taken in: the store stays valid, and no index leads out of the list.
  pub add_order-IsValid :
      (s : Store) (o : JsonObject)
      → IsValid s
      → (t : Store) × (add_order env s o ≡ some t) × IsValid t
  unfolding add_order
  add_order-IsValid s o v =
      let p = prepared s o in
      let s' = stamped s o in
      let v' = with_uuids-IsValid s (prepare_order_data env s.uuids o).1 v in
      elim (Bool-cases (hits_remote s (remote_of p))) [
        | inl hit ↦
            rw (hit, add_order)
              (update_order-IsValid s' p v'
                (Bounded-contains _ (remote_of p) s.ext_id (ground arith) v.ext_bounded))
        | inr miss ↦ elim (Bool-cases (hits_local s (remote_of p) (local_of p))) [
          | inl hit ↦
              rw (miss, hit, add_order)
                (update_order-IsValid s' p v'
                  (Bounded-contains _ (local_of p) s.loc_id (ground arith) v.loc_bounded))
          | inr none_hit ↦ (
            append_order env s' (remote_of p) (local_of p) p,
            rw (miss, none_hit, add_order) refl,
            append_order-IsValid env s' (remote_of p) (local_of p) p v',
          )
        ]
      ]

  -- From a valid store every list of orders is taken in, one `addOrder` after the other, and the store
  -- stays valid.
  pub add_orders-IsValid :
      (s : Store) (os : List JsonObject)
      → IsValid s
      → (t : Store) × (add_orders env s os ≡ some t) × IsValid t
  unfolding add_orders
  add_orders-IsValid s [] v = (s, refl, v)
  add_orders-IsValid s (o ∷ os) v =
      let (t, e, v') = add_order-IsValid s o v in
      let (u, e', v'') = add_orders-IsValid t os v' in (u, rw (e, add_orders) e', v'')

pub empty-IsValid : IsValid empty
unfolding empty lookup
empty-IsValid = record {
  ext_bounded = λ k i h. ground (arith, h);
  loc_bounded = λ k i h. ground (arith, h);
  open_bounded = λ k i h. ground (arith, h);
  closed_bounded = λ k i h. ground (arith, h);
  updated_bounded = tt;
  apart = λ k. inl refl;
  ext_injective = λ j k i h g. ground (arith, h);
}
