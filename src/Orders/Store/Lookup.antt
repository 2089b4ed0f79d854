-- ===== src/Orders/Store/Lookup.antt =====
-- What `getOrder` finds after `addOrder`.
use swift_bot.Prelude.{
  ◌≡◌, ◌<◌, inl, inr, String, true, false, some, not, arith, Bool-cases, refl, length, ap, sym, ◌∙◌,
  subst, some_inj, get_or, set, get_or-set_self, get_or-append_last, [], ap₂, ◌++◌, ◌∷◌, ◌||◌,
  if◌then◌else◌, ◌⊎◌,
}
use swift_bot.Qt.Key.{text_key}
use swift_bot.Qt.Map.{contains, value_or, lookup, insert, lookup-insert_self}
use swift_bot.Qt.Json.{JsonObject}
use swift_bot.Double.{Double}
use swift_bot.Orders.Order.{Env, get_text-prepare}
use swift_bot.Orders.Index.{value_or-lt, Bounded-contains}
use swift_bot.Orders.Store.{
  Store, get_order, order_at, overwrite, file_known, update_order, append_order, add_order,
  hits_remote, hits_local, remote_of, local_of,
}
use swift_bot.Orders.Store.Valid.{
  IsValid, with_uuids-IsValid, prepared, stamped, slot, Updates, update_order-Updates,
}

-- A remote id that the index knows is looked up there, whatever the local id.
pub get_order_known :
    (s : Store) (r l : String)
    → contains r s.ext_id ≡ true
    → get_order s r l ≡ order_at s (value_or r 0 s.ext_id)
unfolding get_order
get_order_known s r l h = rw (h, get_order)

module _ {D : Type 0} ⦃d : Double D⦄ (env : Env D) where
  pub remote_of-prepared : (s : Store) (o : JsonObject) → remote_of (prepared env s o) ≡ remote_of o
  remote_of-prepared s o =
      get_text-prepare env s.uuids o "#" "remote_id" (refl, refl, refl, refl, refl, refl, refl)

  -- `file_known` touches neither the orders nor the index of remote ids.
  file_known_orders :
      (s : Store) (r : String) (o : JsonObject) → (file_known env s r o).orders ≡ s.orders
  unfolding file_known
  file_known_orders s r o = ground arith

  file_known_ext_id :
      (s : Store) (r : String) (o : JsonObject) → (file_known env s r o).ext_id ≡ s.ext_id
  unfolding file_known
  file_known_ext_id s r o = ground arith

  -- What an update leaves in the list and in the index of remote ids.
  pub Updates-orders :
      (s : Store) (o : JsonObject) (t : Store)
      → Updates env s o t
      → (t.ext_id ≡ s.ext_id)
        × (((prepared env s o
                ≡ get_order
                    (stamped env s o)
                    (remote_of (prepared env s o))
                    (local_of (prepared env s o)))
              × (t.orders ≡ s.orders))
            ⊎ (t.orders ≡ set s.orders (slot env s o) (prepared env s o)))
  unfolding overwrite
  Updates-orders s o t (inl (same, e)) = (
    ap (λ u. u.ext_id) e ∙ file_known_ext_id _ _ _,
    inl (same, ap (λ u. u.orders) e ∙ file_known_orders _ _ _),
  )
  Updates-orders s o t (inr e) = (
    ap (λ u. u.ext_id) e ∙ file_known_ext_id _ _ _,
    inr (ap (λ u. u.orders) e ∙ file_known_orders _ _ _),
  )

  known_after :
      (s : Store) (o : JsonObject) (t : Store) (l : String)
      → contains (remote_of (prepared env s o)) s.ext_id ≡ true
      → slot env s o < length s.orders
      → Updates env s o t
      → get_order t (remote_of (prepared env s o)) l ≡ prepared env s o
  known_after s o t l h lt made =
      let p = prepared env s o in
      let r = remote_of p in
      let (ext, ords) = Updates-orders s o t made in
      let known = get_order_known t r l (rw (ap (contains r) ext) h) in
      elim ords [
        | inl (same, e) ↦
            known
            ∙ ap₂ (λ os m. get_or os (value_or r 0 m) []) e ext
            ∙ sym (same ∙ get_order_known (stamped env s o) r (local_of p) h)
        | inr e ↦
            known
            ∙ ap₂ (λ os m. get_or os (value_or r 0 m) []) e ext
            ∙ get_or-set_self s.orders (slot env s o) p [] lt
      ]

  -- `updateOrder` of an order whose remote id is known replaces what `getOrder` finds.
  update_order-get_order :
      (s : Store) (o : JsonObject) (t : Store) (l : String)
      → IsValid s
      → contains (remote_of o) s.ext_id ≡ true
      → update_order env s o ≡ some t
      → get_order t (remote_of o) l ≡ prepared env s o
  update_order-get_order s o t l v h e =
      let same = remote_of-prepared s o in
      let h' : contains (remote_of (prepared env s o)) s.ext_id ≡ true = rw same h in
      let lt =
        value_or-lt _ (remote_of (prepared env s o)) s.ext_id
          (Bounded-contains _ (remote_of o) s.ext_id h v.ext_bounded) v.ext_bounded in
      let (t', e', made) = update_order-Updates env s o lt in
      subst (λ u. get_order u (remote_of o) l ≡ prepared env s o) (some_inj (sym e' ∙ e))
        (subst (λ r. get_order t' r l ≡ prepared env s o) same (known_after s o t' l h' lt made))

  pub append_order_orders :
      (s : Store) (r l : String) (o : JsonObject)
      → ((append_order env s r l o).orders ≡ s.orders ++ (o ∷ []))
        × ((append_order env s r l o).ext_id ≡ insert r (length s.orders) s.ext_id)
  unfolding append_order
  append_order_orders s r l o = ground arith

  append_order-get_order :
      (s : Store) (r k l : String) (o : JsonObject) → get_order (append_order env s r k o) r l ≡ o
  append_order-get_order s r k l o =
      let t = append_order env s r k o in
      let (ords, ext) = append_order_orders s r k o in
      let found = ap (lookup r) ext ∙ lookup-insert_self r (length s.orders) s.ext_id in
      get_order_known t r l (rw (found, contains) refl)
      ∙ rw (found, value_or, ords) (get_or-append_last s.orders o [])

  -- What `getOrder` finds under the remote id of an order that a valid store took: the prepared
  -- order, prepared twice where `addOrder` went on to `updateOrder`. The order must not be one whose
  -- local id is known and whose remote id is not.
  pub add_order-get_order :
      (s : Store) (o : JsonObject) (t : Store) (l : String)
      → IsValid s
      → hits_remote s (remote_of o)
          || not (hits_local s (remote_of o) (local_of (prepared env s o)))
        ≡ true
      → add_order env s o ≡ some t
      → get_order t (remote_of o) l ≡ (
          if hits_remote s (remote_of o)
          then prepared env (stamped env s o) (prepared env s o)
          else prepared env s o)
  unfolding add_order
  add_order-get_order s o t l v fine e =
      let p = prepared env s o in
      let s' = stamped env s o in
      let same = remote_of-prepared s o in
      let fine' =
        subst (λ r. hits_remote s r || not (hits_local s r (local_of p)) ≡ true) (sym same) fine in
      elim (Bool-cases (hits_remote s (remote_of p))) [
        | inl hit ↦
            rw (← same, hit)
              (update_order-get_order s' p t l (with_uuids-IsValid s _ v) (ground arith)
                (rw (hit, add_order) at e))
        | inr miss ↦
            let fresh : hits_local s (remote_of p) (local_of p) ≡ false = ground arith in
            rw (← same, miss)
              (subst (λ u. get_order u (remote_of p) l ≡ p)
                (some_inj (rw (miss, fresh, add_order) at e))
                (append_order-get_order s' (remote_of p) (local_of p) l p))
      ]
