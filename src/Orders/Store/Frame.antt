-- ===== src/Orders/Store/Frame.antt =====
-- What `addOrder` does to the orders other than its own.
use swift_bot.Prelude.{
  List, ℕ, ◌≡◌, ◌≢◌, ◌<◌, inl, inr, String, true, false, some, not, arith, Bool-cases, refl, length,
  ap, sym, ◌∙◌, subst, some_inj, get_or, get_or-set_self, get_or-set_ne, get_or-append_lt,
  Option-cases, [], ap₂, ◌∷◌, ◌||◌,
}
use mathlib.Core.Bool.{false≢true}
use swift_bot.Qt.Key.{◌==◌, text_key}
use swift_bot.Qt.Map.{Map, contains, value_or, lookup, lookup-insert_ne}
use swift_bot.Qt.Json.{JsonObject}
use swift_bot.Double.{Double}
use swift_bot.Orders.Order.{Env, prepare-ne-nil}
use swift_bot.Orders.Index.{value_or-lt, Bounded-contains}
use swift_bot.Orders.Store.{
  Store, get_order, order_at, append_order, add_order, hits_remote, hits_local, remote_of, local_of,
}
use swift_bot.Orders.Store.Valid.{
  IsValid, with_uuids-IsValid, prepared, stamped, Updates, update_order-Updates,
}
use swift_bot.Orders.Store.Lookup.{
  get_order_known, remote_of-prepared, Updates-orders, append_order_orders,
}

contains-some :
    (k : String) (m : Map String ℕ) → contains k m ≡ true → (i : ℕ) × (lookup k m ≡ some i)
contains-some k m h = elim (Option-cases (lookup k m)) [
  | inl e ↦ absurd (false≢true (rw (e, contains) at h))
  | inr found ↦ found
]

value_or_unknown : (k : String) (m : Map String ℕ) → contains k m ≡ false → value_or k 0 m ≡ 0
value_or_unknown k m h = ground arith

-- Ids that the index of remote ids does not know find the empty object.
get_order_unknown :
    (s : Store) (r l : String)
    → contains r s.ext_id ≡ false
    → contains l s.ext_id ≡ false
    → get_order s r l ≡ []
unfolding get_order
get_order_unknown s r l hr hl = ground arith

get_order_unknown_remote :
    (s : Store) (r : String) → contains r s.ext_id ≡ false → get_order s r "" ≡ []
unfolding get_order
get_order_unknown_remote s r h = rw (h, get_order)

module _ {D : Type 0} ⦃d : Double D⦄ (env : Env D) where
  other_after :
      (s : Store) (o : JsonObject) (t : Store) (q l : String)
      → IsValid s
      → contains (remote_of (prepared env s o)) s.ext_id ≡ true
      → contains q s.ext_id ≡ true
      → q ≢ remote_of (prepared env s o)
      → Updates env s o t
      → get_order t q l ≡ get_order s q l
  other_after s o t q l v hr hq ne made =
      let r = remote_of (prepared env s o) in
      let (ext, ords) = Updates-orders env s o t made in
      let (i, ei) = contains-some r s.ext_id hr in
      let (j, ej) = contains-some q s.ext_id hq in
      let apart : i ≢ j =
        λ e. ne (v.ext_injective q r j ej (subst (λ n. lookup r s.ext_id ≡ some n) e ei)) in
      let old = sym (get_order_known s q l hq) in
      let new = get_order_known t q l (rw (ap (contains q) ext) hq) in
      let move = λ (os : List JsonObject) (e : t.orders ≡ os).
        ap₂ (λ os m. get_or os (value_or q 0 m) []) e ext in
      elim ords [
        | inl (same, e) ↦ new ∙ move s.orders e ∙ old
        | inr e ↦
            new
            ∙ move _ e
            ∙ rw (ei, ej, value_or) (get_or-set_ne s.orders i j (prepared env s o) [] apart)
            ∙ rw (ej, value_or) at old
      ]

  append_other :
      (s : Store) (r k : String) (o : JsonObject) (q l : String)
      → IsValid s
      → contains q s.ext_id ≡ true
      → q ≢ r
      → get_order (append_order env s r k o) q l ≡ get_order s q l
  append_other s r k o q l v hq ne =
      let (ords, ext) = append_order_orders env s r k o in
      let (j, ej) = contains-some q s.ext_id hq in
      let lt = v.ext_bounded q j ej in
      let apart : (r == q) ≡ false = ground (arith, text_key.beq_iff r q, λ (f : q ≡ r). ne f) in
      let ej' = ap (lookup q) ext ∙ lookup-insert_ne r q (length s.orders) s.ext_id apart ∙ ej in
      let t = append_order env s r k o in
      let moved : order_at t (value_or q 0 t.ext_id) ≡ order_at s (value_or q 0 s.ext_id) =
        rw (ej', ej, value_or, ords) (get_or-append_lt s.orders (o ∷ []) j [] lt) in
      get_order_known t q l (rw (ej', contains) refl) ∙ moved ∙ sym (get_order_known s q l hq)

  -- On a valid store `addOrder` leaves what `getOrder` finds under any other known remote id as it was, unless the
  -- order has a known local id and an unknown remote id.
  pub add_order-get_order_ne :
      (s : Store) (o : JsonObject) (t : Store) (q l : String)
      → IsValid s
      → contains q s.ext_id ≡ true
      → q ≢ remote_of o
      → hits_remote s (remote_of o)
          || not (hits_local s (remote_of o) (local_of (prepared env s o)))
        ≡ true
      → add_order env s o ≡ some t
      → get_order t q l ≡ get_order s q l
  unfolding add_order
  add_order-get_order_ne s o t q l v hq ne fine e =
      let p = prepared env s o in
      let s' = stamped env s o in
      let same = remote_of-prepared env s o in
      let same' = remote_of-prepared env s' p in
      let fine' =
        subst (λ r. hits_remote s r || not (hits_local s r (local_of p)) ≡ true) (sym same) fine in
      elim (Bool-cases (hits_remote s (remote_of p))) [
        | inl hit ↦
            let hr : contains (remote_of p) s.ext_id ≡ true = ground arith in
            let hr' : contains (remote_of (prepared env s' p)) s.ext_id ≡ true = rw same' hr in
            let lt =
              value_or-lt _ (remote_of (prepared env s' p)) s.ext_id
                (Bounded-contains _ (remote_of p) s.ext_id hr v.ext_bounded) v.ext_bounded in
            let (t', e', made) = update_order-Updates env s' p lt in
            subst (λ u. get_order u q l ≡ get_order s q l)
              (some_inj (sym e' ∙ (rw (hit, add_order) at e)))
              (other_after s' p t' q l (with_uuids-IsValid s _ v) hr' hq
                  (λ f. ne (f ∙ same' ∙ same)) made
                ∙ get_order_known s' q l hq
                ∙ sym (get_order_known s q l hq))
        | inr miss ↦
            let fresh : hits_local s (remote_of p) (local_of p) ≡ false = ground arith in
            subst (λ u. get_order u q l ≡ get_order s q l)
              (some_inj (rw (miss, fresh, add_order) at e))
              (append_other s' (remote_of p) (local_of p) p q l (with_uuids-IsValid s _ v) hq
                  (λ f. ne (f ∙ same))
                ∙ get_order_known s' q l hq
                ∙ sym (get_order_known s q l hq))
      ]

  -- An update under an unknown remote id is written over the first order.
  overwritten :
      (s : Store) (o : JsonObject) (t : Store)
      → 0 < length s.orders
      → contains (remote_of (prepared env s o)) s.ext_id ≡ false
      → contains (local_of (prepared env s o)) s.ext_id ≡ false
      → Updates env s o t
      → (order_at t 0 ≡ prepared env s o) × (t.ext_id ≡ s.ext_id)
  overwritten s o t lt hr hl made =
      let (ext, ords) = Updates-orders env s o t made in
      elim ords [
        | inl (known, _) ↦
            absurd
              (prepare-ne-nil env s.uuids o (known ∙ get_order_unknown (stamped env s o) _ _ hr hl))
        | inr os ↦ (
          ap (λ xs. get_or xs 0 []) os
              ∙ rw (value_or_unknown _ s.ext_id hr) (get_or-set_self s.orders 0 _ [] lt),
          ext,
        )
      ]

  -- On a valid store, where `addOrder` takes an order in whose remote id is unknown and not empty, and whose
  -- local id, as it is prepared, is known and not "#": the order is written over the first order of the
  -- list, whichever that is, and its own remote id stays unknown; provided that its local id, as it is
  -- prepared a second time, is not a known remote id.
  pub add_order_local_hit :
      (s : Store) (o : JsonObject) (t : Store)
      → IsValid s
      → contains (remote_of o) s.ext_id ≡ false
      → contains (local_of (prepared env (stamped env s o) (prepared env s o))) s.ext_id ≡ false
      → hits_local s (remote_of o) (local_of (prepared env s o)) ≡ true
      → add_order env s o ≡ some t
      → (order_at t 0 ≡ prepared env (stamped env s o) (prepared env s o))
        × (get_order t (remote_of o) "" ≡ [])
  unfolding add_order get_order
  add_order_local_hit s o t v hr hl hit e =
      let p = prepared env s o in
      let s' = stamped env s o in
      let same = remote_of-prepared env s o in
      let same' = remote_of-prepared env s' p ∙ same in
      let hit' : hits_local s (remote_of p) (local_of p) ≡ true = rw same hit in
      let hr' : contains (remote_of p) s.ext_id ≡ false = rw same hr in
      let hr'' : contains (remote_of (prepared env s' p)) s.ext_id ≡ false = rw same' hr in
      let miss : hits_remote s (remote_of p) ≡ false = ground arith in
      let lt = Bounded-contains _ (local_of p) s.loc_id (ground arith) v.loc_bounded in
      let (t', e', made) =
        update_order-Updates env s' p (rw (value_or_unknown _ s.ext_id hr'') lt) in
      let (first, ext) = overwritten s' p t' lt hr'' hl made in
      let e'' : t' ≡ t = some_inj (sym e' ∙ (rw (miss, hit', add_order) at e)) in
      (
        subst (λ u. order_at u 0 ≡ prepared env s' p) e'' first,
        subst (λ u. get_order u (remote_of o) "" ≡ []) e''
            (get_order_unknown_remote t' (remote_of o) (rw ext hr)),
      )
