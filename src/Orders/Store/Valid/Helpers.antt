-- ===== src/Orders/Store/Valid/Helpers.antt =====
-- The well-formedness of the store, and that its helpers keep it.
use swift_bot.Prelude.{
  ℕ, ◌≤◌, ◌<◌, ◌≡◌, inl, inr, String, [], ◌∷◌, ◌++◌, length, length-append, length-set, All, arith,
  Bool-cases, leb,
}
use swift_bot.Qt.Json.{JsonObject, get_text}
use swift_bot.Double.{Double}
use swift_bot.Orders.Order.{Env, Uuids}
use swift_bot.Orders.Index.{
  Bounded, Apart, Injective, Bounded-mono, Bounded-insert, Bounded-drop_key, Bounded-add_key,
  value_or-lt, All-mark_updated, All-lt_mono, Apart-move, Apart-move_add, Apart-swap,
  Injective-insert, mark_updated,
}
use swift_bot.Orders.Store.{Store, overwrite, file_known, append_order, with_uuids}

pub record IsValid (s : Store) : Type 0 where
  pub ext_bounded : Bounded (length s.orders) s.ext_id
  pub loc_bounded : Bounded (length s.orders) s.loc_id
  pub open_bounded : Bounded (length s.orders) s.open_orders
  pub closed_bounded : Bounded (length s.orders) s.closed_orders
  pub updated_bounded : All (λ i. i < length s.orders) s.updated
  pub apart : Apart s.open_orders s.closed_orders
  pub ext_injective : Injective s.ext_id

pub with_uuids-IsValid : (s : Store) (u : Uuids) → IsValid s → IsValid (with_uuids s u)
with_uuids-IsValid s u v = record {
  ext_bounded = v.ext_bounded;
  loc_bounded = v.loc_bounded;
  open_bounded = v.open_bounded;
  closed_bounded = v.closed_bounded;
  updated_bounded = v.updated_bounded;
  apart = v.apart;
  ext_injective = v.ext_injective;
}

pub overwrite-IsValid :
    (s : Store) (i : ℕ) (o : JsonObject)
    → i < length s.orders
    → IsValid s
    → IsValid (overwrite s i o)
unfolding overwrite
overwrite-IsValid s i o h v =
    let e = length-set s.orders i o in
    record {
      ext_bounded = Bounded-mono _ _ s.ext_id (omega arith) v.ext_bounded;
      loc_bounded = Bounded-mono _ _ s.loc_id (omega arith) v.loc_bounded;
      open_bounded = Bounded-mono _ _ s.open_orders (omega arith) v.open_bounded;
      closed_bounded = Bounded-mono _ _ s.closed_orders (omega arith) v.closed_bounded;
      updated_bounded =
          All-lt_mono _ _ (mark_updated i s.updated) (omega arith)
            (All-mark_updated _ i s.updated h v.updated_bounded);
      apart = v.apart;
      ext_injective = v.ext_injective;
    }

pub length-overwrite :
    (s : Store) (i : ℕ) (o : JsonObject) → length (overwrite s i o).orders ≡ length s.orders
unfolding overwrite
length-overwrite s i o = length-set s.orders i o

module _ {D : Type 0} ⦃d : Double D⦄ (env : Env D) where
  pub file_known-IsValid :
      (s : Store) (remote : String) (o : JsonObject)
      → 0 < length s.orders
      → IsValid s
      → IsValid (file_known env s remote o)
  unfolding file_known
  file_known-IsValid s remote o h v =
      let lt = value_or-lt _ remote s.ext_id h v.ext_bounded in
      elim (Bool-cases (leb (env.to_uint (get_text "" "status" o)) 1)) [
        | inl e ↦
            rw (e, file_known)
              (record {
                ext_bounded = v.ext_bounded;
                loc_bounded = v.loc_bounded;
                open_bounded = Bounded-add_key _ _ remote s.open_orders lt v.open_bounded;
                closed_bounded = Bounded-drop_key _ remote s.closed_orders v.closed_bounded;
                updated_bounded = v.updated_bounded;
                apart = Apart-swap _ _ (
                    Apart-move_add remote _ s.closed_orders s.open_orders (Apart-swap _ _ v.apart));
                ext_injective = v.ext_injective;
              })
        | inr e ↦
            rw (e, file_known)
              (record {
                ext_bounded = v.ext_bounded;
                loc_bounded = v.loc_bounded;
                open_bounded = Bounded-drop_key _ remote s.open_orders v.open_bounded;
                closed_bounded = Bounded-add_key _ _ remote s.closed_orders lt v.closed_bounded;
                updated_bounded = v.updated_bounded;
                apart = Apart-move_add remote _ s.open_orders s.closed_orders v.apart;
                ext_injective = v.ext_injective;
              })
      ]

  pub append_order-IsValid :
      (s : Store) (remote local : String) (o : JsonObject)
      → IsValid s
      → IsValid (append_order env s remote local o)
  unfolding append_order
  append_order-IsValid s remote local o v =
      let n = length s.orders in
      let e = length-append s.orders (o ∷ []) in
      let up : n ≤ length (s.orders ++ (o ∷ [])) = omega arith in
      let lt : n < length (s.orders ++ (o ∷ [])) = omega arith in
      let ext =
        Bounded-insert _ n remote s.ext_id lt (Bounded-mono _ _ s.ext_id up v.ext_bounded) in
      let loc = Bounded-insert _ n local s.loc_id lt (Bounded-mono _ _ s.loc_id up v.loc_bounded) in
      let opened = Bounded-mono _ _ s.open_orders up v.open_bounded in
      let closed = Bounded-mono _ _ s.closed_orders up v.closed_bounded in
      let marked =
        All-mark_updated _ n s.updated lt (All-lt_mono _ _ s.updated up v.updated_bounded) in
      let inj = Injective-insert n remote s.ext_id v.ext_bounded v.ext_injective in
      elim (Bool-cases (leb (env.to_uint (get_text "0" "status" o)) 1)) [
        | inl e ↦
            rw (e, append_order)
              (record {
                ext_bounded = ext;
                loc_bounded = loc;
                open_bounded = Bounded-insert _ n remote s.open_orders lt opened;
                closed_bounded = Bounded-drop_key _ remote s.closed_orders closed;
                updated_bounded = marked;
                apart =
                    Apart-swap _ _
                      (Apart-move remote n s.closed_orders s.open_orders (Apart-swap _ _ v.apart));
                ext_injective = inj;
              })
        | inr e ↦
            rw (e, append_order)
              (record {
                ext_bounded = ext;
                loc_bounded = loc;
                open_bounded = Bounded-drop_key _ remote s.open_orders opened;
                closed_bounded = Bounded-insert _ n remote s.closed_orders lt closed;
                updated_bounded = marked;
                apart = Apart-move remote n s.open_orders s.closed_orders v.apart;
                ext_injective = inj;
              })
      ]
