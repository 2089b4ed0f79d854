-- ===== src/Workers/OrdersWorker/Closed.antt =====
-- What the events leave of an order.
use swift_bot.Prelude.{
  ℕ, ◌≡◌, refl, ◌∙◌, ap, String, true, false, none, some, [], leb, Bool-cases, inl, inr, subst,
  ◌==◌ as nat_beq, ==_iff,
}
use swift_bot.Qt.Key.{text_key}
use swift_bot.Qt.Json.{JsonObject, get_text, put_text, get_text-put_text_self, get_text-put_text_ne}
use swift_bot.Double.{Double, nought}
use swift_bot.Orders.Order.{Env}
use swift_bot.Orders.Store.{add_order, remote_of}
use swift_bot.Orders.Store.Valid.{IsValid, add_order-IsValid}
use swift_bot.Orders.Store.Nowhere.{update_order_nowhere}
use swift_bot.Orders.Store.Listed.{IsListed, ReadsNought, is_open_state, add_order-IsListed}
use swift_bot.Workers.OrdersWorker.{
  Event, Worker, with_store, on_event, check_state, clear_amount_left, link_uuids,
}

-- `QString::toUInt` on the three states that the worker writes.
pub record ReadsStates {D : Type 0} (env : Env D) : Type 0 where
  pub nought : ReadsNought env
  pub of_two : env.to_uint "2" ≡ 2
  pub of_three : env.to_uint "3" ≡ 3
  pub of_four : env.to_uint "4" ≡ 4

-- The names of the events that close an order.
pub data Closing : String → Type 0 where
  error : Closing "error"
  completed : Closing "completed"

abbrev pub order_event : String → JsonObject → Event
order_event name o = record { event = some "order"; name = name; target = o }

module _ {D : Type 0} ⦃d : Double D⦄ (env : Env D) where
  -- What an event leaves: a valid store in which the order is closed.
  abbrev pub Closes : Worker → Event → JsonObject → Type 0
  Closes w ev o =
      (u : Worker) × (on_event env w ev ≡ some u)
      × IsValid u.store
      × IsListed u.store (remote_of o) false

  closed_after :
      ReadsNought env
      → (w v : Worker) (state : String) (o : JsonObject) → leb (env.to_uint state) 1 ≡ false
      → IsValid w.store
      → (u : Worker) × (with_store v (add_order env w.store (put_text "status" state o)) ≡ some u)
        × IsValid u.store
        × IsListed u.store (remote_of o) false
  closed_after n w v state o above valid =
      let p = put_text "status" state o in
      let (t, e, kept) = add_order-IsValid env w.store p valid in
      let listed = add_order-IsListed env n w.store p t valid e in
      let open_state : is_open_state env p ≡ false =
        ap (λ s. leb (env.to_uint s) 1) (get_text-put_text_self "" "status" state o) ∙ above in
      let same = get_text-put_text_ne "#" "status" "remote_id" state o refl in
      (
        record v { store = t },
        ap (with_store v) e,
        kept,
        subst (λ r. IsListed t r false) same (subst (IsListed t (remote_of p)) open_state listed),
      )

  -- Where the states read as they are written: on a valid store an event "error" or "completed" is
  -- always taken in; after it the store is valid and the order is
  -- among the closed ones and not among the open ones, whatever state it came with.
  pub on_event-Closes :
      ReadsStates env
      → (w : Worker) (name : String) (o : JsonObject) → Closing name
      → IsValid w.store
      → Closes w (order_event name o) o
  unfolding on_event
  on_event-Closes r w name o error valid = closed_after r.nought w w "4" o (rw r.of_four refl) valid
  on_event-Closes r w name o completed valid =
      closed_after r.nought w (link_uuids env w (put_text "status" "2" o)) "2" o (rw r.of_two refl)
        valid

  -- A cancellation that reaches an empty store writes out of range: `updateOrder` takes the missing
  -- index for 0.
  pub on_event_canceled_empty :
      (w : Worker) (o : JsonObject)
      → w.store.orders ≡ []
      → on_event env w (order_event "canceled" o) ≡ none
  unfolding on_event
  on_event_canceled_empty w o e =
      ap (with_store w) (update_order_nowhere env w.store (put_text "status" "3" o) e)

  cleared :
      d.eq (env.to_double (env.nat_text 0)) nought ≡ true
      → (o : JsonObject)
      → (get_text "" "status" (clear_amount_left env o) ≡ get_text "" "status" o)
        × (d.eq (env.to_double (get_text "" "amount_left" (clear_amount_left env o))) nought ≡ true)
  unfolding clear_amount_left
  cleared zero o = elim (Bool-cases (d.eq (env.to_double (get_text "" "amount_left" o)) nought)) [
    | inl e ↦ rw (e, clear_amount_left) (refl, e)
    | inr e ↦
        rw (e, clear_amount_left)
          (
            get_text-put_text_ne "" "amount_left" "status" _ o refl,
            rw (get_text-put_text_self "" "amount_left" (env.nat_text 0) o) zero,
          )
  ]

  -- Where the state asked for and 0 read back as they are printed, `checkState` answers an order that
  -- has this state and no amount left.
  pub check_state_lem :
      (o : JsonObject) (state : ℕ)
      → env.to_uint (env.nat_text state) ≡ state
      → d.eq (env.to_double (env.nat_text 0)) nought ≡ true
      → (env.to_uint (get_text "" "status" (check_state env o state)) ≡ state)
        × (d.eq (env.to_double (get_text "" "amount_left" (check_state env o state))) nought ≡ true)
  unfolding check_state
  check_state_lem o state reads zero =
      elim (Bool-cases (nat_beq (env.to_uint (get_text "" "status" o)) state)) [
        | inl e ↦
            let (kept, none_left) = cleared zero o in
            rw (e, check_state) (ap env.to_uint kept ∙ (==_iff _ _).0 e, none_left)
        | inr e ↦
            let (kept, none_left) = cleared zero (put_text "status" (env.nat_text state) o) in
            rw (e, check_state)
              (
                ap env.to_uint (kept ∙ get_text-put_text_self "" "status" (env.nat_text state) o)
                    ∙ reads,
                none_left,
              )
      ]
