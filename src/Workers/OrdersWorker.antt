-- ===== src/Workers/OrdersWorker.antt =====
-- workers/ordersworker.cpp: the events that change the order store.
pub mod Closed
use swift_bot.Prelude.{
  ℕ, String, Bool, true, false, not, ◌&&◌, Option, none, some, List, [], ◌∷◌, ◌++◌, if◌then◌else◌,
  ◌==◌ as nat_beq,
}
use swift_bot.Qt.Key.{◌==◌, text_key}
use swift_bot.Qt.Map.{contains}
use swift_bot.Qt.Json.{JsonObject, get_text, put_text}
use swift_bot.Double.{Double, nought}
use swift_bot.Orders.Order.{Env}
use swift_bot.Orders.Store.{
  Store, add_order, add_orders, update_order, get_updated_orders, clear_updated,
}

-- An `OrderEvent` as `onWampConnected` takes it apart.
pub record Event : Type 0 where
  pub event : Option String
  pub name : String
  pub target : JsonObject

-- The store and the rows that the handlers write to `orders_uuids`.
pub record Worker : Type 0 where
  pub store : Store
  pub uuid_rows : List (ℕ × String × String)

abbrev pub with_store : Worker → Option Store → Option Worker
with_store w none = none
with_store w (some s) = some (record w { store = s })

module _ {D : Type 0} ⦃d : Double D⦄ where
  -- The row that a placed or completed order leaves.
  pub link_uuids : Env D → Worker → JsonObject → Worker
  link_uuids env w o =
      if contains "remote_id" o && contains "local_id" o
      then record w {
        uuid_rows =
            w.uuid_rows
            ++ ((
              env.to_uint (get_text "" "exchange_id" o),
              get_text "" "remote_id" o,
              get_text "" "local_id" o,
            )
                ∷ []);
      }
      else w

  pub on_error_order_event : Env D → Worker → JsonObject → Option Worker
  on_error_order_event env w o = with_store w (add_order env w.store o)

  pub on_completed_order_event : Env D → Worker → JsonObject → Option Worker
  unfolding link_uuids
  on_completed_order_event env w o = with_store (link_uuids env w o) (add_order env w.store o)

  pub on_placed_order_event : Env D → Worker → JsonObject → Option Worker
  unfolding link_uuids
  on_placed_order_event env w o = with_store (link_uuids env w o) (add_order env w.store o)

  pub on_canceled_order_event : Env D → Worker → JsonObject → Option Worker
  on_canceled_order_event env w o = with_store w (update_order env w.store o)

  -- `onProcessApiCurrent`, `onProcessApiHistory` and `onOrdersFromDb`
  pub on_process_api_orders : Env D → Worker → List JsonObject → Option Worker
  on_process_api_orders env w os = with_store w (add_orders env w.store os)

  dispatch : Env D → Worker → String → JsonObject → Option Worker
  unfolding on_error_order_event on_completed_order_event on_placed_order_event
      on_canceled_order_event
  dispatch env w name o =
      if name == "error"
      then on_error_order_event env w (put_text "status" "4" o)
      else if name == "placed"
      then on_placed_order_event env w o
      else if name == "canceled"
      then on_canceled_order_event env w (put_text "status" "3" o)
      else if name == "completed"
      then on_completed_order_event env w (put_text "status" "2" o)
      else some w

  -- The subscription to `swiftbot.system.events.order`.
  pub on_event : Env D → Worker → Event → Option Worker
  unfolding dispatch
  on_event env w ev = elim ev.event [
    | none ↦ some w
    | some kind ↦ if kind == "order" then dispatch env w ev.name ev.target else some w
  ]

  clear_amount_left : Env D → JsonObject → JsonObject
  clear_amount_left env o =
      if d.eq (env.to_double (get_text "" "amount_left" o)) nought
      then o
      else put_text "amount_left" (env.nat_text 0) o

  -- The order with the state given, and nothing left to fill.
  pub check_state : Env D → JsonObject → ℕ → JsonObject
  unfolding clear_amount_left
  check_state env o state =
      if nat_beq (env.to_uint (get_text "" "status" o)) state
      then clear_amount_left env o
      else clear_amount_left env (put_text "status" (env.nat_text state) o)

-- `checkUpdates`: the orders to save, and the store without marks.
pub check_updates : Worker → List JsonObject × Worker
check_updates w =
    let (os, s) = get_updated_orders w.store in
    (os, record w { store = if is_empty os then s else clear_updated s })
  where
    is_empty : List JsonObject → Bool
    is_empty [] = true
    is_empty (o ∷ os) = false
