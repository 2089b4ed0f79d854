-- ===== src/Workers/OrderWorker.antt =====
-- workers/orderworker.cpp and orderworker.h: the events of the orders, the calls that list them, and
-- the queues and timers by which the exchanges are asked for them.
pub mod Timers
pub mod Messages
use swift_bot.Prelude.{
  ℕ, String, Bool, true, false, Option, none, some, List, [], ◌∷◌, ◌++◌, if◌then◌else◌,
}
use swift_bot.Qt.Key.{◌==◌, text_key}
use swift_bot.Qt.Json.{JsonObject}
use swift_bot.Double.{Double}
use swift_bot.Orders.Order.{Env}
use swift_bot.Orders.Store.{Store, add_order, add_orders, get_updated_orders, clear_updated}
use swift_bot.Orders.Query.{
  Calendar, get_open_orders, get_open_orders_by_pair, get_closed_orders, get_closed_orders_by_pair,
  get_closed_orders_by_date,
}
use swift_bot.Workers.BalancesWorker.Reports.{
  TradeRow, TradingSummary, get_trading_summary as summary_of,
}

-- The first of the items, or the object without a field where there is none.
abbrev pub first_item : List JsonObject → JsonObject
first_item [] = []
first_item (o ∷ os) = o

module _ {D : Type 0} ⦃d : Double D⦄ where
  -- The subscription to `swift.orders.feed.events`, with the items of the message. An error is not
  -- stored; `none` is a write out of range.
  unfoldable pub on_message : Env D → Store → String → List JsonObject → Option Store
  on_message env s name items =
      if name == "PLACED"
      then add_order env s (first_item items)
      else if name == "CANCELED"
      then add_order env s (first_item items)
      else if name == "COMPLETED"
      then add_order env s (first_item items)
      else if name == "ERROR"
      then some s
      else if name == "ACTIVE"
      then add_orders env s items
      else if name == "HISTORY"
      then add_orders env s items
      else some s

  unfoldable pub on_orders_from_db : Env D → Store → List JsonObject → Option Store
  on_orders_from_db env s stored = add_orders env s stored

  -- `swift.trade.rpc.active`
  unfoldable pub rpc_active : Env D → Store → List String → Option (List JsonObject)
  rpc_active env s [] = get_open_orders env s
  rpc_active env s (v ∷ vs) = some (get_open_orders_by_pair env s (env.to_uint v))

  -- `swift.trade.rpc.history`
  unfoldable pub rpc_history : Env D → Calendar → Store → List String → List JsonObject
  rpc_history env c s [] = get_closed_orders env c s
  rpc_history env c s (v ∷ []) = get_closed_orders_by_pair env s (env.to_uint v)
  rpc_history env c s (v ∷ date ∷ []) = get_closed_orders_by_date env c s (env.to_uint v) date
  rpc_history env c s (v ∷ date ∷ x ∷ vs) = get_closed_orders env c s

  -- `swift.trade.rpc.today`: the open orders first, where they are answered.
  unfoldable pub rpc_today : Env D → Calendar → Store → Option (List JsonObject × List JsonObject)
  rpc_today env c s = elim (get_open_orders env s) [
    | none ↦ none
    | some opened ↦ some (opened, get_closed_orders env c s)
  ]

  -- The text of `getTradingSummary` is that of the balances worker.
  unfoldable pub get_trading_summary : List (TradeRow D) → TradingSummary D
  get_trading_summary rows = summary_of rows

-- What `checkUpdates` saves.
abbrev is_nil : List JsonObject → Bool
is_nil [] = true
is_nil (o ∷ os) = false

unfoldable pub check_updates : Store → List JsonObject × Store
check_updates s =
    let (os, s') = get_updated_orders s in (os, if is_nil os then s' else clear_updated s')
