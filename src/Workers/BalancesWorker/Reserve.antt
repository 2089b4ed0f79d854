-- ===== src/Workers/BalancesWorker/Reserve.antt =====
-- workers/balancesworker.cpp: the calls that read and write the reserve and the requested amounts, and
-- what they answer to the calls of the orders manager.
use swift_bot.Prelude.{ℕ, Bool, true, false, List, [], ◌∷◌, if◌then◌else◌}
use swift_bot.Qt.Key.{◌==◌, nat_key, text_key}
use swift_bot.Qt.Map.{Map, value_or, insert, remove}
use swift_bot.Qt.Json.{JsonObject, put_text}
use swift_bot.Double.{Double, nought, le}
use swift_bot.Bot.OrdersManager.{
  Call, get_available as ask_available, reserve_create, reserve_cancel,
  set_requested as ask_requested, place_sell, place_buy,
}
use swift_bot.Workers.BalancesWorker.{Env, Worker}

-- What a call answers: a number, or 1 or 0 for its success. The orders are placed elsewhere.
pub data Answer (D : Type 0) : Type 0 where
  amount : D → Answer D
  success : ℕ → Answer D
  elsewhere : Answer D

module _ {D : Type 0} ⦃d : Double D⦄ where
  unfoldable pub reserve_internal : Worker D → ℕ → D → Worker D × Bool
  reserve_internal w k x = (
    record w {
      internal_reserve =
          insert k (d.add (value_or k nought w.internal_reserve) x) w.internal_reserve;
    },
    true,
  )

  -- A cancellation above the reserve drops all of it, and answers false.
  unfoldable pub reserve_cancel_internal : Worker D → ℕ → D → Worker D × Bool
  reserve_cancel_internal w k x =
      let r = value_or k nought w.internal_reserve in
      if le x r
      then (record w { internal_reserve = insert k (d.sub r x) w.internal_reserve }, true)
      else (record w { internal_reserve = remove k w.internal_reserve }, false)

  unfoldable pub cancel_all : Worker D → Worker D
  cancel_all w = record w { internal_reserve = [] }

  unfoldable pub get_available : Worker D → ℕ → D
  get_available w k =
      let a = value_or k nought w.bals_available in
      let r = value_or k nought w.internal_reserve in
      if d.lt nought a then if le r a then d.sub a r else nought else nought

  abbrev pub get_total : Worker D → ℕ → D
  get_total w k = value_or k nought w.bals_total

  abbrev pub get_orders : Worker D → ℕ → D
  get_orders w k = value_or k nought w.bals_orders

  abbrev pub get_reserved : Worker D → ℕ → D
  get_reserved w k = value_or k nought w.bals_reserved

  abbrev pub get_requested : Worker D → ℕ → D
  get_requested w k = value_or k nought w.bals_requested

  -- Without an argument the answer is 0.
  unfoldable pub get_coin_total : Worker D → List ℕ → D
  get_coin_total w [] = nought
  get_coin_total w (c ∷ cs) = value_or c nought w.coin_total

  unfoldable pub add_requested : Worker D → ℕ → D → Worker D
  add_requested w k x = record w {
    bals_requested = insert k (d.add (value_or k nought w.bals_requested) x) w.bals_requested;
  }

  -- The item of a currency that was asked for before any balance of it was known.
  unfoldable pub new_item : Env D → ℕ → JsonObject
  new_item env k = put_text "total" (env.nat_text 0) (
      put_text "required" (env.nat_text 0) (
        put_text "available" (env.nat_text 0) (
          put_text "coin_id" (env.nat_text (env.currency_coin k)) (
            put_text "name" (env.currency_name k) (
              put_text "exchange_id" (env.nat_text (env.currency_exchange k))
                (put_text "currency_id" (env.nat_text k) []))))))

  -- The item that is there, or a new one where it is empty or missing.
  unfoldable pub item_of : Env D → Map ℕ JsonObject → ℕ → JsonObject
  unfolding new_item
  item_of env m k = elim (value_or k [] m) [ [] ↦ new_item env k | e ∷ o ↦ e ∷ o ]

  unfoldable pub set_requested : Env D → Worker D → ℕ → D → Worker D
  unfolding item_of
  set_requested env w k x =
      let w' : Worker D = record w { bals_requested = insert k x w.bals_requested } in
      if env.currency_name k == "???" then w' else record w' {
        mapped = insert k (put_text "required" (env.fixed8 x) (item_of env w.mapped k)) w.mapped;
      }

  -- A call of the orders manager.
  unfoldable pub serve : Env D → Worker D → Call D → Worker D × Answer D
  unfolding reserve_internal reserve_cancel_internal get_available set_requested
  serve env w (ask_available k) = (w, amount (get_available w k))
  serve env w (reserve_create k x) =
      let done = reserve_internal w k x in (done.0, success (if done.1 then 1 else 0))
  serve env w (reserve_cancel k x) =
      let done = reserve_cancel_internal w k x in (done.0, success (if done.1 then 1 else 0))
  serve env w (ask_requested k x) = (set_requested env w k x, success 1)
  serve env w (place_sell c) = (w, elsewhere)
  serve env w (place_buy c) = (w, elsewhere)

  unfoldable pub serve_all : Env D → Worker D → List (Call D) → Worker D × List (Answer D)
  unfolding serve
  serve_all env w [] = (w, [])
  serve_all env w (c ∷ cs) =
      let step = serve env w c in let rest = serve_all env step.0 cs in (rest.0, step.1 ∷ rest.1)
