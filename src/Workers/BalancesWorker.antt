-- ===== src/Workers/BalancesWorker.antt =====
-- workers/balancesworker.cpp and balancesworker.h: the items of the currencies, the tables that the
-- calls read, and what an update of an exchange makes of them.
pub mod Summaries
pub mod Updates
pub mod Missing
pub mod Reserve
pub mod Ledger
pub mod Events
pub mod History
pub mod Statuses
pub mod Rates
pub mod Reports
pub mod Addresses
use swift_bot.Prelude.{
  ℕ, String, Bool, true, false, not, ◌||◌, List, [], ◌∷◌, ◌++◌, map, ltb, if◌then◌else◌,
  ◌==◌ as nat_beq,
}
use swift_bot.Qt.Key.{◌==◌, nat_key, text_key}
use swift_bot.Qt.Vector.{list_contains}
use swift_bot.Qt.Map.{Map, contains, value_or, insert}
use swift_bot.Qt.Json.{JsonObject, raw, get_text, put_text}
use swift_bot.Double.{Double, nought, le}

-- Qt's reading and printing of numbers, and the assets.
pub record Env (D : Type 0) : Type 0 where
  pub to_uint : String → ℕ
  pub to_double : String → D
  pub nat_text : ℕ → String
  pub fixed8 : D → String
  pub currency_coin : ℕ → ℕ
  pub currency_exchange : ℕ → ℕ
  pub currency_name : ℕ → String
  pub currency_exchange_name : ℕ → String
  pub is_token : ℕ → Bool
  pub exchange_currencies : ℕ → List ℕ

-- The totals of one coin: `__total_usd`, `__in_orders_usd` and so on.
pub record Sums (D : Type 0) : Type 0 where
  pub total : D
  pub in_orders : D
  pub reserved : D
  pub available : D

pub record Worker (D : Type 0) : Type 0 where
  pub mapped : Map ℕ JsonObject
  pub bals_available : Map ℕ D
  pub bals_total : Map ℕ D
  pub bals_reserved : Map ℕ D
  pub bals_orders : Map ℕ D
  pub bals_requested : Map ℕ D
  pub coin_total : Map ℕ D
  pub internal_reserve : Map ℕ D
  pub cached_rates : Map ℕ D
  pub usd : Sums D
  pub btc : Sums D

abbrev pub id_of : {D : Type 0} → Env D → JsonObject → ℕ
id_of env o = env.to_uint (get_text "" "currency_id" o)

abbrev pub number_of : {D : Type 0} → Env D → String → JsonObject → D
number_of env k o = env.to_double (get_text "" k o)

module _ {D : Type 0} where
  unfoldable pub get_balances : Worker D → List JsonObject
  get_balances w = map (λ e. e.1) w.mapped

module _ {D : Type 0} ⦃d : Double D⦄ where
  abbrev pub no_sums : Sums D
  no_sums = record { total = nought; in_orders = nought; reserved = nought; available = nought }

  -- "NaN" counts as 0.
  unfoldable pub in_orders_of : Env D → JsonObject → D
  in_orders_of env o =
      if get_text "" "in_orders" o == "NaN"
      then nought
      else env.to_double (get_text "0" "in_orders" o)

  unfoldable pub add_sums : Env D → JsonObject → Sums D → Sums D
  unfolding in_orders_of
  add_sums env o s = record {
    total = d.add s.total (number_of env "total" o);
    in_orders = d.add s.in_orders (in_orders_of env o);
    reserved = d.add s.reserved (number_of env "reserved" o);
    available = d.add s.available (number_of env "available" o);
  }

  -- The loop body of `calculateSummaries`. A coin's total starts at 0 where it is missing.
  unfoldable pub summarise : Env D → Worker D → JsonObject → Worker D
  unfolding add_sums in_orders_of
  summarise env w o =
      let k = id_of env o in
      let coin = env.currency_coin k in
      let total = number_of env "total" o in
      record w {
        bals_total = insert k total w.bals_total;
        bals_available = insert k (number_of env "available" o) w.bals_available;
        bals_reserved = insert k (number_of env "reserved" o) w.bals_reserved;
        bals_orders = insert k (in_orders_of env o) w.bals_orders;
        coin_total = insert coin (d.add (value_or coin nought w.coin_total) total) w.coin_total;
        usd = if nat_beq coin 7 then add_sums env o w.usd else w.usd;
        btc = if nat_beq coin 1 then add_sums env o w.btc else w.btc;
      }

  unfoldable pub summarise_all : Env D → Worker D → List JsonObject → Worker D
  unfolding summarise
  summarise_all env w [] = w
  summarise_all env w (o ∷ os) = summarise_all env (summarise env w o) os

  -- Without items the totals in use stay.
  unfoldable pub calculate_summaries : Env D → Worker D → Worker D
  unfolding summarise_all
  calculate_summaries env w = elim w.mapped [
    | [] ↦ w
    | e ∷ m ↦ summarise_all env (record w { usd = no_sums; btc = no_sums }) (get_balances w)
  ]

  -- The item of a currency that an update leaves out.
  unfoldable pub zero_item : Env D → ℕ → ℕ → JsonObject
  zero_item env exchange k = put_text "available" (env.fixed8 nought) (
      put_text "total" (env.fixed8 nought) (
        put_text "exchange_id" (env.nat_text exchange)
          (put_text "currency_id" (env.nat_text k) [])))

  unfoldable pub missing_items : Env D → ℕ → List ℕ → List ℕ → List JsonObject
  unfolding zero_item
  missing_items env exchange ids [] = []
  missing_items env exchange ids (k ∷ ks) =
      let rest = missing_items env exchange ids ks in
      if list_contains ids k then rest else zero_item env exchange k ∷ rest

  -- The fields that the assets and the rates know; `raw 1` is true and `raw 0` false.
  unfoldable pub complete : Env D → Map ℕ D → JsonObject → JsonObject
  complete env rates o =
      let k = id_of env o in
      let coin = env.currency_coin k in
      let rate = value_or coin (d.lit 1 0) rates in
      let named = put_text "exchange_name" (env.currency_exchange_name k) (
        insert "is_token" (raw (if env.is_token k then 1 else 0))
          (put_text "coin_id" (env.nat_text coin) o)) in
      if contains "coin_id" o
      then o
      else put_text "usd" (env.fixed8 (d.mul (number_of env "total" o) rate)) named

  unfoldable pub put_item : Env D → Worker D → JsonObject → Worker D
  unfolding complete
  put_item env w o =
      let k = id_of env o in
      if ltb 0 k then record w { mapped = insert k (complete env w.cached_rates o) w.mapped } else w

  unfoldable pub put_items : Env D → Worker D → List JsonObject → Worker D
  unfolding put_item
  put_items env w [] = w
  put_items env w (o ∷ os) = put_items env (put_item env w o) os

  unfoldable pub any_currency : Env D → List JsonObject → Bool
  any_currency env [] = false
  any_currency env (o ∷ os) = ltb 0 (id_of env o) || any_currency env os

  -- `onUpdateEvent`, with the exchange and the balances of the event.
  unfoldable pub on_update_event : Env D → Worker D → String → List JsonObject → Worker D
  unfolding missing_items put_items any_currency calculate_summaries
  on_update_event env w exchange balances =
      let e = env.to_uint exchange in
      let ids = map (id_of env) balances in
      let items = balances ++ missing_items env e ids (env.exchange_currencies e) in
      let w' = put_items env w items in
      if any_currency env items then calculate_summaries env w' else w'
