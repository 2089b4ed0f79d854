-- ===== src/Api/Emulator.antt =====
-- swift-arbitrage-api-node/apiemulator.cpp and apiemulator.h: an exchange that is made up, with its
-- balances, its orders, and the transfers between such exchanges, which are rows of the database.
pub mod Orders
pub mod Transfers
pub mod Deposits
use swift_bot.Prelude.{
  ℕ, ◌+◌, String, Bool, true, false, ◌&&◌, ◌||◌, not, Option, none, some, List, [], ◌∷◌, ◌++◌, ltb,
  leb, if◌then◌else◌, ◌==◌ as nat_beq,
}
use swift_bot.Qt.Key.{◌==◌, nat_key, text_key}
use swift_bot.Qt.Map.{Map, lookup, insert, value_or}
use swift_bot.Qt.Json.{JsonObject, JsonValue, raw, get_text, put_text}
use swift_bot.Double.{Double, nought}

-- A row of `fake_transfers`; its time is in seconds.
pub record Transfer (D : Type 0) : Type 0 where
  pub from_exchange_id : ℕ
  pub from_currency_id : ℕ
  pub amount : D
  pub to_exchange_id : ℕ
  pub to_currency_id : ℕ
  pub complete_at : ℕ
  pub done : Bool

-- A row of `withdraws` or of `deposits`.
pub record Movement (D : Type 0) : Type 0 where
  pub local_id : String
  pub remote_id : String
  pub currency_id : ℕ
  pub amount : D
  pub address : String
  pub txhash : String
  pub status : String
  pub fee : D

pub record Emulator (D : Type 0) : Type 0 where
  pub placed_orders : List JsonObject
  pub minus : Map ℕ D
  pub plus : Map ℕ D
  pub transfers : List (Transfer D)

-- The settings, the assets, the clock, the answers of the database, and Qt's conversions.
pub record Env (D : Type 0) : Type 0 where
  pub exchange_id : ℕ
  pub exchange_name : String
  pub start_btc : D
  pub start_usd : D
  pub base_currency : ℕ → ℕ
  pub price_currency : ℕ → ℕ
  pub coin : ℕ → ℕ
  pub currency_exchange : ℕ → ℕ
  pub exchange_currencies : List ℕ
  pub exchange_fee : D
  pub transfer_price : ℕ → ℕ → D → D
  pub address_currency : String → ℕ
  pub is_inserted : Bool
  pub now : ℕ
  pub now_ms : String
  pub to_uint : String → ℕ
  pub to_double : String → D
  pub nat_text : ℕ → String
  pub fixed8 : D → String
  pub join : List String → String
  pub md5 : JsonObject → String

-- An order that the balance does not cover; `raw 0` is false, and a missing amount becomes `raw 2`,
-- which is null.
unfoldable pub refuse : JsonObject → JsonObject
refuse o =
    let amount : JsonValue = elim (lookup "amount" o) [ none ↦ raw 2 | some v ↦ v ] in
    insert "amount_left" amount
      (insert "amount" amount (put_text "status" "4" (insert "result" (raw 0) o)))

module _ {D : Type 0} ⦃d : Double D⦄ where
  unfoldable pub move : ℕ → D → ℕ → D → Emulator D → Emulator D
  move out x into y e = record e {
    minus = insert out (d.add (value_or out nought e.minus) x) e.minus;
    plus = insert into (d.add (value_or into nought e.plus) y) e.plus;
  }

module _ {D : Type 0} ⦃d : Double D⦄ (env : Env D) where
  -- What is left of a start: it, less what went out, and what came in.
  unfoldable pub balance : D → ℕ → Emulator D → D
  balance start k e = d.add (d.sub start (value_or k nought e.minus)) (value_or k nought e.plus)

  -- The fields that every answer to an order has; `raw 1` is true.
  unfoldable pub filled : ℕ → JsonObject → JsonObject
  filled uuid j =
      let market = env.to_uint (get_text "" "market_id" j) in
      put_text "async_uuid" (env.nat_text uuid) (
        insert "success" (raw 1) (
          put_text "amount_left" "0" (
            put_text "market_currency_id" (env.nat_text (env.price_currency market)) (
              put_text "base_currency_id" (env.nat_text (env.base_currency market)) (
                put_text "status" "2" (
                  put_text "remote_id"
                    (env.join (env.exchange_name ∷ env.now_ms ∷ get_text "" "type" j ∷ [])) j))))))

  -- The balances after an order, and whether it was covered. An order of another type costs nothing.
  unfoldable pub settle : JsonObject → Emulator D → Emulator D × Bool
  unfolding balance move
  settle j e =
      let market = env.to_uint (get_text "" "market_id" j) in
      let base = env.base_currency market in
      let price = env.price_currency market in
      let amount = env.to_double (get_text "" "amount" j) in
      let cost = env.to_double (get_text "" "price" j) in
      if get_text "" "type" j == "sell"
      then if d.lt nought (d.sub (balance env.start_btc base e) amount)
        then (move base amount price cost e, true)
        else (e, false)
      else if get_text "" "type" j == "buy"
      then if d.lt nought (d.sub (balance env.start_usd price e) cost)
        then (move price cost base amount e, true)
        else (e, false)
      else (e, true)

  -- `orderPlace`, with the answer that it makes known.
  unfoldable pub order_place : ℕ → JsonObject → Emulator D → Emulator D × JsonObject
  unfolding settle filled refuse
  order_place uuid j e =
      let settled = settle j e in
      let o = if settled.1 then filled uuid j else refuse (filled uuid j) in
      (record settled.0 { placed_orders = e.placed_orders ++ (o ∷ []) }, o)

  -- `withdrawGetFee`: the fees of the answer.
  unfoldable pub withdraw_get_fee : JsonObject
  withdraw_get_fee =
      put_text "taker" (env.fixed8 env.exchange_fee) (put_text "amount" (env.fixed8 nought) [])

  unfoldable pub is_hidden : ℕ → Bool
  is_hidden k =
      (nat_beq env.exchange_id 1 && nat_beq k 3) || (nat_beq env.exchange_id 7 && nat_beq k 23)

  unfoldable pub balance_item : ℕ → Emulator D → JsonObject
  unfolding balance
  balance_item k e =
      let item = put_text "currency_id" (env.nat_text k) [] in
      let shown : D → JsonObject = λ start. put_text "orders" (env.fixed8 nought) (
        put_text "available" (env.fixed8 (balance start k e))
          (put_text "total" (env.fixed8 (balance start k e)) item)) in
      if nat_beq (env.coin k) 1
      then shown env.start_btc
      else if nat_beq (env.coin k) 7
      then shown env.start_usd
      else item

  -- `getBalances`: the items of the answer.
  unfoldable pub balance_items : List ℕ → Emulator D → List JsonObject
  unfolding is_hidden balance_item
  balance_items [] e = []
  balance_items (k ∷ ks) e =
      let rest = balance_items ks e in if is_hidden k then rest else balance_item k e ∷ rest

  unfoldable pub get_balances : Emulator D → List JsonObject
  unfolding balance_items
  get_balances e = balance_items env.exchange_currencies e

-- `tradeHistory`: the orders of the answer.
unfoldable pub trade_history : {D : Type 0} → Emulator D → List JsonObject
trade_history e = e.placed_orders
