-- ===== src/Bot/Order.antt =====
-- swift-bot/order.cpp and order.h: the two orders of a candidate, as they are placed, cancelled and
-- saved. The answer of the exchange is an object; the rows of the database are values.
pub mod Saved
use swift_bot.Prelude.{
  ℕ, String, Bool, true, false, ◌||◌, ◌&&◌, Option, none, some, List, [], ◌∷◌, leb, if◌then◌else◌,
  ◌==◌ as nat_beq,
}
use swift_bot.Qt.Key.{text_key}
use swift_bot.Qt.Map.{lookup}
use swift_bot.Qt.Json.{JsonObject, JsonValue, text, raw, get_text, put_text}
use swift_bot.Double.{Double}

-- `ArbitrageCandidat`
pub record FullCandidat (D : Type 0) : Type 0 where
  pub sell_pair_id : ℕ
  pub buy_pair_id : ℕ
  pub sell_rate : D
  pub sell_price : D
  pub sell_fee : D
  pub buy_rate : D
  pub buy_price : D
  pub buy_fee : D
  pub amount : D

-- `Order::OrderStates`
pub data OrderState : Type 0 where
  new_state : OrderState
  placing_state : OrderState
  placed_state : OrderState
  canceled_state : OrderState
  error_state : OrderState

abbrev pub state_number : OrderState → ℕ
state_number new_state = 0
state_number placing_state = 1
state_number placed_state = 2
state_number canceled_state = 3
state_number error_state = 4

-- Qt's reading and printing of numbers, the hash of joined texts, the settings, and the answer of the
-- database to a transaction: its id, or an error. `to_int` is that of a JSON number, 0 for others.
pub record PlaceEnv (D : Type 0) : Type 0 where
  pub to_uint : String → ℕ
  pub to_int : Option JsonValue → ℕ
  pub to_double : String → D
  pub nat_text : ℕ → String
  pub fixed8 : D → String
  pub md5 : List String → String
  pub setting : String → String
  pub insert_transaction : ℕ → ℕ → D → Option ℕ

-- One of the two orders: its currencies, what is left of it, its transactions and its state.
pub record Side (D : Type 0) : Type 0 where
  pub base_currency : ℕ
  pub price_currency : ℕ
  pub am_left : D
  pub remote_id : String
  pub tx1 : ℕ
  pub tx2 : ℕ
  pub state : OrderState

pub record Order (D : Type 0) : Type 0 where
  pub candidat : FullCandidat D
  pub sell : Side D
  pub buy : Side D

-- What is inserted into the table of the orders.
pub record SavedOrder (D : Type 0) : Type 0 where
  pub local_id : String
  pub remote_id : String
  pub amount : D
  pub amount_left : D
  pub pair_id : ℕ
  pub fee : D
  pub rate : D
  pub kind : ℕ
  pub status : ℕ
  pub price : D
  pub tx1 : ℕ
  pub tx2 : ℕ

module _ {D : Type 0} (env : PlaceEnv D) where
  unfoldable pub sell_order_hash : FullCandidat D → String
  sell_order_hash c = env.md5 (
      env.fixed8 c.buy_rate
      ∷ env.fixed8 c.sell_fee
      ∷ env.fixed8 c.amount
      ∷ env.fixed8 c.sell_rate
      ∷ env.nat_text c.sell_pair_id
      ∷ "sell"
      ∷ [])

  unfoldable pub buy_order_hash : FullCandidat D → String
  buy_order_hash c = env.md5 (
      env.fixed8 c.sell_rate
      ∷ env.fixed8 c.buy_fee
      ∷ env.fixed8 c.amount
      ∷ env.fixed8 c.buy_rate
      ∷ env.nat_text c.buy_pair_id
      ∷ "buy"
      ∷ [])

  -- The setting is looked up under "API_DB_BALANCES=0".
  unfoldable pub add_transaction : ℕ → ℕ → D → ℕ
  add_transaction currency kind amount =
      if nat_beq (env.to_uint (env.setting "API_DB_BALANCES=0")) 1
      then elim (env.insert_transaction kind currency amount) [ none ↦ 0 | some id ↦ id ]
      else 0

  -- The object of the call, without the fields that the two sides write differently.
  unfoldable pub command : ℕ → Side D → String → D → D → D → String → JsonObject
  command pair side hash amount rate price kind = put_text "type" kind (
      put_text "price" (env.fixed8 price) (
        put_text "rate" (env.fixed8 rate) (
          put_text "local_id" hash (
            put_text "amount" (env.fixed8 amount) (
              put_text "market_currency_id" (env.nat_text side.price_currency) (
                put_text "base_currency_id" (env.nat_text side.base_currency)
                  (put_text "pair_id" (env.nat_text pair) [])))))))

  unfoldable pub sell_command : Order D → JsonObject
  unfolding command sell_order_hash
  sell_command o =
      let c = o.candidat in
      command c.sell_pair_id o.sell (sell_order_hash c) c.amount c.sell_rate c.sell_price "0"

  unfoldable pub buy_command : Order D → JsonObject
  unfolding command buy_order_hash
  buy_command o =
      let c = o.candidat in
      command c.buy_pair_id o.buy (buy_order_hash c) c.amount c.buy_rate c.buy_price "1"

  -- The answer says that the order is placed.
  unfoldable pub is_placed : JsonObject → Bool
  is_placed r =
      nat_beq (env.to_uint (get_text "" "status" r)) 2 || nat_beq (env.to_int (lookup "status" r)) 2

  -- A number of the answer, where it is a text.
  unfoldable pub answered : String → JsonObject → D → D
  answered k r was = elim (lookup k r) [
    | none ↦ was
    | some (text s) ↦ env.to_double s
    | some (raw n) ↦ was
  ]

  unfoldable pub place_sell_order : Order D → JsonObject → Order D × Bool
  unfolding is_placed answered add_transaction
  place_sell_order o r =
      let c = o.candidat in
      let s = o.sell in
      let price = answered "price" r c.sell_price in
      let placed : Side D = record s {
        am_left = env.to_double (get_text "" "amount_left" r);
        remote_id = get_text "" "remote_id" r;
        tx1 = add_transaction s.base_currency 0 c.amount;
        tx2 = add_transaction s.price_currency 1 price;
        state = placed_state;
      } in
      if is_placed r
      then (
        record o {
          candidat = record c { sell_price = price; sell_rate = answered "rate" r c.sell_rate };
          sell = placed;
        },
        true,
      )
      else (record o { sell = record s { am_left = c.amount; state = error_state } }, false)

  unfoldable pub place_buy_order : Order D → JsonObject → Order D × Bool
  unfolding is_placed answered add_transaction
  place_buy_order o r =
      let c = o.candidat in
      let s = o.buy in
      let price = answered "price" r c.buy_price in
      let placed : Side D = record s {
        am_left = env.to_double (get_text "" "amount_left" r);
        remote_id = get_text "" "remote_id" r;
        tx1 = add_transaction s.base_currency 1 c.amount;
        tx2 = add_transaction s.price_currency 0 price;
        state = placed_state;
      } in
      if is_placed r
      then (
        record o {
          candidat = record c { buy_price = price; buy_rate = answered "rate" r c.buy_rate };
          buy = placed;
        },
        true,
      )
      else (record o { buy = record s { am_left = c.amount; state = error_state } }, false)

  -- `cancelSellOrder` and `cancelBuyOrder`, with the answer of a joined session.
  unfoldable pub is_cancelled : Bool → JsonObject → Bool
  is_cancelled is_joined r = is_joined && leb 3 (env.to_uint (get_text "" "status" r))

  unfoldable pub save_sell_order : Order D → SavedOrder D
  unfolding sell_order_hash
  save_sell_order o =
      let c = o.candidat in
      record {
        local_id = sell_order_hash c;
        remote_id = o.sell.remote_id;
        amount = c.amount;
        amount_left = o.sell.am_left;
        pair_id = c.sell_pair_id;
        fee = c.sell_fee;
        rate = c.sell_rate;
        kind = 0;
        status = state_number o.sell.state;
        price = c.sell_price;
        tx1 = o.sell.tx1;
        tx2 = o.sell.tx2;
      }

  unfoldable pub save_buy_order : Order D → SavedOrder D
  unfolding buy_order_hash
  save_buy_order o =
      let c = o.candidat in
      record {
        local_id = buy_order_hash c;
        remote_id = o.buy.remote_id;
        amount = c.amount;
        amount_left = o.buy.am_left;
        pair_id = c.buy_pair_id;
        fee = c.buy_fee;
        rate = c.buy_rate;
        kind = 1;
        status = state_number o.buy.state;
        price = c.buy_price;
        tx1 = o.buy.tx1;
        tx2 = o.buy.tx2;
      }
