-- ===== src/Tests/Markets.antt =====
-- The theorems on the made-up exchange and on the shown books, at small inputs.
use swift_bot.Prelude.{ℕ, ◌≡◌, refl, String, true, false, [], ◌∷◌, if◌then◌else◌, ◌==◌ as nat_beq}
use mathlib.Core.List.{reverse}
use swift_bot.Qt.Key.{◌==◌, nat_key, text_key}
use swift_bot.Qt.Json.{JsonObject, text, get_text}
use swift_bot.Qt.Map.{lookup}
use swift_bot.Double.{whole}
use swift_bot.Api.Emulator.{Env, Emulator, Transfer, order_place}
use swift_bot.Api.Emulator.Transfers.{credit, get_deposits}
use swift_bot.Api.Emulator.Orders.{sells, Settled, order_place-Settled}
use swift_bot.Api.Emulator.Deposits.{credit_between, get_deposits-credit_between}
use swift_bot.Proxy.OrderbooksNode.{
  Env as BookEnv, Item, Levels, Node, node_connected, records_limit, rebuild_indexes,
}
use swift_bot.Proxy.OrderbooksNode.Shown.{take, tail, fresh_items, rebuild_indexes_lem}

-- An exchange that starts with 10 of the coins and 100 dollars.
abbrev env : Env ℕ
env = record {
  exchange_id = 3;
  exchange_name = "cexio";
  start_btc = 10;
  start_usd = 100;
  base_currency = λ p. 1;
  price_currency = λ p. 2;
  coin = λ k. if nat_beq k 1 then 1 else 7;
  currency_exchange = λ k. 3;
  exchange_currencies = 1 ∷ 2 ∷ [];
  exchange_fee = 0;
  transfer_price = λ k l x. 0;
  address_currency = λ a. 1;
  is_inserted = true;
  now = 1000;
  now_ms = "1000000";
  to_uint = λ s. if s == "4" then 4 else 0;
  to_double = λ s. if s == "4" then 4 else 0;
  nat_text = λ n. if nat_beq n 4 then "4" else "0";
  fixed8 = λ x. if nat_beq x 4 then "4" else "0";
  join = λ ss. "joined";
  md5 = λ j. "hash";
}

abbrev sale : JsonObject
sale = ("amount", text "4") ∷ ("price", text "4") ∷ ("type", text "sell") ∷ []

-- A transfer that comes due at a time.
abbrev transfer : ℕ → Transfer ℕ
transfer at = record {
  from_exchange_id = 1;
  from_currency_id = 9;
  amount = 5;
  to_exchange_id = 3;
  to_currency_id = 1;
  complete_at = at;
  done = false;
}

abbrev emulator : Emulator ℕ
emulator = record {
  placed_orders = [];
  minus = [];
  plus = [];
  transfers = transfer 7 ∷ transfer 20 ∷ [];
}

order_place-Settled_example :
    Settled env sells sale emulator
      (order_place env 5 sale emulator).0
      (order_place env 5 sale emulator).1
unfolding get_text lookup
order_place-Settled_example = order_place-Settled env sells 5 sale emulator refl

get_deposits-credit_between_example :
    (get_deposits env true true 30 30 (get_deposits env true true 10 10 emulator)).plus
    ≡ credit_between env 10 30
        (transfer 7 ∷ transfer 20 ∷ [])
        (credit env 10 (transfer 7 ∷ transfer 20 ∷ []) [])
get_deposits-credit_between_example =
    get_deposits-credit_between env true true true true 10 10 30 30 emulator

abbrev book_env : BookEnv ℕ
book_env = record { now = 100; fixed8 = λ x. if nat_beq x 4 then "4" else "0" }

abbrev item : String → Item
item r = record { pair_id = 1; rate = r; amount = "4"; time = 99 }

abbrev levels : Levels ℕ
levels = (3, item "3") ∷ (4, item "4") ∷ (5, item "5") ∷ []

abbrev node : Node ℕ
node = record {
  current_state = node_connected;
  req_noncer = 0;
  exchange_name = "kraken";
  target_pairs = [];
  asks_indexed = levels;
  bids_indexed = levels;
  asks = [];
  bids = [];
}

rebuild_indexes_lem_example :
    let built = rebuild_indexes book_env node in
    (built.0.asks ≡ take records_limit (fresh_items 100 levels))
    × (built.0.bids ≡ reverse (take records_limit (fresh_items 100 (reverse (tail levels)))))
rebuild_indexes_lem_example = rebuild_indexes_lem book_env node
