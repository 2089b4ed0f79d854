-- ===== src/Tests/Pairs.antt =====
-- The theorems on a pair of coins and on the parameters of its orders, at two candidates.
use swift_bot.Prelude.{ℕ, ◌≡◌, refl, String, true, false, [], ◌∷◌, if◌then◌else◌, ◌==◌ as nat_beq}
use swift_bot.Qt.Key.{◌==◌, nat_key, text_key}
use swift_bot.Double.{whole}
use swift_bot.Window.OrderParams.{OrderEnv, OrderParams, of_json, to_json}
use swift_bot.Window.OrderParams.Sent.{ReadsBack, of_json-to_json_lem}
use swift_bot.Window.ArbitragePair.{Classic, PairEnv, Pair, check_candidats}
use swift_bot.Window.ArbitragePair.Placed.{Placed, check_candidats-Placed}

abbrev read : String → ℕ
read s = if s == "1" then 1 else if s == "5" then 5 else 0

abbrev print : ℕ → String
print n = if nat_beq n 1 then "1" else if nat_beq n 5 then "5" else "0"

abbrev order_env : OrderEnv ℕ
order_env = record {
  to_uint = read;
  to_double = read;
  nat_text = print;
  fixed8 = print;
  market_exchange = λ m. 1;
  exchange_name = λ e. "exchange";
  base_currency = λ m. 8;
  price_currency = λ m. 9;
  exchange_fee = λ e. 2;
  hash34 = λ ts. "hash";
  now = 100;
  now_ms = 100000;
}

abbrev sale : OrderParams ℕ
sale = record {
  local_id = "l1";
  remote_id = "";
  amount = 1;
  amount_left = 1;
  rate = 5;
  price = 5;
  fee = 3;
  exchange_id = 1;
  kind = 0;
  market_id = 5;
  base_currency_id = 8;
  price_currency_id = 9;
  status = 0;
  arb_window = 1;
}

sale-ReadsBack : ReadsBack order_env sale
sale-ReadsBack = record { market = refl; exchange = refl; state = refl; window = refl }

of_json-to_json_lem_example :
    of_json order_env (to_json order_env sale)
    ≡ record sale { fee = 2; base_currency_id = 8; price_currency_id = 9 }
of_json-to_json_lem_example = of_json-to_json_lem order_env sale sale-ReadsBack refl refl

abbrev pair_env : PairEnv ℕ
pair_env = record {
  orders = order_env;
  sell_balance = λ w. 10;
  buy_balance = λ w. 40;
  real_profit = λ w x. x;
  sell_pair = λ w. 1;
  buy_pair = λ w. 5;
  spreads = [];
  available_spreads = [];
  ticks = [];
  min_profit = 1;
  is_placing = true;
  is_joined = true;
  round_amount = λ x. x;
  round_rate = λ x. x;
  now = 100;
  of_size = λ n. n;
  by_percent = λ cs. cs;
  during = λ c p. record p { is_locked = false };
}

abbrev classic : ℕ → Classic ℕ
classic size = record { window = 1; size = size; sell_rate = 5; buy_rate = 4 }

-- The first candidate is above the balance to buy with; the other two would do.
abbrev pair : Pair ℕ
pair = record {
  is_locked = false;
  lock_time = 0;
  valid_pairs = 1 ∷ 5 ∷ [];
  classic_candidats = classic 11 ∷ classic 3 ∷ classic 2 ∷ [];
  cached_reqs = [];
  cached_bals = [];
  required_summary = [];
  min_spread = 0;
  max_spread = 0;
  asks = [];
  bids = [];
  ttl_funds = 0;
  sellpct = 0;
}

check_candidats-Placed_example :
    Placed pair_env
      (pair_env.by_percent pair.classic_candidats)
      (record pair { classic_candidats = [] })
      (check_candidats pair_env pair)
check_candidats-Placed_example = check_candidats-Placed pair_env pair
