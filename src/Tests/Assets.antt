-- ===== src/Tests/Assets.antt =====
-- The theorems on the assets, at small inputs.
use swift_bot.Prelude.{ℕ, ◌≡◌, refl, [], ◌∷◌, if◌then◌else◌}
use swift_bot.Qt.Key.{◌==◌, nat_key, text_key}
use swift_bot.Assets.{Assets, Texts, get_currency_id_by_name}
use swift_bot.Assets.Load.{CurrencyRow, Rows, load_assets}
use swift_bot.Assets.Named.{last_named, load_assets-get_currency_id_by_name}

abbrev no_assets : Assets ℕ
no_assets = record {
  arbitrage_pair_markets = [];
  exchange_name = [];
  market_name = [];
  currency_name = [];
  currency_token_type = [];
  currency_exchange = [];
  market_exchange = [];
  all_market_exchange = [];
  market_arbitrage_pair = [];
  exchange_currencies = [];
  currency_coin = [];
  coin_currencies = [];
  market_currencies = [];
  exchange_markets = [];
  currency_addresses = [];
  currency_withdraw_fee = [];
  orders_sell_hashes_local = [];
  orders_buy_hashes_local = [];
  requested = [];
  is_token_currency = [];
  balances = [];
  balances_available = [];
  exchange_options = [];
  exchange_daily_withdraw_limits = [];
  coins_name = [];
  exchange_api_separated = [];
  exchange_trade_fee = [];
  arbitrage_pairs_names = [];
  arbitrage_pairs_base_coin_name = [];
  arbitrage_pairs_market_coin_name = [];
  exchange_api_fee_trade = [];
  exchange_api_fee_withdraw = [];
  pair_amount_precision = [];
  pair_price_precision = [];
}

abbrev texts : Texts ℕ
texts = record {
  to_upper = λ s. if s == "usd" then "USD" else s;
  to_lower = λ s. if s == "USD" then "usd" else s;
  replace = λ s t u. if u == "BTC" then "XBT" else u;
  append = λ s t. s;
  to_uint = λ s. if s == "4" then 4 else 0;
  to_double = λ s. if s == "4" then 4 else 0;
}

-- The dollars of an exchange.
abbrev dollars : ℕ → ℕ → CurrencyRow ℕ
dollars i e = record {
  id = i;
  exchange_id = e;
  coin_id = 7;
  name = "USD";
  exchange_name = "cexio";
  withdraw_fee = 1;
}

abbrev rows : Rows ℕ
rows = record {
  exchanges = [];
  arbitrage_pairs = [];
  currencies = dollars 4 3 ∷ dollars 5 3 ∷ dollars 6 8 ∷ [];
  markets = [];
  coins = dollars 4 3 ∷ dollars 5 3 ∷ dollars 6 8 ∷ [];
  addresses = [];
}

load_assets-get_currency_id_by_name_example :
    (get_currency_id_by_name (load_assets texts rows no_assets) texts "USD" 3).1 ≡ 5
unfolding last_named
load_assets-get_currency_id_by_name_example =
    load_assets-get_currency_id_by_name texts rows no_assets "USD" 3 5 refl
