-- ===== src/Assets/Load.antt =====
-- swift-lib/assetsstorage.cpp: `loadAssets`, from the rows of the database.
use swift_bot.Prelude.{
  ℕ, String, Bool, ◌&&◌, ◌||◌, List, [], ◌∷◌, ◌++◌, ltb, if◌then◌else◌, ◌==◌ as nat_beq,
}
use swift_bot.Qt.Key.{◌==◌, nat_key, text_key}
use swift_bot.Qt.Map.{Map, insert, value_or}
use swift_bot.Assets.{Assets, Texts}

pub record ExchangeRow (D : Type 0) : Type 0 where
  pub id : ℕ
  pub api_separated_pairs : ℕ
  pub trade_fee : D
  pub api_fee_trade : ℕ
  pub api_fee_withdraw : ℕ

pub record ArbitragePairRow : Type 0 where
  pub id : ℕ
  pub name : String
  pub base_coin_id : ℕ
  pub price_coin_id : ℕ

-- A row of `currencies`, joined with its exchange.
pub record CurrencyRow (D : Type 0) : Type 0 where
  pub id : ℕ
  pub exchange_id : ℕ
  pub coin_id : ℕ
  pub name : String
  pub exchange_name : String
  pub withdraw_fee : D

pub record MarketRow : Type 0 where
  pub id : ℕ
  pub name : String
  pub exchange_id : ℕ
  pub arbitrage_pair_id : ℕ
  pub base_currency_id : ℕ
  pub market_currency_id : ℕ
  pub amount_precision : ℕ
  pub price_precision : ℕ
  pub exchange_valid : ℕ
  pub market_valid : ℕ

pub record AddressRow : Type 0 where
  pub currency_id : ℕ
  pub address : String
  pub token_type : String

-- The rows that the queries find; a query that fails finds none.
pub record Rows (D : Type 0) : Type 0 where
  pub exchanges : List (ExchangeRow D)
  pub arbitrage_pairs : List ArbitragePairRow
  pub currencies : List (CurrencyRow D)
  pub markets : List MarketRow
  pub coins : List (CurrencyRow D)
  pub addresses : List AddressRow

-- `m[k].push_back(v)` and `m[k].insert(n, v)`
abbrev pub push_at : ℕ → ℕ → Map ℕ (List ℕ) → Map ℕ (List ℕ)
push_at k v m = insert k (value_or k [] m ++ (v ∷ [])) m

abbrev pub insert_at : {V : Type 0} → ℕ → String → V → Map ℕ (Map String V) → Map ℕ (Map String V)
insert_at k n v m = insert k (insert n v (value_or k [] m)) m

unfoldable pub load_each : {R S : Type 0} → (R → S → S) → List R → S → S
load_each f [] s = s
load_each f (r ∷ rs) s = load_each f rs (f r s)

module _ {D : Type 0} where
  unfoldable pub load_coin_names : Assets D → Assets D
  load_coin_names a = record a {
    coins_name = insert 10 "XRP" (insert 7 "USD" (insert 2 "ETH" (insert 1 "XBT" a.coins_name)));
  }

  unfoldable pub load_exchange : ExchangeRow D → Assets D → Assets D
  load_exchange r a = record a {
    exchange_api_separated = insert r.id (nat_beq r.api_separated_pairs 1) a.exchange_api_separated;
    exchange_trade_fee = insert r.id r.trade_fee a.exchange_trade_fee;
    exchange_api_fee_trade = insert r.id (nat_beq r.api_fee_trade 1) a.exchange_api_fee_trade;
    exchange_api_fee_withdraw =
        insert r.id (nat_beq r.api_fee_withdraw 1) a.exchange_api_fee_withdraw;
  }

  unfoldable pub load_arbitrage_pair : ArbitragePairRow → Assets D → Assets D
  load_arbitrage_pair r a = record a {
    arbitrage_pairs_names = insert r.id r.name a.arbitrage_pairs_names;
    arbitrage_pairs_base_coin_name =
        insert r.id (value_or r.base_coin_id "" a.coins_name) a.arbitrage_pairs_base_coin_name;
    arbitrage_pairs_market_coin_name =
        insert r.id (value_or r.price_coin_id "" a.coins_name) a.arbitrage_pairs_market_coin_name;
  }

  unfoldable pub load_currency : CurrencyRow D → Assets D → Assets D
  load_currency r a = record a {
    currency_name = insert r.id r.name a.currency_name;
    currency_exchange = insert r.id r.exchange_id a.currency_exchange;
    exchange_name = insert r.exchange_id r.exchange_name a.exchange_name;
    currency_withdraw_fee = insert r.id r.withdraw_fee a.currency_withdraw_fee;
  }

  -- A market of an exchange that is enabled can be found and has its currencies.
  unfoldable pub load_market : MarketRow → Assets D → Assets D
  load_market r a =
      let is_exchange_valid = nat_beq r.exchange_valid 1 in
      let is_market_valid = nat_beq r.market_valid 1 in
      let is_paired = ltb 0 r.arbitrage_pair_id in
      record a {
        pair_amount_precision = insert r.id r.amount_precision a.pair_amount_precision;
        pair_price_precision = insert r.id r.price_precision a.pair_price_precision;
        market_currencies =
            if is_exchange_valid
            then insert r.id (r.base_currency_id, r.market_currency_id) a.market_currencies
            else a.market_currencies;
        exchange_markets =
            if is_exchange_valid
            then insert_at r.exchange_id r.name r.id a.exchange_markets
            else a.exchange_markets;
        market_exchange =
            if is_market_valid
            then insert r.id r.exchange_id a.market_exchange
            else a.market_exchange;
        all_market_exchange =
            if is_market_valid
            then a.all_market_exchange
            else insert r.id r.exchange_id a.all_market_exchange;
        arbitrage_pair_markets =
            if is_paired
            then push_at r.arbitrage_pair_id r.id a.arbitrage_pair_markets
            else a.arbitrage_pair_markets;
        market_arbitrage_pair =
            if is_paired
            then insert r.id r.arbitrage_pair_id a.market_arbitrage_pair
            else a.market_arbitrage_pair;
        market_name = insert r.id r.name a.market_name;
      }

  unfoldable pub is_token_row : Texts D → CurrencyRow D → Bool
  is_token_row x r =
      let name = x.to_upper r.name in
      nat_beq r.coin_id 1
      || ((nat_beq r.coin_id 7 && (name == "USDT" || (name == "USDT20" || name == "UST")))
          || nat_beq r.coin_id 10)

  unfoldable pub load_coin : Texts D → CurrencyRow D → Assets D → Assets D
  unfolding is_token_row
  load_coin x r a = record a {
    currency_coin = insert r.id r.coin_id a.currency_coin;
    coin_currencies = push_at r.coin_id r.id a.coin_currencies;
    is_token_currency = insert r.id (is_token_row x r) a.is_token_currency;
    exchange_currencies = insert_at r.exchange_id r.name r.id a.exchange_currencies;
  }

  unfoldable pub load_address : Texts D → AddressRow → Assets D → Assets D
  load_address x r a = record a {
    currency_addresses =
        insert_at r.currency_id (x.to_upper r.token_type) r.address a.currency_addresses;
  }

  unfoldable pub load_assets : Texts D → Rows D → Assets D → Assets D
  unfolding load_each load_coin_names load_exchange load_arbitrage_pair load_currency load_market
      load_coin load_address
  load_assets x rows a = load_each (load_address x) rows.addresses (
      load_each (load_coin x) rows.coins (
        load_each load_market rows.markets (
          load_each load_currency rows.currencies (
            load_each load_arbitrage_pair rows.arbitrage_pairs
              (load_each load_exchange rows.exchanges (load_coin_names a))))))
