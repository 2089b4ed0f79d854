-- ===== src/Workers/BalancesWorker/Reports.antt =====
-- workers/balancesworker.cpp: the sums over the orders and the balances that the calls and the tables
-- of the history show. The rows of a query are a list.
use swift_bot.Prelude.{ℕ, ◌+◌, ◌%◌, ◌^◌, ◌||◌, List, [], ◌∷◌, if◌then◌else◌, ◌==◌ as nat_beq, ◌++◌}
use swift_bot.Qt.Key.{nat_key}
use swift_bot.Qt.Map.{Map, value_or, insert}
use swift_bot.Qt.Json.{JsonObject}
use swift_bot.Double.{Double, nought}
use swift_bot.Workers.BalancesWorker.{Env, Worker, id_of, number_of, get_balances}
use swift_bot.Qt.Json.{get_text}

-- A row of the orders of a day, by type and arbitrage pair.
pub record TradeRow (D : Type 0) : Type 0 where
  pub pair_id : ℕ
  pub kind : ℕ
  pub trade_amount : D
  pub trade_summ : D
  pub orders_cnt : ℕ
  pub fees_paid : D

pub record Trades (D : Type 0) : Type 0 where
  pub sold : Map ℕ D
  pub received : Map ℕ D
  pub bought : Map ℕ D
  pub spent : Map ℕ D
  pub orders_total : ℕ
  pub fees : D

pub record PairStats (D : Type 0) : Type 0 where
  pub arbitrage_pair_id : ℕ
  pub sold : D
  pub bought : D
  pub spend : D
  pub received : D

pub record TradingSummary (D : Type 0) : Type 0 where
  pub pairs : List (PairStats D)
  pub trade_fee : D
  pub total_trade : D
  pub orders_cnt : ℕ

-- A row of the query of `getTodayTradeProfit`.
pub record OrderRow (D : Type 0) : Type 0 where
  pub kind : ℕ
  pub price : D

-- What `saveBalanceHistory` inserts: a row for each balance above 0, and the totals.
pub record BalanceRow (D : Type 0) : Type 0 where
  pub currency_id : ℕ
  pub coin_id : ℕ
  pub balance : D
  pub usd : D

pub record BalanceHistory (D : Type 0) : Type 0 where
  pub parts : List (BalanceRow D)
  pub totals : Map ℕ D
  pub total : D

module _ {D : Type 0} ⦃d : Double D⦄ where
  abbrev no_trades : Trades D
  no_trades = record {
    sold = [];
    received = [];
    bought = [];
    spent = [];
    orders_total = 0;
    fees = nought;
  }

  -- A type 0 is a sale, any other a purchase; the count is a `quint32`.
  unfoldable pub add_trade : Trades D → TradeRow D → Trades D
  add_trade t r =
      let sale : Trades D = record t {
        sold = insert r.pair_id r.trade_amount t.sold;
        received = insert r.pair_id r.trade_summ t.received;
      } in
      let purchase : Trades D = record t {
        bought = insert r.pair_id r.trade_amount t.bought;
        spent = insert r.pair_id r.trade_summ t.spent;
      } in
      let t' = if nat_beq r.kind 0 then sale else purchase in
      record t' {
        orders_total = (t'.orders_total + r.orders_cnt) % 2 ^ 32;
        fees = d.add t'.fees r.fees_paid;
      }

  unfoldable pub add_trades : Trades D → List (TradeRow D) → Trades D
  unfolding add_trade
  add_trades t [] = t
  add_trades t (r ∷ rs) = add_trades (add_trade t r) rs

  unfoldable pub add_values : D → Map ℕ D → D
  add_values acc [] = acc
  add_values acc ((k, x) ∷ m) = add_values (d.add acc x) m

  unfoldable pub pair_stats : Trades D → ℕ → PairStats D
  pair_stats t p = record {
    arbitrage_pair_id = p;
    sold = value_or p nought t.sold;
    bought = value_or p nought t.bought;
    spend = value_or p nought t.spent;
    received = value_or p nought t.received;
  }

  -- The pairs that were sold or bought.
  unfoldable pub traded_pairs : Trades D → List ℕ → List (PairStats D)
  unfolding pair_stats
  traded_pairs t [] = []
  traded_pairs t (p ∷ ps) =
      let s = pair_stats t p in
      let rest = traded_pairs t ps in
      if d.lt nought s.sold || d.lt nought s.bought then s ∷ rest else rest

  -- Only the pairs 1 and 2 are listed; the total takes all.
  unfoldable pub get_trading_summary : List (TradeRow D) → TradingSummary D
  unfolding add_trades add_values traded_pairs
  get_trading_summary rows =
      let t = add_trades no_trades rows in
      record {
        pairs = traded_pairs t (1 ∷ 2 ∷ []);
        trade_fee = t.fees;
        total_trade = add_values (add_values nought t.received) t.spent;
        orders_cnt = t.orders_total;
      }

  add_prices : D → D → List (OrderRow D) → D × D
  add_prices sell buy [] = (sell, buy)
  add_prices sell buy (r ∷ rs) =
      if nat_beq r.kind 0
      then add_prices (d.add sell r.price) buy rs
      else add_prices sell (d.add buy r.price) rs

  -- `getTodayTradeProfit`, the value of `last_profit_value`.
  unfoldable pub get_today_trade_profit : List (OrderRow D) → D
  unfolding add_prices
  get_today_trade_profit rows = let s = add_prices nought nought rows in d.sub s.0 s.1

  -- The value of a balance: the coin 7 is the dollar; every coin but 1 and 7 is valued as the coin 2.
  unfoldable pub usd_of : Map ℕ D → ℕ → D → D
  usd_of rates coin x =
      if nat_beq coin 7
      then x
      else if nat_beq coin 1
      then d.mul x (value_or 1 nought rates)
      else d.mul x (value_or 2 nought rates)

  unfoldable pub add_balance : Env D → Map ℕ D → BalanceHistory D → JsonObject → BalanceHistory D
  unfolding usd_of
  add_balance env rates h o =
      let coin = env.to_uint (get_text "" "coin_id" o) in
      let x = number_of env "total" o in
      let usd = usd_of rates coin x in
      let row : BalanceRow D = record {
        currency_id = id_of env o;
        coin_id = coin;
        balance = x;
        usd = usd;
      } in
      record {
        parts = if d.lt nought x then h.parts ++ (row ∷ []) else h.parts;
        totals = insert coin (d.add (value_or coin nought h.totals) x) h.totals;
        total = d.add h.total usd;
      }

  unfoldable pub add_balances :
      Env D → Map ℕ D → BalanceHistory D → List JsonObject → BalanceHistory D
  unfolding add_balance
  add_balances env rates h [] = h
  add_balances env rates h (o ∷ os) = add_balances env rates (add_balance env rates h o) os

  -- What the rates changed: the rate of yesterday is that of the coin 1 for every coin.
  unfoldable pub rate_changes : Map ℕ D → D → D → Map ℕ D → D
  rate_changes rates yesterday acc [] = acc
  rate_changes rates yesterday acc ((c, x) ∷ m) =
      rate_changes rates yesterday
        (if nat_beq c 7
          then acc
          else d.add acc (d.mul x (d.sub (value_or c nought rates) yesterday)))
        m

  -- `saveBalanceHistory`: the rows, the total, and the part of it that the rates made.
  unfoldable pub save_balance_history : Env D → Worker D → Map ℕ D → List (BalanceRow D) × D × D
  unfolding add_balances rate_changes get_balances
  save_balance_history env w last_rates =
      let h =
        add_balances env w.cached_rates (record { parts = []; totals = []; total = nought })
          (get_balances w) in
      let yesterday = value_or 1 (d.lit 1 0) last_rates in
      (h.parts, h.total, rate_changes w.cached_rates yesterday nought h.totals)

  -- `swiftbot.balances.usd`: the totals above 0, at the rates of their coins.
  unfoldable pub balances_usd : Env D → Map ℕ D → D → Map ℕ D → D
  balances_usd env rates acc [] = acc
  balances_usd env rates acc ((k, x) ∷ m) =
      balances_usd env rates
        (if d.lt nought x
          then d.add acc (d.mul x (value_or (env.currency_coin k) (d.lit 1 0) rates))
          else acc)
        m
