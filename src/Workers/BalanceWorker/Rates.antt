-- ===== src/Workers/BalanceWorker/Rates.antt =====
-- workers/balanceworker.cpp and balanceworker.h: the changes of the rates, from the rows of the
-- queries on the books, and the mean rate of each arbitrage pair.
pub mod Missing
use swift_bot.Prelude.{ℕ, Bool, true, false, Option, none, some, List, [], ◌∷◌, ◌++◌, length}
use swift_bot.Qt.Key.{nat_key}
use swift_bot.Qt.Map.{Map, lookup, value_or, insert}
use swift_bot.Double.{Double, nought}

pub record RateChange (D : Type 0) : Type 0 where
  pub pid : ℕ
  pub prev_sell : D
  pub sell : D
  pub prev_buy : D
  pub buy : D
  pub diff_sell : D
  pub diff_buy : D
  pub orders : ℕ

-- The rates by pair and hour, and what `updateRates` keeps.
abbrev pub Hourly : Type 0 → Type 0
Hourly D = Map ℕ (Map ℕ D)

pub record Rates (D : Type 0) : Type 0 where
  pub rates_stats : Map ℕ (RateChange D)
  pub pair_rates : Map ℕ D

abbrev pub Rows : Type 0 → Type 0
Rows D = Map ℕ (RateChange D) × Map ℕ (List D)

module _ {D : Type 0} where
  -- The rows of a query: pair, hour and rate.
  unfoldable pub add_rows : List (ℕ × ℕ × D) → Hourly D → Hourly D
  add_rows [] m = m
  add_rows ((pid, h, r) ∷ rows) m = add_rows rows (insert pid (insert h r (value_or pid [] m)) m)

  -- `first` and `last`, which want an entry.
  first_value : Map ℕ D → Option D
  first_value [] = none
  first_value ((h, r) ∷ m) = some r

  last_value : Map ℕ D → Option D
  last_value [] = none
  last_value ((h, r) ∷ []) = some r
  last_value ((h, r) ∷ e ∷ m) = last_value (e ∷ m)

  -- The first and the last rate of a pair.
  pub ends : ℕ → Hourly D → Option (D × D)
  unfolding first_value last_value
  ends pid m = elim (first_value (value_or pid [] m)) [
    | none ↦ none
    | some prev ↦ elim (last_value (value_or pid [] m)) [
      | none ↦ none
      | some current ↦ some (prev, current)
    ]
  ]

module _ {D : Type 0} ⦃d : Double D⦄ where
  change : D → D → D
  change prev current = d.mul (d.div (d.sub current prev) prev) (d.lit 100 0)

  pub rate_change : ℕ → D × D → D × D → RateChange D
  unfolding change
  rate_change pid (prev_buy, buy) (prev_sell, sell) = record {
    pid = pid;
    prev_sell = prev_sell;
    sell = sell;
    prev_buy = prev_buy;
    buy = buy;
    diff_sell = change prev_sell sell;
    diff_buy = change prev_buy buy;
    orders = 0;
  }

  -- The loop over the pairs that have asks; `none` where a pair has no bids, whose `last` the program
  -- reads all the same. `group` is `getMarketArbitragePairId`.
  pub change_rates : (ℕ → ℕ) → Hourly D → Map ℕ (Map ℕ D) → Hourly D → Rows D → Option (Rows D)
  unfolding rate_change ends
  change_rates group asks [] bids rows = some rows
  change_rates group asks ((pid, hours) ∷ pairs) bids (stats, rates) = elim (ends pid asks) [
    | none ↦ none
    | some buy ↦ elim (ends pid bids) [
      | none ↦ none
      | some sell ↦
          let old = value_or (group pid) [] rates in
          change_rates group asks pairs bids (
            insert pid (rate_change pid buy sell) stats,
            insert (group pid) (old ++ (sell.1 ∷ buy.1 ∷ [])) rates,
          )
    ]
  ]

  sum : D → List D → D
  sum acc [] = acc
  sum acc (x ∷ xs) = sum (d.add acc x) xs

  -- `count` is the conversion of a number of values.
  mean_rates : (ℕ → D) → Map ℕ (List D) → Map ℕ D → Map ℕ D
  unfolding sum
  mean_rates count [] m = m
  mean_rates count ((k, xs) ∷ rates) m =
      mean_rates count rates (insert k (d.div (sum nought xs) (count (length xs))) m)

  -- The value of `operator[]` for a pair that no book has, with its numbers 0.
  abbrev pub no_change : RateChange D
  no_change = record {
    pid = 0;
    prev_sell = nought;
    sell = nought;
    prev_buy = nought;
    buy = nought;
    diff_sell = nought;
    diff_buy = nought;
    orders = 0;
  }

  -- The rows of the query on the orders of the day: pair and count.
  unfoldable pub count_orders : List (ℕ × ℕ) → Map ℕ (RateChange D) → Map ℕ (RateChange D)
  count_orders [] m = m
  count_orders ((pid, n) ∷ rows) m =
      count_orders rows (insert pid (record (value_or pid no_change m) { orders = n }) m)

  pub update_rates :
      (ℕ → D)
      → (ℕ → ℕ)
      → List (ℕ × ℕ × D)
      → List (ℕ × ℕ × D)
      → List (ℕ × ℕ)
      → Rates D
      → Option (Rates D)
  unfolding add_rows change_rates mean_rates count_orders
  update_rates count group ask_rows bid_rows order_rows s =
      let asks = add_rows ask_rows [] in
      let bids = add_rows bid_rows [] in
      elim (change_rates group asks asks bids (s.rates_stats, [])) [
        | none ↦ none
        | some rows ↦ some (record {
          rates_stats = count_orders order_rows rows.0;
          pair_rates = mean_rates count rows.1 s.pair_rates;
        })
      ]
