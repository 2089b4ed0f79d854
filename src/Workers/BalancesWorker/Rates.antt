-- ===== src/Workers/BalancesWorker/Rates.antt =====
-- workers/balancesworker.cpp: the changes of the rates of the pairs, and the rates by which balances
-- are valued.
use swift_bot.Prelude.{ℕ, ◌≡◌, refl, ap, ◌/◌, Option, none, some, List, [], ◌∷◌, length, All, arith}
use swift_bot.Qt.Key.{nat_key}
use swift_bot.Qt.Map.{Map, insert}
use swift_bot.Double.{Double}
use swift_bot.Workers.BalanceWorker.Rates.{
  RateChange, Hourly, add_rows, ends, rate_change, count_orders,
}

module _ {D : Type 0} ⦃d : Double D⦄ where
  -- The loop over the pairs that have asks; `none` where a pair has no bids, whose `last` is read all the
  -- same.
  unfoldable pub change_stats :
      Hourly D → Map ℕ (Map ℕ D) → Hourly D → Map ℕ (RateChange D) → Option (Map ℕ (RateChange D))
  change_stats asks [] bids stats = some stats
  change_stats asks ((pid, hours) ∷ pairs) bids stats = elim (ends pid asks) [
    | none ↦ none
    | some buy ↦ elim (ends pid bids) [
      | none ↦ none
      | some sell ↦ change_stats asks pairs bids (insert pid (rate_change pid buy sell) stats)
    ]
  ]

  unfoldable pub update_rates :
      List (ℕ × ℕ × D)
      → List (ℕ × ℕ × D)
      → List (ℕ × ℕ)
      → Map ℕ (RateChange D)
      → Option (Map ℕ (RateChange D))
  unfolding change_stats
  update_rates ask_rows bid_rows order_rows stats =
      let asks = add_rows ask_rows [] in
      elim (change_stats asks asks (add_rows bid_rows []) stats) [
        | none ↦ none
        | some stats' ↦ some (count_orders order_rows stats')
      ]

-- What `updateRatesCache` asks for and converts: the rate of the first ask of a pair, where it has one;
-- the sum of an `int` and a `double` as an `int`, where it is in the range; and an `int` as a `double`.
-- Rates are not below 0.
pub record Conversions (D : Type 0) : Type 0 where
  pub first_ask : ℕ → Option D
  pub int_add : ℕ → D → Option ℕ
  pub of_int : ℕ → D

-- The rates of the pairs and those of the arbitrage pairs.
pub record Cache (D : Type 0) : Type 0 where
  pub last_pairs_rates : Map ℕ D
  pub cached_rates : Map ℕ D

module _ {D : Type 0} (c : Conversions D) where
  -- The loop over the pairs of an arbitrage pair.
  unfoldable pub ask_rates : List ℕ → Map ℕ D → Map ℕ D × List D
  ask_rates [] last = (last, [])
  ask_rates (p ∷ ps) last = elim (c.first_ask p) [
    | none ↦ ask_rates ps last
    | some x ↦ let rest = ask_rates ps (insert p x last) in (rest.0, x ∷ rest.1)
  ]

  -- `std::accumulate` from the `int` 0: each partial sum is an `int`.
  unfoldable pub accumulate : ℕ → List D → Option ℕ
  accumulate n [] = some n
  accumulate n (x ∷ xs) = elim (c.int_add n x) [ none ↦ none | some m ↦ accumulate m xs ]

  -- A quotient of two integers.
  unfoldable pub mean_rate : List D → Option D
  unfolding accumulate
  mean_rate xs = elim (accumulate 0 xs) [ none ↦ none | some n ↦ some (c.of_int (n / length xs)) ]

  unfoldable pub update_rates_cache : List (ℕ × List ℕ) → Cache D → Option (Cache D)
  unfolding ask_rates mean_rate
  update_rates_cache [] s = some s
  update_rates_cache ((group, ps) ∷ groups) s =
      let asked = ask_rates ps s.last_pairs_rates in
      elim asked.1 [
        | [] ↦ update_rates_cache groups (record s { last_pairs_rates = asked.0 })
        | x ∷ xs ↦ elim (mean_rate (x ∷ xs)) [
          | none ↦ none
          | some r ↦
              update_rates_cache groups (record {
                last_pairs_rates = asked.0;
                cached_rates = insert group r s.cached_rates;
              })
        ]
      ]

  accumulate_small : (xs : List D) → All (λ x. c.int_add 0 x ≡ some 0) xs → accumulate 0 xs ≡ some 0
  unfolding accumulate
  accumulate_small [] h = refl
  accumulate_small (x ∷ xs) (small, rest) = rw (accumulate, small) (accumulate_small xs rest)

  -- Where the markets of an arbitrage pair have rates that are 0 as an `int`, as those below 1 are, the
  -- mean that the cache takes is 0, whatever the rates are.
  pub mean_rate_small :
      (x : D) (xs : List D)
      → All (λ y. c.int_add 0 y ≡ some 0) (x ∷ xs)
      → mean_rate (x ∷ xs) ≡ some (c.of_int 0)
  unfolding mean_rate
  mean_rate_small x xs h =
      rw (mean_rate, accumulate_small (x ∷ xs) h) (ap (λ n. some (c.of_int n)) (omega arith))
