-- ===== src/Window/ArbitrageWindow.antt =====
-- swift-lib/arbitragewindow.cpp and arbitragewindow.h: the class.
pub mod Candidats
pub mod History
pub mod Total
pub mod Profit
use swift_bot.Prelude.{
  ℕ, String, Bool, true, false, not, ◌&&◌, ◌||◌, ◌+◌, ◌-◌, ◌%◌, ◌^◌, Option, none, some, List, [],
  ◌∷◌, ◌++◌, reverse, ltb, leb, length, if◌then◌else◌,
}
use swift_bot.Qt.Key.{◌==◌, nat_key, text_key}
use swift_bot.Qt.Vector.{list_contains}
use swift_bot.Qt.Map.{Map, contains, value_or}
use swift_bot.Qt.Json.{JsonObject, get_text}
use swift_bot.Double.{Double, nought, le}
use swift_bot.Window.Orderbook.{
  Level, levels, Variant, sell_price, buy_price, profit, variants, profitable, last_rate,
}

pub record Window (D : Type 0) : Type 0 where
  pub id : ℕ
  pub sell_pair_id : ℕ
  pub buy_pair_id : ℕ
  pub sell_base_currency_id : ℕ
  pub buy_price_currency_id : ℕ
  pub sell_exchange_id : ℕ
  pub buy_exchange_id : ℕ
  pub sell_fee : D
  pub buy_fee : D
  pub sell_rate : D
  pub buy_rate : D
  pub max_size : D
  pub min_order_size : D
  pub max_order_size : D
  pub order_size_step : D
  pub asks_last : Map D D
  pub bids_last : Map D D
  pub valid : Bool
  pub spread_avg : List D
  pub sell_rate_avg : List D
  pub buy_rate_avg : List D
  pub amount_avg : List D
  pub bb : D
  pub sb : D
  pub required_balance_sell : D
  pub required_balance_buy : D
  pub last_available_time : ℕ
  pub is_available : Bool
  pub is_enabled : Bool
  pub is_locked : Bool
  pub placed_orders_local_ids : List String

-- What the window asks of its pair.
pub data Call (D : Type 0) : Type 0 where
  add_classic_candidat : ℕ → D → D → D → Call D
  set_requested_amount : ℕ → ℕ → D → Call D

abbrev pub Books : Type 0 → Type 0
Books D = Map ℕ (Map D D)

module _ {D : Type 0} where
  pub lock : Window D → Window D
  lock w = record w { is_locked = true }

  pub unlock : Window D → Window D
  unlock w = record w { is_locked = false }

  pub has_sprint : Window D → Bool
  has_sprint w = false

  pub add_window_order_uid : String → Window D → Window D
  add_window_order_uid uid w = record w {
    placed_orders_local_ids = w.placed_orders_local_ids ++ (uid ∷ []);
  }

  is_window_order : String → Window D → Bool
  is_window_order uid w = list_contains w.placed_orders_local_ids uid

  -- `onErrorOrder`, `onCompletedOrder`, `onPlacedOrder` and `onCanceledOrder`, which are the same.
  pub on_order : JsonObject → Window D → Window D
  unfolding has_sprint is_window_order unlock
  on_order o w =
      let local_id = get_text "" "local_id" o in
      if has_sprint w
        && (contains "local_id" o && (not (local_id == "") && is_window_order local_id w))
      then unlock w
      else w

  pub enable : Window D → Window D × Bool
  enable w = (record w { is_enabled = true }, true)

  pub disable : Window D → Window D × Bool
  disable w = (record w { is_enabled = false }, true)

  -- A timer: a window that was not available for 250 seconds is no longer so.
  pub check_is_active : ℕ → Window D → Window D
  check_is_active now w =
      if leb 250 ((now + 2 ^ 64 - w.last_available_time) % 2 ^ 64)
      then record w { is_available = false }
      else w

  pub first_rate : Map D D → Option D
  first_rate [] = none
  first_rate ((rate, amount) ∷ m) = some rate

  -- The book that is calculated with: what was sent, else the last one.
  pub or_last : Map D D → Map D D → Map D D
  or_last [] last = last
  or_last (l ∷ book) last = l ∷ book

  -- `push_back`, and `removeFirst` where more than 100 are held.
  pub keep_100 : D → List D → List D
  keep_100 x [] = x ∷ []
  keep_100 x (y ∷ ys) =
      if ltb 100 (length ((y ∷ ys) ++ (x ∷ []))) then ys ++ (x ∷ []) else (y ∷ ys) ++ (x ∷ [])

module _ {D : Type 0} ⦃d : Double D⦄ where
  pub get_spread : Window D → D
  get_spread w =
      if d.eq w.buy_rate nought || d.eq w.sell_rate nought
      then nought
      else d.sub w.sell_rate w.buy_rate

  pub get_spread_percent : Window D → D
  unfolding get_spread
  get_spread_percent w =
      if d.eq (get_spread w) nought
      then nought
      else d.mul (d.div (get_spread w) w.sell_rate) (d.lit 100 0)

  -- Whether `bids.lastKey() <= asks.firstKey()` is false; `none` where an empty side is read.
  pub crossed : Map D D → Map D D → Option Bool
  unfolding first_rate levels last_rate
  crossed asks bids = elim (last_rate (levels bids)) [
    | none ↦ none
    | some bid ↦ elim (first_rate asks) [ none ↦ none | some ask ↦ some (not (le bid ask)) ]
  ]

  last_of : Variant D → List (Variant D) → Variant D
  last_of v [] = v
  last_of v (u ∷ vs) = last_of u vs

  -- The rates and the size that the variants leave: of the last profitable one, else of the first
  -- one.
  pub take_rates : Variant D → List (Variant D) → Window D → Window D
  unfolding last_of
  take_rates first [] w = record w {
    sell_rate = first.sell_rate;
    buy_rate = first.buy_rate;
    max_size = nought;
  }
  take_rates first (v ∷ vs) w =
      let best = last_of v vs in
      record w { sell_rate = best.sell_rate; buy_rate = best.buy_rate; max_size = best.amount }

  -- The statistics that are kept of the rates.
  pub record_history : Window D → Window D
  unfolding get_spread_percent keep_100
  record_history w = record w {
    spread_avg = keep_100 (get_spread_percent w) w.spread_avg;
    sell_rate_avg =
        if d.lt nought w.sell_rate then keep_100 w.sell_rate w.sell_rate_avg else w.sell_rate_avg;
    buy_rate_avg =
        if d.lt nought w.buy_rate then keep_100 w.buy_rate w.buy_rate_avg else w.buy_rate_avg;
    amount_avg = w.amount_avg ++ (d.mul w.max_size (d.lit 2 0) ∷ []);
  }

  pub is_affordable : D → D → Variant D → Bool
  unfolding sell_price profit
  is_affordable sb bb v = le v.amount sb && (le (sell_price v) bb && d.lt nought (profit v))

  -- The last loop: the largest affordable variant becomes a candidate, else what is missing is asked
  -- for. The variants come from the last one.
  pub choose : Window D → D → D → List (Variant D) → Window D × List (Call D)
  unfolding is_affordable buy_price
  choose w req_sb req_bb [] =
      let w' = if d.lt nought req_bb then record w { required_balance_buy = req_bb } else w in
      let w'' = if d.lt nought req_sb then record w' { required_balance_sell = req_sb } else w' in
      (
        w'',
        (if d.lt nought req_bb
              then set_requested_amount w.id w.buy_price_currency_id req_bb ∷ []
              else [])
            ++ (if d.lt nought req_sb
                then set_requested_amount w.id w.sell_base_currency_id req_sb ∷ []
                else []),
      )
  choose w req_sb req_bb (v ∷ vs) =
      let req_sb' = if d.lt w.sb v.amount then d.sub v.amount w.sb else req_sb in
      let req_bb' = if d.lt req_bb (buy_price v) then d.sub (buy_price v) w.bb else req_bb in
      let rest = choose w req_sb' req_bb' vs in
      if is_affordable w.sb w.bb v
      then (w, add_classic_candidat w.id v.amount v.sell_rate v.buy_rate ∷ [])
      else rest

  with_balances : (ℕ → D) → Window D → Window D
  with_balances available w = record w {
    bb = available w.buy_price_currency_id;
    sb = available w.sell_base_currency_id;
  }

  settle : List (Variant D) → Window D → Window D × List (Call D)
  unfolding choose
  settle [] w = (w, [])
  settle (v ∷ vs) w = choose w nought nought (reverse (v ∷ vs))

  -- From the variants on.
  pub on_variants : (ℕ → D) → Window D → List (Variant D) → Window D × List (Call D)
  unfolding profitable with_balances take_rates record_history settle
  on_variants available w [] = (w, [])
  on_variants available w (v ∷ vs) =
      let good = profitable (v ∷ vs) in
      settle good (record_history (take_rates v good (with_balances available w)))

  -- `calculateOrderbooks`; `none` where a price is read from an empty side, or where the loop over the
  -- sizes does not end on the fuel.
  pub calculate_orderbooks :
      ℕ → (ℕ → D) → Books D → Books D → Window D → Option (Window D × List (Call D))
  unfolding or_last crossed on_variants levels variants
  calculate_orderbooks fuel available asks_ bids_ w =
      let asks = or_last (value_or w.buy_pair_id [] asks_) w.asks_last in
      let bids = or_last (value_or w.sell_pair_id [] bids_) w.bids_last in
      let cached = record w { asks_last = asks; bids_last = bids } in
      let found =
        variants fuel (levels asks) (levels bids) w.sell_fee w.buy_fee w.max_order_size
          w.order_size_step w.min_order_size in
      if not (contains w.buy_pair_id asks_) && not (contains w.sell_pair_id bids_)
      then some (w, [])
      else if leb (length asks) 1 || leb (length bids) 1
      then some (cached, [])
      else elim (crossed asks bids) [
        | none ↦ none
        | some false ↦ some (record cached { valid = true }, [])
        | some true ↦ elim found [
          | none ↦ none
          | some vs ↦ some (on_variants available (record cached { valid = true }) vs)
        ]
      ]
