-- ===== src/Tests/Windows.antt =====
-- The theorems on a window at a small order book.
use swift_bot.Prelude.{ℕ, ◌≡◌, refl, true, false, some, List, [], ◌∷◌, All, arith}
use swift_bot.Qt.Key.{nat_key}
use swift_bot.Double.{whole}
use swift_bot.Window.ArbitrageWindow.{disable, Window, Call, Books, calculate_orderbooks}
use swift_bot.Window.ArbitrageWindow.History.{
  IsKept, books, order, disabled, done, step, Steps-IsKept,
}
use swift_bot.Window.ArbitrageWindow.Candidats.{IsSound, IsOffered, calculate_orderbooks-IsSound}
use swift_bot.Window.ArbitrageWindow.Total.{calculate_orderbooks_returns}
use swift_bot.Window.ArbitrageWindow.{on_order}

abbrev window : Window ℕ
window = record {
  id = 1;
  sell_pair_id = 2;
  buy_pair_id = 3;
  sell_base_currency_id = 4;
  buy_price_currency_id = 5;
  sell_exchange_id = 6;
  buy_exchange_id = 7;
  sell_fee = 0;
  buy_fee = 0;
  sell_rate = 0;
  buy_rate = 0;
  max_size = 0;
  min_order_size = 1;
  max_order_size = 3;
  order_size_step = 1;
  asks_last = [];
  bids_last = [];
  valid = false;
  spread_avg = [];
  sell_rate_avg = [];
  buy_rate_avg = [];
  amount_avg = [];
  bb = 0;
  sb = 0;
  required_balance_sell = 0;
  required_balance_buy = 0;
  last_available_time = 0;
  is_available = false;
  is_enabled = true;
  is_locked = false;
  placed_orders_local_ids = [];
}

abbrev asks : Books ℕ
asks = (3, (10, 5) ∷ (11, 5) ∷ []) ∷ []

abbrev bids : Books ℕ
bids = (2, (20, 5) ∷ (21, 5) ∷ []) ∷ []

abbrev available : ℕ → ℕ
available c = 100

-- What a run leaves: the sizes 1 and 2.
abbrev result :
    (r : Window ℕ × List (Call ℕ)) × (calculate_orderbooks 2 available asks bids window ≡ some r)
result = calculate_orderbooks_returns 2 available asks bids window refl

calculate_orderbooks_returns_example :
    (r : Window ℕ × List (Call ℕ)) × (calculate_orderbooks 2 available asks bids window ≡ some r)
calculate_orderbooks_returns_example =
    calculate_orderbooks_returns 2 available asks bids window refl

-- The locked window calculates, hears of an order and is switched off.
abbrev locked_run :
    (r : Window ℕ × List (Call ℕ)) × (calculate_orderbooks 2 available asks bids
        (record window { is_locked = true })
      ≡ some r)
locked_run =
    calculate_orderbooks_returns 2 available asks bids (record window { is_locked = true }) refl

Steps-IsKept_example : IsKept true (disable (on_order [] locked_run.0.0)).0
Steps-IsKept_example =
    Steps-IsKept true
      (step (books 2 available asks bids locked_run.0.1 locked_run.1)
        (step (order [] refl) (step (disabled refl) (done _))))
      (omega arith, omega arith, omega arith, refl)

calculate_orderbooks-IsSound_example :
    All (IsSound (IsOffered asks bids window) 1 100 100) result.0.1
calculate_orderbooks-IsSound_example =
    calculate_orderbooks-IsSound 2 available asks bids window result.0.0 result.0.1 result.1
