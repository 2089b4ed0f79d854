-- ===== src/Bot/MoneyShiftManager.antt =====
-- swift-bot/moneyshiftmanager.cpp and moneyshiftmanager.h: what the completed orders of the day sold and
-- bought, and the shift between the two.
pub mod Turns
use swift_bot.Prelude.{
  ℕ, ◌+◌, ◌*◌, ◌%◌, ◌^◌, Bool, true, false, not, List, [], ◌∷◌, if◌then◌else◌, ◌==◌ as nat_beq,
}
use swift_bot.Qt.Key.{nat_key}
use swift_bot.Qt.Map.{Map, insert, value_or}
use swift_bot.Double.{Double, nought}

-- What the orders of one type come to.
pub record Side (D : Type 0) : Type 0 where
  pub price : D
  pub amount : D
  pub pair_price : Map ℕ D
  pub pair_amount : Map ℕ D
  pub orders_cnt : ℕ

pub record Totals (D : Type 0) : Type 0 where
  pub sell : Side D
  pub buy : Side D

pub record Manager (D : Type 0) : Type 0 where
  pub totals : Totals D
  pub orders_cnt : ℕ

-- A row of the orders of the day.
pub record OrderRow (D : Type 0) : Type 0 where
  pub status : ℕ
  pub amount : D
  pub price : D
  pub pair_id : ℕ
  pub kind : ℕ

-- `getJsonState`, before its numbers are printed.
pub record ShiftState (D : Type 0) : Type 0 where
  pub has_shift : Bool
  pub is_positional : Bool
  pub size : D
  pub price : D
  pub correction : D
  pub profit_correction : D

pub data Signal (D : Type 0) : Type 0 where
  has_money_shift : D → D → Bool → Signal D
  has_zero_shift : Signal D
  publish_state : ShiftState D → Signal D

module _ {D : Type 0} ⦃d : Double D⦄ where
  unfoldable pub no_orders : Side D
  no_orders = record {
    price = nought;
    amount = nought;
    pair_price = [];
    pair_amount = [];
    orders_cnt = 0;
  }

  -- The counts are of type `quint32`.
  unfoldable pub add_order : OrderRow D → Side D → Side D
  add_order r s = record {
    price = d.add s.price r.price;
    amount = d.add s.amount r.amount;
    pair_price =
        insert r.pair_id (d.add (value_or r.pair_id nought s.pair_price) r.price) s.pair_price;
    pair_amount =
        insert r.pair_id (d.add (value_or r.pair_id nought s.pair_amount) r.amount) s.pair_amount;
    orders_cnt = (s.orders_cnt + 1) % 2 ^ 32;
  }

  -- Of the rows of state 2, the type 0 is a sale, any other a purchase.
  unfoldable pub add_orders : List (OrderRow D) → Totals D → Totals D
  unfolding add_order
  add_orders [] t = t
  add_orders (r ∷ rs) t = add_orders rs (
      if not (nat_beq r.status 2)
      then t
      else if nat_beq r.kind 0
      then record t { sell = add_order r t.sell }
      else record t { buy = add_order r t.buy })

  unfoldable pub is_positional_shift : Totals D → Bool
  is_positional_shift t = d.lt t.sell.amount t.buy.amount

  -- The conversion to `quint64` is a parameter; the literal is 10000000.
  unfoldable pub has_shifted : (D → ℕ) → Totals D → Bool
  has_shifted to_u64 t = not (
      nat_beq (to_u64 (d.mul t.buy.amount (d.lit 10000000 0)))
        (to_u64 (d.mul t.sell.amount (d.lit 10000000 0))))

  unfoldable pub get_shift_size : (D → ℕ) → Totals D → D
  unfolding has_shifted is_positional_shift
  get_shift_size to_u64 t =
      if has_shifted to_u64 t
      then if is_positional_shift t
        then d.sub t.buy.amount t.sell.amount
        else d.sub t.sell.amount t.buy.amount
      else nought

  unfoldable pub get_shift_price : (D → ℕ) → Totals D → D
  unfolding has_shifted is_positional_shift
  get_shift_price to_u64 t =
      if has_shifted to_u64 t
      then if is_positional_shift t
        then d.sub t.buy.price t.sell.price
        else d.sub t.sell.price t.buy.price
      else nought

  unfoldable pub get_correction_rate : (D → ℕ) → Totals D → D
  unfolding has_shifted get_shift_size get_shift_price
  get_correction_rate to_u64 t =
      if has_shifted to_u64 t
      then d.div (get_shift_price to_u64 t) (get_shift_size to_u64 t)
      else nought

  unfoldable pub get_profit_correction_rate : (D → ℕ) → Totals D → D
  unfolding has_shifted is_positional_shift get_correction_rate
  get_profit_correction_rate to_u64 t =
      let rate = get_correction_rate to_u64 t in
      if has_shifted to_u64 t
      then if is_positional_shift t
        then d.add rate (d.mul rate (d.lit 1 2))
        else d.sub rate (d.mul rate (d.lit 1 2))
      else nought

  unfoldable pub get_json_state : (D → ℕ) → Totals D → ShiftState D
  get_json_state to_u64 t = record {
    has_shift = has_shifted to_u64 t;
    is_positional = is_positional_shift t;
    size = get_shift_size to_u64 t;
    price = get_shift_price to_u64 t;
    correction = get_correction_rate to_u64 t;
    profit_correction = get_profit_correction_rate to_u64 t;
  }

  -- The rows are those of the query; none where it fails.
  unfoldable pub load_period_orders :
      (D → ℕ) → List (OrderRow D) → Manager D → Manager D × List (Signal D)
  load_period_orders to_u64 rows m =
      let t = add_orders rows m.totals in
      (
        record { totals = t; orders_cnt = (t.sell.orders_cnt + t.buy.orders_cnt) % 2 ^ 32 },
        (if has_shifted to_u64 t
              then has_money_shift (get_shift_size to_u64 t) (get_profit_correction_rate to_u64 t)
                  (is_positional_shift t)
              else has_zero_shift)
            ∷ publish_state (get_json_state to_u64 t)
            ∷ [],
      )
