-- ===== src/Window/ArbitrageWindow/Profit.antt =====
-- swift-lib/arbitragewindow.cpp: the size of an order, the profit, and the state of a window.
use swift_bot.Prelude.{
  ℕ, ◌≡◌, ◌+◌, ◌-◌, ◌%◌, ◌^◌, inl, inr, Bool, true, false, ◌&&◌, ◌||◌, List, [], ◌∷◌, leb, ltb,
  if◌then◌else◌, Bool-cases, arith, length,
}
use swift_bot.Double.{Double, nought, le}
use swift_bot.Window.ArbitrageWindow.{Window, Call, add_classic_candidat}

module _ {D : Type 0} where
  -- `isAvailable` and `isPositive`; the times are `quint64`.
  is_available : ℕ → Window D → Bool
  is_available now w =
      if ltb 0 w.last_available_time && leb ((now + 2 ^ 64 - w.last_available_time) % 2 ^ 64) 180
      then w.is_available
      else false

  is_positive : ℕ → Window D → Bool
  is_positive now w = leb ((now + 2 ^ 64 - w.last_available_time) % 2 ^ 64) 3600

module _ {D : Type 0} ⦃d : Double D⦄ where
  -- The literal 0.1.
  abbrev pub tenth : D
  tenth = d.lit 1 1

  -- `getOrderSize`, from the two balances.
  pub get_order_size : (ℕ → D) → Window D → D
  get_order_size available w =
      let sb = available w.sell_base_currency_id in
      let bb = available w.buy_price_currency_id in
      if d.eq sb nought || d.eq bb nought
      then tenth
      else if le bb sb
      then if le tenth (d.div bb w.buy_rate) then d.div bb w.buy_rate else tenth
      else if le tenth sb
      then sb
      else tenth

  -- `isValid`; the literal -0.2 is 0 - 0.2.
  pub is_valid : Window D → Bool
  is_valid w =
      let ret = d.mul (d.div (d.sub w.sell_rate w.buy_rate) w.sell_rate) (d.lit 100 0) in
      ltb 0 w.id
      && (ltb 0 w.sell_exchange_id
          && (ltb 0 w.buy_exchange_id
              && (d.lt nought w.sell_rate
                  && (d.lt nought w.buy_rate && d.lt (d.sub nought (d.lit 2 1)) ret))))

  get_stat_profit_percent : Window D → D
  get_stat_profit_percent w =
      if d.eq w.sell_rate nought || d.eq w.buy_rate nought
      then nought
      else d.mul (d.div (d.sub w.sell_rate w.buy_rate) w.sell_rate) (d.lit 100 0)

  pub get_real_profit_percent : Window D → D
  get_real_profit_percent w =
      let size = if d.lt nought w.max_size then w.max_size else d.lit 1 0 in
      let sell = d.sub (d.mul size w.sell_rate) (d.mul (d.mul size w.sell_rate) w.sell_fee) in
      let buy = d.add (d.mul size w.buy_rate) (d.mul (d.mul size w.buy_rate) w.buy_fee) in
      if d.eq w.sell_rate nought || d.eq w.buy_rate nought
      then nought
      else d.mul (d.div (d.sub sell buy) sell) (d.lit 100 0)

  pub get_real_profit : Window D → D → D
  unfolding get_real_profit_percent
  get_real_profit w amount =
      if d.eq w.sell_rate nought || (d.eq w.buy_rate nought || le amount nought)
      then nought
      else d.mul amount (get_real_profit_percent w)

  -- A mean; `count` stands for the conversion of the number of values.
  average : (ℕ → D) → List D → D
  average count [] = nought
  average count (x ∷ xs) = d.div (sum (d.add nought x) xs) (count (length (x ∷ xs)))
    where
      sum : D → List D → D
      sum acc [] = acc
      sum acc (y ∷ ys) = sum (d.add acc y) ys

  get_dry_profit_percent : (ℕ → D) → Window D → D
  unfolding average get_real_profit
  get_dry_profit_percent count w =
      let size = average count w.amount_avg in
      let price = d.mul size (if d.lt nought w.sell_rate then w.sell_rate else w.buy_rate) in
      elim w.amount_avg [
        | [] ↦ nought
        | x ∷ xs ↦
            if le w.sell_rate nought || le w.buy_rate nought
            then nought
            else d.mul (d.div (get_real_profit w size) price) (d.lit 100 0)
      ]

  -- `setAsClassicCandidat`
  pub set_as_classic_candidat : (ℕ → D) → Window D → List (Call D)
  unfolding get_real_profit
  set_as_classic_candidat available w =
      let sb = available w.sell_base_currency_id in
      let size = if d.lt w.max_size sb then w.max_size else sb in
      if d.lt nought (get_real_profit w size)
      then add_classic_candidat w.id size w.sell_rate w.buy_rate ∷ []
      else []

  -- An order is never smaller than 0.1, where 0.1 equals itself.
  pub get_order_size_at_least :
      (available : ℕ → D) (w : Window D)
      → d.eq tenth tenth ≡ true
      → le tenth (get_order_size available w) ≡ true
  unfolding get_order_size
  get_order_size_at_least available w same =
      let sb = available w.sell_base_currency_id in
      let bb = available w.buy_price_currency_id in
      let self : le tenth tenth ≡ true = ground (arith, same) in
      elim (Bool-cases (d.eq sb nought || d.eq bb nought)) [
        | inl e ↦ rw (e, get_order_size) self
        | inr e ↦ elim (Bool-cases (le bb sb)) [
          | inl f ↦ elim (Bool-cases (le tenth (d.div bb w.buy_rate))) [
            | inl g ↦ rw (e, f, g, get_order_size) g
            | inr g ↦ rw (e, f, g, get_order_size) self
          ]
          | inr f ↦ elim (Bool-cases (le tenth sb)) [
            | inl g ↦ rw (e, f, g, get_order_size) g
            | inr g ↦ rw (e, f, g, get_order_size) self
          ]
        ]
      ]
