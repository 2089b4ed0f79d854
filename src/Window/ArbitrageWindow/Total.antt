-- ===== src/Window/ArbitrageWindow/Total.antt =====
-- The runs that return.
use swift_bot.Prelude.{
  ℕ, ◌≡◌, refl, false, inl, inr, some, List, [], ◌∷◌, length, leb, arith, Bool-cases, not, ◌&&◌,
  ◌||◌, ◌⊎◌, true,
}
use swift_bot.Qt.Key.{nat_key}
use swift_bot.Qt.Map.{Map, contains, value_or}
use swift_bot.Double.{Double, le}
use swift_bot.Window.Orderbook.{Variant, variants, levels}
use swift_bot.Window.Orderbook.Variants.{stepped, variants-some, last_rate-some}
use swift_bot.Window.ArbitrageWindow.{
  Window, Call, Books, crossed, first_rate, or_last, calculate_orderbooks,
}

module _ {D : Type 0} ⦃d : Double D⦄ where
  books_some :
      (asks bids : Map D D) (sell_fee buy_fee max step size : D) (n : ℕ)
      → (leb (length asks) 1 || leb (length bids) 1) ≡ false
      → d.lt (stepped step n size) max ≡ false
      → (vs : List (Variant D)) × (variants n
            (levels asks)
            (levels bids)
            sell_fee
            buy_fee
            max
            step
            size
          ≡ some vs)
  unfolding levels
  books_some [] bids sell_fee buy_fee max step size n h limit = absurd (ground (arith, h))
  books_some (a ∷ asks) [] sell_fee buy_fee max step size n h limit = absurd (ground (arith, h))
  books_some (a ∷ asks) (b ∷ bids) sell_fee buy_fee max step size n h limit =
      variants-some _ _ (levels asks) (levels bids) sell_fee buy_fee max step size n limit

  -- Both sides of books with two levels and more have a price to compare.
  crossed-cases :
      (asks bids : Map D D)
      → (leb (length asks) 1 || leb (length bids) 1) ≡ false
      → (crossed asks bids ≡ some false) ⊎ (crossed asks bids ≡ some true)
  unfolding crossed levels first_rate
  crossed-cases [] bids h = absurd (ground (arith, h))
  crossed-cases (a ∷ asks) [] h = absurd (ground (arith, h))
  crossed-cases ((r, x) ∷ asks) ((q, y) ∷ bids) h =
      let (last, e) = last_rate-some (record { rate = q; amount = y }) (levels bids) in
      elim (Bool-cases (le last r)) [
        | inl f ↦ inl (rw (e, f, crossed) refl)
        | inr f ↦ inr (rw (e, f, crossed) refl)
      ]

  -- A run returns whatever the books are, where so many steps, the fuel, take the smallest size to the
  -- largest: no price is read from an empty side.
  pub calculate_orderbooks_returns :
      (fuel : ℕ) (available : ℕ → D) (asks bids : Books D) (w : Window D)
      → d.lt (stepped w.order_size_step fuel w.min_order_size) w.max_order_size ≡ false
      → (r : Window D × List (Call D)) × (calculate_orderbooks fuel available asks bids w ≡ some r)
  unfolding calculate_orderbooks
  calculate_orderbooks_returns fuel available asks_ bids_ w limit =
      let asks = or_last (value_or w.buy_pair_id [] asks_) w.asks_last in
      let bids = or_last (value_or w.sell_pair_id [] bids_) w.bids_last in
      elim (Bool-cases
        (not (contains w.buy_pair_id asks_) && not (contains w.sell_pair_id bids_))) [
          | inl e ↦ rw (e, calculate_orderbooks) (_, refl)
          | inr e ↦ elim (Bool-cases (leb (length asks) 1 || leb (length bids) 1)) [
            | inl f ↦ rw (e, f, calculate_orderbooks) (_, refl)
            | inr f ↦ elim (crossed-cases asks bids f) [
              | inl g ↦ rw (e, f, g, calculate_orderbooks) (_, refl)
              | inr g ↦
                  let (vs, k) =
                    books_some asks bids w.sell_fee w.buy_fee w.max_order_size w.order_size_step
                      w.min_order_size fuel f limit in
                  rw (e, f, g, k, calculate_orderbooks) (_, refl)
            ]
          ]
        ]
