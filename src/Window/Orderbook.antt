-- ===== src/Window/Orderbook.antt =====
-- swift-lib/arbitragewindow.cpp, the structs at its top: what an amount costs on one side of an
-- order book, and the variants of an order pair.
pub mod Variants
use swift_bot.Prelude.{
  ℕ, zero, suc, Bool, true, false, not, ◌&&◌, Option, none, some, List, [], ◌∷◌, reverse,
  if◌then◌else◌,
}
use swift_bot.Qt.Map.{Map}
use swift_bot.Double.{Double, nought}

-- `Ask` and `Bid`
pub record Level (D : Type 0) : Type 0 where
  pub rate : D
  pub amount : D

module _ {D : Type 0} where
  -- The constructors of `Asks` and `Bids`: the levels by rising rate.
  unfoldable pub levels : Map D D → List (Level D)
  levels [] = []
  levels ((rate, amount) ∷ m) = record { rate = rate; amount = amount } ∷ levels m

  -- The rate of the last level.
  unfoldable pub last_rate : List (Level D) → Option D
  last_rate [] = none
  last_rate (l ∷ []) = some l.rate
  last_rate (l ∷ k ∷ ls) = last_rate (k ∷ ls)

module _ {D : Type 0} ⦃d : Double D⦄ where
  -- `price`: of a part of the level, else of the whole.
  pub price : D → Level D → D
  price max l =
      if not (d.eq max nought) && d.lt max l.amount then d.mul max l.rate else d.mul l.amount l.rate

  pub taken : D → Level D → D
  taken left l = if d.lt l.amount left then l.amount else left

  -- The loop of `getPrice`, from the price and the amount so far; `none` where no level is left.
  pub fill : D → D → D → List (Level D) → Option D
  unfolding price taken
  fill amount r filled [] = none
  fill amount r filled (l ∷ ls) =
      let left = d.sub amount filled in
      let rest = fill amount (d.add r (price left l)) (d.add filled (taken left l)) ls in
      if d.lt filled amount then rest else some r

  -- What stands after the loop.
  pub at_last : D → List (Level D) → Option D
  unfolding last_rate
  at_last amount ls = elim (last_rate ls) [ none ↦ none | some rate ↦ some (d.mul amount rate) ]

  -- `Asks::getPrice`: the levels from the cheapest one. With no level at all the program reads out of
  -- the vector's bounds: `none`.
  pub asks_price : List (Level D) → D → Option D
  unfolding fill at_last
  asks_price ls amount = elim (fill amount nought nought ls) [
    | none ↦ at_last amount ls
    | some r ↦ some r
  ]

  -- `Bids::getPrice`: the levels from the dearest one, and `last()` is that same one.
  pub bids_price : List (Level D) → D → Option D
  unfolding fill at_last
  bids_price ls amount = elim (fill amount nought nought (reverse ls)) [
    | none ↦ at_last amount ls
    | some r ↦ some r
  ]

abbrev pub push_front : {A : Type 0} → Option A → List A → List A
push_front none xs = xs
push_front (some a) xs = a ∷ xs

-- `OrderbooksVariant`; its fee and profit are computed from the other fields.
pub record Variant (D : Type 0) : Type 0 where
  pub amount : D
  pub sell_rate : D
  pub buy_rate : D
  pub sell_fee : D
  pub buy_fee : D

module _ {D : Type 0} ⦃d : Double D⦄ where
  unfoldable pub sell_price : Variant D → D
  sell_price v = d.mul v.amount v.sell_rate

  unfoldable pub buy_price : Variant D → D
  buy_price v = d.mul v.amount v.buy_rate

  unfoldable pub profit : Variant D → D
  unfolding sell_price buy_price
  profit v =
      d.sub (d.sub (sell_price v) (d.mul (sell_price v) v.sell_fee))
        (d.add (buy_price v) (d.mul (buy_price v) v.buy_fee))

  -- The body of the loop of `OrdersVariants` at one size.
  pub variant_at : List (Level D) → List (Level D) → D → D → D → Option (Option (Variant D))
  unfolding asks_price bids_price
  variant_at asks bids sell_fee buy_fee size = elim (asks_price asks size) [
    | none ↦ none
    | some buy ↦ elim (bids_price bids size) [
      | none ↦ none
      | some sell ↦
          if d.lt buy sell
          then some (
              some (record {
                amount = size;
                sell_rate = d.div sell size;
                buy_rate = d.div buy size;
                sell_fee = sell_fee;
                buy_fee = buy_fee;
              }))
          else some none
    ]
  ]

  -- The loop over the sizes, on fuel: `none` where the fuel ends first, and where a price cannot be
  -- read.
  unfoldable pub variants :
      ℕ → List (Level D) → List (Level D) → D → D → D → D → D → Option (List (Variant D))
  unfolding variant_at
  variants zero asks bids sell_fee buy_fee max step size = if d.lt size max then none else some []
  variants (suc n) asks bids sell_fee buy_fee max step size =
      let rest = variants n asks bids sell_fee buy_fee max step (d.add size step) in
      if d.lt size max
      then elim (variant_at asks bids sell_fee buy_fee size) [
        | none ↦ none
        | some v ↦ elim rest [ none ↦ none | some vs ↦ some (push_front v vs) ]
      ]
      else some []

  -- `getProfitable`
  unfoldable pub profitable : List (Variant D) → List (Variant D)
  unfolding profit
  profitable [] = []
  profitable (v ∷ vs) = if d.lt nought (profit v) then v ∷ profitable vs else profitable vs
