-- ===== src/Assets/Prices.antt =====
-- swift-lib/assetsstorage.cpp: `calculatateTransferPrice`, and the fees.
use swift_bot.Prelude.{ℕ, ◌&&◌, if◌then◌else◌, ◌==◌ as nat_beq}
use swift_bot.Qt.Key.{nat_key}
use swift_bot.Qt.Map.{value_or}
use swift_bot.Double.{Double, nought}
use swift_bot.Assets.{Assets, get_currency_exchange_id, get_currency_coin, is_token}

module _ {D : Type 0} ⦃d : Double D⦄ (a : Assets D) where
  unfoldable pub get_exchange_trade_fee : ℕ → D
  get_exchange_trade_fee e = value_or e (d.lit 18 4) a.exchange_trade_fee

  unfoldable pub get_currency_withdraw_fee : ℕ → D
  get_currency_withdraw_fee k = value_or k (d.lit 1 1) a.currency_withdraw_fee

  -- An amount at a rate, less the fee of the exchange.
  unfoldable pub order_out : ℕ → D → D → D
  unfolding get_exchange_trade_fee
  order_out e rate amount =
      let price = d.mul amount rate in d.sub price (d.mul price (get_exchange_trade_fee e))

  -- What it costs to buy tokens for dollars.
  unfoldable pub buy_fee : ℕ → D → D
  unfolding order_out
  buy_fee e amount =
      let rate =
        if nat_beq e 3 then d.lit 1045 3 else if nat_beq e 9 then d.lit 110 2 else d.lit 1025 3 in
      d.sub amount (order_out e rate amount)

  -- What stands for the sale of the tokens.
  unfoldable pub sale_fee : ℕ → D → D
  unfolding order_out
  sale_fee e amount = order_out e (if nat_beq e 3 then d.lit 95 2 else d.lit 1008 3) amount

  unfoldable pub calculatate_transfer_price : ℕ → ℕ → D → D
  unfolding get_currency_exchange_id get_currency_coin is_token buy_fee sale_fee
  calculatate_transfer_price from into amount =
      let e = get_currency_exchange_id a from in
      let coin = get_currency_coin a from in
      let sold = if is_token a from then d.lit 5 0 else d.add (d.lit 5 0) (buy_fee e amount) in
      if nat_beq coin 1
      then if nat_beq e 3 then d.lit 3 4 else d.lit 5 4
      else if is_token a from && is_token a into
      then if nat_beq coin 7 then d.lit 500 2 else if nat_beq coin 10 then d.lit 1 1 else nought
      else if is_token a into
      then sold
      else d.add sold (sale_fee e amount)
