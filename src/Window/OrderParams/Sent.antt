-- ===== src/Window/OrderParams/Sent.antt =====
-- swift-lib/orderparams.cpp: what an order is after it was written and read.
use swift_bot.Prelude.{◌≡◌, refl, true, false, ltb, ◌==◌ as nat_beq, arith, Bool-cases, inl, inr}
use swift_bot.Qt.Key.{◌==◌, text_key}
use swift_bot.Qt.Map.{lookup, insert}
use swift_bot.Qt.Json.{get_text, put_text}
use swift_bot.Double.{Double}
use swift_bot.Window.OrderParams.{OrderEnv, OrderParams, to_json, of_json, sent_local_id}

-- The ids and the state of an order read back as they are printed.
pub record ReadsBack {D : Type 0} (env : OrderEnv D) (p : OrderParams D) : Type 0 where
  pub market : env.to_uint (env.nat_text p.market_id) ≡ p.market_id
  pub exchange : env.to_uint (env.nat_text p.exchange_id) ≡ p.exchange_id
  pub state : env.to_uint (env.nat_text p.status) ≡ p.status
  pub window : env.to_uint (env.nat_text p.arb_window) ≡ p.arb_window

module _ {D : Type 0} ⦃d : Double D⦄ (env : OrderEnv D) where
  -- A sale or purchase whose local id is not empty, and whose market, exchange, state and window read back
  -- as they are printed, is read as it was written, but for three things: its rate, price, amount and
  -- remaining amount are cut to the 8 decimals that are printed, its fee becomes the rate of the fees of
  -- the exchange, its currencies become those of the market.
  pub of_json-to_json_lem :
      (p : OrderParams D)
      → ReadsBack env p
      → (p.local_id == "") ≡ false
      → ltb p.kind 2 ≡ true
      → of_json env (to_json env p) ≡ record p {
        rate = env.to_double (env.fixed8 p.rate);
        price = env.to_double (env.fixed8 p.price);
        amount = env.to_double (env.fixed8 p.amount);
        amount_left = env.to_double (env.fixed8 p.amount_left);
        fee = env.exchange_fee p.exchange_id;
        base_currency_id = env.base_currency p.market_id;
        price_currency_id = env.price_currency p.market_id;
      }
  unfolding of_json to_json sent_local_id get_text put_text lookup insert
      swift_bot.Qt.Key.text_before
  of_json-to_json_lem p back named side = elim (Bool-cases (nat_beq p.kind 0)) [
    | inl e ↦
        let k : p.kind ≡ 0 = ground (arith, e) in
        rw (of_json, named, k, back.market, back.exchange, back.state, back.window) refl
    | inr e ↦
        let k : p.kind ≡ 1 = ground (arith, e, side) in
        rw (of_json, named, k, back.market, back.exchange, back.state, back.window) refl
  ]
