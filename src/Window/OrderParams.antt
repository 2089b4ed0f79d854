-- ===== src/Window/OrderParams.antt =====
-- swift-lib/orderparams.cpp: the parameters of an order to place, and their JSON form.
pub mod Sent
use swift_bot.Prelude.{
  ℕ, String, Bool, true, false, not, ◌&&◌, Option, none, some, List, [], ◌∷◌, if◌then◌else◌, ltb,
  ◌==◌ as nat_beq,
}
use swift_bot.Qt.Key.{◌==◌, text_key}
use swift_bot.Qt.Json.{JsonObject, text, get_text, put_text}
use swift_bot.Double.{Double, nought}

-- Qt's reading and printing of numbers, the assets, and the hash of a text.
pub record OrderEnv (D : Type 0) : Type 0 where
  pub to_uint : String → ℕ
  pub to_double : String → D
  pub nat_text : ℕ → String
  pub fixed8 : D → String
  pub market_exchange : ℕ → ℕ
  pub exchange_name : ℕ → String
  pub base_currency : ℕ → ℕ
  pub price_currency : ℕ → ℕ
  pub exchange_fee : ℕ → D
  pub hash34 : List String → String
  pub now : ℕ
  pub now_ms : ℕ

-- A type 0 is a sale, 1 a purchase and 3 neither.
pub record OrderParams (D : Type 0) : Type 0 where
  pub local_id : String
  pub remote_id : String
  pub amount : D
  pub amount_left : D
  pub rate : D
  pub price : D
  pub fee : D
  pub exchange_id : ℕ
  pub kind : ℕ
  pub market_id : ℕ
  pub base_currency_id : ℕ
  pub price_currency_id : ℕ
  pub status : ℕ
  pub arb_window : ℕ

module _ {D : Type 0} ⦃d : Double D⦄ where
  -- The texts that are joined and hashed.
  unfoldable pub pre_hash : OrderEnv D → OrderParams D → List String
  pre_hash env p =
      env.nat_text p.exchange_id
      ∷ env.nat_text p.market_id
      ∷ env.fixed8 p.amount
      ∷ env.fixed8 p.rate
      ∷ env.fixed8 p.fee
      ∷ env.fixed8 p.price
      ∷ env.nat_text p.base_currency_id
      ∷ env.nat_text p.price_currency_id
      ∷ env.nat_text p.arb_window
      ∷ (if nat_beq p.kind 0 then "sell" else "buy")
      ∷ env.nat_text env.now_ms
      ∷ []

  -- The exchange "kraken" takes the time in seconds.
  unfoldable pub create_local_id : OrderEnv D → OrderParams D → String
  unfolding pre_hash
  create_local_id env p =
      if env.exchange_name p.exchange_id == "kraken"
      then env.nat_text env.now
      else env.hash34 (pre_hash env p)

  -- The window of the order enters the hash as it was before.
  unfoldable pub set_order_params : OrderEnv D → ℕ → D → D → ℕ → OrderParams D → OrderParams D
  unfolding create_local_id
  set_order_params env market amount rate kind p =
      let exchange = env.market_exchange market in
      let q : OrderParams D = record p {
        market_id = market;
        exchange_id = exchange;
        amount = amount;
        amount_left = amount;
        rate = rate;
        kind = kind;
        price = d.mul rate amount;
        base_currency_id = env.base_currency market;
        price_currency_id = env.price_currency market;
        fee = d.mul (d.mul amount rate) (env.exchange_fee exchange);
      } in
      record q { local_id = create_local_id env q; arb_window = 0; status = 0 }

  unfoldable pub is_valid : OrderParams D → Bool
  is_valid p = ltb p.kind 3 && (ltb 0 p.market_id && (d.lt nought p.rate && d.lt nought p.amount))

  -- The local id as `toJson` writes it.
  unfoldable pub sent_local_id : OrderEnv D → OrderParams D → String
  unfolding create_local_id
  sent_local_id env p = if p.local_id == "" then create_local_id env p else p.local_id

  unfoldable pub to_json : OrderEnv D → OrderParams D → JsonObject
  unfolding sent_local_id
  to_json env p = put_text "remote_id" p.remote_id (
      put_text "local_id" (if p.local_id == "" then create_local_id env p else p.local_id) (
        put_text "market_id" (env.nat_text p.market_id) (
          put_text "exchange_id" (env.nat_text p.exchange_id) (
            put_text "rate" (env.fixed8 p.rate) (
              put_text "amount" (env.fixed8 p.amount) (
                put_text "amount_left" (env.fixed8 p.amount_left) (
                  put_text "price" (env.fixed8 p.price) (
                    put_text "fee" (env.fixed8 p.fee) (
                      put_text "type"
                        (if nat_beq p.kind 0
                          then "sell"
                          else if nat_beq p.kind 1
                          then "buy"
                          else "")
                        (put_text "status" (env.nat_text p.status)
                          (put_text "arb_window" (env.nat_text p.arb_window) [])))))))))))

  unfoldable pub of_json : OrderEnv D → JsonObject → OrderParams D
  of_json env o = record {
    kind =
        if get_text "" "type" o == "sell"
        then 0
        else if get_text "" "type" o == "buy"
        then 1
        else 3;
    local_id = get_text "" "local_id" o;
    remote_id = get_text "" "remote_id" o;
    amount = env.to_double (get_text "" "amount" o);
    amount_left = env.to_double (get_text "" "amount_left" o);
    rate = env.to_double (get_text "" "rate" o);
    price = env.to_double (get_text "" "price" o);
    exchange_id = env.to_uint (get_text "" "exchange_id" o);
    market_id = env.to_uint (get_text "" "market_id" o);
    status = env.to_uint (get_text "" "status" o);
    fee = env.exchange_fee (env.to_uint (get_text "" "exchange_id" o));
    base_currency_id = env.base_currency (env.to_uint (get_text "" "market_id" o));
    price_currency_id = env.price_currency (env.to_uint (get_text "" "market_id" o));
    arb_window = env.to_uint (get_text "0" "arb_window" o);
  }
