-- ===== src/Api/Emulator/Orders.antt =====
-- swift-arbitrage-api-node/apiemulator.cpp: what `orderPlace` does to the balances, and what it answers.
use swift_bot.Prelude.{
  ℕ, String, ◌≡◌, refl, ◌∙◌, ap, Bool, true, false, Option, none, some, Bool-cases, inl, inr,
  if◌then◌else◌,
}
use swift_bot.Qt.Key.{◌==◌, nat_key, text_key}
use swift_bot.Qt.Map.{lookup, value_or, lookup-insert}
use swift_bot.Qt.Json.{JsonObject, text, get_text, put_text}
use swift_bot.Double.{Double, nought}
use swift_bot.Api.Emulator.{Env, Emulator, balance, settle, filled, refuse, order_place, move}

pub data Side : Type 0 where
  sells : Side
  buys : Side

abbrev pub side_text : Side → String
side_text sells = "sell"
side_text buys = "buy"

module _ {D : Type 0} ⦃d : Double D⦄ (env : Env D) where
  -- The currency that an order gives away and the one that it gets, what it gives and gets, and the
  -- balance that the given currency started from.
  abbrev pub given : Side → JsonObject → ℕ
  given sells j = env.base_currency (env.to_uint (get_text "" "market_id" j))
  given buys j = env.price_currency (env.to_uint (get_text "" "market_id" j))

  abbrev pub gained : Side → JsonObject → ℕ
  gained sells j = env.price_currency (env.to_uint (get_text "" "market_id" j))
  gained buys j = env.base_currency (env.to_uint (get_text "" "market_id" j))

  abbrev pub paid : Side → JsonObject → D
  paid sells j = env.to_double (get_text "" "amount" j)
  paid buys j = env.to_double (get_text "" "price" j)

  abbrev pub received : Side → JsonObject → D
  received sells j = env.to_double (get_text "" "price" j)
  received buys j = env.to_double (get_text "" "amount" j)

  abbrev pub started : Side → D
  started sells = env.start_btc
  started buys = env.start_usd

  abbrev covers : Side → JsonObject → Emulator D → Bool
  unfolding balance
  covers s j e = d.lt nought (d.sub (balance env (started s) (given s j) e) (paid s j))

  -- An order that the balance covers moves both balances and is answered as completed; one that it does
  -- not cover moves none, and is answered as an error with all of its amount left.
  pub data Settled (s : Side) (j : JsonObject) (e e' : Emulator D) (o : JsonObject) : Type 0 where
    placed :
        d.lt nought (d.sub (balance env (started s) (given s j) e) (paid s j)) ≡ true
        → ((k : ℕ)
            → value_or k nought e'.minus ≡ (
                if given s j == k
                then d.add (value_or (given s j) nought e.minus) (paid s j)
                else value_or k nought e.minus))
        → ((k : ℕ)
            → value_or k nought e'.plus ≡ (
                if gained s j == k
                then d.add (value_or (gained s j) nought e.plus) (received s j)
                else value_or k nought e.plus))
        → lookup "status" o ≡ some (text "2")
        → lookup "amount_left" o ≡ some (text "0")
        → Settled s j e e' o
    refused :
        d.lt nought (d.sub (balance env (started s) (given s j) e) (paid s j)) ≡ false
        → e'.minus ≡ e.minus
        → e'.plus ≡ e.plus
        → lookup "status" o ≡ some (text "4")
        → lookup "amount_left" o ≡ lookup "amount" o
        → Settled s j e e' o

  filled_lem :
      (uuid : ℕ) (j : JsonObject)
      → (lookup "status" (filled env uuid j) ≡ some (text "2"))
        × (lookup "amount_left" (filled env uuid j) ≡ some (text "0"))
  unfolding filled put_text
  filled_lem uuid j = (simp lookup-insert, simp lookup-insert)

  refuse_lem :
      (o : JsonObject)
      → (lookup "status" (refuse o) ≡ some (text "4"))
        × (lookup "amount_left" (refuse o) ≡ lookup "amount" (refuse o))
  unfolding refuse put_text
  refuse_lem o = (simp lookup-insert, simp lookup-insert)

  if_some :
      (b : Bool) (x : D) (o : Option D)
      → elim (if b then some x else o) as (λ y. D) [ none ↦ nought | some v ↦ v ]
        ≡ (if b then x else elim o as (λ y. D) [ none ↦ nought | some v ↦ v ])
  if_some true x o = refl
  if_some false x o = refl

  moved_lem :
      (out : ℕ) (x : D) (into : ℕ) (y : D) (e : Emulator D) (k : ℕ)
      → (value_or k nought (move out x into y e).minus
          ≡ (if out == k then d.add (value_or out nought e.minus) x else value_or k nought e.minus))
        × (value_or k nought (move out x into y e).plus ≡ (
            if into == k then d.add (value_or into nought e.plus) y else value_or k nought e.plus))
  unfolding move
  moved_lem out x into y e k = (
    ap (λ o. elim o [ none ↦ nought | some v ↦ v ]) (lookup-insert out k _ e.minus)
        ∙ if_some (out == k) (d.add (value_or out nought e.minus) x) (lookup k e.minus),
    ap (λ o. elim o [ none ↦ nought | some v ↦ v ]) (lookup-insert into k _ e.plus)
        ∙ if_some (into == k) (d.add (value_or into nought e.plus) y) (lookup k e.plus),
  )

  outcome : Side → JsonObject → Emulator D → Bool → Emulator D × Bool
  outcome s j e true = (move (given s j) (paid s j) (gained s j) (received s j) e, true)
  outcome s j e false = (e, false)

  settle_lem :
      (s : Side) (j : JsonObject) (e : Emulator D)
      → get_text "" "type" j ≡ side_text s
      → settle env j e ≡ (if covers s j e then outcome s j e true else outcome s j e false)
  unfolding settle covers outcome
  settle_lem sells j e h = rw (h) refl
  settle_lem buys j e h = rw (h) refl

  settled :
      (s : Side) (j : JsonObject) (e : Emulator D) (b : Bool)
      → get_text "" "type" j ≡ side_text s
      → covers s j e ≡ b
      → settle env j e ≡ outcome s j e b
  settled s j e true h f = settle_lem s j e h ∙ rw (f) refl
  settled s j e false h f = settle_lem s j e h ∙ rw (f) refl

  -- An order to sell or to buy that the balance of the currency it gives away covers, with something left,
  -- moves what went out of that currency and what came into the other, and is answered as completed; one
  -- that it does not cover moves nothing, and is answered as an error with all of its amount left.
  pub order_place-Settled :
      (s : Side) (uuid : ℕ) (j : JsonObject) (e : Emulator D)
      → get_text "" "type" j ≡ side_text s
      → Settled s j e (order_place env uuid j e).0 (order_place env uuid j e).1
  unfolding order_place outcome
  order_place-Settled s uuid j e h = elim (Bool-cases (covers s j e)) [
    | inl f ↦
        let moved = moved_lem (given s j) (paid s j) (gained s j) (received s j) e in
        rw (settled s j e true h f) (
          placed f (λ k. (moved k).0) (λ k. (moved k).1) (filled_lem uuid j).0
            (filled_lem uuid j).1)
    | inr f ↦
        let (status, left) = refuse_lem (filled env uuid j) in
        rw (settled s j e false h f) (refused f refl refl status left)
  ]
