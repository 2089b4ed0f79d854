-- ===== src/Bot/Order/Saved.antt =====
-- swift-bot/order.cpp: the local id that an order is placed with, and the one it is saved with.
use swift_bot.Prelude.{◌≡◌, refl, true, false}
use swift_bot.Qt.Key.{text_key}
use swift_bot.Qt.Json.{JsonObject}
use swift_bot.Bot.Order.{
  PlaceEnv, Order, place_sell_order, save_sell_order, sell_order_hash, is_placed, answered,
}

module _ {D : Type 0} (env : PlaceEnv D) where
  -- A sale that the exchange places is saved with the hash of its candidate under the rate of the
  -- answer, or under its own rate where the answer names none.
  pub save_sell_order-local_id :
      (o : Order D) (r : JsonObject)
      → is_placed env r ≡ true
      → (save_sell_order env (place_sell_order env o r).0).local_id
        ≡ sell_order_hash env
            (record (o.candidat) { sell_rate = answered env "rate" r (o.candidat).sell_rate })
  unfolding place_sell_order save_sell_order sell_order_hash
  save_sell_order-local_id o r h = rw (place_sell_order, h) refl

  -- A sale that is not placed is saved in the state of an error, with its own rate and price, and all
  -- of its amount left.
  pub save_sell_order_failed :
      (o : Order D) (r : JsonObject)
      → is_placed env r ≡ false
      → ((save_sell_order env (place_sell_order env o r).0).status ≡ 4)
        × ((save_sell_order env (place_sell_order env o r).0).local_id
            ≡ sell_order_hash env o.candidat)
        × ((save_sell_order env (place_sell_order env o r).0).amount_left ≡ (o.candidat).amount)
  unfolding place_sell_order save_sell_order sell_order_hash
  save_sell_order_failed o r h = rw (place_sell_order, h) (refl, refl, refl)
