-- ===== src/Api/Client/Twice.antt =====
-- swift-lib/swiftapiclient.cpp: two calls within one millisecond.
use swift_bot.Prelude.{
  ℕ, ◌+◌, ◌%◌, ◌^◌, ◌<◌, ◌≡◌, refl, ◌∙◌, sym, ap, false, List, [], ◌∷◌, ◌++◌, some, arith,
}
use swift_bot.Qt.Key.{◌==◌, nat_key, text_key}
use swift_bot.Qt.Map.{lookup, insert, lookup-insert_self}
use swift_bot.Qt.Json.{JsonObject}
use swift_bot.Api.Client.{
  Client, Env, request, order_place, create_async_waiter, process_async_queue, get_exchange_api_key,
  get_next_uuid, register_order,
}
use swift_bot.Api.Client.Numbers.{IsTime, get_next_uuid_ahead, get_next_uuid_paused}

module _ {D : Type 0} (env : Env D) (now : ℕ) where
  -- A client that took an order in under a number.
  abbrev started : ℕ → JsonObject → Client D → Client D
  unfolding register_order
  started uuid j c =
      let c' = register_order j uuid c in
      record c' {
        uuids_counter = uuid;
        asyncs = c.asyncs ++ (uuid ∷ []);
        async_dictionary = insert uuid order_place c.async_dictionary;
        async_params = insert uuid j c.async_params;
        async_queue = c.async_queue ++ (uuid ∷ []);
      }

  create_async_waiter_lem :
      (j : JsonObject) (c : Client D) (uuid : ℕ)
      → get_next_uuid now c.uuids_counter ≡ (uuid, uuid)
      → (get_exchange_api_key env c == "") ≡ false
      → c.request_pause ≡ false
      → create_async_waiter env now order_place j c ≡ (started uuid j c, uuid, [])
  unfolding create_async_waiter
  create_async_waiter_lem j c uuid e keyed running = rw (keyed, running, e) refl

  -- A turn of the queue for an order.
  process_async_queue_lem :
      (c : Client D) (uuid : ℕ) (rest : List ℕ) (j : JsonObject)
      → c.async_queue ≡ uuid ∷ rest
      → c.request_pause ≡ false
      → lookup uuid c.async_dictionary ≡ some order_place
      → lookup uuid c.async_params ≡ some j
      → process_async_queue c ≡ (
        record c { req_total_counter = (c.req_total_counter + 1) % 2 ^ 64; async_queue = rest },
        request order_place j uuid ∷ [],
      )
  unfolding process_async_queue
  process_async_queue_lem c uuid rest j q running named given = ground arith

  abbrev pub placed : JsonObject → Client D → Client D
  placed j c = (create_async_waiter env now order_place j c).0

  -- The client after two orders are placed at one millisecond.
  abbrev pub placed_twice : JsonObject → JsonObject → Client D → Client D
  placed_twice j k c = placed k (placed j c)

  -- At a clock that is past 300 and below the last number: two orders that reach a client with a key, that
  -- is not paused and has an empty queue, within one millisecond, more than 300 after its last number, are
  -- given one number, and both turns of the queue place the second order, none the first.
  pub placed_twice_lem :
      (j k : JsonObject) (c : Client D)
      → IsTime now
      → c.uuids_counter + 300 < now
      → (get_exchange_api_key env c == "") ≡ false
      → c.request_pause ≡ false
      → c.async_queue ≡ []
      → ((create_async_waiter env now order_place k (placed j c)).1
          ≡ (create_async_waiter env now order_place j c).1)
        × ((process_async_queue (placed_twice j k c)).1 ≡ request order_place k (now + 1) ∷ [])
        × ((process_async_queue (process_async_queue (placed_twice j k c)).0).1
            ≡ request order_place k (now + 1) ∷ [])
  unfolding started get_exchange_api_key
  placed_twice_lem j k c time gap keyed running idle =
      let first =
        create_async_waiter_lem j c (now + 1) (get_next_uuid_paused now c.uuids_counter time gap)
          keyed running in
      let second =
        create_async_waiter_lem k (started (now + 1) j c) (now + 1) (get_next_uuid_ahead now time)
          keyed running in
      let u = now + 1 in
      let c' = started u k (started u j c) in
      let queued : c'.async_queue ≡ u ∷ u ∷ [] = ap (λ q. (q ++ (u ∷ [])) ++ (u ∷ [])) idle in
      let named = lookup-insert_self u order_place (insert u order_place c.async_dictionary) in
      let given = lookup-insert_self u k (insert u j c.async_params) in
      let turn = process_async_queue_lem c' u (u ∷ []) k queued running named given in
      let again =
        process_async_queue_lem (process_async_queue c').0 u [] k (rw (turn) refl)
          (rw (turn) running) (rw (turn) named) (rw (turn) given) in
      let once : placed j c ≡ started u j c = ap (λ p. p.0) first in
      let both : placed_twice j k c ≡ c' = ap (placed k) once ∙ ap (λ p. p.0) second in
      (
        ap (λ x. (create_async_waiter env now order_place k x).1) once
            ∙ ap (λ p. p.1) second
            ∙ sym (ap (λ p. p.1) first),
        ap (λ x. (process_async_queue x).1) both ∙ ap (λ p. p.1) turn,
        ap (λ x. (process_async_queue (process_async_queue x).0).1) both ∙ ap (λ p. p.1) again,
      )
