-- ===== src/Tests/Clients.antt =====
-- The theorems on the client of an exchange, at small inputs.
use swift_bot.Prelude.{
  false, ℕ, ◌+◌, ◌≤◌, ◌<◌, arith, if◌then◌else◌, ◌≡◌, refl, true, some, [], ◌∷◌, ◌==◌ as nat_beq,
}
use swift_bot.Qt.Key.{◌==◌, nat_key, text_key}
use swift_bot.Qt.Map.{lookup, insert, value_or}
use swift_bot.Qt.Vector.{list_contains}
use swift_bot.Qt.Json.{JsonObject, text}
use swift_bot.Api.Client.{
  Client, Env, request, order_place, create_async_waiter, process_async_queue, get_next_uuid,
  call_rpc, method_number, unrealized_method, get_exchange_api_key,
}
use swift_bot.Api.Client.Numbers.{get_next_uuid_bounds}
use swift_bot.Api.Client.Twice.{placed, placed_twice, placed_twice_lem}
use swift_bot.Api.Client.Named.{IsNamed}
use swift_bot.Api.Client.Run.{
  Steps, new_client, here, next, called, queued, unrealized, Steps-new_client-Holds,
}
use swift_bot.Api.Client.Results.{process_async_queue_result}
use swift_bot.Api.Client.Answered.{HandsOut, process_async_queue_result-HandsOut}

get_next_uuid_bounds_example :
    ((get_next_uuid 1000 1000).0 ≤ 1000 + 1)
    × (1000 < (get_next_uuid 1000 1000).0 + 300)
    × ((get_next_uuid 1000 1000).1 ≡ (get_next_uuid 1000 1000).0)
get_next_uuid_bounds_example =
    get_next_uuid_bounds 1000 1000 ((omega arith), (omega arith)) (omega arith)

-- An exchange with a key.
abbrev env : Env ℕ
env = record {
  exchange_id = 3;
  exchange_name = "cexio";
  is_joined = true;
  setting = λ s. "key";
  to_uint = λ s. if s == "4" then 4 else 0;
  to_double = λ s. if s == "4" then 4 else 0;
  nat_text = λ n. if nat_beq n 4 then "4" else "0";
  to_array = λ v. [];
  to_object = λ v. [];
  has_text = λ s t. s == t;
  append = λ s t. s;
  to_lower = λ s. s;
  trimmed = λ s. s;
  join_path = λ ss. "path";
}

abbrev sale : JsonObject
sale = ("local_id", text "one") ∷ ("type", text "sell") ∷ []

abbrev purchase : JsonObject
purchase = ("local_id", text "two") ∷ ("type", text "buy") ∷ []

abbrev idle : Client ℕ
unfolding new_client
idle = new_client ℕ 500

placed_twice_lem_example :
    ((create_async_waiter env 1000 order_place purchase (placed env 1000 sale idle)).1
      ≡ (create_async_waiter env 1000 order_place sale idle).1)
    × ((process_async_queue (placed_twice env 1000 sale purchase idle)).1
        ≡ request order_place purchase 1001 ∷ [])
    × ((process_async_queue (process_async_queue (placed_twice env 1000 sale purchase idle)).0).1
        ≡ request order_place purchase 1001 ∷ [])
unfolding idle get_exchange_api_key new_client
placed_twice_lem_example =
    placed_twice_lem env 1000 sale purchase idle ((omega arith), (omega arith)) (omega arith) refl
      refl refl

-- A client that took in a sale, sent it, and has a result for it.
abbrev answered : Client ℕ
answered =
    unrealized_method env 1001
      (process_async_queue (call_rpc env 1000 order_place (some sale) idle).0).0

answered_from : Steps env true idle answered
unfolding new_client call_rpc create_async_waiter
answered_from =
    next
      (next
        (next here
          (called idle 1000 order_place (some sale) ((omega arith, omega arith), omega arith)))
        (queued _))
      (unrealized _ 1001)

-- Two orders at one time, which are given one number.
abbrev doubled : Client ℕ
doubled =
    (call_rpc env 1000 order_place (some purchase)
      (call_rpc env 1000 order_place (some sale) idle).0).0

doubled_from : Steps env false idle doubled
unfolding new_client
doubled_from =
    next (next here (called idle 1000 order_place (some sale) tt))
      (called _ 1000 order_place (some purchase) tt)

Steps-new_client-Holds_example : IsNamed doubled
unfolding new_client
Steps-new_client-Holds_example = Steps-new_client-Holds env false 500 doubled_from

process_async_queue_result-HandsOut_example :
    HandsOut env 1001
      (value_or 1001 [] answered.async_results)
      answered
      (process_async_queue_result env answered)
unfolding unrealized_method process_async_queue call_rpc get_exchange_api_key new_client
    create_async_waiter lookup insert list_contains method_number
process_async_queue_result-HandsOut_example =
    process_async_queue_result-HandsOut env 1001 [] answered
      (value_or 1001 [] answered.async_results) (Steps-new_client-Holds env true 500 answered_from)
      (omega arith) refl refl refl refl
