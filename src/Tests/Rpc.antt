-- ===== src/Tests/Rpc.antt =====
-- The theorems on the asynchronous calls and on the events, and those on the timers and messages of
-- the order worker, at small inputs.
use swift_bot.Prelude.{
  ℕ, ◌≡◌, refl, String, true, none, some, List, [], ◌∷◌, ◌++◌, if◌then◌else◌, ◌==◌ as nat_beq,
}
use swift_bot.Qt.Key.{◌==◌, nat_key, text_key}
use swift_bot.Qt.Map.{lookup}
use swift_bot.Qt.Json.{JsonObject, text}
use swift_bot.Rpc.AsyncCaller.{no_calls, wait_result, timeout_result}
use swift_bot.Rpc.AsyncCaller.Awaited.{
  Op, call, wait, arrive, finish, run, view, replay, run-replay, first_for, wait_result-first_for,
}
use swift_bot.Rpc.SwiftEvent.{
  order_event, new_event, of_json, to_json, set_exchange_id, order_properties, prepare_event_target,
}
use swift_bot.Rpc.SwiftEvent.Sent.{order_event_arrives}
use swift_bot.Orders.Store.{empty}
use swift_bot.Workers.OrderWorker.Timers.{
  Exchanges, active_queue, actives, history, updates, Run, on_timer, process_active_queue,
  request_each, queue_pairs, start, Steps, stop, next, fires, request_history,
}
use swift_bot.Workers.OrderWorker.Timers.History.{Idle, Grows, Steps-start-Idle}

abbrev ops : List Op
ops = call 4 2 ∷ wait 5 ∷ arrive 4 [] ∷ arrive 6 [] ∷ finish 4 ∷ []

run-replay_example : view (run no_calls ops) ≡ replay (view no_calls) ops
run-replay_example = run-replay no_calls ops

abbrev print : ℕ → String
print n = if nat_beq n 4 then "4" else "0"

abbrev read : String → ℕ
read s = if s == "4" then 4 else 0

abbrev arrivals : List (ℕ × JsonObject)
arrivals = (3, []) ∷ (4, ("success", text "1") ∷ []) ∷ (4, []) ∷ []

wait_result-first_for_example :
    ((wait_result print true no_calls 4 arrivals).1
      ≡ elim (first_for 4 arrivals) [ none ↦ timeout_result print 4 | some r ↦ r ])
    × ((wait_result print true no_calls 4 arrivals).0.waiting ≡ [] ++ (4 ∷ []))
unfolding lookup
wait_result-first_for_example = wait_result-first_for print no_calls 4 arrivals refl

abbrev target : JsonObject
target = ("amount", text "2") ∷ ("secret", text "s") ∷ []

order_event_arrives_example :
    let e =
      prepare_event_target order_properties
        (set_exchange_id print 4 (new_event read order_event "placed" target 0)) in
    of_json read read (to_json print e) ≡ e
order_event_arrives_example = order_event_arrives read read print "placed" target 0 4 refl refl

-- One exchange with a separated API and two pairs.
abbrev exchanges : Exchanges
exchanges = record {
  exchanges = "one" ∷ [];
  exchange_id = λ s. 1;
  is_separated_api = λ e. true;
  exchange_pairs = λ e. 7 ∷ 8 ∷ [];
}

-- The timer of the history has run.
abbrev queued : Run
queued = record {
  worker = (request_history exchanges (start empty).worker).0;
  pending = actives ∷ updates ∷ active_queue ∷ [];
  asked = [];
}

to_queued : Steps exchanges (start empty) queued
unfolding start on_timer request_history request_each queue_pairs
to_queued =
    next
      (fires (actives ∷ []) history (updates ∷ []) (request_history exchanges (start empty).worker)
        refl refl)
      stop

-- The timer of the queue of the active orders runs next.
abbrev later : Run
later = record queued { pending = actives ∷ updates ∷ active_queue ∷ [] }

to_later : Steps exchanges queued later
unfolding start on_timer request_history process_active_queue request_each queue_pairs
to_later =
    next
      (fires (actives ∷ updates ∷ []) active_queue [] (queued.worker, [], active_queue) refl refl)
      stop

Steps-start-Idle_example : Idle later × Grows queued.worker later.worker
Steps-start-Idle_example = Steps-start-Idle exchanges empty queued later to_queued to_later
