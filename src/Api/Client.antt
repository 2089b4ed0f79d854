-- ===== src/Api/Client.antt =====
-- swift-lib/swiftapiclient.cpp: the numbers of the calls, their registration, and the queues. Logs and
-- tables that nothing reads are left out.
mod Defs
pub mod Responses
pub mod Results
pub mod Replies
pub mod Numbers
pub mod Twice
pub mod Kept
pub mod Named
pub mod Run
pub mod Answered
pub use swift_bot.Api.Client.Defs.*
unfoldable pub use swift_bot.Api.Client.Defs.{method_number}
use swift_bot.Prelude.{
  ℕ, ◌+◌, ◌-◌, ◌%◌, ◌^◌, String, Bool, true, false, Option, none, some, List, [], ◌∷◌, ◌++◌, ltb,
  if◌then◌else◌,
}
use swift_bot.Qt.Key.{◌==◌, nat_key, text_key}
use swift_bot.Qt.Map.{Map, lookup, contains, insert, remove, value_or}
use swift_bot.Qt.Json.{JsonObject, JsonValue, raw, get_text, put_text}

module _ {D : Type 0} (env : Env D) where
  -- Where the settings keep a parameter of the exchange.
  unfoldable pub exchange_param_path : String → String
  exchange_param_path param =
      env.join_path ("api_nodes" ∷ env.to_lower env.exchange_name ∷ param ∷ [])

  unfoldable pub get_exchange_api_key : Client D → String
  unfolding exchange_param_path
  get_exchange_api_key c =
      if c.api_key == ""
      then env.trimmed (env.setting (exchange_param_path "api_key"))
      else c.api_key

  unfoldable pub get_exchange_api_secret : Client D → String
  unfolding exchange_param_path
  get_exchange_api_secret c =
      if c.api_secret == ""
      then env.trimmed (env.setting (exchange_param_path "api_secret"))
      else c.api_secret

  unfoldable pub get_exchange_api_additional : Client D → String
  unfolding exchange_param_path
  get_exchange_api_additional c =
      if c.api_user == ""
      then env.trimmed (env.setting (exchange_param_path "username"))
      else c.api_user

-- `getNextUuid` at the clock `now`, with the counter as it leaves it. All is of 64 bits and without a
-- sign; the loop behind an overflow never turns, as the new number is then 0.
unfoldable pub get_next_uuid : ℕ → ℕ → ℕ × ℕ
get_next_uuid now counter =
    let last = if ltb 300 ((now + 2 ^ 64 - counter) % 2 ^ 64) then now else counter in
    let new_variant = (last + 1) % 2 ^ 64 in
    if ltb last new_variant
    then (new_variant, new_variant)
    else ((new_variant + 1) % 2 ^ 64, (new_variant + 1) % 2 ^ 64)

unfoldable pub is_order_place : Method → Bool
is_order_place order_place = true
is_order_place _ = false

-- The virtual method that runs for a call: `none` for the books, which no branch names.
unfoldable pub handler : Method → Option Method
handler get_orderbooks = none
handler withdraw_list = some withdraw_history
handler m = some m

unfoldable pub is_order_get : Method → Bool
is_order_get order_get = true
is_order_get _ = false

module _ {D : Type 0} where
  unfoldable pub register_async_call : ℕ → Method → Client D → Client D × ℕ
  unfolding get_next_uuid
  register_async_call now method c =
      let next = get_next_uuid now c.uuids_counter in
      (
        record c {
          uuids_counter = next.1;
          asyncs = c.asyncs ++ (next.0 ∷ []);
          async_dictionary = insert next.0 method c.async_dictionary;
        },
        next.0,
      )

  unfoldable pub register_order : JsonObject → ℕ → Client D → Client D
  register_order j uuid c = record c {
    registered_orders_objects = insert (get_text "" "local_id" j) j c.registered_orders_objects;
    registered_orders = insert uuid (get_text "" "local_id" j) c.registered_orders;
  }

  -- Both entries are taken out.
  unfoldable pub get_registered_order : ℕ → Client D → Client D × JsonObject
  get_registered_order uuid c = elim (lookup uuid c.registered_orders) [
    | none ↦ (c, [])
    | some id ↦ (
      record c {
        registered_orders = remove uuid c.registered_orders;
        registered_orders_objects = remove id c.registered_orders_objects;
      },
      value_or id [] c.registered_orders_objects,
    )
  ]

  -- The call gets a number, and waits in the queue; an order is kept until its answer comes.
  unfoldable pub take_in : ℕ → Method → JsonObject → Client D → Client D
  unfolding register_async_call register_order is_order_place
  take_in now method j c =
      let registered = register_async_call now method c in
      let uuid = registered.1 in
      let c' = if is_order_place method then register_order j uuid registered.0 else registered.0 in
      record c' {
        async_params = insert uuid j c'.async_params;
        async_queue = c'.async_queue ++ (uuid ∷ []);
      }

  -- A client without a key, or a paused one, answers 1 or 2, which are numbers of no call.
  unfoldable pub create_async_waiter :
      Env D → ℕ → Method → JsonObject → Client D → Client D × ℕ × List Effect
  unfolding get_exchange_api_key take_in register_async_call
  create_async_waiter env now method j c =
      if get_exchange_api_key env c == ""
      then (c, 1, insert_action (env.append "api_credential_required_" env.exchange_name) "" ∷ [])
      else if c.request_pause
      then (c, 2, [])
      else (take_in now method j c, (register_async_call now method c).1, [])

  -- The procedure that is provided for a method; without arguments the parameters are empty.
  unfoldable pub call_rpc :
      Env D → ℕ → Method → Option JsonObject → Client D → Client D × ℕ × List Effect
  call_rpc env now method args c =
      if c.request_pause
      then (c, 0, [])
      else create_async_waiter env now method (elim args [ none ↦ [] | some j ↦ j ]) c

  unfoldable pub dispatch : Method → JsonObject → ℕ → Client D → Client D × List Effect
  unfolding handler is_order_get register_order
  dispatch method j uuid c =
      let c' = record c { req_total_counter = (c.req_total_counter + 1) % 2 ^ 64 } in
      (
        if is_order_get method then register_order j uuid c' else c',
        elim (handler method) [ none ↦ [] | some m ↦ request m j uuid ∷ [] ],
      )

  -- A turn of the timer.
  unfoldable pub process_async_queue : Client D → Client D × List Effect
  unfolding dispatch
  process_async_queue c = elim c.async_queue [
    | [] ↦ (c, [])
    | uuid ∷ rest ↦ if c.request_pause then (c, []) else elim (lookup uuid c.async_dictionary) [
      | none ↦ (record c { async_queue = rest }, [])
      | some method ↦
          dispatch method (value_or uuid [] c.async_params) uuid (record c { async_queue = rest })
    ]
  ]

  unfoldable pub register_async_result : ℕ → JsonObject → Client D → Client D
  register_async_result uuid r c = record c {
    async_results = insert uuid r c.async_results;
    async_results_queue = c.async_results_queue ++ (uuid ∷ []);
  }

  unfoldable pub set_cached_balance : ℕ → D → D → Client D → Client D
  set_cached_balance currency total inner c = record c {
    balances_inner_cached = insert currency inner c.balances_inner_cached;
    balances_total_cached = insert currency total c.balances_total_cached;
  }

  unfoldable pub reset_limits : Client D → Client D
  reset_limits c = record c { req_total_counter = 0 }

  unfoldable pub unfreeze : Client D → Client D
  unfreeze c = record c { request_pause = false }

  -- `raw 0` is false.
  unfoldable pub unrealized_method : Env D → ℕ → Client D → Client D
  unfolding register_async_result
  unrealized_method env uuid c =
      register_async_result uuid
        (put_text "exchange_id" (env.nat_text env.exchange_id) (
          put_text "exchange_name" env.exchange_name (
            put_text "method" (get_method_name (value_or uuid time_sync_method c.async_dictionary))
              (put_text "error" "Method not implemented"
                (put_text "async_uuid" (env.nat_text uuid) (insert "success" (raw 0) []))))))
        c
