-- ===== src/Api/Client/Responses.antt =====
-- swift-lib/swiftapiclient.cpp: what `onApiResponseParsed` makes of the parsed answer of an exchange.
use swift_bot.Prelude.{
  ℕ, String, Bool, true, false, ◌&&◌, Option, none, some, List, [], ◌∷◌, ◌++◌, leb, if◌then◌else◌,
  ◌==◌ as nat_beq,
}
use swift_bot.Qt.Key.{◌==◌, nat_key, text_key}
use swift_bot.Qt.Vector.{list_contains}
use swift_bot.Qt.Map.{lookup, contains, insert, remove, value_or}
use swift_bot.Qt.Json.{JsonObject, JsonValue, text, raw, get_text, put_text}
use swift_bot.Api.Client.{
  Client, Env, Method, Effect, value, array, single, order_event, balance_event, insert_action,
  get_method_name, get_registered_order, register_async_result, set_cached_balance,
  time_sync_method, order_place, order_cancel, order_get, order_replace, withdraw_list,
  withdraw_history, withdraw_create, get_balances, get_deposits, trade_history, trade_open_orders,
}

-- `value(key).toBool(false)`, where `raw 1` is true.
unfoldable pub is_true : Option JsonValue → Bool
is_true none = false
is_true (some (text s)) = false
is_true (some (raw n)) = nat_beq n 1

abbrev pub is_success : JsonObject → Bool
unfolding is_true
is_success r = is_true (lookup "success" r)

-- An assignment of a value that may be missing, which takes the key out.
unfoldable pub put_value : String → Option JsonValue → JsonObject → JsonObject
put_value k none r = remove k r
put_value k (some v) r = insert k v r

-- The properties that an answer lacks are taken from the order that was sent.
unfoldable pub fill_missing : List String → JsonObject → JsonObject → JsonObject
fill_missing [] cached r = r
fill_missing (k ∷ ks) cached r =
    fill_missing ks cached
      (elim (lookup k cached) [ none ↦ r | some v ↦ if contains k r then r else insert k v r ])

abbrev pub order_params : List String
order_params =
    "market_id" ∷ "base_currency_id" ∷ "market_currency_id" ∷ "type" ∷ "amount" ∷ "amount_left"
    ∷ "rate" ∷ "fee" ∷ []

module _ {D : Type 0} (env : Env D) where
  -- The answer of an order that was registered, with what is known of the order.
  unfoldable pub fill_order : ℕ → JsonObject → Client D → Client D × JsonObject
  unfolding get_registered_order put_value fill_missing
  fill_order uuid r c =
      let taken = get_registered_order uuid c in
      let cached = taken.1 in
      if contains uuid c.registered_orders
      then (
        taken.0,
        fill_missing order_params cached (
            put_value "arb_window" (lookup "arb_window" cached)
              (put_text "local_id" (get_text "" "local_id" cached) r)),
      )
      else (c, r)

  abbrev status_of : JsonObject → ℕ
  status_of r = env.to_uint (get_text "" "status" r)

  -- The event of an order, by the method that was called.
  unfoldable pub order_events : Method → JsonObject → List Effect
  unfolding is_true
  order_events order_place r =
      if is_success r
      then if nat_beq (status_of r) 1
        then order_event "PLACED" (single r) ∷ []
        else if nat_beq (status_of r) 2
        then order_event "COMPLETED" (single r) ∷ []
        else []
      else order_event "ERROR" (single r) ∷ []
  order_events order_cancel r =
      order_event (if is_success r then "CANCELED" else "ERROR") (single r) ∷ []
  order_events order_get r =
      if is_success r
      then order_event (if leb 2 (status_of r) then "COMPLETED" else "UPDATED") (single r) ∷ []
      else []
  order_events _ r = []

  unfoldable pub cache_balances : List JsonObject → Client D → Client D
  unfolding set_cached_balance
  cache_balances [] c = c
  cache_balances (o ∷ os) c = cache_balances os (
      set_cached_balance (env.to_uint (get_text "" "currency_id" o))
        (env.to_double (get_text "" "total" o)) (env.to_double (get_text "" "reserved" o)) c)

  -- An event for a list that an answer has besides the one that was asked for.
  unfoldable pub extra_event : String → String → JsonObject → List Effect
  extra_event k kind r = if contains k r then balance_event kind (value (lookup k r)) ∷ [] else []

  abbrev pub Handled : Type 0
  Handled = Client D × JsonObject × List Effect

  unfoldable pub handle_order : Method → ℕ → JsonObject → Client D → Handled
  unfolding fill_order order_events
  handle_order method uuid r c =
      let filled = fill_order uuid r c in (filled.0, filled.1, order_events method filled.1)

  -- The branch of a method: the client, the result as it is handed on, and the events.
  unfoldable pub handle_method : Method → ℕ → JsonObject → Client D → Handled
  unfolding handle_order cache_balances extra_event is_true
  handle_method get_balances uuid r c =
      if is_success r
      then (
        cache_balances (env.to_array (lookup "balances" r)) c,
        r,
        balance_event "UPDATE" (value (lookup "balances" r)) ∷ [],
      )
      else (c, r, [])
  handle_method order_place uuid r c = handle_order order_place uuid r c
  handle_method order_cancel uuid r c = handle_order order_cancel uuid r c
  handle_method order_get uuid r c = handle_order order_get uuid r c
  handle_method order_replace uuid r c = handle_order order_replace uuid r c
  handle_method trade_history uuid r c =
      (c, r, order_event "HISTORY" (array (lookup "orders" r)) ∷ [])
  handle_method trade_open_orders uuid r c = (
    c,
    put_text "exchange_id" (env.nat_text env.exchange_id) r,
    order_event "ACTIVE" (array (lookup "orders" r)) ∷ [],
  )
  handle_method withdraw_list uuid r c = (
    c,
    r,
    balance_event "WITHDRAWS" (value (lookup "withdraws" r)) ∷ extra_event "deposits" "DEPOSITS" r,
  )
  handle_method withdraw_history uuid r c = (
    c,
    r,
    balance_event "WITHDRAWS" (value (lookup "withdraws" r)) ∷ extra_event "deposits" "DEPOSITS" r,
  )
  handle_method get_deposits uuid r c = (
    c,
    r,
    balance_event "DEPOSITS" (value (lookup "deposits" r)) ∷ extra_event "withdraws" "WITHDRAWS" r,
  )
  handle_method withdraw_create uuid r c =
      (c, r, if is_success r then balance_event "WITHDRAW" (single r) ∷ [] else [])
  handle_method _ uuid r c = (c, r, [])

  -- The address of the call, for the notice that it is not on the exchange's list.
  unfoldable pub address_of : ℕ → Client D → String
  address_of uuid c = elim (lookup uuid c.async_params) [
    | none ↦ "#"
    | some j ↦ get_text "" "address" j
  ]

  abbrev notice : String → String → List Effect
  notice key url = insert_action (env.append key env.exchange_name) url ∷ []

  -- The notices of a failed call, and whether it pauses the client, by the exchange and its code.
  unfoldable pub explain_error : ℕ → JsonObject → Client D → Client D × List Effect
  unfolding address_of
  explain_error uuid r c =
      let error = get_text "" "error" r in
      if nat_beq env.exchange_id 3
      then if env.has_text "10101" error
        then (
          c,
          notice "daily_withdraw_limit_reached" "https://support.exmoney.com/hc/ru/requests/new",
        )
        else if env.has_text "40033" error
        then (c, notice "locked_withdraw_security" "https://support.exmoney.com/hc/ru/requests/new")
        else if env.has_text "40017" error
        then (record c { request_pause = true }, notice "api_key_error" "")
        else (c, [])
      else if nat_beq env.exchange_id 8
      then if get_text "" "code" (env.to_object (lookup "error" r)) == "260325"
        then (c, notice "motin_withdraw_whitelists" (address_of uuid c))
        else (c, [])
      else if nat_beq env.exchange_id 1 && error == "WHITELIST_VIOLATION_WITHDRAWAL_ADDRESS"
      then (c, notice "motin_withdraw_whitelists" (address_of uuid c))
      else (c, [])

  -- An answer to an unknown number is dropped.
  unfoldable pub on_api_response_parsed : ℕ → JsonObject → Client D → Client D × List Effect
  unfolding handle_method explain_error is_true register_async_result
  on_api_response_parsed uuid r c =
      let method = value_or uuid time_sync_method c.async_dictionary in
      let handled = handle_method method uuid r c in
      let explained = if is_success r then (handled.0, []) else explain_error uuid r handled.0 in
      let result =
        if is_success r then handled.1 else put_text "async_uuid" (env.nat_text uuid) handled.1 in
      if list_contains c.asyncs uuid
      then (
        register_async_result uuid (put_text "method" (get_method_name method) result) explained.0,
        handled.2 ++ explained.1,
      )
      else (c, [])
