-- ===== src/Api/Client/Defs.antt =====
-- swift-lib/swiftapiclient.h: the methods of a client, its state, and what it makes happen outside.
use swift_bot.Prelude.{ℕ, String, Bool, Option, List}
use swift_bot.Qt.Map.{Map}
use swift_bot.Qt.Json.{JsonValue, JsonObject}

pub data Method : Type 0 where
  time_sync_method : Method
  get_currencies : Method
  get_markets : Method
  get_orderbooks : Method
  order_place : Method
  order_cancel : Method
  order_get : Method
  order_replace : Method
  withdraw_get_limits : Method
  withdraw_list : Method
  withdraw_history : Method
  withdraw_cancel : Method
  withdraw_create : Method
  withdraw_inner : Method
  withdraw_get_fee : Method
  get_balances : Method
  get_deposits : Method
  get_deposit_address : Method
  trade_history : Method
  trade_open_orders : Method
  trade_get_fee : Method
  trade_get_limits : Method

unfoldable pub method_number : Method → ℕ
method_number time_sync_method = 0
method_number get_currencies = 1
method_number get_markets = 2
method_number get_orderbooks = 3
method_number order_place = 4
method_number order_cancel = 5
method_number order_get = 6
method_number order_replace = 7
method_number withdraw_get_limits = 8
method_number withdraw_list = 9
method_number withdraw_history = 10
method_number withdraw_cancel = 11
method_number withdraw_create = 12
method_number withdraw_inner = 13
method_number withdraw_get_fee = 14
method_number get_balances = 15
method_number get_deposits = 16
method_number get_deposit_address = 17
method_number trade_history = 18
method_number trade_open_orders = 19
method_number trade_get_fee = 20
method_number trade_get_limits = 21

unfoldable pub get_method_name : Method → String
get_method_name time_sync_method = "custom.method"
get_method_name get_currencies = "dict.currencies"
get_method_name get_markets = "dict.markets"
get_method_name get_orderbooks = "dict.orderbooks"
get_method_name order_place = "trade.place"
get_method_name order_cancel = "trade.cancel"
get_method_name order_get = "trade.get"
get_method_name order_replace = "trade.replace"
get_method_name withdraw_get_limits = "balance.withdraw.limits"
get_method_name withdraw_list = "balance.withdraws.list"
get_method_name withdraw_history = "balance.withdraws"
get_method_name withdraw_cancel = "withdraw.cancel"
get_method_name withdraw_create = "balance.withdraw"
get_method_name withdraw_inner = "balance.withdraw.inner"
get_method_name withdraw_get_fee = "balance.withdraw.fee"
get_method_name get_balances = "balance.get"
get_method_name get_deposits = "balance.deposits"
get_method_name get_deposit_address = "balance.address"
get_method_name trade_history = "trade.history"
get_method_name trade_open_orders = "trade.active"
get_method_name trade_get_fee = "trade.fee"
get_method_name trade_get_limits = "trade.limits"

pub record Client (D : Type 0) : Type 0 where
  pub request_pause : Bool
  pub uuids_counter : ℕ
  pub asyncs : List ℕ
  pub async_dictionary : Map ℕ Method
  pub async_params : Map ℕ JsonObject
  pub async_results : Map ℕ JsonObject
  pub async_queue : List ℕ
  pub async_results_queue : List ℕ
  pub registered_orders : Map ℕ String
  pub registered_orders_objects : Map String JsonObject
  pub balances_total_cached : Map ℕ D
  pub balances_inner_cached : Map ℕ D
  pub req_total_counter : ℕ
  pub api_key : String
  pub api_secret : String
  pub api_user : String

-- The assets, the settings, Qt's conversions, and the state of the session. `to_array` and `to_object`
-- read a missing value, or one of another type, as empty.
pub record Env (D : Type 0) : Type 0 where
  pub exchange_id : ℕ
  pub exchange_name : String
  pub is_joined : Bool
  pub setting : String → String
  pub to_uint : String → ℕ
  pub to_double : String → D
  pub nat_text : ℕ → String
  pub to_array : Option JsonValue → List JsonObject
  pub to_object : Option JsonValue → JsonObject
  pub has_text : String → String → Bool
  pub append : String → String → String
  pub to_lower : String → String
  pub trimmed : String → String
  pub join_path : List String → String

-- The items of an event: a value as it came, that value as an array, or an array of one object.
pub data Items : Type 0 where
  value : Option JsonValue → Items
  array : Option JsonValue → Items
  single : JsonObject → Items

-- What a client makes happen, in its order: an event of the feed of orders or of balances, a notice for
-- the user with its key and url, a request to the exchange, a published result, a report on a method,
-- a timer that unfreezes the client, and the parsing of an answer.
pub data Effect : Type 0 where
  order_event : String → Items → Effect
  balance_event : String → Items → Effect
  insert_action : String → String → Effect
  request : Method → JsonObject → ℕ → Effect
  send_result : JsonObject → Effect
  method_state : Bool → Method → Effect
  unfreeze_after : ℕ → Effect
  parse_response : ℕ → Method → String → Effect
  custom_request : String → String → Effect
