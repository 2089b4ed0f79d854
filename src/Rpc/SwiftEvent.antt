-- ===== src/Rpc/SwiftEvent.antt =====
-- swift-lib/systemevent.cpp and systemevent.h: the events that the services send each other.
pub mod Sent
use swift_bot.Prelude.{
  ℕ, String, ◌≡◌, refl, ◌∙◌, sym, ap, Bool, true, false, Option, none, some, List, [], ◌∷◌,
  if◌then◌else◌, Bool-cases, inl, inr, arith,
}
use swift_bot.Qt.Key.{◌==◌, text_key}
use swift_bot.Qt.Vector.{list_contains}
use swift_bot.Qt.Map.{lookup, insert, lookup-insert}
use swift_bot.Qt.Json.{JsonObject, JsonValue, text, raw, get_text, put_text}

-- `SwiftEvent::EventTypes`
pub data EventType : Type 0 where
  order_event : EventType
  balance_event : EventType
  account_event : EventType
  system_event : EventType
  withdraw_event : EventType
  deposit_event : EventType
  custom_event : EventType

pub record SwiftEvent : Type 0 where
  pub kind : EventType
  pub name : String
  pub target : JsonObject
  pub time : ℕ
  pub exchange_id : ℕ

-- An event as `toJson` writes it: its texts, and the object of its target.
pub record EventJson : Type 0 where
  pub event : String
  pub name : String
  pub time : String
  pub target : JsonObject
  pub exchange_id : String

unfoldable pub get_event_type : String → EventType
get_event_type s =
    if s == "order"
    then order_event
    else if s == "balance"
    then balance_event
    else if s == "account"
    then account_event
    else if s == "system"
    then system_event
    else if s == "withdraw"
    then withdraw_event
    else if s == "deposit"
    then deposit_event
    else custom_event

unfoldable pub get_event_type_name : EventType → String
get_event_type_name order_event = "order"
get_event_type_name balance_event = "balance"
get_event_type_name account_event = "account"
get_event_type_name system_event = "system"
get_event_type_name withdraw_event = "withdraw"
get_event_type_name deposit_event = "deposit"
get_event_type_name custom_event = "custom"

-- The constructor from a type, a name and a target, at a time in seconds.
unfoldable pub new_event : (String → ℕ) → EventType → String → JsonObject → ℕ → SwiftEvent
new_event to_uint kind name target now = record {
  kind = kind;
  name = name;
  target = target;
  time = now;
  exchange_id = to_uint (get_text "" "exchange_id" target);
}

-- The constructor from what another service sent.
unfoldable pub of_json : (String → ℕ) → (String → ℕ) → EventJson → SwiftEvent
unfolding get_event_type
of_json to_uint to_ulonglong j = record {
  kind = get_event_type j.event;
  name = j.name;
  target = j.target;
  time = to_ulonglong j.time;
  exchange_id = to_uint (get_text "" "exchange_id" j.target);
}

unfoldable pub to_json : (ℕ → String) → SwiftEvent → EventJson
unfolding get_event_type_name
to_json nat_text e = record {
  event = get_event_type_name e.kind;
  name = e.name;
  time = nat_text e.time;
  target = e.target;
  exchange_id = nat_text e.exchange_id;
}

unfoldable pub set_exchange_id : (ℕ → String) → ℕ → SwiftEvent → SwiftEvent
set_exchange_id nat_text n e = record e {
  exchange_id = n;
  target = put_text "exchange_id" (nat_text n) e.target;
}

-- `OrderEvent::privateProperties`
abbrev pub order_properties : List String
order_properties =
    "exchange_id" ∷ "arb_window" ∷ "market_id" ∷ "remote_id" ∷ "local_id" ∷ "amount" ∷ "amount_left"
    ∷ "type" ∷ "rate" ∷ "price" ∷ "fee" ∷ "base_currency_id" ∷ "market_currency_id" ∷ "status"
    ∷ "ts" ∷ "created_at" ∷ "closed_at" ∷ []

-- An assignment of a missing, undefined value writes nothing.
unfoldable pub copy_properties : List String → JsonObject → JsonObject → JsonObject
copy_properties [] from to = to
copy_properties (k ∷ ks) from to =
    copy_properties ks from (elim (lookup k from) [ none ↦ to | some v ↦ insert k v to ])

unfoldable pub prepare_event_target : List String → SwiftEvent → SwiftEvent
unfolding copy_properties
prepare_event_target properties e = record e { target = copy_properties properties e.target [] }
