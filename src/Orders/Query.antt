-- ===== src/Orders/Query.antt =====
-- The queries of `class OrdersStorage`: the orders that an index lists.
pub mod Unique
pub mod Opened
use swift_bot.Prelude.{
  ℕ, String, ◌≡◌, Bool, true, false, not, ◌&&◌, Option, none, some, List, [], ◌∷◌, ◌++◌, leb,
  if◌then◌else◌, ◌==◌ as nat_beq,
}
use swift_bot.Qt.Key.{text_key}
use swift_bot.Qt.Vector.{list_contains}
use swift_bot.Qt.Map.{Map, contains, insert, remove}
use swift_bot.Qt.Json.{JsonObject, get_text, put_text, json_eq}
use swift_bot.Orders.Order.{Env}
use swift_bot.Orders.Store.{Store, order_at}

-- `QDateTime::fromSecsSinceEpoch( … ).date()`, `QDate::currentDate()` and the date of a text, as
-- day numbers.
pub record Calendar : Type 0 where
  pub day_of : ℕ → ℕ
  pub today : ℕ
  pub day_of_text : String → ℕ

abbrev pub remote_text : JsonObject → String
remote_text o = get_text "" "remote_id" o

-- The loop of the queries: each listed order that is wanted, once for each remote id.
pub collect :
    (JsonObject → Bool)
    → (JsonObject → JsonObject)
    → Store
    → Map String ℕ
    → List String
    → List JsonObject
collect wanted dress s [] seen = []
collect wanted dress s ((uid, i) ∷ index) seen =
    let j = order_at s i in
    let skipped = collect wanted dress s index seen in
    let taken = collect wanted dress s index (seen ++ (remote_text j ∷ [])) in
    if wanted j && not (list_contains seen (remote_text j)) then dress j ∷ taken else skipped

module _ {D : Type 0} where
  pub of_market : Env D → ℕ → JsonObject → Bool
  of_market env pair j = nat_beq (env.to_uint (get_text "" "market_id" j)) pair

  pub get_closed_orders : Env D → Calendar → Store → List JsonObject
  unfolding collect
  get_closed_orders env c s =
      collect
        (λ j.
          not (json_eq j [])
          && nat_beq (c.day_of (env.to_ulonglong (get_text "" "created_at" j))) c.today)
        (λ j. j) s s.closed_orders []

  pub get_closed_orders_by_pair : Env D → Store → ℕ → List JsonObject
  unfolding collect of_market
  get_closed_orders_by_pair env s pair =
      collect (of_market env pair) (put_text "exchange_name" (env.market_exchange_name pair)) s
        s.closed_orders []

  -- The overload with a date.
  pub get_closed_orders_by_date : Env D → Calendar → Store → ℕ → String → List JsonObject
  unfolding collect of_market
  get_closed_orders_by_date env c s pair date =
      collect
        (λ j.
          of_market env pair j
          && nat_beq (c.day_of_text date) (c.day_of (env.to_uint (get_text "" "created_at" j))))
        (λ j.
          put_text "exchange_name"
            (env.market_exchange_name (env.to_uint (get_text "" "market_id" j))) j)
        s s.closed_orders []

  pub get_open_orders_by_pair : Env D → Store → ℕ → List JsonObject
  unfolding collect of_market
  get_open_orders_by_pair env s pair = collect (of_market env pair) (λ j. j) s s.open_orders []

  abbrev pub name_exchange : Env D → JsonObject → JsonObject
  name_exchange env j =
      if contains "exchange_name" j
      then j
      else put_text "exchange_name"
          (env.market_exchange_name (env.to_uint (get_text "" "market_id" j))) j

  -- An open order whose state is above 1 is moved to the closed ones. That takes it out of the map that is
  -- walked, and the iterator is then used further, which is undefined: `none`.
  pub settle_open : Env D → Map String ℕ → Store → Option (List JsonObject)
  settle_open env [] s = some []
  settle_open env ((uid, i) ∷ index) s =
      let j = order_at s i in
      let named = name_exchange env j in
      let rest = settle_open env index s in
      if json_eq j []
      then rest
      else if leb (env.to_uint (get_text "" "status" named)) 1
      then elim rest [ none ↦ none | some os ↦ some (named ∷ os) ]
      else none

  -- Where it answers, it leaves the store as it was.
  pub get_open_orders : Env D → Store → Option (List JsonObject)
  unfolding settle_open
  get_open_orders env s = settle_open env s.open_orders s
