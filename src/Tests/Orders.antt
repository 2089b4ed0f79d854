-- ===== src/Tests/Orders.antt =====
-- Two orders in a store: the theorems on the store and its worker.
use swift_bot.Prelude.{
  ℕ, ◌≡◌, refl, ◌⊎◌, inl, inr, String, true, false, none, some, [], ◌∷◌, All, Has, subst,
  Bool-cases, if◌then◌else◌, arith, ◌==◌ as nat_beq, List,
}
use swift_bot.Qt.Key.{◌==◌, text_key, text_before}
use swift_bot.Qt.Map.{lookup, insert}
use swift_bot.Qt.Json.{JsonObject, text, get_text, put_text}
use swift_bot.Double.{whole}
use swift_bot.Orders.Order.{
  Env, uni_time, get_local_id_by_remote, fill_local_id, link_windows, put_missing, exchange_of,
  price_of, prepare_order_data,
}
use swift_bot.Orders.Store.{Store, add_orders, get_order, order_at, remote_of, get_updated_orders}
use swift_bot.Orders.Store.Valid.{IsValid, add_order-IsValid, add_orders-IsValid, prepared, stamped}
use swift_bot.Orders.Store.Lookup.{add_order-get_order}
use swift_bot.Orders.Store.Frame.{add_order-get_order_ne, add_order_local_hit}
use swift_bot.Orders.Store.Listed.{IsListed, add_order-IsListed}
use swift_bot.Orders.Store.Tracked.{add_orders-get_updated_orders}
use swift_bot.Orders.Query.{of_market, get_closed_orders_by_pair, get_open_orders}
use swift_bot.Orders.Query.Unique.{Distinct, get_closed_orders_by_pair-Distinct}
use swift_bot.Orders.Query.Opened.{IsOpen, IsStale, IsAnswered, get_open_orders-IsOpen}
use swift_bot.Workers.OrderWorker.Messages.{TakenIn, on_messages, on_messages-TakenIn}
use swift_bot.Workers.OrdersWorker.{Worker}
use swift_bot.Workers.OrdersWorker.Closed.{ReadsStates, Closes, error, order_event, on_event-Closes}

abbrev read : String → ℕ
read s =
    if s == "1"
    then 1
    else if s == "2"
    then 2
    else if s == "3"
    then 3
    else if s == "4"
    then 4
    else 0

abbrev test_env : Env ℕ
test_env = record {
  now = 4;
  to_uint = read;
  to_ulonglong = read;
  to_double = read;
  nat_text = λ n.
      if nat_beq n 1
      then "1"
      else if nat_beq n 2
      then "2"
      else if nat_beq n 3
      then "3"
      else if nat_beq n 4
      then "4"
      else "0";
  fixed8 = λ x. "0";
  double_text = λ x. "0";
  market_exchange = λ m. m;
  market_exchange_name = λ m. "market";
  exchange_name = λ e. "exchange";
  exchange_fee = λ e. 0;
  window_orders = [];
  uuid_row = λ r. none;
}

abbrev order : String → String → String → JsonObject
order remote local status =
    ("amount", text "2")
    ∷ ("amount_left", text "1")
    ∷ ("local_id", text local)
    ∷ ("market_id", text "1")
    ∷ ("rate", text "3")
    ∷ ("remote_id", text remote)
    ∷ ("status", text status)
    ∷ []

abbrev known : JsonObject
known = order "r1" "l1" "1"

-- A store with one open order.
abbrev one_order : Store
one_order = record {
  orders = known ∷ [];
  ext_id = ("r1", 0) ∷ [];
  loc_id = ("l1", 0) ∷ [];
  open_orders = ("r1", 0) ∷ [];
  closed_orders = [];
  updated = [];
  uuids = record { cached = []; inserted = [] };
}

one_order-IsValid : IsValid one_order
unfolding lookup
one_order-IsValid = record {
  ext_bounded = λ k i h. ground (arith, h);
  loc_bounded = λ k i h. ground (arith, h);
  open_bounded = λ k i h. ground (arith, h);
  closed_bounded = λ k i h. ground (arith, h);
  updated_bounded = tt;
  apart = λ k. inr refl;
  ext_injective =
      λ j k i e f. ground (arith, e, f, text_key.beq_iff "r1" j, text_key.beq_iff "r1" k);
}

-- The order comes again, completed.
abbrev completed : JsonObject
completed = order "r1" "l1" "2"

abbrev after_completed : Store
after_completed = (add_order-IsValid test_env one_order completed one_order-IsValid).0

-- Another order with the local id of the known one.
abbrev renamed : JsonObject
renamed = order "r2" "l1" "1"

abbrev after_renamed : Store
after_renamed = (add_order-IsValid test_env one_order renamed one_order-IsValid).0

add_orders-IsValid_example :
    (t : Store) × (add_orders test_env one_order (completed ∷ renamed ∷ []) ≡ some t) × IsValid t
add_orders-IsValid_example =
    add_orders-IsValid test_env one_order (completed ∷ renamed ∷ []) one_order-IsValid

add_order-get_order_example :
    get_order after_completed (remote_of completed) ""
    ≡ prepared test_env
        (stamped test_env one_order completed)
        (prepared test_env one_order completed)
unfolding lookup get_text
add_order-get_order_example =
    add_order-get_order test_env one_order completed after_completed "" one_order-IsValid refl
      (add_order-IsValid test_env one_order completed one_order-IsValid).1

add_order_local_hit_example :
    (order_at after_renamed 0
      ≡ prepared test_env
          (stamped test_env one_order renamed)
          (prepared test_env one_order renamed))
    × (get_order after_renamed "r2" "" ≡ [])
unfolding text_before lookup get_text put_text insert uni_time get_local_id_by_remote fill_local_id
    link_windows put_missing exchange_of price_of prepare_order_data
add_order_local_hit_example =
    add_order_local_hit test_env one_order renamed after_renamed one_order-IsValid refl refl refl
      (add_order-IsValid test_env one_order renamed one_order-IsValid).1

abbrev two_orders : Store
two_orders = record {
  orders = known ∷ order "r3" "l3" "2" ∷ [];
  ext_id = ("r1", 0) ∷ ("r3", 1) ∷ [];
  loc_id = ("l1", 0) ∷ ("l3", 1) ∷ [];
  open_orders = ("r1", 0) ∷ [];
  closed_orders = ("r3", 1) ∷ [];
  updated = [];
  uuids = record { cached = []; inserted = [] };
}

two_orders-IsValid : IsValid two_orders
unfolding lookup
two_orders-IsValid = record {
  ext_bounded = λ k i h. ground (arith, h);
  loc_bounded = λ k i h. ground (arith, h);
  open_bounded = λ k i h. ground (arith, h);
  closed_bounded = λ k i h. ground (arith, h);
  updated_bounded = tt;
  apart = λ k. elim (Bool-cases ("r1" == k)) [
    | inl e ↦
        inr (
          subst (λ j. lookup j two_orders.closed_orders ≡ none) ((text_key.beq_iff "r1" k).0 e)
            refl)
    | inr e ↦ inl (rw (e) refl)
  ];
  ext_injective = λ j k i e f. ground (
    arith,
    e,
    f,
    text_key.beq_iff "r1" j,
    text_key.beq_iff "r1" k,
    text_key.beq_iff "r3" j,
    text_key.beq_iff "r3" k,
  );
}

add_order-get_order_ne_example :
    get_order (add_order-IsValid test_env two_orders completed two_orders-IsValid).0 "r3" ""
    ≡ get_order two_orders "r3" ""
unfolding lookup get_text
add_order-get_order_ne_example =
    add_order-get_order_ne test_env two_orders completed _ "r3" "" two_orders-IsValid refl
      (λ h. ground (arith, h, text_key.beq_iff "r3" "r1")) refl
      (add_order-IsValid test_env two_orders completed two_orders-IsValid).1

add_order-IsListed_example : IsListed after_completed "r1" false
unfolding get_text lookup
add_order-IsListed_example =
    add_order-IsListed test_env (record { of_empty = refl; of_nought = refl }) one_order completed
      after_completed one_order-IsValid
      (add_order-IsValid test_env one_order completed one_order-IsValid).1

add_orders-get_updated_orders_example :
    (order_at (add_orders-IsValid test_env two_orders (completed ∷ []) two_orders-IsValid).0 0
      ≡ known)
    ⊎ Has
        (order_at (add_orders-IsValid test_env two_orders (completed ∷ []) two_orders-IsValid).0 0)
        (get_updated_orders
          (add_orders-IsValid test_env two_orders (completed ∷ []) two_orders-IsValid).0).0
add_orders-get_updated_orders_example =
    add_orders-get_updated_orders test_env two_orders (completed ∷ [])
      (add_orders-IsValid test_env two_orders (completed ∷ []) two_orders-IsValid).0 0
      two_orders-IsValid
      (add_orders-IsValid test_env two_orders (completed ∷ []) two_orders-IsValid).1

get_closed_orders_by_pair-Distinct_example :
    All (λ j. of_market test_env 1 j ≡ true) (get_closed_orders_by_pair test_env two_orders 1)
    × Distinct (get_closed_orders_by_pair test_env two_orders 1)
get_closed_orders_by_pair-Distinct_example =
    get_closed_orders_by_pair-Distinct test_env two_orders 1

-- An open order that was closed elsewhere.
abbrev stale_orders : Store
stale_orders = record two_orders { open_orders = ("r3", 1) ∷ [] }

get_open_orders-IsOpen_example :
    ((os : List JsonObject) × (get_open_orders test_env stale_orders ≡ some os)
      × All (IsOpen test_env stale_orders) os
      × All (IsAnswered test_env stale_orders os) stale_orders.open_orders)
    ⊎ ((e : String × ℕ) × Has e stale_orders.open_orders
        × IsStale test_env stale_orders e
        × (get_open_orders test_env stale_orders ≡ none))
get_open_orders-IsOpen_example = get_open_orders-IsOpen test_env stale_orders

abbrev worker : Store → Worker
worker s = record { store = s; uuid_rows = [] }

reads_states : ReadsStates test_env
reads_states = record {
  nought = record { of_empty = refl; of_nought = refl };
  of_two = refl;
  of_three = refl;
  of_four = refl;
}

on_event-Closes_example : Closes test_env (worker one_order) (order_event "error" known) known
on_event-Closes_example =
    on_event-Closes test_env reads_states (worker one_order) "error" known error one_order-IsValid

on_messages-TakenIn_example :
    TakenIn test_env
      (on_messages test_env one_order (("PLACED", known ∷ []) ∷ ("HISTORY", []) ∷ []))
on_messages-TakenIn_example =
    on_messages-TakenIn test_env one_order (("PLACED", known ∷ []) ∷ ("HISTORY", []) ∷ [])
      one_order-IsValid
