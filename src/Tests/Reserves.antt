-- ===== src/Tests/Reserves.antt =====
-- The theorems on the balances worker at two currencies.
use swift_bot.Prelude.{
  some, ℕ, ◌≡◌, refl, String, true, false, List, [], ◌∷◌, if◌then◌else◌, ◌==◌ as nat_beq,
}
use swift_bot.Qt.Key.{◌==◌, nat_key, text_key}
use swift_bot.Qt.Vector.{list_contains}
use swift_bot.Qt.Map.{insert, lookup, value_or}
use swift_bot.Qt.Json.{JsonObject, text, get_text, put_text}
use swift_bot.Double.{whole, nought}
use swift_bot.Bot.OrdersManager.{
  Call, get_available, reserve_create, reserve_cancel, set_requested, Candidat, Manager, Round,
  on_candidat, is_covered,
}
use swift_bot.Bot.OrdersManager
use swift_bot.Workers.BalancesWorker.{
  Env, Worker, id_of, no_sums, complete, put_items, put_item, missing_items, zero_item,
  any_currency, summarise_all, summarise, on_update_event, calculate_summaries, get_balances,
}
use swift_bot.Workers.BalancesWorker.Summaries.{Shows, coin_sum, calculate_summaries-coin_sum}
use swift_bot.Workers.BalancesWorker.Updates.{reported}
use swift_bot.Workers.BalancesWorker.Missing.{on_update_event-reported, on_update_event-zero_item}
use swift_bot.Workers.BalancesWorker.Reserve.{
  serve_all, serve, set_requested as set_amount, item_of, new_item, cancel_all, add_requested,
}
use swift_bot.Workers.BalancesWorker.Ledger.{ledger_of, replay_all, update, serve_all-replay_all}
use swift_bot.Workers.BalancesWorker.Events.{
  on_event, Event, updated, called, requested_more, cancelled_all, run_events, orders_of,
  run_events-id_of, serve_all-Locked,
}
use swift_bot.Workers.BalancesWorker.History.{HistoryEnv, on_deposit_history}
use swift_bot.Workers.BalancesWorker.History.Once.{Inserted, AllSaved, on_deposit_history-Inserted}

abbrev read : String → ℕ
read s = if s == "5" then 5 else if s == "6" then 6 else if s == "1" then 1 else 0

abbrev test_env : Env ℕ
test_env = record {
  to_uint = read;
  to_double = read;
  nat_text = λ n.
      if nat_beq n 5 then "5" else if nat_beq n 6 then "6" else if nat_beq n 1 then "1" else "0";
  fixed8 = λ x. "0";
  currency_coin = λ c. 7;
  currency_exchange = λ c. 1;
  currency_name = λ c. "usdt";
  currency_exchange_name = λ c. "exchange";
  is_token = λ c. true;
  exchange_currencies = λ e. 5 ∷ 6 ∷ [];
}

abbrev no_balances : Worker ℕ
no_balances = record {
  mapped = [];
  bals_available = (1, 100) ∷ [];
  bals_total = [];
  bals_reserved = [];
  bals_orders = [];
  bals_requested = [];
  coin_total = [];
  internal_reserve = [];
  cached_rates = [];
  usd = no_sums;
  btc = no_sums;
}

abbrev item : JsonObject
item = ("available", text "1") ∷ ("currency_id", text "5") ∷ ("total", text "6") ∷ []

on_update_event-reported_example :
    Shows test_env 5 item (on_update_event test_env no_balances "1" (item ∷ []))
unfolding reported lookup get_text
on_update_event-reported_example =
    on_update_event-reported test_env 5 "1" (item ∷ []) no_balances item (tt, tt) (refl, (refl, tt))
      refl refl

on_update_event-zero_item_example :
    let after = on_update_event test_env no_balances "1" (item ∷ []) in
    (lookup 6 after.bals_total ≡ some 0)
    × (lookup 6 after.bals_available ≡ some 0)
    × (lookup 6 after.bals_reserved ≡ some 0)
    × (lookup 6 after.bals_orders ≡ some 0)
unfolding list_contains lookup get_text
on_update_event-zero_item_example =
    on_update_event-zero_item test_env 6 "1" (item ∷ []) no_balances (tt, tt) (refl, (refl, tt))
      (record { printed = refl; missing = refl; digit = refl }) refl refl refl

-- The coin 7 was counted before, with 4.
abbrev counted : Worker ℕ
counted = record no_balances { mapped = (5, item) ∷ []; coin_total = (7, 4) ∷ [] }

calculate_summaries-coin_sum_example :
    ((calculate_summaries test_env counted).usd.total
      ≡ coin_sum test_env 7 nought (get_balances counted))
    × ((c : ℕ)
        → value_or c nought (calculate_summaries test_env counted).coin_total
          ≡ coin_sum test_env c (value_or c nought counted.coin_total) (get_balances counted))
calculate_summaries-coin_sum_example =
    calculate_summaries-coin_sum test_env (5, item) [] counted refl

-- More is cancelled than was reserved; the currency 1 has 100.
abbrev calls : List (Call ℕ)
calls =
    reserve_create 1 30
    ∷ get_available 1
    ∷ reserve_cancel 1 40
    ∷ get_available 1
    ∷ set_requested 5 9
    ∷ []

serve_all-replay_all_example :
    (ledger_of (serve_all test_env no_balances calls).0
      ≡ (replay_all (ledger_of no_balances) calls).0)
    × ((serve_all test_env no_balances calls).1 ≡ (replay_all (ledger_of no_balances) calls).1)
serve_all-replay_all_example = serve_all-replay_all test_env no_balances calls

abbrev events : List (Event ℕ)
events =
    called (set_requested 6 9) ∷ updated "1" (item ∷ []) ∷ requested_more 5 2 ∷ cancelled_all ∷ []

-- The item that the events leave under the currency 6.
abbrev last_item : JsonObject
unfolding run_events
last_item = value_or 6 [] (run_events test_env no_balances events).mapped

run_events-id_of_example : id_of test_env last_item ≡ 6
unfolding lookup insert run_events serve set_amount item_of new_item on_event put_text get_text
    swift_bot.Qt.Key.text_before list_contains on_update_event complete put_items put_item
    missing_items zero_item any_currency calculate_summaries summarise_all summarise get_balances
    cancel_all add_requested id_of
run_events-id_of_example =
    run_events-id_of test_env no_balances events 6 last_item refl (refl, (tt, (tt, (tt, tt)))) refl

abbrev manager_env : OrdersManager.Env ℕ
manager_env = record {
  base_currency = λ m. m;
  price_currency = λ m. 12;
  available = λ c. 100;
  is_emulation = false;
  mode = 2;
  now = 1000;
  by_profit = λ cs. cs;
}

abbrev candidat : Candidat ℕ
candidat = record {
  sell_pair_id = 1;
  buy_pair_id = 2;
  sell_rate = 4;
  buy_rate = 3;
  buy_price = 6;
  amount = 2;
}

abbrev round : Round ℕ
round = record {
  manager = record {
    locked_markets = 1 ∷ [];
    lock_market_time = [];
    used_virtual_asks = [];
    used_virtual_bids = [];
    balances = [];
  };
  funds = (1, 50) ∷ (12, 60) ∷ [];
  calls = [];
  refused = [];
}

serve_all-Locked_example :
    ((on_candidat manager_env round candidat).manager ≡ round.manager)
    × (orders_of (on_candidat manager_env round candidat).calls ≡ [])
    × ((ledger_of
          (serve_all test_env no_balances
            (on_candidat manager_env round candidat).calls).0).reserved
        ≡ (let before = (ledger_of (serve_all test_env no_balances []).0).reserved in
            let half = update before 1 (whole.add (before 1) 2) in
            update half 12 (whole.add (half 12) 6)))
unfolding lookup is_covered list_contains orders_of
serve_all-Locked_example =
    serve_all-Locked test_env no_balances manager_env round candidat refl refl refl refl refl refl

abbrev history_env : HistoryEnv ℕ
history_env = record {
  to_uint = read;
  to_double = read;
  digest = λ o. "digest";
  text_length = λ s. 5;
  mid = λ s from n. s;
  is_null = λ n. true;
  to_ulonglong = λ v. 0;
  withdraw_fee = λ c. 0;
}

-- The second deposit is the first again; the third has no id.
abbrev reports : List JsonObject
reports = (("tx", text "t1") ∷ []) ∷ (("tx", text "t1") ∷ []) ∷ item ∷ []

on_deposit_history-Inserted_example :
    Inserted history_env ("t0" ∷ []) (on_deposit_history history_env ("t0" ∷ []) reports)
    × AllSaved history_env (on_deposit_history history_env ("t0" ∷ []) reports).0 reports
unfolding list_contains
on_deposit_history-Inserted_example =
    on_deposit_history-Inserted history_env ("t0" ∷ []) reports (refl, tt)
