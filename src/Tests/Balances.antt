-- ===== src/Tests/Balances.antt =====
-- The theorems on the balances worker at small inputs.
use swift_bot.Prelude.{
  ℕ, ◌≡◌, refl, String, true, some, [], ◌∷◌, inl, inr, Has, arith, if◌then◌else◌, suc, zero,
}
use swift_bot.Qt.Key.{◌==◌, text_key}
use swift_bot.Qt.Map.{Map}
use swift_bot.Qt.Json.{JsonObject, text}
use swift_bot.Double.{whole}
use swift_bot.Workers.BalanceWorker.{
  Env, Transaction, Worker, no_transaction, request, uuid_of, event_item, on_deposit,
}
use swift_bot.Workers.BalanceWorker.Delivery.{IsQt, on_deposit_again}
use swift_bot.Workers.BalanceWorker.Requests.{request_each, enqueue_all}
use swift_bot.Workers.BalanceWorker.Requests.Drain.{drain, request_each-drain}
use swift_bot.Workers.BalanceWorker.Load.{Row}

-- Text that is "long" stands for one of 300 characters.
abbrev test_env : Env ℕ
test_env = record {
  to_uint = λ s. if s == "1" then 1 else 0;
  to_double = λ s. if s == "1" then 1 else 0;
  nat_text = λ n. elim n [ zero ↦ "0" | suc m ↦ "1" ];
  fixed8 = λ x. "0";
  fixed4 = λ x. "0";
  digest = λ o. "digest";
  text_length = λ s. if s == "long" then 300 else 5;
  mid = λ s from n. "short";
  currency_coin = λ c. c;
  currency_exchange = λ c. c;
  exchange_id = λ s. 1;
  is_separated_api = λ e. true;
  exchange_currencies = λ e. 5 ∷ 6 ∷ [];
  withdraw_fee = λ c. 0;
  exchanges = "one" ∷ [];
  upsert = λ table t fee. some 1;
}

test_env-IsQt : IsQt test_env
test_env-IsQt = record {
  mid_ne_nil = λ s h e. ground (arith, e, text_key.beq_iff "short" "");
  length-mid = λ s. refl;
  digest_ne_nil = λ o e. ground (arith, e, text_key.beq_iff "digest" "");
}

abbrev worker : Worker ℕ
worker = record {
  storage = [];
  pair_rates = [];
  deposits = [];
  withdraws = [];
  queued_withdraws = [];
  queued_deposits = [];
  queued_balances = [];
}

abbrev item : JsonObject
item =
    ("amount", text "1")
    ∷ ("currency_id", text "1")
    ∷ ("status", text "1")
    ∷ ("tx", text "long")
    ∷ []

on_deposit_again_example :
    let w = (on_deposit test_env "1" worker item).0 in
    (on_deposit test_env "0" w item ≡ (w, []))
    × (on_deposit test_env "0" w (event_item test_env 1 (uuid_of test_env item) item) ≡ (w, []))
on_deposit_again_example = on_deposit_again test_env test_env-IsQt "1" "0" worker item 1

request_each-drain_example :
    Has
      (request 1 "balance.get" (some 6))
      (drain "balance.get" 3 (request_each test_env "balance.get" ("one" ∷ []) []).0)
unfolding request_each enqueue_all
request_each-drain_example =
    request_each-drain test_env "balance.get" ("one" ∷ []) [] 3 "one" 6 (inl refl) refl
      (inr (inl refl)) (omega arith)

abbrev row : Row ℕ
row = record {
  id = 7;
  local_id = "a";
  remote_id = "a";
  currency_id = 1;
  amount = 3;
  address = "b";
  created_at = 2;
  txhash = "c";
  status = "1";
  fee = 0;
}

abbrev stored : Map String (Transaction ℕ)
stored = ("a", record no_transaction { exchange_id = 1 }) ∷ []
