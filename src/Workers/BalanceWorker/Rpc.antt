-- ===== src/Workers/BalanceWorker/Rpc.antt =====
-- workers/balanceworker.cpp: the calls that list transactions.
pub mod Listing
use swift_bot.Prelude.{ℕ, String, Bool, true, false, List, [], ◌∷◌, if◌then◌else◌, ◌==◌ as nat_beq}
use swift_bot.Qt.Key.{◌==◌, text_key}
use swift_bot.Qt.Vector.{list_contains}
use swift_bot.Qt.Map.{Map}
use swift_bot.Qt.Json.{JsonObject, put_text}
use swift_bot.Workers.BalanceWorker.{Env, Transaction}

module _ {D : Type 0} where
  -- `toJson`
  pub to_json : Env D → Transaction D → JsonObject
  to_json env t = put_text "created_at" (env.nat_text t.created_at) (
      put_text "fee" (env.fixed4 t.fee) (
        put_text "status" t.status (
          put_text "tx" t.tx (
            put_text "address" t.address (
              put_text "amount" (env.fixed8 t.amount) (
                put_text "exchange_id" (env.nat_text t.exchange_id) (
                  put_text "currency_id" (env.nat_text t.currency_id) (
                    put_text "local_id" t.local_id (
                      put_text "remote_id" t.remote_id
                        (put_text "id" (env.nat_text t.id) []))))))))))

  -- The transactions whose exchange is named, in the order of the store.
  pub of_exchanges : Env D → List String → Map String (Transaction D) → List JsonObject
  unfolding to_json
  of_exchanges env names [] = []
  of_exchanges env names ((k, t) ∷ m) =
      let rest = of_exchanges env names m in
      if list_contains names (env.nat_text t.exchange_id) then to_json env t ∷ rest else rest

  all_json : Env D → Map String (Transaction D) → List JsonObject
  unfolding to_json
  all_json env [] = []
  all_json env ((k, t) ∷ m) = to_json env t ∷ all_json env m

  -- `swift.balance.rpc.withdraws` and `.deposits`: the arguments are lists of texts; the second names
  -- the exchanges where it is there and not empty, else the first.
  pub rpc_transactions : Env D → Map String (Transaction D) → List (List String) → List JsonObject
  unfolding of_exchanges all_json
  rpc_transactions env m [] = all_json env m
  rpc_transactions env m (first ∷ []) = of_exchanges env first m
  rpc_transactions env m (first ∷ [] ∷ args) = of_exchanges env first m
  rpc_transactions env m (first ∷ (name ∷ names) ∷ args) = of_exchanges env (name ∷ names) m

  -- `swift.balance.rpc.withdraw.get`: the last one with the id.
  pub rpc_withdraw : Env D → Map String (Transaction D) → ℕ → JsonObject → JsonObject
  unfolding to_json
  rpc_withdraw env [] id ret = ret
  rpc_withdraw env ((k, t) ∷ m) id ret =
      rpc_withdraw env m id (if nat_beq t.id id then to_json env t else ret)
