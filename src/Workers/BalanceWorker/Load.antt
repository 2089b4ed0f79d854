-- ===== src/Workers/BalanceWorker/Load.antt =====
-- workers/balanceworker.cpp: the constructor, from the rows of the tables.
pub mod Exchanges
use swift_bot.Prelude.{ℕ, String, List, [], ◌∷◌}
use swift_bot.Qt.Key.{text_key}
use swift_bot.Qt.Map.{Map, value_or, insert}
use swift_bot.Double.{Double}
use swift_bot.Workers.BalanceWorker.{Env, Transaction, Worker, no_transaction}

-- A row of the tables `deposits` and `withdraws`.
pub record Row (D : Type 0) : Type 0 where
  pub id : ℕ
  pub local_id : String
  pub remote_id : String
  pub currency_id : ℕ
  pub amount : D
  pub address : String
  pub created_at : ℕ
  pub txhash : String
  pub status : String
  pub fee : D

module _ {D : Type 0} ⦃d : Double D⦄ where
  unfoldable pub of_row : Row D → ℕ → Transaction D
  of_row r exchange = record {
    id = r.id;
    remote_id = r.remote_id;
    local_id = r.local_id;
    currency_id = r.currency_id;
    exchange_id = exchange;
    amount = r.amount;
    address = r.address;
    tx = r.txhash;
    status = r.status;
    fee = r.fee;
    created_at = r.created_at;
  }

  -- The two loops of the constructor. The second one reads the currency of the deposit that has the
  -- key of the withdrawal, and `operator[]` makes that deposit where there is none.
  unfoldable pub load_deposits : Env D → Worker D → List (Row D) → Worker D
  unfolding of_row
  load_deposits env w [] = w
  load_deposits env w (r ∷ rows) =
      load_deposits env
        (record w {
          deposits = insert r.remote_id (of_row r (env.currency_exchange r.currency_id)) w.deposits;
        })
        rows

  pub load_withdraws : Env D → Worker D → List (Row D) → Worker D
  unfolding of_row
  load_withdraws env w [] = w
  load_withdraws env w (r ∷ rows) =
      let deposit = value_or r.remote_id no_transaction w.deposits in
      load_withdraws env
        (record w {
          deposits = insert r.remote_id deposit w.deposits;
          withdraws =
              insert r.remote_id (of_row r (env.currency_exchange deposit.currency_id)) w.withdraws;
        })
        rows
