-- ===== src/Api/Emulator/Transfers.antt =====
-- swift-arbitrage-api-node/apiemulator.cpp: withdrawals, and what deposits make of them.
use swift_bot.Prelude.{
  ℕ, ◌+◌, String, Bool, true, false, ◌&&◌, not, Option, none, some, List, [], ◌∷◌, ◌++◌, ltb, leb,
  if◌then◌else◌, ◌==◌ as nat_beq,
}
use swift_bot.Qt.Key.{nat_key, text_key}
use swift_bot.Qt.Map.{Map, insert, value_or}
use swift_bot.Qt.Json.{JsonObject, raw, get_text, put_text}
use swift_bot.Double.{Double, nought}
use swift_bot.Api.Emulator.{Env, Emulator, Transfer, Movement, balance}

module _ {D : Type 0} ⦃d : Double D⦄ (env : Env D) where
  -- The balance of a withdrawal; both coins start from the dollars.
  unfoldable pub withdraw_balance : ℕ → Emulator D → Option D
  unfolding balance
  withdraw_balance k e =
      if nat_beq (env.coin k) 7
      then some (balance env env.start_usd k e)
      else if nat_beq (env.coin k) 1
      then some (balance env env.start_usd k e)
      else none

  unfoldable pub movement : String → String → ℕ → ℕ → D → JsonObject → Movement D
  movement local remote k from x j = record {
    local_id = env.join (env.exchange_name ∷ env.now_ms ∷ local ∷ []);
    remote_id = env.join (env.exchange_name ∷ env.now_ms ∷ remote ∷ []);
    currency_id = k;
    amount = x;
    address = get_text "#" "address" j;
    txhash = "###";
    status = "pending";
    fee = env.transfer_price from (env.address_currency (get_text "" "address" j)) x;
  }

  abbrev pub Withdrawn : Type 0
  Withdrawn = Emulator D × Option JsonObject × List (Movement D)

  -- `withdrawCreate`, with its answer and the rows for the withdrawal and the deposit; where it returns
  -- early there is no answer.
  unfoldable pub withdraw_create : ℕ → JsonObject → Emulator D → Withdrawn
  unfolding withdraw_balance movement
  withdraw_create uuid j e =
      let from = env.to_uint (get_text "" "currency_id" j) in
      let x = env.to_double (get_text "" "amount" j) in
      let into = env.address_currency (get_text "" "address" j) in
      let row : Transfer D = record {
        from_exchange_id = env.exchange_id;
        from_currency_id = from;
        amount = x;
        to_exchange_id = env.currency_exchange into;
        to_currency_id = into;
        complete_at = env.now + 1800;
        done = false;
      } in
      let answer =
        put_text "remote_id" (env.md5 j)
          (put_text "async_uuid" (env.nat_text uuid) (insert "success" (raw 1) j)) in
      elim (withdraw_balance from e) [
        | none ↦ (e, none, [])
        | some have ↦
            if d.lt have x
            then (e, none, [])
            else if env.is_inserted
            then (
              record e {
                minus = insert from (d.add (value_or from nought e.minus) x) e.minus;
                transfers = e.transfers ++ (row ∷ []);
              },
              some answer,
              movement "withdraw" "withdraw_rem" from from x j
                  ∷ movement "deposit" "deposit_rem" into from x j
                  ∷ [],
            )
            else (e, some answer, [])
      ]

  -- The rows that the query for completed transfers finds at a time.
  unfoldable pub is_due : ℕ → Transfer D → Bool
  is_due now t = nat_beq t.to_exchange_id env.exchange_id && (not t.done && ltb t.complete_at now)

  unfoldable pub credit_one : ℕ → Transfer D → Map ℕ D → Map ℕ D
  unfolding is_due
  credit_one now t m =
      if is_due now t
      then insert t.to_currency_id (d.add (value_or t.to_currency_id nought m) t.amount) m
      else m

  unfoldable pub credit : ℕ → List (Transfer D) → Map ℕ D → Map ℕ D
  unfolding credit_one
  credit now [] m = m
  credit now (t ∷ ts) m = credit now ts (credit_one now t m)

  -- The statement that marks the completed transfers, at its own time.
  unfoldable pub mark_one : ℕ → Transfer D → Transfer D
  mark_one now t =
      if nat_beq t.to_exchange_id env.exchange_id && (not t.done && leb t.complete_at now)
      then record t { done = true }
      else t

  unfoldable pub mark_done : ℕ → List (Transfer D) → List (Transfer D)
  unfolding mark_one
  mark_done now [] = []
  mark_done now (t ∷ ts) = mark_one now t ∷ mark_done now ts

  -- `getDeposits`, by whether its query and its statement succeed, and their times.
  unfoldable pub get_deposits : Bool → Bool → ℕ → ℕ → Emulator D → Emulator D
  unfolding credit mark_done
  get_deposits is_found is_marked now later e = record e {
    plus = if is_found then credit now e.transfers e.plus else e.plus;
    transfers = if is_marked then mark_done later e.transfers else e.transfers;
  }
