-- ===== src/Workers/BalanceWorker.antt =====
-- workers/balanceworker.cpp and balanceworker.h: balances, the two transaction stores and the
-- queues of requests. What the session is asked to do is a list of calls, in their order.
pub mod Delivery
pub mod Requests
pub mod Rpc
pub mod Load
pub mod Rates
use swift_bot.Prelude.{
  ℕ, String, Bool, true, false, not, ◌&&◌, ◌||◌, Option, none, some, List, [], ◌∷◌, ◌++◌, ltb,
  if◌then◌else◌, ◌==◌ as nat_beq,
}
use swift_bot.Qt.Key.{◌==◌, nat_key, text_key}
use swift_bot.Qt.Vector.{list_contains}
use swift_bot.Qt.Map.{Map, lookup, contains, value_or, insert}
use swift_bot.Qt.Json.{JsonObject, get_text, put_text}
use swift_bot.Double.{Double, nought}

-- `balancesStorage`
pub record Balance (D : Type 0) : Type 0 where
  pub currency_id : ℕ
  pub coin_id : ℕ
  pub exchange_id : ℕ
  pub available : D
  pub total : D
  pub usd : D
  pub required : D

-- `transactionsStorage`; a time is a number of seconds.
pub record Transaction (D : Type 0) : Type 0 where
  pub id : ℕ
  pub remote_id : String
  pub local_id : String
  pub currency_id : ℕ
  pub exchange_id : ℕ
  pub amount : D
  pub address : String
  pub tx : String
  pub status : String
  pub fee : D
  pub created_at : ℕ

-- Qt's reading and printing of numbers, the assets, the digest of an object, the settings, and the
-- answer of the database to the upsert of a row: its id, or an error.
pub record Env (D : Type 0) : Type 0 where
  pub to_uint : String → ℕ
  pub to_double : String → D
  pub nat_text : ℕ → String
  pub fixed8 : D → String
  pub fixed4 : D → String
  pub digest : JsonObject → String
  pub text_length : String → ℕ
  pub mid : String → ℕ → ℕ → String
  pub currency_coin : ℕ → ℕ
  pub currency_exchange : ℕ → ℕ
  pub exchange_id : String → ℕ
  pub is_separated_api : ℕ → Bool
  pub exchange_currencies : ℕ → List ℕ
  pub withdraw_fee : ℕ → D
  pub exchanges : List String
  pub upsert : String → Transaction D → D → Option ℕ

-- `publish_event kind exchange item` is a message with one item; `request exchange method currency`
-- is a call of the exchange's node, without a currency where it asks for all of them.
pub data Call : Type 0 where
  publish_event : String → String → JsonObject → Call
  request : ℕ → String → Option ℕ → Call

pub record Worker (D : Type 0) : Type 0 where
  pub storage : Map ℕ (Balance D)
  pub pair_rates : Map ℕ D
  pub deposits : Map String (Transaction D)
  pub withdraws : Map String (Transaction D)
  pub queued_withdraws : List (ℕ × ℕ)
  pub queued_deposits : List (ℕ × ℕ)
  pub queued_balances : List (ℕ × ℕ)

module _ {D : Type 0} ⦃d : Double D⦄ where
  -- The value that `operator[]` makes for a missing key, with its numbers 0.
  abbrev pub no_transaction : Transaction D
  no_transaction = record {
    id = 0;
    remote_id = "";
    local_id = "";
    currency_id = 0;
    exchange_id = 0;
    amount = nought;
    address = "";
    tx = "";
    status = "";
    fee = nought;
    created_at = 0;
  }

  abbrev pub no_balance : Balance D
  no_balance = record {
    currency_id = 0;
    coin_id = 0;
    exchange_id = 0;
    available = nought;
    total = nought;
    usd = nought;
    required = nought;
  }

  -- The id of the exchange, else the hash of the transaction, else a digest of the item.
  pub remote_uuid : Env D → JsonObject → String
  remote_uuid env o =
      let remote =
        if contains "remote_id" o
        then get_text "" "remote_id" o
        else if contains "tx" o
        then get_text "" "tx" o
        else env.digest o in
      if remote == "" then env.digest o else remote

  pub at_most_250 : Env D → String → String
  at_most_250 env s = if ltb 250 (env.text_length s) then env.mid s 0 250 else s

  -- The key under which a transaction is kept.
  pub uuid_of : Env D → JsonObject → String
  unfolding remote_uuid at_most_250
  uuid_of env o = at_most_250 env (remote_uuid env o)

  -- The transaction that an item leaves; its exchange and what a key of it was before stay.
  pub filled : Env D → String → String → String → JsonObject → Transaction D → Transaction D
  filled env address_key address_default uuid o t = record t {
    id = 0;
    local_id = uuid;
    remote_id = uuid;
    currency_id = env.to_uint (get_text "" "currency_id" o);
    amount = env.to_double (get_text "" "amount" o);
    address = get_text address_default address_key o;
    created_at = env.to_uint (get_text "" "created_at" o);
    tx = get_text "#" "tx" o;
    status = get_text "" "status" o;
    fee = nought;
  }

  -- Not stored, or stored with another status.
  pub is_news : Env D → Map String (Transaction D) → JsonObject → Bool
  unfolding uuid_of
  is_news env store o =
      not (contains (uuid_of env o) store)
      || not ((value_or (uuid_of env o) no_transaction store).status == get_text "" "status" o)

  -- The item that is published, with the ids of the stored transaction.
  pub event_item : Env D → ℕ → String → JsonObject → JsonObject
  event_item env id uuid o =
      put_text "local_id" uuid (put_text "remote_id" uuid (put_text "id" (env.nat_text id) o))

  -- The loop body of `onDeposits`.
  pub on_deposit : Env D → String → Worker D → JsonObject → Worker D × List Call
  unfolding uuid_of filled is_news event_item
  on_deposit env exchange w o =
      let uuid = uuid_of env o in
      let t = filled env "address" "#" uuid o (value_or uuid no_transaction w.deposits) in
      if is_news env w.deposits o
      then elim (env.upsert "deposits" t nought) [
        | none ↦ (record w { deposits = insert uuid t w.deposits }, [])
        | some id ↦ (
          record w { deposits = insert uuid (record t { id = id }) w.deposits },
          publish_event "DEPOSIT" (env.nat_text (env.to_uint exchange)) (event_item env id uuid o)
              ∷ [],
        )
      ]
      else (w, [])

  -- The loop body of `onWithdraws`.
  pub on_withdraw : Env D → String → Worker D → JsonObject → Worker D × List Call
  unfolding uuid_of filled is_news event_item
  on_withdraw env exchange w o =
      let uuid = uuid_of env o in
      let t = filled env "deposit_address" "" uuid o (value_or uuid no_transaction w.withdraws) in
      if is_news env w.withdraws o
      then elim (env.upsert "withdraws" t (env.withdraw_fee t.currency_id)) [
        | none ↦ (record w { withdraws = insert uuid t w.withdraws }, [])
        | some id ↦ (
          record w { withdraws = insert uuid (record t { id = id }) w.withdraws },
          publish_event "WITHDRAW" (env.nat_text (env.to_uint exchange)) (event_item env id uuid o)
              ∷ [],
        )
      ]
      else (w, [])

  pub on_deposits : Env D → String → Worker D → List JsonObject → Worker D × List Call
  unfolding on_deposit
  on_deposits env exchange w [] = (w, [])
  on_deposits env exchange w (o ∷ os) =
      let step = on_deposit env exchange w o in
      let rest = on_deposits env exchange step.0 os in (rest.0, step.1 ++ rest.1)

  pub on_withdraws : Env D → String → Worker D → List JsonObject → Worker D × List Call
  unfolding on_withdraw
  on_withdraws env exchange w [] = (w, [])
  on_withdraws env exchange w (o ∷ os) =
      let step = on_withdraw env exchange w o in
      let rest = on_withdraws env exchange step.0 os in (rest.0, step.1 ++ rest.1)

  -- The balance that an item of an update leaves: its `required` stays.
  pub update_balance : Env D → String → Worker D → JsonObject → Worker D
  update_balance env exchange w o =
      let cid = env.to_uint (get_text "" "currency_id" o) in
      let total = env.to_double (get_text "" "total" o) in
      let coin = env.currency_coin cid in
      let rate = value_or (if nat_beq coin 1 then 1 else 2) nought w.pair_rates in
      let b = value_or cid no_balance w.storage in
      record w {
        storage =
            insert cid
              (record b {
                total = total;
                available = env.to_double (get_text "" "available" o);
                usd = if nat_beq coin 7 then total else d.mul rate total;
                currency_id = cid;
                coin_id = coin;
                exchange_id = env.to_uint exchange;
              })
              w.storage;
      }

  pub on_update : Env D → String → Worker D → List JsonObject → Worker D
  unfolding update_balance
  on_update env exchange w [] = w
  on_update env exchange w (o ∷ os) = on_update env exchange (update_balance env exchange w o) os

  -- `updateRequested`, from the rows of its query.
  pub update_requested : Worker D → List (ℕ × D) → Worker D
  update_requested w [] = w
  update_requested w ((cid, r) ∷ rows) =
      let b = value_or cid no_balance w.storage in
      update_requested (record w { storage = insert cid (record b { required = r }) w.storage })
        rows
