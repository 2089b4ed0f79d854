-- ===== src/Workers/BalancesWorker/History.antt =====
-- workers/balancesworker.cpp: the deposits and withdrawals that the exchanges report. A row that the
-- program inserts is a value; whether the database takes it changes nothing but the log.
pub mod Once
use swift_bot.Prelude.{
  ℕ, String, Bool, true, false, not, Option, none, some, List, [], ◌∷◌, ◌++◌, ltb, if◌then◌else◌,
}
use swift_bot.Qt.Key.{◌==◌, nat_key, text_key}
use swift_bot.Qt.Vector.{list_contains}
use swift_bot.Qt.Map.{lookup, contains}
use swift_bot.Qt.Json.{JsonObject, JsonValue, text, raw, get_text}
use swift_bot.Double.{Double, nought}

-- The conversions of Qt, the digest of an object and the fees. `is_null` tells the raw values that are
-- null; `to_ulonglong` reads a value through `QVariant`.
pub record HistoryEnv (D : Type 0) : Type 0 where
  pub to_uint : String → ℕ
  pub to_double : String → D
  pub digest : JsonObject → String
  pub text_length : String → ℕ
  pub mid : String → ℕ → ℕ → String
  pub is_null : ℕ → Bool
  pub to_ulonglong : Option JsonValue → ℕ
  pub withdraw_fee : ℕ → D

-- The values that are bound to the statement.
pub record HistoryRow (D : Type 0) : Type 0 where
  pub remote_id : String
  pub local_id : String
  pub currency_id : ℕ
  pub amount : D
  pub address : String
  pub created_at : ℕ
  pub tx : String
  pub status : String
  pub fee : D

module _ {D : Type 0} ⦃d : Double D⦄ (env : HistoryEnv D) where
  -- The id of the exchange, else the hash, else the digest; no more than 250 characters.
  unfoldable pub uuid_of : JsonObject → String
  uuid_of o =
      let remote =
        if contains "remote_id" o
        then get_text "" "remote_id" o
        else if contains "tx" o
        then get_text "" "tx" o
        else env.digest o in
      let uuid = if remote == "" then env.digest o else remote in
      if ltb 250 (env.text_length uuid) then env.mid uuid 0 250 else uuid

  unfoldable pub deposit_row : String → JsonObject → HistoryRow D
  deposit_row uuid o = record {
    remote_id = uuid;
    local_id = uuid;
    currency_id = env.to_uint (get_text "0" "currency_id" o);
    amount = env.to_double (get_text "0.0" "amount" o);
    address = get_text "???" "deposit_address" o;
    created_at = env.to_uint (get_text "0" "created_at" o);
    tx = get_text "#" "tx" o;
    status = get_text "complete" "status" o;
    fee = nought;
  }

  unfoldable pub withdraw_row : String → JsonObject → HistoryRow D
  withdraw_row uuid o = record {
    remote_id = uuid;
    local_id = uuid;
    currency_id = env.to_uint (get_text "0" "currency_id" o);
    amount = env.to_double (get_text "0.0" "amount" o);
    address = get_text "@#" "deposit_address" o;
    created_at = env.to_ulonglong (lookup "created_at" o);
    tx = get_text "#" "tx" o;
    status = get_text "complete" "status" o;
    fee = env.withdraw_fee (env.to_uint (get_text "0" "currency_id" o));
  }

  -- The loop body of `onDepositHistory`: the saved ids, and the rows inserted.
  unfoldable pub on_deposit_record : List String → JsonObject → List String × List (HistoryRow D)
  unfolding uuid_of deposit_row
  on_deposit_record saved o =
      let uuid = uuid_of o in
      if list_contains saved uuid
      then (saved, [])
      else if uuid == ""
      then (saved, [])
      else (saved ++ (uuid ∷ []), deposit_row uuid o ∷ [])

  unfoldable pub on_deposit_history :
      List String → List JsonObject → List String × List (HistoryRow D)
  unfolding on_deposit_record
  on_deposit_history saved [] = (saved, [])
  on_deposit_history saved (o ∷ os) =
      let step = on_deposit_record saved o in
      let rest = on_deposit_history step.0 os in (rest.0, step.1 ++ rest.1)

  -- A value that is missing is not null.
  unfoldable pub has_null : String → JsonObject → Bool
  has_null k o = elim (lookup k o) [
    | none ↦ false
    | some (text s) ↦ false
    | some (raw n) ↦ env.is_null n
  ]

  -- The loop body of `onWithdrawHistory`: an empty id is saved, too.
  unfoldable pub on_withdraw_record : List String → JsonObject → List String × List (HistoryRow D)
  unfolding uuid_of withdraw_row has_null
  on_withdraw_record saved o =
      let uuid = uuid_of o in
      if has_null "deposit_address" o
      then (saved, [])
      else if list_contains saved uuid
      then (saved, [])
      else (saved ++ (uuid ∷ []), if uuid == "" then [] else withdraw_row uuid o ∷ [])

  unfoldable pub on_withdraw_history :
      List String → List JsonObject → List String × List (HistoryRow D)
  unfolding on_withdraw_record
  on_withdraw_history saved [] = (saved, [])
  on_withdraw_history saved (o ∷ os) =
      let step = on_withdraw_record saved o in
      let rest = on_withdraw_history step.0 os in (rest.0, step.1 ++ rest.1)
