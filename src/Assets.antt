-- ===== src/Assets.antt =====
-- swift-lib/assetsstorage.cpp: what the services know of exchanges, currencies and markets, and the questions
-- that they ask of it. The copies of a storage share its data; each stands here as a value.
pub mod Load
pub mod Prices
pub mod Named
pub mod Enabled
use swift_bot.Prelude.{
  ℕ, String, Bool, true, false, ◌&&◌, ◌||◌, not, Option, none, some, List, [], ◌∷◌, ltb, map,
  if◌then◌else◌, ◌==◌ as nat_beq,
}
use swift_bot.Qt.Key.{◌==◌, nat_key, text_key}
use swift_bot.Qt.Map.{Map, lookup, contains, insert, value_or, keys}
use swift_bot.Qt.Vector.{list_contains}
use swift_bot.Qt.Json.{JsonObject, get_text, put_text}
use swift_bot.Double.{Double, nought}

pub record Assets (D : Type 0) : Type 0 where
  pub arbitrage_pair_markets : Map ℕ (List ℕ)
  pub exchange_name : Map ℕ String
  pub market_name : Map ℕ String
  pub currency_name : Map ℕ String
  pub currency_token_type : Map ℕ String
  pub currency_exchange : Map ℕ ℕ
  pub market_exchange : Map ℕ ℕ
  pub all_market_exchange : Map ℕ ℕ
  pub market_arbitrage_pair : Map ℕ ℕ
  pub exchange_currencies : Map ℕ (Map String ℕ)
  pub currency_coin : Map ℕ ℕ
  pub coin_currencies : Map ℕ (List ℕ)
  pub market_currencies : Map ℕ (ℕ × ℕ)
  pub exchange_markets : Map ℕ (Map String ℕ)
  pub currency_addresses : Map ℕ (Map String String)
  pub currency_withdraw_fee : Map ℕ D
  pub orders_sell_hashes_local : List String
  pub orders_buy_hashes_local : List String
  pub requested : Map String (Map ℕ D)
  pub is_token_currency : Map ℕ Bool
  pub balances : Map ℕ D
  pub balances_available : Map ℕ D
  pub exchange_options : Map ℕ (Map String ℕ)
  pub exchange_daily_withdraw_limits : Map ℕ D
  pub coins_name : Map ℕ String
  pub exchange_api_separated : Map ℕ Bool
  pub exchange_trade_fee : Map ℕ D
  pub arbitrage_pairs_names : Map ℕ String
  pub arbitrage_pairs_base_coin_name : Map ℕ String
  pub arbitrage_pairs_market_coin_name : Map ℕ String
  pub exchange_api_fee_trade : Map ℕ Bool
  pub exchange_api_fee_withdraw : Map ℕ Bool
  pub pair_amount_precision : Map ℕ ℕ
  pub pair_price_precision : Map ℕ ℕ

-- The conversions of texts.
pub record Texts (D : Type 0) : Type 0 where
  pub to_upper : String → String
  pub to_lower : String → String
  pub replace : String → String → String → String
  pub append : String → String → String
  pub to_uint : String → ℕ
  pub to_double : String → D

-- `values` of a map.
unfoldable pub values : {K V : Type 0} → Map K V → List V
values [] = []
values ((k, v) ∷ m) = v ∷ values m

-- `operator[]` of a map of maps where the map is written to: a missing entry becomes an empty one.
unfoldable pub touch : {V : Type 0} → ℕ → Map ℕ (List V) → Map ℕ (List V)
touch k m = elim (lookup k m) [ none ↦ insert k [] m | some v ↦ m ]

-- `key(value)`: the first key that has the value.
unfoldable pub key_of : String → Map ℕ String → Option ℕ
key_of s [] = none
key_of s ((k, t) ∷ m) = if t == s then some k else key_of s m

-- The first key whose value agrees with a name but for the case.
unfoldable pub key_like : (String → String) → String → Map ℕ String → Option ℕ
key_like lower s [] = none
key_like lower s ((k, t) ∷ m) = if lower t == lower s then some k else key_like lower s m

abbrev or_else : {A : Type 0} → Option A → Option A → Option A
or_else none p = p
or_else (some a) p = some a

abbrev or_nought : Option ℕ → ℕ
or_nought none = 0
or_nought (some n) = n

-- The value of the first name of a list that a map has, and 0 where it has none.
unfoldable pub first_named : List String → Map String ℕ → ℕ
first_named [] m = 0
first_named (n ∷ ns) m =
    let rest = first_named ns m in elim (lookup n m) [ none ↦ rest | some v ↦ v ]

-- The keys whose lists have a number: the first of them, or 0.
unfoldable pub first_with : ℕ → Map ℕ (List ℕ) → ℕ
first_with n [] = 0
first_with n ((k, ns) ∷ m) = let rest = first_with n m in if list_contains ns n then k else rest

-- All but a number.
unfoldable pub others : ℕ → List ℕ → List ℕ
others n [] = []
others n (k ∷ ks) = let rest = others n ks in if k == n then rest else k ∷ rest

unfoldable pub has_value : String → Map String String → Bool
has_value s [] = false
has_value s ((k, t) ∷ m) = t == s || has_value s m

module _ {D : Type 0} (a : Assets D) where
  unfoldable pub get_exchange_id : Texts D → String → ℕ
  unfolding key_of key_like
  get_exchange_id x name = or_nought (
      or_else (key_of name a.exchange_name) (
        or_else (key_of (x.to_lower name) a.exchange_name)
          (key_like x.to_lower name a.exchange_name)))

  unfoldable pub get_currency_exchange_id : ℕ → ℕ
  get_currency_exchange_id k = value_or k 0 a.currency_exchange

  unfoldable pub get_currency_exchange_name : ℕ → String
  get_currency_exchange_name k = value_or (value_or k 0 a.currency_exchange) "" a.exchange_name

  -- The name, in capitals, in small letters, and with XBT for BTC.
  unfoldable pub get_currency_id_by_name : Texts D → String → ℕ → Assets D × ℕ
  unfolding touch first_named
  get_currency_id_by_name x name exchange = (
    record a { exchange_currencies = touch exchange a.exchange_currencies },
    first_named
        (name ∷ x.to_upper name ∷ x.to_lower name ∷ x.replace "BTC" "XBT" (x.to_upper name) ∷ [])
        (value_or exchange [] a.exchange_currencies),
  )

  unfoldable pub get_market_id_by_name : Texts D → String → ℕ → Assets D × ℕ
  unfolding touch first_named
  get_market_id_by_name x name exchange = (
    record a { exchange_markets = touch exchange a.exchange_markets },
    first_named (name ∷ x.to_upper name ∷ x.to_lower name ∷ [])
        (value_or exchange [] a.exchange_markets),
  )

  unfoldable pub get_currency_coin : ℕ → ℕ
  get_currency_coin k = value_or k 0 a.currency_coin

  unfoldable pub is_token : ℕ → Bool
  is_token k = value_or k false a.is_token_currency

  -- The first currency of a coin; of dollars, the first token.
  unfoldable pub first_of_coin : ℕ → List ℕ → ℕ
  unfolding get_currency_coin is_token
  first_of_coin coin [] = 0
  first_of_coin coin (k ∷ ks) =
      let rest = first_of_coin coin ks in
      if nat_beq (get_currency_coin k) coin
        && ((nat_beq coin 7 && is_token k) || not (nat_beq coin 7))
      then k
      else rest

  unfoldable pub get_token_currency_id_by_coin_exchange : ℕ → ℕ → ℕ
  unfolding first_of_coin values
  get_token_currency_id_by_coin_exchange coin exchange =
      first_of_coin coin (values (value_or exchange [] a.exchange_currencies))

  unfoldable pub get_market_exchange_id : ℕ → Bool → ℕ
  get_market_exchange_id pair only_valid =
      if only_valid
      then value_or pair 0 a.market_exchange
      else value_or pair 0 a.all_market_exchange

  unfoldable pub get_market_arbitrage_pair_id : ℕ → ℕ
  unfolding first_with
  get_market_arbitrage_pair_id pair = first_with pair a.arbitrage_pair_markets

  unfoldable pub address_currency : String → Map ℕ (Map String String) → Option ℕ
  unfolding has_value
  address_currency s [] = none
  address_currency s ((k, m) ∷ ms) =
      let rest = address_currency s ms in if has_value s m then some k else rest

  unfoldable pub get_address_exchange : String → String
  unfolding address_currency get_currency_exchange_name
  get_address_exchange s = elim (address_currency s a.currency_addresses) [
    | none ↦ "UNKNOWN"
    | some k ↦ get_currency_exchange_name k
  ]

  unfoldable pub get_address_info : Texts D → String → JsonObject
  unfolding get_address_exchange
  get_address_info x s =
      put_text "url" (x.append "https://blockchair.com/ru/search?q=" s)
        (put_text "exchange_name" (get_address_exchange s) (put_text "address" s []))

  unfoldable pub get_deposit_address : ℕ → String → String
  get_deposit_address k token = elim (lookup k a.currency_addresses) [
    | none ↦ "#"
    | some m ↦ value_or token "#" m
  ]

  unfoldable pub get_coin_related_currencies : ℕ → List ℕ
  unfolding others
  get_coin_related_currencies k =
      others k (value_or (value_or k 0 a.currency_coin) [] a.coin_currencies)

  unfoldable pub set_balance : Texts D → JsonObject → Assets D
  set_balance x o =
      let k = x.to_uint (get_text "" "currency_id" o) in
      record a {
        balances = insert k (x.to_double (get_text "" "total" o)) a.balances;
        balances_available =
            insert k (x.to_double (get_text "" "available" o)) a.balances_available;
      }

  unfoldable pub set_balances : Map ℕ D → Assets D
  set_balances m = record a { balances = m }

  unfoldable pub set_requested : Map String (Map ℕ D) → Assets D
  set_requested m = record a { requested = m }

  -- The first market of coins against dollars.
  unfoldable pub first_primary : List ℕ → ℕ
  unfolding get_currency_coin
  first_primary [] = 0
  first_primary (p ∷ ps) =
      let rest = first_primary ps in
      let (base, price) = value_or p (0, 0) a.market_currencies in
      if nat_beq (get_currency_coin base) 1 && nat_beq (get_currency_coin price) 7 then p else rest

  unfoldable pub get_primary_market : ℕ → ℕ
  unfolding first_primary values
  get_primary_market exchange = first_primary (values (value_or exchange [] a.exchange_markets))
