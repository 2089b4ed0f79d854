-- ===== src/Workers/BalancesWorker/Addresses.antt =====
-- workers/balancesworker.cpp: the deposit addresses that the calls list and add, and the parameters of
-- a transfer. The rows of the query are a list, or nothing where the query fails.
use swift_bot.Prelude.{
  ℕ, String, ◌≡◌, refl, ◌∙◌, sym, ap, ◌||◌, Option, none, some, List, [], ◌∷◌, ◌++◌, map,
  if◌then◌else◌, ◌==◌ as nat_beq, append_assoc, append-nil,
}

-- An address as the calls list it.
pub record Address : Type 0 where
  pub currency_id : ℕ
  pub coin_id : ℕ
  pub exchange_id : ℕ
  pub exchange_name : String
  pub address : String
  pub token : String
  pub tag : String

-- A row of the table `currency_addresses`.
pub record AddressRow : Type 0 where
  pub currency_id : ℕ
  pub exchange_id : ℕ
  pub address : String
  pub token_type : String
  pub tag : String

-- The assets. `token_currency coin exchange` is `getTokenCurrencyIdByCoinExchange`.
pub record AddressEnv : Type 0 where
  pub token_currency : ℕ → ℕ → ℕ
  pub currency_coin : ℕ → ℕ
  pub exchange_name : ℕ → String
  pub deposit_address : ℕ → String → String

pub record Addresses : Type 0 where
  pub listed : List Address
  pub unsaved : List Address

abbrev pub new_address : AddressEnv → ℕ → ℕ → String → Address
new_address env exchange coin address = record {
  currency_id = env.token_currency coin exchange;
  coin_id = coin;
  exchange_id = exchange;
  exchange_name = env.exchange_name exchange;
  address = address;
  token = if nat_beq coin 1 then "btc" else "erc20";
  tag = "";
}

-- `set.config.newaddress`, with its three arguments read.
unfoldable pub insert_address : AddressEnv → Addresses → ℕ → ℕ → String → Addresses
insert_address env s exchange coin address =
    let a = new_address env exchange coin address in
    record { listed = s.listed ++ (a ∷ []); unsaved = s.unsaved ++ (a ∷ []) }

unfoldable pub of_address_row : AddressEnv → AddressRow → Address
of_address_row env r = record {
  currency_id = r.currency_id;
  coin_id = env.currency_coin r.currency_id;
  exchange_id = r.exchange_id;
  exchange_name = env.exchange_name r.exchange_id;
  address = r.address;
  token = r.token_type;
  tag = r.tag;
}

-- `loadAddresses`: the state it leaves, and the addresses that it inserts. They are forgotten whether
-- the inserts succeed or not.
unfoldable pub load_addresses :
    AddressEnv → Option (List AddressRow) → Addresses → Addresses × List Address
unfolding of_address_row
load_addresses env rows s = elim rows [
  | none ↦ (record s { unsaved = [] }, s.unsaved)
  | some rs ↦ (record { listed = map (of_address_row env) rs; unsaved = [] }, s.unsaved)
]

-- A transfer that a user asks for, and the parameters that are made of it. The local id, which is
-- printed from the amount and the time, is left out.
pub record Transfer (D : Type 0) : Type 0 where
  pub address : String
  pub currency_id : ℕ
  pub amount : D

unfoldable pub token_type : ℕ → String
token_type coin =
    if nat_beq coin 2 || nat_beq coin 7 then "ERC20" else if nat_beq coin 10 then "XRP" else "BTC"

unfoldable pub transfer : {D : Type 0} → AddressEnv → ℕ → ℕ → ℕ → D → Transfer D
unfolding token_type
transfer env from to coin amount = record {
  address = env.deposit_address (env.token_currency coin to) (token_type coin);
  currency_id = env.token_currency coin from;
  amount = amount;
}

-- The exchange, coin and text of an address to insert.
abbrev pub NewAddress : Type 0
NewAddress = ℕ × ℕ × String

unfoldable pub insert_addresses : AddressEnv → Addresses → List NewAddress → Addresses
unfolding insert_address
insert_addresses env s [] = s
insert_addresses env s ((e, c, a) ∷ as') = insert_addresses env (insert_address env s e c a) as'

-- Where the listed addresses are some known ones and, behind them, those that are not saved, this
-- stays so.
insert_address-listed :
    (env : AddressEnv) (known : List Address) (s : Addresses) (e c : ℕ) (a : String)
    → s.listed ≡ known ++ s.unsaved
    → (insert_address env s e c a).listed ≡ known ++ (insert_address env s e c a).unsaved
unfolding insert_address
insert_address-listed env known s e c a h =
    ap (λ l. l ++ (new_address env e c a ∷ [])) h ∙ append_assoc known s.unsaved _

insert_addresses-listed :
    (env : AddressEnv) (known : List Address) (s : Addresses) (as' : List NewAddress)
    → s.listed ≡ known ++ s.unsaved
    → (insert_addresses env s as').listed ≡ known ++ (insert_addresses env s as').unsaved
unfolding insert_addresses
insert_addresses-listed env known s [] h = h
insert_addresses-listed env known s ((e, c, a) ∷ as') h =
    insert_addresses-listed env known (insert_address env s e c a) as'
      (insert_address-listed env known s e c a h)

-- From a state in which all addresses are saved: after any insertions and a turn of the timer whose
-- query fails, each address that was inserted is listed, behind those of before, and was handed to the
-- database, once and in its order; a second turn hands out nothing.
pub load_addresses-insert_addresses :
    (env : AddressEnv) (s : Addresses) (as' : List NewAddress)
    → s.unsaved ≡ []
    → ((load_addresses env none (insert_addresses env s as')).0.listed
        ≡ s.listed ++ (load_addresses env none (insert_addresses env s as')).1)
      × ((load_addresses env none (load_addresses env none (insert_addresses env s as')).0).1 ≡ [])
unfolding load_addresses
load_addresses-insert_addresses env s as' h = (
  insert_addresses-listed env s.listed s as'
      (sym (append-nil s.listed) ∙ ap (λ l. s.listed ++ l) (sym h)),
  refl,
)
