-- ===== src/Window/ArbitragePair.antt =====
-- swift-lib/arbitragepair.cpp and arbitragepair.h: a pair of coins, whose windows offer it candidates,
-- and its lock.
pub mod Books
pub mod Balances
pub mod Placed
pub mod Requirements
use swift_bot.Prelude.{
  ℕ, String, Bool, true, false, not, ◌&&◌, ◌||◌, ◌+◌, ◌%◌, ◌^◌, Option, none, some, List, [], ◌∷◌,
  ◌++◌, ltb, leb, length, if◌then◌else◌, ◌==◌ as nat_beq,
}
use swift_bot.Qt.Key.{◌==◌, nat_key, text_key}
use swift_bot.Qt.Vector.{list_contains}
use swift_bot.Qt.Map.{Map, lookup, contains, value_or, insert}
use swift_bot.Qt.Json.{JsonObject, get_text}
use swift_bot.Double.{Double, nought, le}
use swift_bot.Window.OrderParams.{OrderEnv, OrderParams, set_order_params, sent_local_id}

-- `_classic_candidats`: a window, a size and two rates.
pub record Classic (D : Type 0) : Type 0 where
  pub window : ℕ
  pub size : D
  pub sell_rate : D
  pub buy_rate : D

-- The levels of a book: rate and amount.
abbrev pub Book : Type 0 → Type 0
Book D = List (D × D)

-- What is asked of the manager and of the exchanges; logs are left out.
pub data Call (D : Type 0) : Type 0 where
  link_order : String → ℕ → D → Call D
  place_order : OrderParams D → Call D

pub record Pair (D : Type 0) : Type 0 where
  pub is_locked : Bool
  pub lock_time : ℕ
  pub valid_pairs : List ℕ
  pub classic_candidats : List (Classic D)
  pub cached_reqs : Map ℕ D
  pub cached_bals : Map ℕ D
  pub required_summary : Map ℕ (Map ℕ D)
  pub min_spread : D
  pub max_spread : D
  pub asks : Map ℕ (Book D)
  pub bids : Map ℕ (Book D)
  pub ttl_funds : D
  pub sellpct : D

-- The windows, as the pair reads them by their ids; the manager's parameters; the rounding of amounts
-- and rates; the clock in seconds; the balances that the session answers; and the order by falling
-- profit in which `std::sort` leaves the candidates. While the two calls for a candidate wait, `session->call`
-- handles what arrives; `during` is what that makes of the pair.
pub record PairEnv (D : Type 0) : Type 0 where
  pub orders : OrderEnv D
  pub sell_balance : ℕ → D
  pub buy_balance : ℕ → D
  pub real_profit : ℕ → D → D
  pub sell_pair : ℕ → ℕ
  pub buy_pair : ℕ → ℕ
  pub spreads : List D
  pub available_spreads : List D
  pub ticks : List ℕ
  pub min_profit : D
  pub is_placing : Bool
  pub is_joined : Bool
  pub round_amount : D → D
  pub round_rate : D → D
  pub now : ℕ
  pub of_size : ℕ → D
  pub by_percent : List (Classic D) → List (Classic D)
  pub during : Classic D → Pair D → Pair D

module _ {D : Type 0} where
  unfoldable pub lock : ℕ → Pair D → Pair D
  lock now p = record p { is_locked = true; lock_time = now }

  unfoldable pub unlock : Pair D → Pair D
  unlock p = record p { is_locked = false }

  unfoldable pub add_classic_candidat : Classic D → Pair D → Pair D
  add_classic_candidat c p = record p { classic_candidats = p.classic_candidats ++ (c ∷ []) }

  -- `onCompletedOrder` and `onCanceledOrder`, with the market of the order read; `true` where the event
  -- is passed on to the windows.
  unfoldable pub on_closed_order : ℕ → Pair D → Pair D × Bool
  unfolding unlock
  on_closed_order market p =
      if list_contains p.valid_pairs market then (unlock p, true) else (p, false)

  -- `onPlacedOrder` and `onErrorOrder` are passed on alone.
  unfoldable pub on_other_order : ℕ → Pair D → Pair D × Bool
  on_other_order market p = (p, list_contains p.valid_pairs market)

module _ {D : Type 0} ⦃d : Double D⦄ where
  -- The order that is built when the one before it is not known: all its fields are 0 or empty.
  abbrev pub no_order : OrderParams D
  no_order = record {
    local_id = "";
    remote_id = "";
    amount = nought;
    amount_left = nought;
    rate = nought;
    price = nought;
    fee = nought;
    exchange_id = 0;
    kind = 3;
    market_id = 0;
    base_currency_id = 0;
    price_currency_id = 0;
    status = 0;
    arb_window = 0;
  }

  -- An order of a window.
  unfoldable pub order_of : PairEnv D → ℕ → ℕ → D → D → ℕ → OrderParams D
  order_of env window market size rate kind =
      record (set_order_params env.orders market size rate kind no_order) { arb_window = window }

  -- Both balances of its window cover it.
  unfoldable pub is_covered : PairEnv D → Classic D → Bool
  is_covered env c =
      le c.size (env.sell_balance c.window)
      && le (d.mul c.size c.buy_rate) (env.buy_balance c.window)

  unfoldable pub covered : PairEnv D → List (Classic D) → List (Classic D)
  unfolding is_covered
  covered env [] = []
  covered env (c ∷ cs) = let rest = covered env cs in if is_covered env c then c ∷ rest else rest

  -- The calls for a candidate: both orders are linked to the window, and placed.
  unfoldable pub calls_of : PairEnv D → Classic D → List (Call D)
  unfolding order_of
  calls_of env c =
      let size = env.round_amount c.size in
      let sell =
        order_of env c.window (env.sell_pair c.window) size (env.round_rate c.sell_rate) 0 in
      let buy = order_of env c.window (env.buy_pair c.window) size (env.round_rate c.buy_rate) 1 in
      link_order (sent_local_id env.orders sell) c.window size
      ∷ link_order (sent_local_id env.orders buy) c.window size
      ∷ place_order sell
      ∷ place_order buy
      ∷ []

  -- One turn of the loop over the candidates.
  unfoldable pub try_candidat : PairEnv D → Pair D → Classic D → Pair D × List (Call D)
  unfolding lock calls_of
  try_candidat env p c =
      if p.is_locked
      then (p, [])
      else if d.lt env.min_profit (env.real_profit c.window (env.round_amount c.size))
      then if env.is_joined && (env.is_placing && not p.is_locked)
        then (env.during c (lock env.now p), calls_of env c)
        else (p, [])
      else (p, [])

  unfoldable pub try_candidats : PairEnv D → Pair D → List (Classic D) → Pair D × List (Call D)
  unfolding try_candidat
  try_candidats env p [] = (p, [])
  try_candidats env p (c ∷ cs) =
      let step = try_candidat env p c in
      let rest = try_candidats env step.0 cs in (rest.0, step.1 ++ rest.1)

  unfoldable pub check_candidats : PairEnv D → Pair D → Pair D × List (Call D)
  unfolding covered try_candidats
  check_candidats env p =
      try_candidats env (record p { classic_candidats = [] })
        (covered env (env.by_percent p.classic_candidats))

  -- `updateCurrenciesRequirements`: what the manager is told that the windows need.
  unfoldable pub add_requirements : Map ℕ D → Map ℕ D → Map ℕ D
  add_requirements [] s = s
  add_requirements ((k, x) ∷ r) s = add_requirements r (insert k (d.add (value_or k nought s) x) s)

  unfoldable pub sum_requirements : Map ℕ (Map ℕ D) → Map ℕ D → Map ℕ D
  unfolding add_requirements
  sum_requirements [] s = s
  sum_requirements ((w, r) ∷ rs) s = sum_requirements rs (add_requirements r s)

  unfoldable pub update_currencies_requirements : Pair D → Map ℕ D
  unfolding sum_requirements
  update_currencies_requirements p = sum_requirements p.required_summary []

  unfoldable pub set_requested_amount : ℕ → ℕ → D → Pair D → Pair D
  set_requested_amount w k x p = record p {
    required_summary = insert w (insert k x (value_or w [] p.required_summary)) p.required_summary;
  }

  unfoldable pub reload_cache : Pair D → Pair D × Map ℕ D
  unfolding update_currencies_requirements
  reload_cache p =
      (record p { cached_bals = []; cached_reqs = [] }, update_currencies_requirements p)
