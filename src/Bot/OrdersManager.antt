-- ===== src/Bot/OrdersManager.antt =====
-- swift-bot/ordersmanager.cpp: market locks, reservations and the placing of orders. What the
-- session is asked to do is a list of calls, in their order.
pub mod Locks
pub mod Timer
pub mod Reserves
use swift_bot.Prelude.{
  ℕ, ◌+◌, ◌-◌, ◌%◌, ◌^◌, Bool, true, false, not, ◌&&◌, ◌||◌, String, List, [], ◌∷◌, ◌++◌, ltb, leb,
  if◌then◌else◌, ◌==◌ as nat_beq,
}
use swift_bot.Qt.Key.{◌==◌, nat_key, text_key}
use swift_bot.Qt.Vector.{list_contains, remove_all, remove_one}
use swift_bot.Qt.Map.{Map, contains, value_or, insert}
use swift_bot.Double.{Double, nought}

pub record Candidat (D : Type 0) : Type 0 where
  pub sell_pair_id : ℕ
  pub buy_pair_id : ℕ
  pub sell_rate : D
  pub buy_rate : D
  pub buy_price : D
  pub amount : D

pub data Call (D : Type 0) : Type 0 where
  get_available : ℕ → Call D
  reserve_create : ℕ → D → Call D
  reserve_cancel : ℕ → D → Call D
  set_requested : ℕ → D → Call D
  place_sell : Candidat D → Call D
  place_buy : Candidat D → Call D

pub record Manager (D : Type 0) : Type 0 where
  pub locked_markets : List ℕ
  pub lock_market_time : Map ℕ ℕ
  pub used_virtual_asks : List (ℕ × D)
  pub used_virtual_bids : List (ℕ × D)
  pub balances : Map ℕ D

-- The assets, the settings, the clock, the answers of the balances worker, and the order by falling
-- profit in which `std::sort` leaves the candidates.
pub record Env (D : Type 0) : Type 0 where
  pub base_currency : ℕ → ℕ
  pub price_currency : ℕ → ℕ
  pub available : ℕ → D
  pub is_emulation : Bool
  pub mode : ℕ
  pub now : ℕ
  pub by_profit : List (Candidat D) → List (Candidat D)

-- A difference of two times in `quint64`.
abbrev pub elapsed : ℕ → ℕ → ℕ
elapsed now since = (now + 2 ^ 64 - since) % 2 ^ 64

release_old : ℕ → Map ℕ ℕ → List ℕ → List ℕ → List ℕ
release_old now times [] locked = locked
release_old now times (m ∷ ms) locked =
    release_old now times ms
      (if leb 20 (elapsed now (value_or m 0 times)) then remove_all m locked else locked)

-- An order event as the subscription reads it.
pub record OrderEvent (D : Type 0) : Type 0 where
  pub name : String
  pub kind : String
  pub market_id : ℕ
  pub amount : D
  pub price : D

module _ {D : Type 0} where
  -- The timer of the constructor: a lock is dropped after 20 seconds.
  pub on_timer : ℕ → Manager D → Manager D
  unfolding release_old
  on_timer now m = record m {
    locked_markets = release_old now m.lock_market_time m.locked_markets m.locked_markets;
  }

  pub clear_locks : Manager D → Manager D
  clear_locks m = record m { used_virtual_asks = []; used_virtual_bids = [] }

  pub on_order_event : Env D → Manager D → OrderEvent D → Manager D × List (Call D)
  on_order_event env m ev =
      let cancel =
        if ev.kind == "sell"
        then reserve_cancel (env.base_currency ev.market_id) ev.amount
        else reserve_cancel (env.price_currency ev.market_id) ev.price in
      let m' =
        if list_contains m.locked_markets ev.market_id
        then record m { locked_markets = remove_one ev.market_id m.locked_markets }
        else m in
      if ev.name == "completed" || ev.name == "canceled" then (m', cancel ∷ []) else (m, [])

  -- It answers true also where a market is locked and nothing is sent.
  unfoldable pub place_order : Env D → Manager D → Candidat D → Manager D × List (Call D) × Bool
  place_order env m c =
      let sent : Manager D = record m {
        locked_markets = (m.locked_markets ++ (c.sell_pair_id ∷ [])) ++ (c.buy_pair_id ∷ []);
        lock_market_time =
            insert c.buy_pair_id env.now (insert c.sell_pair_id env.now m.lock_market_time);
      } in
      if not (list_contains m.locked_markets c.sell_pair_id)
        && not (list_contains m.locked_markets c.buy_pair_id)
      then (sent, place_sell c ∷ place_buy c ∷ [], true)
      else (m, [], true)

-- The state of the loop of `onCandidats`.
pub record Round (D : Type 0) : Type 0 where
  pub manager : Manager D
  pub funds : Map ℕ D
  pub calls : List (Call D)
  pub refused : List (Candidat D)

module _ {D : Type 0} ⦃d : Double D⦄ where
  pub pair_contains : List (ℕ × D) → ℕ → D → Bool
  pair_contains [] k x = false
  pair_contains ((j, y) ∷ ps) k x = (nat_beq j k && d.eq y x) || pair_contains ps k x

  -- Asks for the funds of a currency that the round has not seen.
  unfoldable pub fetch : Env D → ℕ → Round D → Round D
  fetch env k r = if contains k r.funds then r else record r {
    funds = insert k (env.available k) r.funds;
    calls = r.calls ++ (get_available k ∷ []);
  }

  -- `reserve.create`, and the funds of the round reduced: `_b[ k ] -= x`.
  unfoldable pub reserve : ℕ → D → Round D → Round D
  reserve k x r = record r {
    funds = insert k (d.sub (value_or k nought r.funds) x) r.funds;
    calls = r.calls ++ (reserve_create k x ∷ []);
  }

  -- Reserves both sides and places the orders.
  unfoldable pub commit : Env D → Candidat D → Round D → Round D
  unfolding reserve place_order
  commit env c r =
      let r' =
        reserve (env.price_currency c.buy_pair_id) c.buy_price
          (reserve (env.base_currency c.sell_pair_id) c.amount r) in
      let placed = place_order env r'.manager c in
      record r' { manager = placed.0; calls = r'.calls ++ placed.1 }

  -- In emulation a rate of a market is used once between two calls of `clearLocks`.
  use_virtual : Candidat D → Round D → Round D
  use_virtual c r =
      let m = r.manager in
      record r {
        manager = record m {
          used_virtual_asks = m.used_virtual_asks ++ ((c.buy_pair_id, c.buy_rate) ∷ []);
          used_virtual_bids = m.used_virtual_bids ++ ((c.sell_pair_id, c.sell_rate) ∷ []);
        };
      }

  is_unused : Manager D → Candidat D → Bool
  unfolding pair_contains
  is_unused m c =
      not (pair_contains m.used_virtual_asks c.buy_pair_id c.buy_rate)
      && not (pair_contains m.used_virtual_bids c.sell_pair_id c.sell_rate)

  unfoldable pub is_covered : Env D → Candidat D → Round D → Bool
  is_covered env c r =
      d.lt c.amount (value_or (env.base_currency c.sell_pair_id) nought r.funds)
      && d.lt c.buy_price (value_or (env.price_currency c.buy_pair_id) nought r.funds)

  -- One turn of the loop.
  unfoldable pub on_candidat : Env D → Round D → Candidat D → Round D
  unfolding fetch commit use_virtual is_unused is_covered
  on_candidat env r c =
      let r' =
        fetch env (env.price_currency c.buy_pair_id)
          (fetch env (env.base_currency c.sell_pair_id) r) in
      if is_covered env c r'
      then if env.is_emulation
        then if is_unused r'.manager c then commit env c (use_virtual c r') else r'
        else if nat_beq env.mode 2 || nat_beq env.mode 3
        then commit env c r'
        else r'
      else record r' { refused = r'.refused ++ (c ∷ []) }

  unfoldable pub run_candidats : Env D → Round D → List (Candidat D) → Round D
  run_candidats env r [] = r
  run_candidats env r (c ∷ cs) = run_candidats env (on_candidat env r c) cs

  -- `createMoneyRefillRequests`, its three loops.
  add_needs : Env D → List (Candidat D) → Map ℕ D → Map ℕ D
  add_needs env [] q = q
  add_needs env (c ∷ cs) q =
      let sell = env.base_currency c.sell_pair_id in
      let buy = env.price_currency c.buy_pair_id in
      let q' = insert sell (d.add (value_or sell nought q) c.amount) q in
      add_needs env cs (insert buy (d.add (value_or buy nought q') c.buy_price) q')

  less_funds : Map ℕ D → Map ℕ D → Map ℕ D
  less_funds funds [] = []
  less_funds funds ((k, x) ∷ q) = (k, d.sub x (value_or k nought funds)) ∷ less_funds funds q

  less_each : Map ℕ D → Map ℕ D → Map ℕ D
  less_each [] q = q
  less_each ((k, x) ∷ funds) q = less_each funds (insert k (d.sub (value_or k nought q) x) q)

  pub create_money_refill_requests : Env D → List (Candidat D) → Map ℕ D → Map ℕ D
  unfolding add_needs less_funds less_each
  create_money_refill_requests env cs funds =
      less_each funds (less_funds funds (add_needs env cs []))

  request_calls : Map ℕ D → List (Call D)
  request_calls [] = []
  request_calls ((k, x) ∷ q) = set_requested k x ∷ request_calls q

  -- `onCandidats` with a joined session.
  pub on_candidats : Env D → Manager D → List (Candidat D) → Manager D × List (Call D)
  unfolding run_candidats create_money_refill_requests request_calls
  on_candidats env m cs = elim (env.by_profit cs) [
    | [] ↦ (m, [])
    | c ∷ queue ↦
        let start : Round D = record {
          manager = m;
          funds = m.balances;
          calls = [];
          refused = [];
        } in
        let r = run_candidats env start (c ∷ queue) in
        (r.manager, r.calls ++ request_calls (create_money_refill_requests env r.refused r.funds))
  ]
