-- ===== src/Tests/Manager.antt =====
-- The theorems on the orders manager at one candidate.
use swift_bot.Prelude.{none, ℕ, ◌+◌, ◌≡◌, ◌⊎◌, refl, inr, true, false, some, List, [], ◌∷◌, ltb}
use swift_bot.Qt.Key.{nat_key}
use swift_bot.Qt.Vector.{list_contains}
use swift_bot.Qt.Map.{lookup, insert}
use swift_bot.Double.{whole, whole-IsDouble}
use swift_bot.Bot.OrdersManager.{
  Candidat, Manager, Env, Round, on_candidat, run_candidats, on_candidats, is_covered, fetch,
  commit, reserve, place_order,
}
use swift_bot.Bot.OrdersManager.Locks.{locked_after, WellLocked, on_candidats-WellLocked}
use swift_bot.Bot.OrdersManager.Reserves.{run_candidats-Backed}

abbrev test_env : Env ℕ
test_env = record {
  base_currency = λ m. m;
  price_currency = λ m. m + 10;
  available = λ c. 100;
  is_emulation = false;
  mode = 2;
  now = 1000;
  by_profit = λ cs. cs;
}

abbrev candidat : Candidat ℕ
candidat = record {
  sell_pair_id = 1;
  buy_pair_id = 2;
  sell_rate = 4;
  buy_rate = 3;
  buy_price = 6;
  amount = 2;
}

abbrev manager : List ℕ → Manager ℕ
manager locked = record {
  locked_markets = locked;
  lock_market_time = (1, 990) ∷ (3, 100) ∷ [];
  used_virtual_asks = [];
  used_virtual_bids = [];
  balances = (1, 50) ∷ (12, 60) ∷ [];
}

abbrev round : List ℕ → Round ℕ
round locked = record {
  manager = manager locked;
  funds = (1, 50) ∷ (12, 60) ∷ [];
  calls = [];
  refused = [];
}

on_candidats-WellLocked_example :
    WellLocked none (3 ∷ []) (on_candidats test_env (manager (3 ∷ [])) (candidat ∷ candidat ∷ [])).1
    × ((on_candidats test_env (manager (3 ∷ [])) (candidat ∷ candidat ∷ [])).0.locked_markets
        ≡ locked_after
            (3 ∷ [])
            (on_candidats test_env (manager (3 ∷ [])) (candidat ∷ candidat ∷ [])).1)
on_candidats-WellLocked_example =
    on_candidats-WellLocked test_env (manager (3 ∷ [])) (candidat ∷ candidat ∷ [])

run_candidats-Backed_example :
    (ltb 0 46 ≡ true) ⊎ (46 ≡ test_env.available 1) ⊎ (lookup 1 (round []).funds ≡ some 46)
unfolding lookup insert run_candidats on_candidat fetch commit reserve place_order is_covered
    list_contains
run_candidats-Backed_example =
    run_candidats-Backed whole-IsDouble test_env (round []).funds (candidat ∷ candidat ∷ [])
      (round []) (refl, (refl, tt)) (λ k x found. inr (inr found)) 1 46 refl
