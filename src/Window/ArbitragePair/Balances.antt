-- ===== src/Window/ArbitragePair/Balances.antt =====
-- swift-lib/arbitragepair.cpp: the balances and requirements that the pair keeps for 12 seconds.
use swift_bot.Prelude.{ℕ, Bool, true, not, ◌||◌, List, [], ◌∷◌, if◌then◌else◌}
use swift_bot.Qt.Key.{nat_key}
use swift_bot.Qt.Map.{Map, contains, value_or, insert}
use swift_bot.Double.{Double, nought}
use swift_bot.Window.ArbitragePair.{Pair}

-- The session, where it is joined: the amount that is required of a currency, and the available
-- balances, each answered with the currency first.
pub record Session (D : Type 0) : Type 0 where
  pub is_joined : Bool
  pub required : ℕ → D
  pub balances : List (ℕ × D)

unfoldable pub put_balances : {D : Type 0} → List (ℕ × D) → Map ℕ D → Map ℕ D
put_balances [] m = m
put_balances ((k, x) ∷ rows) m = put_balances rows (insert k x m)

module _ {D : Type 0} ⦃d : Double D⦄ where
  unfoldable pub get_balance : Session D → ℕ → Pair D → Pair D × D
  get_balance s k p =
      let asked = insert k (s.required k) p.cached_reqs in
      let reqs =
        if contains k p.cached_reqs
        then p.cached_reqs
        else if s.is_joined
        then asked
        else p.cached_reqs in
      (record p { cached_reqs = reqs }, value_or k nought reqs)

  unfoldable pub get_balance_available : Session D → ℕ → Bool → Pair D → Pair D × D
  unfolding put_balances
  get_balance_available s k force p =
      let asked = put_balances s.balances p.cached_bals in
      let bals =
        if not (contains k p.cached_bals) || force
        then if s.is_joined then asked else p.cached_bals
        else p.cached_bals in
      (record p { cached_bals = bals }, value_or k nought bals)

  -- The loop of `prepareCachedBals` and `setWampSession`, on the currencies of the windows: that to buy
  -- with and that to sell.
  unfoldable pub cache_balances : Session D → List (ℕ × ℕ) → Pair D → Pair D
  unfolding get_balance_available
  cache_balances s [] p = p
  cache_balances s ((buy, sell) ∷ windows) p =
      let bought = get_balance_available s buy true p in
      let p' : Pair D = record (bought.0) {
        cached_bals = insert buy bought.1 (bought.0).cached_bals;
      } in
      let sold = get_balance_available s sell true p' in
      cache_balances s windows
        (record (sold.0) { cached_bals = insert sell sold.1 (sold.0).cached_bals })
