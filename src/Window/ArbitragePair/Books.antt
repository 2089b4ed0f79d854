-- ===== src/Window/ArbitragePair/Books.antt =====
-- swift-lib/arbitragepair.cpp: what `calculateOrderbooks` keeps of the books, and the figures of the
-- windows.
use swift_bot.Prelude.{
  ℕ, Bool, true, false, ◌&&◌, ◌+◌, ◌%◌, ◌^◌, List, [], ◌∷◌, leb, length, if◌then◌else◌,
}
use swift_bot.Qt.Key.{nat_key}
use swift_bot.Qt.Vector.{list_contains}
use swift_bot.Qt.Map.{Map, insert}
use swift_bot.Double.{Double, nought}
use swift_bot.Window.ArbitragePair.{Book, PairEnv, Call, Pair, unlock, check_candidats}

add_ticks : ℕ → List ℕ → ℕ
add_ticks n [] = n
add_ticks n (t ∷ ts) = add_ticks ((n + t) % 2 ^ 64) ts

-- `getTotalTicks`, a `quint64` that starts at 1.
unfoldable pub get_total_ticks : {D : Type 0} → PairEnv D → ℕ
unfolding add_ticks
get_total_ticks env = add_ticks 1 env.ticks

module _ {D : Type 0} ⦃d : Double D⦄ where
  -- The books of the pair's own markets.
  unfoldable pub own_books : List ℕ → Map ℕ (Book D) → Map ℕ (Book D)
  own_books valid [] = []
  own_books valid ((k, b) ∷ books) =
      let rest = own_books valid books in if list_contains valid k then (k, b) ∷ rest else rest

  unfoldable pub put_books : Map ℕ (Book D) → Map ℕ (Book D) → Map ℕ (Book D)
  put_books [] kept = kept
  put_books ((k, b) ∷ books) kept = put_books books (insert k b kept)

  unfoldable pub add_levels : Book D → D → D
  add_levels [] x = x
  add_levels ((rate, amount) ∷ b) x = add_levels b (d.add x (d.mul rate amount))

  unfoldable pub add_books : Map ℕ (Book D) → D → D
  unfolding add_levels
  add_books [] x = x
  add_books ((k, b) ∷ books) x = add_books books (add_levels b x)

  unfoldable pub widen : List D → D × D → D × D
  widen [] r = r
  widen (s ∷ ss) (low, high) =
      let high' = if d.lt high s then s else high in
      let low' = if d.lt s low then s else low in widen ss (low', high')

  abbrev is_empty : Map ℕ (Book D) → Bool
  is_empty [] = true
  is_empty (b ∷ bs) = false

  -- `calculateOrderbooks`, after which the windows hear of the books. A lock is dropped after 45
  -- seconds; the times are signed.
  unfoldable pub calculate_orderbooks :
      PairEnv D → Pair D → Map ℕ (Book D) → Map ℕ (Book D) → Pair D × List (Call D)
  unfolding own_books put_books add_books widen check_candidats unlock
  calculate_orderbooks env p asks bids =
      let aa = own_books p.valid_pairs asks in
      let bb = own_books p.valid_pairs bids in
      let a = put_books aa p.asks in
      let b = put_books bb p.bids in
      let sell = add_books a nought in
      let buy = add_books b nought in
      let funds = d.add buy sell in
      let spread = widen env.spreads (p.min_spread, p.max_spread) in
      let p' : Pair D = record p {
        asks = a;
        bids = b;
        min_spread = spread.0;
        max_spread = spread.1;
        ttl_funds = funds;
        sellpct = d.mul (d.div sell funds) (d.lit 100 0);
      } in
      if is_empty aa && is_empty bb
      then (p, [])
      else if p.is_locked
      then (if leb (p.lock_time + 45) env.now then unlock p' else p', [])
      else check_candidats env p'

  add_all : D → List D → D
  add_all x [] = x
  add_all x (s ∷ ss) = add_all (d.add x s) ss

  -- The mean of the spreads of the windows that are available, or 0.
  unfoldable pub get_spread_size : PairEnv D → D
  unfolding add_all
  get_spread_size env = elim env.available_spreads [
    | [] ↦ nought
    | s ∷ ss ↦ d.div (add_all nought (s ∷ ss)) (env.of_size (length (s ∷ ss)))
  ]
