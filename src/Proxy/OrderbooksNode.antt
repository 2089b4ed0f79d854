-- ===== src/Proxy/OrderbooksNode.antt =====
-- swift-orderbooks-proxy/orderbooksnode.cpp and orderbooksnode.h: the books of an exchange, as its
-- answers arrive, and what of them is handed on.
pub mod Shown
pub mod Feeds
use swift_bot.Prelude.{
  ℕ, zero, suc, ◌+◌, ◌-◌, ◌%◌, ◌^◌, String, Bool, true, false, ◌&&◌, ◌||◌, not, Option, none, some,
  List, [], ◌∷◌, ◌++◌, ltb, leb, length, get_elem?, if◌then◌else◌, ◌==◌ as nat_beq,
}
use swift_bot.Qt.Key.{◌==◌, text_key}
use swift_bot.Double.{Double, nought}

-- A level as it is handed on: the market, the printed rate and amount, and the time.
pub record Item : Type 0 where
  pub pair_id : ℕ
  pub rate : String
  pub amount : String
  pub time : ℕ

-- `QMap<double, QJsonArray>`, by rising rates.
abbrev pub Levels : Type 0 → Type 0
Levels D = List (D × Item)

-- A level as an exchange sends it, by the ways in which the code reads it: the element of an array or the
-- field of an object, as a number or as a text that is read as one.
pub record RawLevel (D : Type 0) : Type 0 where
  pub number_at : ℕ → D
  pub text_at : ℕ → D
  pub number_of : String → D
  pub text_of : String → D

pub data NodeState : Type 0 where
  node_created : NodeState
  node_starting : NodeState
  node_connected : NodeState
  node_error : NodeState
  node_shutdown : NodeState

pub record Node (D : Type 0) : Type 0 where
  pub current_state : NodeState
  pub req_noncer : ℕ
  pub exchange_name : String
  pub target_pairs : List (String × ℕ)
  pub asks_indexed : Levels D
  pub bids_indexed : Levels D
  pub asks : List Item
  pub bids : List Item

pub record Env (D : Type 0) : Type 0 where
  pub now : ℕ
  pub fixed8 : D → String

abbrev pub records_limit : ℕ
records_limit = 20

unfoldable pub item_eq : Item → Item → Bool
item_eq a b =
    nat_beq a.pair_id b.pair_id
    && (a.rate == b.rate && (a.amount == b.amount && nat_beq a.time b.time))

-- `operator==` of arrays.
unfoldable pub items_eq : List Item → List Item → Bool
unfolding item_eq
items_eq [] [] = true
items_eq [] (b ∷ bs) = false
items_eq (a ∷ as') [] = false
items_eq (a ∷ as') (b ∷ bs) = let rest = items_eq as' bs in item_eq a b && rest

-- A printed time that does not fit in 32 bits is read as 0.
unfoldable pub item_time : Item → ℕ
item_time i = if ltb i.time (2 ^ 32) then i.time else 0

-- What a loop of `rebuildIndexes` has shown, how much of it, and which rates it takes out.
pub record Walk (D : Type 0) : Type 0 where
  pub items : List Item
  pub used : ℕ
  pub removed : List D

module _ {D : Type 0} ⦃d : Double D⦄ where
  -- Two keys of a `QMap` are the same where neither is less.
  abbrev pub same : D → D → Bool
  same a b = not (d.lt a b) && not (d.lt b a)

  unfoldable pub has_level : D → Levels D → Bool
  has_level r [] = false
  has_level r ((q, i) ∷ m) = same q r || has_level r m

  unfoldable pub insert_level : D → Item → Levels D → Levels D
  insert_level r i [] = (r, i) ∷ []
  insert_level r i ((q, j) ∷ m) =
      let rest = insert_level r i m in
      if d.lt q r then (q, j) ∷ rest else if d.lt r q then (r, i) ∷ (q, j) ∷ m else (q, i) ∷ m

  unfoldable pub remove_level : D → Levels D → Levels D
  remove_level r [] = []
  remove_level r ((q, j) ∷ m) = let rest = remove_level r m in if same q r then m else (q, j) ∷ rest

  -- The rate and the amount of a level, by the exchange.
  unfoldable pub read_level : String → RawLevel D → D × D
  read_level exchange l =
      let is = λ (name : String). exchange == name in
      if is "cexio" || is "lbank"
      then (l.number_at 0, l.number_at 1)
      else if is "hitbtc"
      then (l.text_of "price", l.text_of "size")
      else if is "bittrex"
      then (l.number_of "Rate", l.number_of "Quantity")
      else if is "idcm"
          || (is "bitfinex"
              || (is "exmo"
                  || (is "lakebtc"
                      || (is "livecoin" || (is "kraken" || (is "binance" || is "kucoin"))))))
      then (l.text_at 0, l.text_at 1)
      else if is "zb" || is "huobi"
      then (l.number_at 0, l.number_at 1)
      else (nought, nought)

  -- A known rate is removed where its amount is 0, and otherwise written; a new one needs an amount.
  unfoldable pub put_level : D → D → Item → Levels D → Levels D
  unfolding has_level insert_level remove_level
  put_level rate amount i m =
      if has_level rate m
      then if d.eq amount nought then remove_level rate m else insert_level rate i m
      else if d.lt nought amount
      then insert_level rate i m
      else m

  unfoldable pub put_levels : Env D → String → ℕ → List (RawLevel D) → Levels D → Levels D
  unfolding read_level put_level
  put_levels env exchange pair [] m = m
  put_levels env exchange pair (l ∷ ls) m =
      let (rate, amount) = read_level exchange l in
      put_levels env exchange pair ls (
        put_level rate amount
          (record {
            pair_id = pair;
            rate = env.fixed8 rate;
            amount = env.fixed8 amount;
            time = env.now;
          })
          m)

  -- No older than 5 seconds, in 64 bits without a sign.
  unfoldable pub is_fresh : ℕ → D × Item → Bool
  unfolding item_time
  is_fresh now (rate, i) = d.lt nought rate && leb ((now + 2 ^ 64 - item_time i) % 2 ^ 64) 5

  abbrev pub no_walk : Walk D
  no_walk = record { items = []; used = 0; removed = [] }

  unfoldable pub walk_ask : ℕ → D × Item → Walk D → Walk D
  unfolding is_fresh
  walk_ask now l w =
      if is_fresh now l
      then if ltb w.used records_limit
        then record w { items = w.items ++ (l.1 ∷ []); used = w.used + 1 }
        else record w { removed = w.removed ++ (l.0 ∷ []) }
      else w

  unfoldable pub walk_asks : ℕ → Levels D → Walk D → Walk D
  unfolding walk_ask
  walk_asks now [] w = w
  walk_asks now (l ∷ ls) w = walk_asks now ls (walk_ask now l w)

  unfoldable pub walk_bid : ℕ → D × Item → Walk D → Walk D
  unfolding is_fresh
  walk_bid now l w =
      if is_fresh now l
      then if ltb w.used records_limit
        then record w { items = l.1 ∷ w.items; used = w.used + 1 }
        else record w { removed = w.removed ++ (l.0 ∷ []) }
      else w

  -- The iterator stands at a position: behind the last level at first, where nothing is done. The loop
  -- ends when it reaches the first level.
  unfoldable pub walk_bids : ℕ → Levels D → ℕ → Walk D → Walk D
  unfolding walk_bid
  walk_bids now m zero w = w
  walk_bids now m (suc k) w =
      walk_bids now m k (elim (get_elem? m (suc k)) [ none ↦ w | some l ↦ walk_bid now l w ])

  unfoldable pub remove_levels : List D → Levels D → Levels D
  unfolding remove_level
  remove_levels [] m = m
  remove_levels (r ∷ rs) m = remove_levels rs (remove_level r m)

  unfoldable pub shown_asks : ℕ → Levels D → Walk D
  unfolding walk_asks
  shown_asks now m = walk_asks now m no_walk

  unfoldable pub shown_bids : ℕ → Levels D → Walk D
  unfolding walk_bids
  shown_bids now m = walk_bids now m (length m) no_walk

  unfoldable pub rebuild_indexes : Env D → Node D → Node D × Bool
  unfolding shown_asks shown_bids remove_levels items_eq
  rebuild_indexes env n =
      let a = shown_asks env.now n.asks_indexed in
      let b = shown_bids env.now n.bids_indexed in
      (
        record n {
          asks_indexed = remove_levels a.removed n.asks_indexed;
          bids_indexed = remove_levels b.removed n.bids_indexed;
          asks = a.items;
          bids = b.items;
        },
        not (items_eq n.asks a.items) || not (items_eq n.bids b.items),
      )

  -- `onRawOrderbooks`, with what it hands on. Books without a market are dropped.
  unfoldable pub on_raw_orderbooks :
      Env D
      → List (RawLevel D)
      → List (RawLevel D)
      → ℕ
      → Node D
      → Node D × Option (List Item × List Item)
  unfolding put_levels rebuild_indexes
  on_raw_orderbooks env a b pair n =
      let put = record n {
        asks_indexed = put_levels env n.exchange_name pair a n.asks_indexed;
        bids_indexed = put_levels env n.exchange_name pair b n.bids_indexed;
      } in
      let built = rebuild_indexes env put in
      if nat_beq pair 0
      then (n, none)
      else (built.0, if built.1 then some (built.0.asks, built.0.bids) else none)
