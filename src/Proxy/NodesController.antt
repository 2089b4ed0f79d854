-- ===== src/Proxy/NodesController.antt =====
-- swift-orderbooks-proxy/nodescontroller.cpp: the books of the pairs, the pairs that are out of date,
-- and the rates that are sent on.
pub mod Outdated
pub mod Rates
use swift_bot.Prelude.{
  ℕ, String, Bool, true, false, not, ◌+◌, ◌-◌, ◌%◌, ◌^◌, Option, none, some, List, [], ◌∷◌, ◌++◌,
  ltb, leb, if◌then◌else◌, ◌==◌ as nat_beq,
}
use swift_bot.Qt.Key.{◌==◌, nat_key}
use swift_bot.Qt.Vector.{list_contains, remove_one}
use swift_bot.Qt.Map.{Map, lookup, contains, value_or, insert}
use swift_bot.Double.{Double, nought}

-- A record of a book: the texts of its pair, its rate and its amount.
pub record Item : Type 0 where
  pub pair : String
  pub rate : String
  pub amount : String

pub record Controller : Type 0 where
  pub asks : Map ℕ (List Item)
  pub bids : Map ℕ (List Item)
  pub last_pair_update : Map ℕ ℕ
  pub pair_outdates : Map ℕ (List ℕ)
  pub pair_max_outdated : Map ℕ ℕ
  pub current_outdated_list : List ℕ
  pub results_per_sec : ℕ

-- The loop over the records of one side: the records of each pair, and the time of its update.
index_items :
    (String → ℕ) → ℕ → List Item → Map ℕ (List Item) → Map ℕ ℕ → Map ℕ (List Item) × Map ℕ ℕ
index_items to_uint now [] indexed times = (indexed, times)
index_items to_uint now (it ∷ items) indexed times =
    let pid = to_uint it.pair in
    let taken =
      index_items to_uint now items (insert pid (value_or pid [] indexed ++ (it ∷ [])) indexed)
        (insert pid now times) in
    let skipped = index_items to_uint now items indexed times in
    if ltb 0 pid then taken else skipped

-- The books of the pairs that came replace those that were there.
replace_books : Map ℕ (List Item) → Map ℕ (List Item) → Map ℕ (List Item)
replace_books [] books = books
replace_books ((pid, items) ∷ indexed) books = replace_books indexed (insert pid items books)

pub on_order_books : (String → ℕ) → ℕ → List Item → List Item → Controller → Controller
unfolding index_items replace_books
on_order_books to_uint now [] [] c = c
on_order_books to_uint now (x ∷ a) b c =
    let ia = index_items to_uint now (x ∷ a) [] c.last_pair_update in
    let ib = index_items to_uint now b [] ia.1 in
    record c {
      asks = replace_books ia.0 c.asks;
      bids = replace_books ib.0 c.bids;
      last_pair_update = ib.1;
      results_per_sec = (c.results_per_sec + 1) % 2 ^ 64;
    }
on_order_books to_uint now [] (y ∷ b) c =
    let ib = index_items to_uint now (y ∷ b) [] c.last_pair_update in
    record c {
      bids = replace_books ib.0 c.bids;
      last_pair_update = ib.1;
      results_per_sec = (c.results_per_sec + 1) % 2 ^ 64;
    }

-- Since the update of a pair, in `quint64`.
abbrev pub since : ℕ → ℕ → ℕ
since now time = (now + 2 ^ 64 - time) % 2 ^ 64

-- One pair of `findOutdatedPairs`.
pub check_pair : ℕ → ℕ → ℕ → Controller → Controller
check_pair now pid time c =
    let diff = since now time in
    let noted : Controller = record c {
      pair_outdates = insert pid (value_or pid [] c.pair_outdates ++ (diff ∷ [])) c.pair_outdates;
      pair_max_outdated =
          if ltb (value_or pid 0 c.pair_max_outdated) diff
          then insert pid diff c.pair_max_outdated
          else c.pair_max_outdated;
      current_outdated_list =
          if list_contains c.current_outdated_list pid
          then c.current_outdated_list
          else c.current_outdated_list ++ (pid ∷ []);
    } in
    if nat_beq (value_or pid 0 c.last_pair_update) 0
    then c
    else if leb 6 diff
    then noted
    else record c { current_outdated_list = remove_one pid c.current_outdated_list }

check_pairs : ℕ → Map ℕ ℕ → Controller → Controller
unfolding check_pair
check_pairs now [] c = c
check_pairs now ((pid, time) ∷ times) c = check_pairs now times (check_pair now pid time c)

pub find_outdated_pairs : ℕ → Controller → Controller
unfolding check_pairs
find_outdated_pairs now c = check_pairs now c.last_pair_update c

module _ {D : Type 0} ⦃d : Double D⦄ where
  -- The rates of all records of one side, in the order of the books.
  rates_of : (String → ℕ) → (String → D) → List Item → List (ℕ × D)
  rates_of to_uint to_double [] = []
  rates_of to_uint to_double (it ∷ items) =
      (to_uint it.pair, to_double it.rate) ∷ rates_of to_uint to_double items

  pub all_rates : (String → ℕ) → (String → D) → Map ℕ (List Item) → List (ℕ × D)
  unfolding rates_of
  all_rates to_uint to_double [] = []
  all_rates to_uint to_double ((pid, items) ∷ books) =
      rates_of to_uint to_double items ++ all_rates to_uint to_double books

  pub keep_min : ℕ → D → Map ℕ D → Map ℕ D
  keep_min pid rate m =
      if contains pid m
      then if d.lt rate (value_or pid nought m) then insert pid rate m else m
      else insert pid rate m

  -- The smallest ask of each pair.
  pub min_rates : List (ℕ × D) → Map ℕ D → Map ℕ D
  unfolding keep_min
  min_rates [] m = m
  min_rates ((pid, rate) ∷ rs) m = min_rates rs (keep_min pid rate m)

  pub keep_max : ℕ → D → Map ℕ D → Map ℕ D
  keep_max pid rate m =
      if contains pid m
      then if d.lt (value_or pid nought m) rate then insert pid rate m else m
      else insert pid rate m

  -- The largest bid of each pair.
  pub max_rates : List (ℕ × D) → Map ℕ D → Map ℕ D
  unfolding keep_max
  max_rates [] m = m
  max_rates ((pid, rate) ∷ rs) m = max_rates rs (keep_max pid rate m)

  pub middle : D → D → D
  middle bid ask =
      if d.lt ask bid
      then d.sub bid (d.div (d.sub bid ask) (d.lit 2 0))
      else d.sub ask (d.div (d.sub ask bid) (d.lit 2 0))

  pub middle_rates : Map ℕ D → Map ℕ D → Map ℕ D → Map ℕ D
  unfolding middle
  middle_rates [] bids r = r
  middle_rates ((pid, ask) ∷ asks) bids r =
      middle_rates asks bids
        (elim (lookup pid bids) [ none ↦ r | some bid ↦ insert pid (middle bid ask) r ])

  -- `sendRates`: what is emitted, nothing where it is empty.
  pub send_rates : (String → ℕ) → (String → D) → Controller → Map ℕ D
  unfolding all_rates min_rates max_rates middle_rates
  send_rates to_uint to_double c =
      middle_rates (min_rates (all_rates to_uint to_double c.asks) [])
        (max_rates (all_rates to_uint to_double c.bids) []) []
