-- ===== src/Tests/Nodes.antt =====
-- The theorems on the order book nodes.
use swift_bot.Prelude.{◌≡◌, refl, [], ◌∷◌, leb}
use swift_bot.Qt.Key.{nat_key}
use swift_bot.Qt.Vector.{list_contains}
use swift_bot.Qt.Map.{lookup}
use swift_bot.Double.{whole}
use swift_bot.Proxy.NodesController.{Controller, find_outdated_pairs, since}
use swift_bot.Proxy.NodesController.Outdated.{find_outdated_pairs_lem}

abbrev controller : Controller
controller = record {
  asks = [];
  bids = [];
  last_pair_update = (1, 90) ∷ (2, 99) ∷ [];
  pair_outdates = [];
  pair_max_outdated = [];
  current_outdated_list = 2 ∷ [];
  results_per_sec = 0;
}

find_outdated_pairs_lem_example :
    list_contains (find_outdated_pairs 100 controller).current_outdated_list 2
    ≡ leb 6 (since 100 99)
unfolding lookup list_contains
find_outdated_pairs_lem_example =
    find_outdated_pairs_lem 100 2 99 controller (refl, (refl, tt)) (refl, tt) refl refl
