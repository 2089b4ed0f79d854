-- ===== src/Window/ArbitrageManager.antt =====
-- swift-lib/arbitragemanager.cpp and arbitragemanager.h: the parameters, the requirements of the pairs,
-- and the orders that are linked to windows, in memory and on disk.
pub mod Links
pub mod Saved
use swift_bot.Prelude.{
  ℕ, String, Bool, true, false, ◌||◌, Option, none, some, List, [], ◌∷◌, ◌++◌, length,
  if◌then◌else◌,
}
use swift_bot.Qt.Key.{nat_key, text_key}
use swift_bot.Qt.Vector.{list_contains}
use swift_bot.Qt.Map.{Map, lookup, contains, value_or, insert}
use swift_bot.Double.{Double, nought}
use swift_bot.Window.ArbitragePair.{Call, link_order as link, place_order, sum_requirements}

-- The file of the links, a JSON object of lists under the printed ids of the windows.
abbrev pub RelsFile : Type 0
RelsFile = Map String (List String)

-- Qt's reading and printing of ids.
pub record IdEnv : Type 0 where
  pub to_uint : String → ℕ
  pub nat_text : ℕ → String

pub record Manager (D : Type 0) : Type 0 where
  pub requested_separated : Map ℕ (Map ℕ D)
  pub aggregated_requests : Map ℕ D
  pub linked_orders : Map ℕ (List String)
  pub window_amounts : Map ℕ (List D)
  pub cached_params : Map String String
  pub avg_rates : Map ℕ D
  pub min_rates : Map ℕ D
  pub max_rates : Map ℕ D

-- A row of the rates of the day: pair, mean, smallest and largest rate.
abbrev pub RateRow : Type 0 → Type 0
RateRow D = ℕ × D × D × D

unfoldable pub save_entries : IdEnv → Map ℕ (List String) → RelsFile → RelsFile
save_entries env [] file = file
save_entries env ((w, ids) ∷ m) file = save_entries env m (insert (env.nat_text w) ids file)

unfoldable pub load_entries : IdEnv → RelsFile → Map ℕ (List String) → Map ℕ (List String)
load_entries env [] m = m
load_entries env ((k, ids) ∷ file) m = load_entries env file (insert (env.to_uint k) ids m)

module _ {D : Type 0} where
  unfoldable pub set_requested : ℕ → Map ℕ D → Manager D → Manager D
  set_requested pair part m = record m {
    requested_separated = insert pair part m.requested_separated;
  }

  unfoldable pub update_param : String → String → Manager D → Manager D
  update_param param value m = record m { cached_params = insert param value m.cached_params }

  unfoldable pub get_window_orders_count : ℕ → Manager D → ℕ
  get_window_orders_count w m = length (value_or w [] m.linked_orders)

  -- `saveOrdersRelsToDisk`: the file it leaves. Without links the file stays.
  unfoldable pub save_orders_rels : IdEnv → Manager D → RelsFile → RelsFile
  unfolding save_entries
  save_orders_rels env m file = elim m.linked_orders [
    | [] ↦ file
    | e ∷ rest ↦ save_entries env (e ∷ rest) []
  ]

  -- `loadOrdersRelFromDisk`: each entry of the file replaces the one in memory.
  unfoldable pub load_orders_rels : IdEnv → RelsFile → Manager D → Manager D
  unfolding load_entries
  load_orders_rels env file m = record m { linked_orders = load_entries env file m.linked_orders }

  unfoldable pub load_pair_rates_history : List (RateRow D) → Manager D → Manager D
  load_pair_rates_history [] m = m
  load_pair_rates_history ((pid, avg, low, high) ∷ rows) m =
      load_pair_rates_history rows (record m {
        avg_rates = insert pid avg m.avg_rates;
        min_rates = insert pid low m.min_rates;
        max_rates = insert pid high m.max_rates;
      })

-- `hasWindow`, over the windows of each pair.
unfoldable pub has_window : ℕ → Map ℕ (List ℕ) → Bool
has_window w [] = false
has_window w ((pair, windows) ∷ pairs) = list_contains windows w || has_window w pairs

-- The settings of a missing parameter: the rows of the table, the session's answer split at "=", where
-- it is joined, and the settings file.
pub record Params : Type 0 where
  pub stored : List (String × String)
  pub is_joined : Bool
  pub answer : String → List String
  pub setting : String → String

load_params : List (String × String) → Map String String → Map String String
load_params [] m = m
load_params ((p, v) ∷ rows) m = load_params rows (insert p v m)

-- The second part of the session's answer; `none` where it has none, which the code reads all the same.
unfoldable pub second_part : List String → Option String
second_part [] = none
second_part (a ∷ []) = none
second_part (a ∷ b ∷ rest) = some b

module _ {D : Type 0} where
  -- An empty cache is filled from the table first.
  unfoldable pub get_param : Params → String → Manager D → Option (Manager D × String)
  unfolding load_params second_part
  get_param env p m =
      let cached : Map String String = elim m.cached_params [
        | [] ↦ load_params env.stored []
        | e ∷ rest ↦ m.cached_params
      ] in
      let stored : String → Manager D × String =
        λ v. (record m { cached_params = insert p v cached }, v) in
      elim (lookup p cached) [
        | some v ↦ some (record m { cached_params = cached }, v)
        | none ↦
            if env.is_joined
            then elim (second_part (env.answer p)) [ none ↦ none | some v ↦ some (stored v) ]
            else some (stored (env.setting p))
      ]

module _ {D : Type 0} ⦃d : Double D⦄ where
  unfoldable pub get_pair_min_rate : ℕ → Manager D → D
  get_pair_min_rate pid m = value_or pid nought m.min_rates

  unfoldable pub get_pair_max_rate : ℕ → Manager D → D
  get_pair_max_rate pid m = value_or pid nought m.max_rates

  unfoldable pub get_pair_avg_rate : ℕ → Manager D → D
  get_pair_avg_rate pid m = value_or pid nought m.avg_rates

  double_contains : List D → D → Bool
  double_contains [] x = false
  double_contains (y ∷ ys) x = d.eq y x || double_contains ys x

  unfoldable pub link_order : String → ℕ → D → Manager D → Manager D
  unfolding double_contains
  link_order id w x m =
      let amounts = value_or w [] m.window_amounts in
      record m {
        linked_orders = insert w (value_or w [] m.linked_orders ++ (id ∷ [])) m.linked_orders;
        window_amounts =
            insert w (if double_contains amounts x then amounts else amounts ++ (x ∷ []))
              m.window_amounts;
      }

  -- The calls of a pair, as far as they reach the manager.
  unfoldable pub on_calls : List (Call D) → Manager D → Manager D
  unfolding link_order
  on_calls [] m = m
  on_calls (link id w x ∷ calls) m = on_calls calls (link_order id w x m)
  on_calls (place_order o ∷ calls) m = on_calls calls m

  -- The rows that `updateRequestedRecord` inserts.
  unfoldable pub requested_rows : Map ℕ D → List (ℕ × D)
  requested_rows [] = []
  requested_rows ((k, x) ∷ m) =
      let rest = requested_rows m in if d.lt nought x then (k, x) ∷ rest else rest

  -- `updateRequested`: what the pairs need, added up by currency, and the rows of it.
  unfoldable pub update_requested : Manager D → Manager D × List (ℕ × D)
  unfolding requested_rows
  update_requested m =
      let total = sum_requirements m.requested_separated [] in
      (record m { aggregated_requests = total }, requested_rows total)
