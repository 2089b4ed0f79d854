-- ===== src/Tests/Links.antt =====
-- The theorem on the saved links, at ids that are printed with as many strokes.
use swift_bot.Prelude.{ℕ, suc, zero, ◌≡◌, refl, ap, String, some, [], ◌∷◌}
use swift_bot.Qt.Key.{nat_key, text_key}
use swift_bot.Qt.Map.{lookup}
use swift_bot.Double.{whole}
use swift_bot.Window.ArbitrageManager.{
  IdEnv, Manager, save_orders_rels, load_orders_rels, link_order,
}
use swift_bot.Window.ArbitrageManager.Saved.{load_orders_rels-save_orders_rels}

abbrev strokes : ℕ → String
strokes zero = ""
strokes (suc n) = String.◌∷◌ "|" (strokes n)

abbrev count : String → ℕ
count String.[] = 0
count (String.◌∷◌ c s) = suc (count s)

count-strokes : (n : ℕ) → count (strokes n) ≡ n
count-strokes zero = refl
count-strokes (suc n) = ap suc (count-strokes n)

abbrev env : IdEnv
env = record { to_uint = count; nat_text = strokes }

abbrev linked : Manager ℕ
linked = record {
  requested_separated = [];
  aggregated_requests = [];
  linked_orders = (1, "a" ∷ []) ∷ (3, "b" ∷ "c" ∷ []) ∷ [];
  window_amounts = [];
  cached_params = [];
  avg_rates = [];
  min_rates = [];
  max_rates = [];
}

-- An order is linked to the window 3 between saving and loading.
abbrev linked_later : Manager ℕ
linked_later = link_order "d" 3 7 linked

load_orders_rels-save_orders_rels_example :
    lookup 3 (load_orders_rels env (save_orders_rels env linked []) linked_later).linked_orders
    ≡ some ("b" ∷ "c" ∷ [])
unfolding lookup
load_orders_rels-save_orders_rels_example =
    load_orders_rels-save_orders_rels env (λ w is_id. count-strokes w) linked linked_later []
      (1, "a" ∷ []) ((3, "b" ∷ "c" ∷ []) ∷ []) refl ((refl, tt), (tt, tt)) (refl, (refl, tt)) 3 refl
