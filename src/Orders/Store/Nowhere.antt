-- ===== src/Orders/Store/Nowhere.antt =====
-- An empty store, on which `updateOrder` has nowhere to write.
use swift_bot.Prelude.{◌≡◌, ◌≢◌, none, ◌∙◌, ap, inl, inr, String, [], length, arith, Bool-cases}
use swift_bot.Qt.Key.{text_key}
use swift_bot.Qt.Map.{value_or}
use swift_bot.Qt.Json.{JsonObject, json_eq, json_eq→eq}
use swift_bot.Double.{Double}
use swift_bot.Orders.Order.{Env, prepare-ne-nil}
use swift_bot.Orders.Store.{
  Store, get_order, replace_order, update_order, remote_of, local_of, store_prepared,
}
use swift_bot.Orders.Store.Valid.{prepared, stamped}

get_order_nowhere : (s : Store) (r l : String) → s.orders ≡ [] → get_order s r l ≡ []
unfolding get_order
get_order_nowhere s r l e = ground arith

store_nowhere : (s : Store) (p : JsonObject) → p ≢ [] → s.orders ≡ [] → store_prepared s p ≡ none
unfolding store_prepared replace_order
store_nowhere s p full e = elim (Bool-cases (json_eq p (get_order s (remote_of p) (local_of p)))) [
  | inl same ↦
      absurd (full (json_eq→eq _ _ same ∙ get_order_nowhere s (remote_of p) (local_of p) e))
  | inr changed ↦ rw (changed, store_prepared) (replace_nowhere s p (ap length e))
]
  where
    replace_nowhere :
        (s : Store) (p : JsonObject)
        → length s.orders ≡ 0
        → replace_order s (value_or (remote_of p) 0 s.ext_id) p ≡ none
    replace_nowhere s p h = ground arith

-- On an empty store `updateOrder` has nowhere to write.
pub update_order_nowhere :
    {D : Type 0} ⦃d : Double D⦄ (env : Env D) (s : Store) (o : JsonObject)
    → s.orders ≡ []
    → update_order env s o ≡ none
unfolding update_order
update_order_nowhere env s o e = rw (
  store_nowhere (stamped env s o) (prepared env s o) (prepare-ne-nil env s.uuids o) e,
  update_order,
)
