-- ===== src/Orders/Query/Opened.antt =====
-- What `getOpenOrders` answers, and where it is undefined.
use swift_bot.Prelude.{
  ◌≡◌, ℕ, refl, ◌⊎◌, inl, inr, true, false, none, some, List, [], ◌∷◌, All, All-map, Has,
  Bool-cases, leb, String,
}
use swift_bot.Qt.Map.{Map}
use swift_bot.Qt.Json.{JsonObject, get_text, json_eq}
use swift_bot.Orders.Order.{Env}
use swift_bot.Orders.Store.{Store, order_at}
use swift_bot.Orders.Query.{name_exchange, settle_open, get_open_orders}

module _ {D : Type 0} (env : Env D) (s : Store) where
  abbrev pub IsOpen : JsonObject → Type 0
  IsOpen j = leb (env.to_uint (get_text "" "status" j)) 1 ≡ true

  -- An entry whose order is not empty and not open.
  abbrev pub IsStale : String × ℕ → Type 0
  IsStale e =
      (json_eq (order_at s e.1) [] ≡ false)
      × (leb (env.to_uint (get_text "" "status" (name_exchange env (order_at s e.1)))) 1 ≡ false)

  -- The order of an entry is empty, or among the answered ones.
  abbrev pub IsAnswered : List JsonObject → String × ℕ → Type 0
  IsAnswered os e =
      (json_eq (order_at s e.1) [] ≡ true) ⊎ Has (name_exchange env (order_at s e.1)) os

  abbrev Answers : Map String ℕ → Type 0
  Answers index =
      ((os : List JsonObject) × (settle_open env index s ≡ some os)
        × All IsOpen os
        × All (IsAnswered os) index)
      ⊎ ((e : String × ℕ) × Has e index × IsStale e × (settle_open env index s ≡ none))

  settle_open-Answers : (index : Map String ℕ) → Answers index
  unfolding settle_open
  settle_open-Answers [] = inl ([], refl, tt, tt)
  settle_open-Answers ((uid, i) ∷ index) =
      let j = order_at s i in
      let named = name_exchange env j in
      let later = settle_open-Answers index in
      elim (Bool-cases (json_eq j [])) [
        | inl e ↦ elim later [
          | inl (os, run, opened, answered) ↦
              inl (os, rw (e, settle_open) run, opened, (inl e, answered))
          | inr (d, there, stale, run) ↦ inr (d, inr there, stale, rw (e, settle_open) run)
        ]
        | inr e ↦ elim (Bool-cases (leb (env.to_uint (get_text "" "status" named)) 1)) [
          | inr f ↦ inr ((uid, i), inl refl, (e, f), rw (e, f, settle_open) refl)
          | inl f ↦ elim later [
            | inl (os, run, opened, answered) ↦ inl (
              named ∷ os,
              rw (e, f, run, settle_open) refl,
              (f, opened),
              (inr (inl refl), All-map index (λ d a. wider os named d a) answered),
            )
            | inr (d, there, stale, run) ↦
                inr (d, inr there, stale, rw (e, f, run, settle_open) refl)
          ]
        ]
      ]
    where
      wider :
          (os : List JsonObject) (o : JsonObject) (d : String × ℕ)
          → IsAnswered os d
          → IsAnswered (o ∷ os) d
      wider os o d (inl empty) = inl empty
      wider os o d (inr there) = inr (inr there)

  -- `getOpenOrders` answers orders with an open state alone, and with them the order of every entry of its
  -- index that is not empty; or an entry's order is neither empty nor open, and the run is undefined.
  pub get_open_orders-IsOpen :
      ((os : List JsonObject) × (get_open_orders env s ≡ some os)
        × All IsOpen os
        × All (IsAnswered os) s.open_orders)
      ⊎ ((e : String × ℕ) × Has e s.open_orders × IsStale e × (get_open_orders env s ≡ none))
  unfolding get_open_orders
  get_open_orders-IsOpen = settle_open-Answers s.open_orders
