-- ===== src/Workers/OrderWorker/Messages.antt =====
-- workers/orderworker.cpp: any sequence of messages on the orders.
use swift_bot.Prelude.{String, ◌≡◌, refl, Option, none, some, List, [], ◌∷◌, Bool-cases, inl, inr}
use swift_bot.Qt.Key.{◌==◌, text_key}
use swift_bot.Qt.Json.{JsonObject}
use swift_bot.Double.{Double}
use swift_bot.Orders.Order.{Env}
use swift_bot.Orders.Store.{Store, add_order, add_orders}
use swift_bot.Orders.Store.Valid.{IsValid, add_order-IsValid, add_orders-IsValid}
use swift_bot.Workers.OrderWorker.{first_item, on_message}

module _ {D : Type 0} ⦃d : Double D⦄ (env : Env D) where
  -- The operation succeeds, and its store is valid.
  abbrev pub TakenIn : Option Store → Type 0
  TakenIn r = (t : Store) × (r ≡ some t) × IsValid t

  on_message-TakenIn :
      (s : Store) (name : String) (items : List JsonObject)
      → IsValid s
      → TakenIn (on_message env s name items)
  unfolding on_message
  on_message-TakenIn s name items v =
      let one : TakenIn (add_order env s (first_item items)) = add_order-IsValid env s _ v in
      let all : TakenIn (add_orders env s items) = add_orders-IsValid env s items v in
      let same : TakenIn (some s) = (s, refl, v) in
      elim (Bool-cases (name == "PLACED")) [
        | inl e ↦ rw (e, on_message) one
        | inr e1 ↦ elim (Bool-cases (name == "CANCELED")) [
          | inl e ↦ rw (e1, e, on_message) one
          | inr e2 ↦ elim (Bool-cases (name == "COMPLETED")) [
            | inl e ↦ rw (e1, e2, e, on_message) one
            | inr e3 ↦ elim (Bool-cases (name == "ERROR")) [
              | inl e ↦ rw (e1, e2, e3, e, on_message) same
              | inr e4 ↦ elim (Bool-cases (name == "ACTIVE")) [
                | inl e ↦ rw (e1, e2, e3, e4, e, on_message) all
                | inr e5 ↦ elim (Bool-cases (name == "HISTORY")) [
                  | inl e ↦ rw (e1, e2, e3, e4, e5, e, on_message) all
                  | inr e6 ↦ rw (e1, e2, e3, e4, e5, e6, on_message) same
                ]
              ]
            ]
          ]
        ]
      ]

  -- Messages, one after the other.
  unfoldable pub on_messages : Store → List (String × List JsonObject) → Option Store
  on_messages s [] = some s
  on_messages s ((name, items) ∷ ms) = elim (on_message env s name items) [
    | none ↦ none
    | some t ↦ on_messages t ms
  ]

  -- From a valid store any sequence of messages, known or not, with any number of items, is taken in
  -- without a write out of range, and the store stays valid.
  pub on_messages-TakenIn :
      (s : Store) (ms : List (String × List JsonObject)) → IsValid s → TakenIn (on_messages s ms)
  unfolding on_messages
  on_messages-TakenIn s [] v = (s, refl, v)
  on_messages-TakenIn s ((name, items) ∷ ms) v =
      let (t, e, v') = on_message-TakenIn s name items v in
      let (u, e', v'') = on_messages-TakenIn t ms v' in (u, rw (e, on_messages) e', v'')
