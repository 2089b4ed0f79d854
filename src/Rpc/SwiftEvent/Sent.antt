-- ===== src/Rpc/SwiftEvent/Sent.antt =====
-- swift-lib/systemevent.cpp: an event that one service writes and another one reads.
use swift_bot.Prelude.{
  ℕ, String, ◌≡◌, refl, ◌∙◌, ap, Bool, none, some, List, [], ◌∷◌, if◌then◌else◌, Bool-cases,
  Option-cases, ◌⊎◌, inl, inr, arith,
}
use swift_bot.Qt.Key.{◌==◌, text_key}
use swift_bot.Qt.Vector.{list_contains}
use swift_bot.Qt.Map.{lookup, insert, lookup-insert}
use swift_bot.Qt.Json.{JsonObject, get_text, get_text-put_text_self}
use swift_bot.Rpc.SwiftEvent.{
  EventType, order_event, balance_event, account_event, system_event, withdraw_event, deposit_event,
  custom_event, SwiftEvent, get_event_type, get_event_type_name, new_event, of_json, to_json,
  set_exchange_id, order_properties, copy_properties, prepare_event_target,
}

-- The name of a type reads back as the type.
get_event_type-get_event_type_name : (k : EventType) → get_event_type (get_event_type_name k) ≡ k
unfolding get_event_type get_event_type_name
get_event_type-get_event_type_name order_event = refl
get_event_type-get_event_type_name balance_event = refl
get_event_type-get_event_type_name account_event = refl
get_event_type-get_event_type_name system_event = refl
get_event_type-get_event_type_name withdraw_event = refl
get_event_type-get_event_type_name deposit_event = refl
get_event_type-get_event_type_name custom_event = refl

-- The exchange of an event is that of its target.
abbrev pub IsOfTarget : (String → ℕ) → SwiftEvent → Type 0
IsOfTarget to_uint e = to_uint (get_text "" "exchange_id" e.target) ≡ e.exchange_id

same_either : {A : Type 0} (b : Bool) (a : A) → (if b then a else a) ≡ a
same_either b a = ground arith

module _ (to_uint to_ulonglong : String → ℕ) (nat_text : ℕ → String) where
  -- An event whose exchange is that of its target, and whose time reads back as it is printed, is read
  -- as it was written.
  pub of_json-to_json :
      (e : SwiftEvent)
      → IsOfTarget to_uint e
      → to_ulonglong (nat_text e.time) ≡ e.time
      → of_json to_uint to_ulonglong (to_json nat_text e) ≡ e
  unfolding of_json to_json
  of_json-to_json e target time = rw (get_event_type-get_event_type_name e.kind, target, time) refl

  -- One property copied.
  abbrev copied : String → JsonObject → JsonObject → JsonObject
  copied c from to = elim (lookup c from) [ none ↦ to | some v ↦ insert c v to ]

  lookup-copied :
      (c : String) (from to : JsonObject) (k : String)
      → (lookup k to ≡ none) ⊎ (lookup k to ≡ lookup k from)
      → lookup k (copied c from to) ≡ (if c == k then lookup k from else lookup k to)
  lookup-copied c from to k h = elim (Bool-cases (c == k)) [
    | inl e ↦
        let same : c ≡ k = (text_key.beq_iff c k).0 e in
        elim (Option-cases (lookup k from)) [
          | inl q ↦
              let q' : lookup c from ≡ none = ap (λ i. lookup i from) same ∙ q in
              let empty : lookup k to ≡ none = elim h [ inl x ↦ x | inr x ↦ x ∙ q ] in
              rw (copied, q', e, q) empty
          | inr (v, q) ↦
              let q' : lookup c from ≡ some v = ap (λ i. lookup i from) same ∙ q in
              rw (copied, q', e, q) (lookup-insert c k v to ∙ rw (e) refl)
        ]
    | inr e ↦ elim (Option-cases (lookup c from)) [
      | inl q ↦ rw (copied, q, e) refl
      | inr (v, q) ↦ rw (copied, q, e) (lookup-insert c k v to ∙ rw (e) refl)
    ]
  ]

  lookup-copy_properties :
      (ks : List String) (from to : JsonObject) (k : String)
      → (lookup k to ≡ none) ⊎ (lookup k to ≡ lookup k from)
      → lookup k (copy_properties ks from to)
        ≡ (if list_contains ks k then lookup k from else lookup k to)
  unfolding copy_properties list_contains
  lookup-copy_properties [] from to k h = refl
  lookup-copy_properties (c ∷ cs) from to k h =
      let one = lookup-copied c from to k h in
      elim (Bool-cases (c == k)) [
        | inl e ↦
            let here : lookup k (copied c from to) ≡ lookup k from = one ∙ rw (e) refl in
            lookup-copy_properties cs from (copied c from to) k (inr here)
            ∙ rw (e, here) (same_either (list_contains cs k) (lookup k from))
        | inr e ↦
            let there : lookup k (copied c from to) ≡ lookup k to = one ∙ rw (e) refl in
            let h' : (lookup k (copied c from to) ≡ none)
                ⊎ (lookup k (copied c from to) ≡ lookup k from) =
              elim h [ inl x ↦ inl (there ∙ x) | inr x ↦ inr (there ∙ x) ] in
            lookup-copy_properties cs from (copied c from to) k h' ∙ rw (e, there) refl
      ]

  -- What is sent of a target: its properties of the list, as they were, and nothing else.
  pub prepare_event_target-lookup :
      (ks : List String) (e : SwiftEvent) (k : String)
      → lookup k (prepare_event_target ks e).target
        ≡ (if list_contains ks k then lookup k e.target else none)
  unfolding prepare_event_target lookup
  prepare_event_target-lookup ks e k = lookup-copy_properties ks e.target [] k (inl refl)

  -- Any event is of its target that is made of a target, given an exchange whose number reads back, or
  -- cut down to the properties of an order.
  new_event-IsOfTarget :
      (k : EventType) (n : String) (o : JsonObject) (now : ℕ)
      → IsOfTarget to_uint (new_event to_uint k n o now)
  unfolding new_event
  new_event-IsOfTarget k n o now = refl

  set_exchange_id-IsOfTarget :
      (n : ℕ) (e : SwiftEvent)
      → to_uint (nat_text n) ≡ n
      → IsOfTarget to_uint (set_exchange_id nat_text n e)
  unfolding set_exchange_id
  set_exchange_id-IsOfTarget n e back =
      ap to_uint (get_text-put_text_self "" "exchange_id" (nat_text n) e.target) ∙ back

  prepare_event_target-IsOfTarget :
      (e : SwiftEvent)
      → IsOfTarget to_uint e
      → IsOfTarget to_uint (prepare_event_target order_properties e)
  unfolding prepare_event_target get_text list_contains
  prepare_event_target-IsOfTarget e h =
      rw (prepare_event_target-lookup order_properties e "exchange_id") h

  -- An order event that is made of any target, given an exchange, and cut down to the properties of an
  -- order, arrives as it was sent, where the time and the exchange read back as they are printed.
  pub order_event_arrives :
      (name : String) (o : JsonObject) (now n : ℕ)
      → to_ulonglong (nat_text now) ≡ now
      → to_uint (nat_text n) ≡ n
      → let e =
          prepare_event_target order_properties
            (set_exchange_id nat_text n (new_event to_uint order_event name o now)) in
        of_json to_uint to_ulonglong (to_json nat_text e) ≡ e
  unfolding prepare_event_target set_exchange_id new_event
  order_event_arrives name o now n time back =
      of_json-to_json _
        (prepare_event_target-IsOfTarget
          (set_exchange_id nat_text n (new_event to_uint order_event name o now))
          (set_exchange_id-IsOfTarget n (new_event to_uint order_event name o now) back))
        time
