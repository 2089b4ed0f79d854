-- ===== src/Orders/Query/Unique.antt =====
-- A query answers no remote id twice, and only with wanted orders.
use swift_bot.Prelude.{
  ◌≡◌, refl, inl, inr, ◌∙◌, sym, ap, String, ℕ, Bool, true, false, not, ◌&&◌, ◌||◌, List, [], ◌∷◌,
  ◌++◌, ◌==◌ as nat_beq, All, All-map, Bool-cases, arith,
}
use swift_bot.Qt.Key.{◌==◌, text_key}
use swift_bot.Qt.Vector.{list_contains, contains-append}
use swift_bot.Qt.Map.{Map}
use swift_bot.Qt.Json.{JsonObject, put_text, get_text-put_text_ne}
use swift_bot.Orders.Order.{Env}
use swift_bot.Orders.Store.{Store, order_at}
use swift_bot.Orders.Query.{
  collect, of_market, remote_text, get_closed_orders_by_pair, get_open_orders_by_pair,
}

-- The orders pass the test, and their remote ids differ from each other.
abbrev pub Distinct : List JsonObject → Type 0
Distinct [] = Unit
Distinct (o ∷ os) = All (λ p. (remote_text o == remote_text p) ≡ false) os × Distinct os

abbrev Fresh : (JsonObject → Bool) → List String → JsonObject → Type 0
Fresh wanted seen j = (wanted j ≡ true) × (list_contains seen (remote_text j) ≡ false)

Fresh-append :
    (wanted : JsonObject → Bool) (seen : List String) (r : String) (j : JsonObject)
    → Fresh wanted (seen ++ (r ∷ [])) j
    → Fresh wanted seen j × ((r == remote_text j) ≡ false)
unfolding list_contains
Fresh-append wanted seen r j (w, f) =
    let e = sym (contains-append seen (r ∷ []) (remote_text j)) ∙ f in
    ((w, or_false_left _ _ e), or_false_left _ _ (or_false_right _ _ e))
  where
    or_false_left : (a b : Bool) → (a || b) ≡ false → a ≡ false
    or_false_left a b h = ground arith

    or_false_right : (a b : Bool) → (a || b) ≡ false → b ≡ false
    or_false_right a b h = ground arith

module _ (wanted : JsonObject → Bool) (dress : JsonObject → JsonObject)
    (keeps : (j : JsonObject)
      → (remote_text (dress j) ≡ remote_text j) × (wanted (dress j) ≡ wanted j))
    (s : Store) where
  collect-Distinct :
      (index : Map String ℕ) (seen : List String)
      → All (Fresh wanted seen) (collect wanted dress s index seen)
        × Distinct (collect wanted dress s index seen)
  unfolding collect
  collect-Distinct [] seen = (tt, tt)
  collect-Distinct ((uid, i) ∷ index) seen =
      let j = order_at s i in
      let (fresh, distinct) = collect-Distinct index (seen ++ (remote_text j ∷ [])) in
      elim (Bool-cases (wanted j && not (list_contains seen (remote_text j)))) [
        | inr e ↦ rw (e, collect) (collect-Distinct index seen)
        | inl e ↦
            let w : wanted j ≡ true = ground arith in
            let f : list_contains seen (remote_text j) ≡ false = ground arith in
            rw (e, collect)
              (
                (
                  ((keeps j).1 ∙ w, ap (list_contains seen) (keeps j).0 ∙ f),
                  All-map _ (λ p h. (Fresh-append wanted seen (remote_text j) p h).0) fresh,
                ),
                (
                  All-map _
                      (λ p h.
                        ap (λ r. r == remote_text p) (keeps j).0
                        ∙ (Fresh-append wanted seen (remote_text j) p h).1)
                      fresh,
                  distinct,
                ),
              )
      ]

module _ {D : Type 0} (env : Env D) where
  -- The closed orders of a market: each has that market, and no two have one remote id.
  pub get_closed_orders_by_pair-Distinct :
      (s : Store) (pair : ℕ)
      → All (λ j. of_market env pair j ≡ true) (get_closed_orders_by_pair env s pair)
        × Distinct (get_closed_orders_by_pair env s pair)
  unfolding get_closed_orders_by_pair of_market
  get_closed_orders_by_pair-Distinct s pair =
      let (fresh, distinct) = collect-Distinct (of_market env pair) _ keeps s s.closed_orders [] in
      (All-map _ (λ j h. h.0) fresh, distinct)
    where
      keeps :
          (j : JsonObject)
          → (remote_text (put_text "exchange_name" (env.market_exchange_name pair) j)
              ≡ remote_text j)
            × (of_market env pair (put_text "exchange_name" (env.market_exchange_name pair) j)
                ≡ of_market env pair j)
      keeps j = (
        get_text-put_text_ne "" "exchange_name" "remote_id" _ j refl,
        ap (λ t. nat_beq (env.to_uint t) pair)
            (get_text-put_text_ne "" "exchange_name" "market_id" _ j refl),
      )

  -- The same of the open orders of a market.
  pub get_open_orders_by_pair-Distinct :
      (s : Store) (pair : ℕ)
      → All (λ j. of_market env pair j ≡ true) (get_open_orders_by_pair env s pair)
        × Distinct (get_open_orders_by_pair env s pair)
  unfolding get_open_orders_by_pair
  get_open_orders_by_pair-Distinct s pair =
      let (fresh, distinct) =
        collect-Distinct (of_market env pair) (λ j. j) (λ j. (refl, refl)) s s.open_orders [] in
      (All-map _ (λ j h. h.0) fresh, distinct)
