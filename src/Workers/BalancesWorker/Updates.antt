-- ===== src/Workers/BalancesWorker/Updates.antt =====
-- workers/balancesworker.cpp: what `onUpdateEvent` leaves for the currencies that an update reports,
-- and for those of the exchange that it leaves out.
use swift_bot.Prelude.{
  ℕ, String, ◌≡◌, refl, ◌∙◌, ap, ap₂, inl, inr, true, false, Option, none, some, List, [], ◌∷◌,
  ◌++◌, arith, map, ltb, Bool-cases, Option-cases, ◌==◌ as nat_beq, if◌then◌else◌,
}
use swift_bot.Qt.Key.{◌==◌, nat_key, text_key}
use swift_bot.Qt.Map.{Map, lookup, contains, insert, lookup-insert, lookup-insert_ne}
use swift_bot.Qt.Sorted.{IsSorted, insert-IsSorted}
use swift_bot.Qt.Json.{JsonObject, get_text, lookup-put_text_ne}
use swift_bot.Double.{Double, nought}
use swift_bot.Workers.BalancesWorker.{
  Env, Worker, id_of, in_orders_of, complete, put_item, put_items, missing_items, any_currency,
  on_update_event, calculate_summaries,
}
use swift_bot.Workers.BalancesWorker.Summaries.{IsKeyed, Shows, calculate_summaries-Shows}

module _ {D : Type 0} ⦃d : Double D⦄ (env : Env D) where
  -- The fields of an item that `complete` does not write.
  lookup-complete :
      (f : String) (rates : Map ℕ D) (o : JsonObject)
      → ("usd" == f) ≡ false
      → ("exchange_name" == f) ≡ false
      → ("is_token" == f) ≡ false
      → ("coin_id" == f) ≡ false
      → lookup f (complete env rates o) ≡ lookup f o
  unfolding complete
  lookup-complete f rates o usd name token coin = elim (Bool-cases (contains "coin_id" o)) [
    | inl e ↦ rw (e, complete) refl
    | inr e ↦
        rw (e, complete)
          (lookup-put_text_ne "usd" f _ _ usd
            ∙ lookup-put_text_ne "exchange_name" f _ _ name
            ∙ lookup-insert_ne "is_token" f _ _ token
            ∙ lookup-put_text_ne "coin_id" f _ o coin)
  ]

  get_text-complete :
      (f x : String) (rates : Map ℕ D) (o : JsonObject)
      → ("usd" == f) ≡ false
      → ("exchange_name" == f) ≡ false
      → ("is_token" == f) ≡ false
      → ("coin_id" == f) ≡ false
      → get_text x f (complete env rates o) ≡ get_text x f o
  unfolding get_text
  get_text-complete f x rates o usd name token coin =
      rw (lookup-complete f rates o usd name token coin) refl

  id_of-complete :
      (rates : Map ℕ D) (o : JsonObject) → id_of env (complete env rates o) ≡ id_of env o
  id_of-complete rates o =
      ap env.to_uint (get_text-complete "currency_id" "" rates o refl refl refl refl)

  -- A table that shows the completed item shows the item.
  Shows-complete :
      (k : ℕ) (rates : Map ℕ D) (o : JsonObject) (w : Worker D)
      → Shows env k (complete env rates o) w
      → Shows env k o w
  unfolding in_orders_of
  Shows-complete k rates o w (total, available, reserved, orders) =
      let same : (f x : String)
          → ("usd" == f) ≡ false
          → ("exchange_name" == f) ≡ false
          → ("is_token" == f) ≡ false
          → ("coin_id" == f) ≡ false
          → get_text x f (complete env rates o) ≡ get_text x f o =
        λ f x. get_text-complete f x rates o in
      (
        total ∙ ap (λ s. some (env.to_double s)) (same "total" "" refl refl refl refl),
        available ∙ ap (λ s. some (env.to_double s)) (same "available" "" refl refl refl refl),
        reserved ∙ ap (λ s. some (env.to_double s)) (same "reserved" "" refl refl refl refl),
        orders
            ∙ ap₂ (λ s t. some (if s == "NaN" then nought else env.to_double t))
                (same "in_orders" "" refl refl refl refl)
                (same "in_orders" "0" refl refl refl refl),
      )

  -- The last item of a list that names a currency.
  unfoldable pub reported : ℕ → List JsonObject → Option JsonObject
  reported k [] = none
  reported k (o ∷ os) = elim (reported k os) [
    | none ↦ if nat_beq (id_of env o) k then some o else none
    | some p ↦ some p
  ]

  put_item-cached_rates :
      (w : Worker D) (o : JsonObject) → (put_item env w o).cached_rates ≡ w.cached_rates
  unfolding put_item
  put_item-cached_rates w o = elim (Bool-cases (ltb 0 (id_of env o))) [
    | inl e ↦ rw (e, put_item) refl
    | inr e ↦ rw (e, put_item) refl
  ]

  abbrev or_else : Map ℕ D → Option JsonObject → Option JsonObject → Option JsonObject
  or_else rates none was = was
  or_else rates (some o) was = some (complete env rates o)

  put_item-mapped :
      (k : ℕ) (w : Worker D) (o : JsonObject)
      → ltb 0 k ≡ true
      → lookup k (put_item env w o).mapped
        ≡ or_else w.cached_rates
            (if nat_beq (id_of env o) k then some o else none)
            (lookup k w.mapped)
  unfolding put_item
  put_item-mapped k w o pos =
      let put = complete env w.cached_rates o in
      elim (Bool-cases (nat_beq (id_of env o) k)) [
        | inl e ↦
            let h : ltb 0 (id_of env o) ≡ true = ground (arith, e, pos) in
            rw (e, h, put_item) (lookup-insert (id_of env o) k put w.mapped ∙ rw (e) refl)
        | inr e ↦ elim (Bool-cases (ltb 0 (id_of env o))) [
          | inl h ↦ rw (e, h, put_item) (lookup-insert (id_of env o) k put w.mapped ∙ rw (e) refl)
          | inr h ↦ rw (e, h, put_item) refl
        ]
      ]

  put_items-mapped :
      (k : ℕ) (os : List JsonObject) (w : Worker D)
      → ltb 0 k ≡ true
      → lookup k (put_items env w os).mapped
        ≡ or_else w.cached_rates (reported k os) (lookup k w.mapped)
  unfolding put_items reported
  put_items-mapped k [] w pos = refl
  put_items-mapped k (o ∷ os) w pos =
      let run =
        put_items-mapped k os (put_item env w o) pos
        ∙ ap₂ (λ r was. or_else r (reported k os) was) (put_item-cached_rates w o)
            (put_item-mapped k w o pos) in
      elim (Option-cases (reported k os)) [
        | inl e ↦ run ∙ rw (e) refl
        | inr (p, e) ↦ run ∙ rw (e) refl
      ]

  -- The items are sorted by currency, and each names its own.
  abbrev pub IsKept : Worker D → Type 0
  IsKept w = IsSorted w.mapped × IsKeyed env w.mapped

  pub IsKeyed-insert :
      (k : ℕ) (o : JsonObject) (m : Map ℕ JsonObject)
      → id_of env o ≡ k
      → IsKeyed env m
      → IsKeyed env (insert k o m)
  unfolding insert
  IsKeyed-insert k o [] own h = (own, tt)
  IsKeyed-insert k o ((j, p) ∷ m) own (h, rest) =
      let tail = IsKeyed-insert k o m own rest in
      elim (Bool-cases (nat_beq j k)) [
        | inl e ↦ rw (e) (own, rest)
        | inr e ↦ elim (Bool-cases (ltb k j)) [
          | inl f ↦ rw (e, f) (own, (h, rest))
          | inr f ↦ rw (e, f) (h, tail)
        ]
      ]

  put_item-IsKept : (w : Worker D) (o : JsonObject) → IsKept w → IsKept (put_item env w o)
  unfolding put_item
  put_item-IsKept w o (sorted, keyed) = elim (Bool-cases (ltb 0 (id_of env o))) [
    | inl e ↦
        rw (e, put_item)
          (
            insert-IsSorted _ _ w.mapped sorted,
            IsKeyed-insert _ _ w.mapped (id_of-complete w.cached_rates o) keyed,
          )
    | inr e ↦ rw (e, put_item) (sorted, keyed)
  ]

  pub put_items-IsKept :
      (os : List JsonObject) (w : Worker D) → IsKept w → IsKept (put_items env w os)
  unfolding put_items
  put_items-IsKept [] w h = h
  put_items-IsKept (o ∷ os) w h = put_items-IsKept os (put_item env w o) (put_item-IsKept w o h)

  any_currency-reported :
      (k : ℕ) (os : List JsonObject) {o : JsonObject}
      → ltb 0 k ≡ true
      → reported k os ≡ some o
      → any_currency env os ≡ true
  unfolding any_currency reported
  any_currency-reported k [] pos h = ground (arith, h)
  any_currency-reported k (p ∷ os) pos h = elim (Option-cases (reported k os)) [
    | inr (q, e) ↦ rw (any_currency-reported k os pos e) (ground arith)
    | inl e ↦ ground (arith, e, h, pos)
  ]

  -- The items of an event and those of the currencies that it leaves out.
  abbrev pub all_items : String → List JsonObject → List JsonObject
  all_items exchange balances =
      let e = env.to_uint exchange in
      balances ++ missing_items env e (map (id_of env) balances) (env.exchange_currencies e)

  pub on_update_event-items :
      (k : ℕ) (exchange : String) (balances : List JsonObject) (w : Worker D) {o : JsonObject}
      → IsKept w
      → ltb 0 k ≡ true
      → reported k (all_items exchange balances) ≡ some o
      → Shows env k o (on_update_event env w exchange balances)
  unfolding on_update_event
  on_update_event-items k exchange balances w {o} kept pos h =
      let items = all_items exchange balances in
      let after = put_items-IsKept items w kept in
      let found : lookup k (put_items env w items).mapped ≡ some (complete env w.cached_rates o) =
        put_items-mapped k items w pos ∙ ap (λ r. or_else w.cached_rates r (lookup k w.mapped)) h in
      rw (any_currency-reported k items pos h, on_update_event)
        (Shows-complete k w.cached_rates o (calculate_summaries env (put_items env w items))
          (calculate_summaries-Shows env k _ (put_items env w items) after.0 after.1 found))
