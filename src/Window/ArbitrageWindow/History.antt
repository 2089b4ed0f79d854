-- ===== src/Window/ArbitrageWindow/History.antt =====
-- What stays of a window through its operations.
use swift_bot.Prelude.{
  ℕ, ◌≤◌, ◌≡◌, Bool, true, String, ◌+◌, ◌-◌, ◌%◌, ◌^◌, inl, inr, some, List, [], ◌∷◌, length,
  length-append, leb, arith, Bool-cases, Option-cases, OnSome, subst, reverse, not, ◌&&◌, ◌||◌,
  false,
}
use swift_bot.Qt.Key.{nat_key}
use swift_bot.Qt.Map.{contains, value_or}
use swift_bot.Qt.Json.{JsonObject}
use swift_bot.Double.{Double, nought}
use swift_bot.Window.Orderbook.{Variant, variants, profitable, levels}
use swift_bot.Window.ArbitrageWindow.{
  Window, Call, Books, on_order, has_sprint, keep_100, take_rates, record_history, choose,
  is_affordable, settle, with_balances, on_variants, crossed, or_last, calculate_orderbooks,
  get_spread_percent, check_is_active, enable, disable, add_window_order_uid,
}

module _ {D : Type 0} where
  -- At most 100 values are kept of each rate and of the spread, and the lock is as given.
  abbrev pub IsKept : Bool → Window D → Type 0
  IsKept locked w =
      (length w.spread_avg ≤ 100)
      × (length w.sell_rate_avg ≤ 100)
      × (length w.buy_rate_avg ≤ 100)
      × (w.is_locked ≡ locked)

  keep_100-length : (x : D) (xs : List D) → length xs ≤ 100 → length (keep_100 x xs) ≤ 100
  unfolding keep_100
  keep_100-length x [] h = omega arith
  keep_100-length x (y ∷ ys) h = ground (arith, length-append ys (x ∷ []))

-- What happens to a window between two calls of `lock` and `unlock`.
module _ {D : Type 0} ⦃d : Double D⦄ where
  pub data Step : Window D → Window D → Type 0 where
    books :
        {w w' : Window D} (fuel : ℕ) (available : ℕ → D) (asks bids : Books D)
        (calls : List (Call D))
        → calculate_orderbooks fuel available asks bids w ≡ some (w', calls)
        → Step w w'
    order : {w w' : Window D} (o : JsonObject) → on_order o w ≡ w' → Step w w'
    timer : {w w' : Window D} (now : ℕ) → check_is_active now w ≡ w' → Step w w'
    enabled : {w w' : Window D} → (enable w).0 ≡ w' → Step w w'
    disabled : {w w' : Window D} → (disable w).0 ≡ w' → Step w w'
    placed : {w w' : Window D} (uid : String) → add_window_order_uid uid w ≡ w' → Step w w'

  pub data Steps : Window D → Window D → Type 0 where
    done : (w : Window D) → Steps w w
    step : {u v w : Window D} → Step u v → Steps v w → Steps u w

module _ {D : Type 0} ⦃d : Double D⦄ (locked : Bool) where
  record_history-IsKept : (w : Window D) → IsKept locked w → IsKept locked (record_history w)
  unfolding record_history
  record_history-IsKept w (a, b, c, l) = (
    keep_100-length (get_spread_percent w) w.spread_avg a,
    elim (Bool-cases (d.lt nought w.sell_rate)) [
      | inl e ↦ rw (e) (keep_100-length w.sell_rate w.sell_rate_avg b)
      | inr e ↦ rw (e) b
    ],
    elim (Bool-cases (d.lt nought w.buy_rate)) [
      | inl e ↦ rw (e) (keep_100-length w.buy_rate w.buy_rate_avg c)
      | inr e ↦ rw (e) c
    ],
    l,
  )

  take_rates-IsKept :
      (first : Variant D) (vs : List (Variant D)) (w : Window D)
      → IsKept locked w
      → IsKept locked (take_rates first vs w)
  unfolding take_rates
  take_rates-IsKept first [] w h = h
  take_rates-IsKept first (v ∷ vs) w h = h

  -- Whatever is chosen, the statistics stay.
  choose-IsKept :
      (w : Window D) (vs : List (Variant D)) (x y : D)
      → IsKept locked w
      → IsKept locked (choose w x y vs).0
  unfolding choose
  choose-IsKept w [] x y h = elim (Bool-cases (d.lt nought y)) [
    | inl e ↦ elim (Bool-cases (d.lt nought x)) [
      | inl f ↦ rw (e, f, choose) h
      | inr f ↦ rw (e, f, choose) h
    ]
    | inr e ↦ elim (Bool-cases (d.lt nought x)) [
      | inl f ↦ rw (e, f, choose) h
      | inr f ↦ rw (e, f, choose) h
    ]
  ]
  choose-IsKept w (v ∷ vs) x y h = elim (Bool-cases (is_affordable w.sb w.bb v)) [
    | inl e ↦ rw (e, choose) h
    | inr e ↦ rw (e, choose) (choose-IsKept w vs _ _ h)
  ]

  settle-IsKept :
      (vs : List (Variant D)) (w : Window D) → IsKept locked w → IsKept locked (settle vs w).0
  unfolding settle
  settle-IsKept [] w h = h
  settle-IsKept (v ∷ vs) w h = choose-IsKept w (reverse (v ∷ vs)) nought nought h

  on_variants-IsKept :
      (available : ℕ → D) (w : Window D) (vs : List (Variant D))
      → IsKept locked w
      → IsKept locked (on_variants available w vs).0
  unfolding on_variants
  on_variants-IsKept available w [] h = h
  on_variants-IsKept available w (v ∷ vs) h =
      let good = profitable (v ∷ vs) in
      let w' = with_balances available w in
      let short : IsKept locked w' = h in
      settle-IsKept good _
        (record_history-IsKept (take_rates v good w') (take_rates-IsKept v good w' short))

  run-IsKept :
      (fuel : ℕ) (available : ℕ → D) (asks bids : Books D) (w : Window D)
      → IsKept locked w
      → OnSome (λ r. IsKept locked r.0) (calculate_orderbooks fuel available asks bids w)
  unfolding calculate_orderbooks
  run-IsKept fuel available asks_ bids_ w h =
      let asks = or_last (value_or w.buy_pair_id [] asks_) w.asks_last in
      let bids = or_last (value_or w.sell_pair_id [] bids_) w.bids_last in
      let found =
        variants fuel (levels asks) (levels bids) w.sell_fee w.buy_fee w.max_order_size
          w.order_size_step w.min_order_size in
      let w' = record w { asks_last = asks; bids_last = bids; valid = true } in
      elim (Bool-cases
        (not (contains w.buy_pair_id asks_) && not (contains w.sell_pair_id bids_))) [
          | inl e ↦ rw (e, calculate_orderbooks) h
          | inr e ↦ elim (Bool-cases (leb (length asks) 1 || leb (length bids) 1)) [
            | inl f ↦ rw (e, f, calculate_orderbooks) h
            | inr f ↦ elim (Option-cases (crossed asks bids)) [
              | inl g ↦ rw (e, f, g, calculate_orderbooks) tt
              | inr (false, g) ↦ rw (e, f, g, calculate_orderbooks) h
              | inr (true, g) ↦ elim (Option-cases found) [
                | inl k ↦ rw (e, f, g, k, calculate_orderbooks) tt
                | inr (vs, k) ↦
                    rw (e, f, g, k, calculate_orderbooks) (on_variants-IsKept available w' vs h)
              ]
            ]
          ]
        ]

  calculate_orderbooks-IsKept :
      (fuel : ℕ) (available : ℕ → D) (asks bids : Books D) (w w' : Window D) (calls : List (Call D))
      → IsKept locked w
      → calculate_orderbooks fuel available asks bids w ≡ some (w', calls)
      → IsKept locked w'
  calculate_orderbooks-IsKept fuel available asks bids w w' calls h run =
      subst (OnSome (λ r. IsKept locked r.0)) run (run-IsKept fuel available asks bids w h)

  check_is_active-IsKept :
      (now : ℕ) (w : Window D) → IsKept locked w → IsKept locked (check_is_active now w)
  unfolding check_is_active
  check_is_active-IsKept now w h =
      elim (Bool-cases (leb 250 ((now + 2 ^ 64 - w.last_available_time) % 2 ^ 64))) [
        | inl e ↦ rw (e, check_is_active) h
        | inr e ↦ rw (e, check_is_active) h
      ]

  on_order-IsKept : (o : JsonObject) (w : Window D) → IsKept locked w → IsKept locked (on_order o w)
  unfolding on_order has_sprint
  on_order-IsKept o w h = h

  switch-IsKept :
      (w : Window D) → IsKept locked w → IsKept locked (enable w).0 × IsKept locked (disable w).0
  unfolding enable disable
  switch-IsKept w h = (h, h)

  placed-IsKept :
      (uid : String) (w : Window D) → IsKept locked w → IsKept locked (add_window_order_uid uid w)
  unfolding add_window_order_uid
  placed-IsKept uid w h = h

  Step-IsKept : (w w' : Window D) → Step w w' → IsKept locked w → IsKept locked w'
  Step-IsKept w w' (books fuel available asks bids calls run) h =
      calculate_orderbooks-IsKept fuel available asks bids w w' calls h run
  Step-IsKept w w' (order o e) h = subst (IsKept locked) e (on_order-IsKept o w h)
  Step-IsKept w w' (timer now e) h = subst (IsKept locked) e (check_is_active-IsKept now w h)
  Step-IsKept w w' (enabled e) h = subst (IsKept locked) e (switch-IsKept w h).0
  Step-IsKept w w' (disabled e) h = subst (IsKept locked) e (switch-IsKept w h).1
  Step-IsKept w w' (placed uid e) h = subst (IsKept locked) e (placed-IsKept uid w h)

  -- Through any sequence of runs on order books, order events, timers, placed orders and switches, the
  -- window keeps at most 100 values of the spread and of each rate, and its lock: a locked window is
  -- never unlocked by them.
  pub Steps-IsKept : {w w' : Window D} → Steps w w' → IsKept locked w → IsKept locked w'
  Steps-IsKept (done w) h = h
  Steps-IsKept (step s ss) h = Steps-IsKept ss (Step-IsKept _ _ s h)
