-- ===== src/Window/ArbitrageWindow/Candidats.antt =====
-- What a window offers its pair.
use swift_bot.Prelude.{
  ℕ, ◌≡◌, refl, sym, true, inl, inr, some, List, [], ◌∷◌, All, All-append, length, leb, Bool-cases,
  Option-cases, if◌then◌else◌, reverse, not, ◌&&◌, ◌||◌, OnSome, subst, reverse-cons, false,
}
use swift_bot.Qt.Key.{nat_key}
use swift_bot.Qt.Map.{contains, value_or}
use swift_bot.Double.{Double, nought}
use swift_bot.Window.Orderbook.{Variant, variants, profitable, profit, levels}
use swift_bot.Window.Orderbook.Variants.{IsVariant, variants-IsVariant}
use swift_bot.Window.ArbitrageWindow.{
  Window, Call, add_classic_candidat, set_requested_amount, Books, take_rates, record_history,
  is_affordable, choose, settle, with_balances, on_variants, crossed, or_last, calculate_orderbooks,
}

module _ {D : Type 0} ⦃d : Double D⦄ where
  -- A candidate is a variant of the kind `P` that the balances afford; what is asked for is above
  -- zero.
  abbrev pub IsSound : (Variant D → Type 0) → ℕ → D → D → Call D → Type 0
  IsSound P id sb bb (add_classic_candidat i a s b) =
      (i ≡ id)
      × ((v : Variant D) × P v
          × (is_affordable sb bb v ≡ true)
          × (a ≡ v.amount)
          × (s ≡ v.sell_rate)
          × (b ≡ v.buy_rate))
  IsSound P id sb bb (set_requested_amount i c x) = (i ≡ id) × (d.lt nought x ≡ true)

  requests-IsSound :
      (P : Variant D → Type 0) (id c : ℕ) (sb bb x : D)
      → All (IsSound P id sb bb) (if d.lt nought x then set_requested_amount id c x ∷ [] else [])
  requests-IsSound P id c sb bb x = elim (Bool-cases (d.lt nought x)) [
    | inl e ↦ rw (e) ((refl, e), tt)
    | inr e ↦ rw (e) tt
  ]

  choose-IsSound :
      (P : Variant D → Type 0) (w : Window D) (vs : List (Variant D)) (x y : D)
      → All P vs
      → All (IsSound P w.id w.sb w.bb) (choose w x y vs).1
  unfolding choose
  choose-IsSound P w [] x y h =
      All-append _ _ _ (requests-IsSound P w.id w.buy_price_currency_id w.sb w.bb y)
        (requests-IsSound P w.id w.sell_base_currency_id w.sb w.bb x)
  choose-IsSound P w (v ∷ vs) x y (p, ps) = elim (Bool-cases (is_affordable w.sb w.bb v)) [
    | inl e ↦ rw (e, choose) ((refl, (v, p, e, refl, refl, refl)), tt)
    | inr e ↦ rw (e, choose) (choose-IsSound P w vs _ _ ps)
  ]

  All-reverse : (P : Variant D → Type 0) (vs : List (Variant D)) → All P vs → All P (reverse vs)
  All-reverse P [] h = tt
  All-reverse P (v ∷ vs) (p, ps) =
      subst (All P) (sym (reverse-cons v vs))
        (All-append P (reverse vs) (v ∷ []) (All-reverse P vs ps) (p, tt))

  profitable-All :
      (P : Variant D → Type 0) (vs : List (Variant D)) → All P vs → All P (profitable vs)
  unfolding profitable
  profitable-All P [] h = tt
  profitable-All P (v ∷ vs) (p, ps) = elim (Bool-cases (d.lt nought (profit v))) [
    | inl e ↦ rw (e, profitable) (p, profitable-All P vs ps)
    | inr e ↦ rw (e, profitable) (profitable-All P vs ps)
  ]

  settle-IsSound :
      (P : Variant D → Type 0) (first : Variant D) (vs : List (Variant D)) (w : Window D)
      → All P vs
      → All (IsSound P w.id w.sb w.bb) (settle vs (record_history (take_rates first vs w))).1
  unfolding settle record_history take_rates
  settle-IsSound P first [] w h = tt
  settle-IsSound P first (v ∷ vs) w h =
      choose-IsSound P (record_history (take_rates first (v ∷ vs) w)) (reverse (v ∷ vs)) nought
        nought (All-reverse P (v ∷ vs) h)

  on_variants-IsSound :
      (P : Variant D → Type 0) (available : ℕ → D) (w : Window D) (vs : List (Variant D))
      → All P vs
      → All
          (IsSound P w.id (available w.sell_base_currency_id) (available w.buy_price_currency_id))
          (on_variants available w vs).1
  unfolding on_variants with_balances
  on_variants-IsSound P available w [] h = tt
  on_variants-IsSound P available w (v ∷ vs) h =
      settle-IsSound P v (profitable (v ∷ vs)) (with_balances available w)
        (profitable-All P (v ∷ vs) h)

  -- What the books of a run give: what was sent, else what was sent last.
  abbrev pub IsOffered : Books D → Books D → Window D → Variant D → Type 0
  IsOffered asks bids w =
      IsVariant (levels (or_last (value_or w.buy_pair_id [] asks) w.asks_last))
        (levels (or_last (value_or w.sell_pair_id [] bids) w.bids_last)) w.sell_fee w.buy_fee
        w.max_order_size w.order_size_step

  run-IsSound :
      (fuel : ℕ) (available : ℕ → D) (asks bids : Books D) (w : Window D)
      → OnSome
          (λ r.
            All
              (IsSound
                (IsOffered asks bids w)
                w.id
                (available w.sell_base_currency_id)
                (available w.buy_price_currency_id))
              r.1)
          (calculate_orderbooks fuel available asks bids w)
  unfolding calculate_orderbooks
  run-IsSound fuel available asks_ bids_ w =
      let asks = or_last (value_or w.buy_pair_id [] asks_) w.asks_last in
      let bids = or_last (value_or w.sell_pair_id [] bids_) w.bids_last in
      let found =
        variants fuel (levels asks) (levels bids) w.sell_fee w.buy_fee w.max_order_size
          w.order_size_step w.min_order_size in
      let w' = record w { asks_last = asks; bids_last = bids; valid = true } in
      elim (Bool-cases
        (not (contains w.buy_pair_id asks_) && not (contains w.sell_pair_id bids_))) [
          | inl e ↦ rw (e, calculate_orderbooks) tt
          | inr e ↦ elim (Bool-cases (leb (length asks) 1 || leb (length bids) 1)) [
            | inl f ↦ rw (e, f, calculate_orderbooks) tt
            | inr f ↦ elim (Option-cases (crossed asks bids)) [
              | inl g ↦ rw (e, f, g, calculate_orderbooks) tt
              | inr (false, g) ↦ rw (e, f, g, calculate_orderbooks) tt
              | inr (true, g) ↦ elim (Option-cases found) [
                | inl k ↦ rw (e, f, g, k, calculate_orderbooks) tt
                | inr (vs, k) ↦
                    rw (e, f, g, k, calculate_orderbooks)
                      (on_variants-IsSound (IsOffered asks_ bids_ w) available w' vs
                        (variants-IsVariant _ _ _ _ _ _ fuel w.min_order_size vs k))
              ]
            ]
          ]
        ]

  -- Whatever a run that returns offers as a candidate is a variant of its books, at a size below the
  -- largest order at which selling brings more than buying costs, which the available balances afford;
  -- what it asks for is above zero.
  pub calculate_orderbooks-IsSound :
      (fuel : ℕ) (available : ℕ → D) (asks bids : Books D) (w w' : Window D) (calls : List (Call D))
      → calculate_orderbooks fuel available asks bids w ≡ some (w', calls)
      → All
          (IsSound
            (IsOffered asks bids w)
            w.id
            (available w.sell_base_currency_id)
            (available w.buy_price_currency_id))
          calls
  calculate_orderbooks-IsSound fuel available asks bids w w' calls run =
      subst
        (OnSome (λ r.
          All
            (IsSound (IsOffered asks bids w) w.id (available w.sell_base_currency_id)
              (available w.buy_price_currency_id))
            r.1))
        run (run-IsSound fuel available asks bids w)
