-- ===== src/Window/Orderbook/Variants.antt =====
-- The loop over the sizes of an order.
use swift_bot.Prelude.{
  ℕ, zero, suc, ◌≡◌, refl, true, false, inl, inr, Option, none, some, List, [], ◌∷◌, All,
  Bool-cases, Option-cases, OnSome, subst, reverse,
}
use swift_bot.Double.{Double, nought}
use swift_bot.Window.Orderbook.{
  Level, Variant, asks_price, bids_price, variant_at, last_rate, at_last, fill, variants,
  push_front,
}

module _ {D : Type 0} ⦃d : Double D⦄ where
  -- The size after so many steps.
  abbrev pub stepped : D → ℕ → D → D
  stepped step zero size = size
  stepped step (suc n) size = stepped step n (d.add size step)

  pub last_rate-some : (l : Level D) (ls : List (Level D)) → (x : D) × (last_rate (l ∷ ls) ≡ some x)
  unfolding last_rate
  last_rate-some l [] = (l.rate, refl)
  last_rate-some l (k ∷ ls) = last_rate-some k ls

  -- With a level a price is read.
  asks_price-some :
      (l : Level D) (ls : List (Level D)) (amount : D)
      → (p : D) × (asks_price (l ∷ ls) amount ≡ some p)
  unfolding asks_price at_last
  asks_price-some l ls amount = elim (Option-cases (fill amount nought nought (l ∷ ls))) [
    | inr (p, e) ↦ (p, rw (e, asks_price) refl)
    | inl e ↦
        let (x, f) = last_rate-some l ls in (d.mul amount x, rw (e, f, asks_price, at_last) refl)
  ]

  bids_price-some :
      (l : Level D) (ls : List (Level D)) (amount : D)
      → (p : D) × (bids_price (l ∷ ls) amount ≡ some p)
  unfolding bids_price at_last
  bids_price-some l ls amount = elim (Option-cases (fill amount nought nought (reverse (l ∷ ls)))) [
    | inr (p, e) ↦ (p, rw (e, bids_price) refl)
    | inl e ↦
        let (x, f) = last_rate-some l ls in (d.mul amount x, rw (e, f, bids_price, at_last) refl)
  ]

  variant_at-some :
      (a b : Level D) (asks bids : List (Level D)) (sell_fee buy_fee size : D)
      → (v : Option (Variant D)) × (variant_at (a ∷ asks) (b ∷ bids) sell_fee buy_fee size ≡ some v)
  unfolding variant_at
  variant_at-some a b asks bids sell_fee buy_fee size =
      let (buy, e) = asks_price-some a asks size in
      let (sell, f) = bids_price-some b bids size in
      elim (Bool-cases (d.lt buy sell)) [
        | inl g ↦ rw (e, f, g, variant_at) (_, refl)
        | inr g ↦ rw (e, f, g, variant_at) (_, refl)
      ]

module _ {D : Type 0} ⦃d : Double D⦄ (asks bids : List (Level D))
    (sell_fee buy_fee max step : D) where
  -- A price can be read on both sides at every size.
  abbrev pub HasPrices : Type 0
  HasPrices =
      (size : D) → (v : Option (Variant D)) × (variant_at asks bids sell_fee buy_fee size ≡ some v)

  -- The loop ends with the steps that take the size to the limit: it returns.
  pub variants_return :
      HasPrices
      → (n : ℕ) (size : D) → d.lt (stepped step n size) max ≡ false
      → (vs : List (Variant D)) × (variants n asks bids sell_fee buy_fee max step size ≡ some vs)
  unfolding variants
  variants_return prices zero size h = ([], rw (h, variants) refl)
  variants_return prices (suc n) size h =
      let (vs, e) = variants_return prices n (d.add size step) h in
      let (v, f) = prices size in
      elim (Bool-cases (d.lt size max)) [
        | inl g ↦ (push_front v vs, rw (g, f, e, variants) refl)
        | inr g ↦ ([], rw (g, variants) refl)
      ]

  -- A variant: its size is below the limit, and at that size selling brings more than buying costs.
  abbrev pub IsVariant : Variant D → Type 0
  IsVariant v =
      (d.lt v.amount max ≡ true)
      × ((buy : D) × (sell : D) × (asks_price asks v.amount ≡ some buy)
          × (bids_price bids v.amount ≡ some sell)
          × (d.lt buy sell ≡ true)
          × (v.sell_rate ≡ d.div sell v.amount)
          × (v.buy_rate ≡ d.div buy v.amount))

  variant_at-IsVariant :
      (size : D)
      → d.lt size max ≡ true
      → OnSome (OnSome IsVariant) (variant_at asks bids sell_fee buy_fee size)
  unfolding variant_at
  variant_at-IsVariant size lt = elim (Option-cases (asks_price asks size)) [
    | inl e ↦ rw (e, variant_at) tt
    | inr (buy, e) ↦ elim (Option-cases (bids_price bids size)) [
      | inl f ↦ rw (e, f, variant_at) tt
      | inr (sell, f) ↦ elim (Bool-cases (d.lt buy sell)) [
        | inr g ↦ rw (e, f, g, variant_at) tt
        | inl g ↦ rw (e, f, g, variant_at) (lt, (buy, sell, e, f, g, refl, refl))
      ]
    ]
  ]

  push_front-All :
      (v : Option (Variant D)) (vs : List (Variant D))
      → OnSome IsVariant v
      → All IsVariant vs
      → All IsVariant (push_front v vs)
  push_front-All none vs h hs = hs
  push_front-All (some v) vs h hs = (h, hs)

  variants-OnSome :
      (n : ℕ) (size : D)
      → OnSome (All IsVariant) (variants n asks bids sell_fee buy_fee max step size)
  unfolding variants
  variants-OnSome zero size = elim (Bool-cases (d.lt size max)) [
    | inl e ↦ rw (e, variants) tt
    | inr e ↦ rw (e, variants) tt
  ]
  variants-OnSome (suc n) size = elim (Bool-cases (d.lt size max)) [
    | inr e ↦ rw (e, variants) tt
    | inl e ↦ elim (Option-cases (variant_at asks bids sell_fee buy_fee size)) [
      | inl f ↦ rw (e, f, variants) tt
      | inr (v, f) ↦
          elim (Option-cases (variants n asks bids sell_fee buy_fee max step (d.add size step))) [
            | inl g ↦ rw (e, f, g, variants) tt
            | inr (vs, g) ↦
                rw (e, f, g, variants)
                  (push_front-All v vs
                    (subst (OnSome (OnSome IsVariant)) f (variant_at-IsVariant size e))
                    (subst (OnSome (All IsVariant)) g (variants-OnSome n (d.add size step))))
          ]
    ]
  ]

  -- Whatever the loop returns is a list of variants.
  pub variants-IsVariant :
      (n : ℕ) (size : D) (vs : List (Variant D))
      → variants n asks bids sell_fee buy_fee max step size ≡ some vs
      → All IsVariant vs
  variants-IsVariant n size vs h = subst (OnSome (All IsVariant)) h (variants-OnSome n size)

module _ {D : Type 0} ⦃d : Double D⦄ where
  -- With a level on both sides the loop returns, where so many steps take the size to the limit.
  pub variants-some :
      (a b : Level D) (asks bids : List (Level D)) (sell_fee buy_fee max step size : D) (n : ℕ)
      → d.lt (stepped step n size) max ≡ false
      → (vs : List (Variant D)) × (variants n (a ∷ asks) (b ∷ bids) sell_fee buy_fee max step size
          ≡ some vs)
  variants-some a b asks bids sell_fee buy_fee max step size n h =
      variants_return _ _ sell_fee buy_fee max step
        (λ x. variant_at-some a b asks bids sell_fee buy_fee x) n size h
