-- ===== src/Workers/BalancesWorker/Summaries.antt =====
-- workers/balancesworker.cpp: what `calculateSummaries` leaves in the tables.
use swift_bot.Prelude.{
  ℕ, ◌≡◌, refl, ◌∙◌, sym, ap, inl, inr, true, Option, none, some, List, [], ◌∷◌, arith, map,
  Bool-cases, List-cases, ◌==◌ as nat_beq, if◌then◌else◌, All, subst, ltb,
}
use swift_bot.Qt.Key.{◌==◌, nat_key}
use swift_bot.Qt.Map.{Map, lookup, insert, value_or, lookup-insert}
use swift_bot.Qt.Sorted.{IsSorted, lookup-AllAbove}
use swift_bot.Qt.Json.{JsonObject}
use swift_bot.Double.{Double, nought}
use swift_bot.Workers.BalancesWorker.{
  Env, Worker, id_of, number_of, in_orders_of, summarise, summarise_all, calculate_summaries,
  get_balances, no_sums, add_sums,
}

module _ {D : Type 0} ⦃d : Double D⦄ (env : Env D) where
  -- Each item stands under the currency that it names.
  abbrev pub IsKeyed : Map ℕ JsonObject → Type 0
  IsKeyed m = All (λ e. id_of env e.1 ≡ e.0) m

  -- The summed column after a run: the item's value for a listed currency, what it was for another.
  abbrev column : (JsonObject → D) → Option JsonObject → Option D → Option D
  column f none was = was
  column f (some o) was = some (f o)

  -- A table that each turn writes at the item's currency.
  summarise_all-column :
      (table : Worker D → Map ℕ D) (f : JsonObject → D)
      → ((w : Worker D) (o : JsonObject)
          → table (summarise env w o) ≡ insert (id_of env o) (f o) (table w))
      → (k : ℕ) (m : Map ℕ JsonObject) (w : Worker D) → IsSorted m
      → IsKeyed m
      → lookup k (table (summarise_all env w (map (λ e. e.1) m)))
        ≡ column f (lookup k m) (lookup k (table w))
  unfolding summarise_all lookup
  summarise_all-column table f step k [] w sorted keyed = refl
  summarise_all-column table f step k ((j, o) ∷ m) w (above, sorted) (own, keyed) =
      let run = summarise_all-column table f step k m (summarise env w o) sorted keyed in
      let now : lookup k (table (summarise env w o))
          ≡ (if j == k then some (f o) else lookup k (table w)) =
        ap (lookup k) (step w o)
        ∙ lookup-insert (id_of env o) k (f o) (table w)
        ∙ ap (λ i. if i == k then some (f o) else lookup k (table w)) own in
      elim (Bool-cases (j == k)) [
        | inl e ↦
            let same : j ≡ k = ground (arith, e) in
            let gone : lookup k m ≡ none =
              lookup-AllAbove k m (subst (λ i. All (λ p. ltb i p.0 ≡ true) m) same above) in
            run ∙ rw (e, gone) (now ∙ rw (e) refl)
        | inr e ↦ run ∙ rw (e) (ap (column f (lookup k m)) (now ∙ rw (e) refl))
      ]

  -- The tables of a currency, after the summaries.
  abbrev pub Shows : ℕ → JsonObject → Worker D → Type 0
  Shows k o w =
      (lookup k w.bals_total ≡ some (number_of env "total" o))
      × (lookup k w.bals_available ≡ some (number_of env "available" o))
      × (lookup k w.bals_reserved ≡ some (number_of env "reserved" o))
      × (lookup k w.bals_orders ≡ some (in_orders_of env o))

  summarise_all-Shows :
      (k : ℕ) (o : JsonObject) (m : Map ℕ JsonObject) (w : Worker D)
      → IsSorted m
      → IsKeyed m
      → lookup k m ≡ some o
      → Shows k o (summarise_all env w (map (λ e. e.1) m))
  unfolding summarise
  summarise_all-Shows k o m w sorted keyed h =
      let at : (table : Worker D → Map ℕ D) (f : JsonObject → D)
          → ((v : Worker D) (p : JsonObject)
              → table (summarise env v p) ≡ insert (id_of env p) (f p) (table v))
          → lookup k (table (summarise_all env w (map (λ e. e.1) m))) ≡ some (f o) =
        λ table f step.
          summarise_all-column table f step k m w sorted keyed
          ∙ ap (λ x. column f x (lookup k (table w))) h in
      (
        at (λ v. v.bals_total) (number_of env "total") (λ v p. refl),
        at (λ v. v.bals_available) (number_of env "available") (λ v p. refl),
        at (λ v. v.bals_reserved) (number_of env "reserved") (λ v p. refl),
        at (λ v. v.bals_orders) (in_orders_of env) (λ v p. refl),
      )

  -- Without items nothing changes.
  pub calculate_summaries_idle : (w : Worker D) → w.mapped ≡ [] → calculate_summaries env w ≡ w
  unfolding calculate_summaries
  calculate_summaries_idle w h =
      let run = summarise_all env (record w { usd = no_sums; btc = no_sums }) (get_balances w) in
      ap (λ x. elim x as (λ _. Worker D) [ [] ↦ w | f ∷ n ↦ run ]) h

  -- With items, the run starts from empty totals.
  pub calculate_summaries_run :
      (e : ℕ × JsonObject) (m : Map ℕ JsonObject) (w : Worker D)
      → w.mapped ≡ e ∷ m
      → calculate_summaries env w
        ≡ summarise_all env (record w { usd = no_sums; btc = no_sums }) (get_balances w)
  unfolding calculate_summaries
  calculate_summaries_run e m w h =
      let run = summarise_all env (record w { usd = no_sums; btc = no_sums }) (get_balances w) in
      ap (λ x. elim x as (λ _. Worker D) [ [] ↦ w | f ∷ n ↦ run ]) h

  -- Where the items are sorted by currency and each names its own, `calculateSummaries` leaves for a
  -- currency with an item the item's numbers in all four tables.
  pub calculate_summaries-Shows :
      (k : ℕ) (o : JsonObject) (w : Worker D)
      → IsSorted w.mapped
      → IsKeyed w.mapped
      → lookup k w.mapped ≡ some o
      → Shows k o (calculate_summaries env w)
  unfolding get_balances lookup
  calculate_summaries-Shows k o w sorted keyed h = elim (List-cases w.mapped) [
    | inl e ↦ let bad : none ≡ some o = sym (ap (lookup k) e) ∙ h in cc
    | inr (e, m, q) ↦
        rw (calculate_summaries_run e m w q) (summarise_all-Shows k o w.mapped _ sorted keyed h)
  ]

  -- The totals of the items of a coin, added to a number from the first on.
  pub coin_sum : ℕ → D → List JsonObject → D
  coin_sum c x [] = x
  coin_sum c x (o ∷ os) =
      coin_sum c
        (if nat_beq (env.currency_coin (id_of env o)) c
          then d.add x (number_of env "total" o)
          else x)
        os

  summarise-coin_total :
      (c : ℕ) (w : Worker D) (o : JsonObject)
      → value_or c nought (summarise env w o).coin_total ≡ (
          if nat_beq (env.currency_coin (id_of env o)) c
          then d.add (value_or c nought w.coin_total) (number_of env "total" o)
          else value_or c nought w.coin_total)
  unfolding summarise
  summarise-coin_total c w o =
      let coin = env.currency_coin (id_of env o) in
      let x = d.add (value_or coin nought w.coin_total) (number_of env "total" o) in
      elim (Bool-cases (nat_beq coin c)) [
        | inl e ↦
            let same : coin ≡ c = ground (arith, e) in
            rw (lookup-insert coin c x w.coin_total, e, value_or)
              (ap (λ i. d.add (value_or i nought w.coin_total) (number_of env "total" o)) same)
        | inr e ↦ rw (lookup-insert coin c x w.coin_total, e, value_or) refl
      ]

  summarise_all-coin_total :
      (c : ℕ) (os : List JsonObject) (w : Worker D)
      → value_or c nought (summarise_all env w os).coin_total
        ≡ coin_sum c (value_or c nought w.coin_total) os
  unfolding summarise_all coin_sum
  summarise_all-coin_total c [] w = refl
  summarise_all-coin_total c (o ∷ os) w =
      summarise_all-coin_total c os (summarise env w o)
      ∙ ap (λ x. coin_sum c x os) (summarise-coin_total c w o)

  summarise_all-usd :
      (os : List JsonObject) (w : Worker D)
      → (summarise_all env w os).usd.total ≡ coin_sum 7 w.usd.total os
  unfolding summarise_all coin_sum summarise add_sums
  summarise_all-usd [] w = refl
  summarise_all-usd (o ∷ os) w = elim (Bool-cases (nat_beq (env.currency_coin (id_of env o)) 7)) [
    | inl e ↦ summarise_all-usd os (summarise env w o) ∙ rw (e) refl
    | inr e ↦ summarise_all-usd os (summarise env w o) ∙ rw (e) refl
  ]

  -- Where there are items, `calculateSummaries` makes the dollar total anew from the items of the coin
  -- 7, but adds the items of a coin to the coin's total of the call before, for the coin 7 as for the
  -- others.
  pub calculate_summaries-coin_sum :
      (e : ℕ × JsonObject) (m : Map ℕ JsonObject) (w : Worker D)
      → w.mapped ≡ e ∷ m
      → ((calculate_summaries env w).usd.total ≡ coin_sum 7 nought (get_balances w))
        × ((c : ℕ)
            → value_or c nought (calculate_summaries env w).coin_total
              ≡ coin_sum c (value_or c nought w.coin_total) (get_balances w))
  calculate_summaries-coin_sum e m w h =
      rw (calculate_summaries_run e m w h)
        (summarise_all-usd (get_balances w) _, λ c. summarise_all-coin_total c (get_balances w) _)
