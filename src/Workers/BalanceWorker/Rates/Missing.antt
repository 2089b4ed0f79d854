-- ===== src/Workers/BalanceWorker/Rates/Missing.antt =====
-- A pair that has asks and no bids.
use swift_bot.Prelude.{
  ℕ, ◌≡◌, refl, ◌∙◌, sym, ap, inl, inr, none, some, List, [], ◌∷◌, Has, Option-cases,
}
use swift_bot.Qt.Key.{nat_key}
use swift_bot.Qt.Map.{Map, lookup, value_or, keys}
use swift_bot.Double.{Double}
use swift_bot.Workers.BalanceWorker.Rates.{
  Hourly, Rates, Rows, add_rows, ends, change_rates, update_rates,
}

some_not_none : {A : Type 0} {a : A} → some a ≡ none → ⊥
some_not_none h = cc

module _ {D : Type 0} ⦃d : Double D⦄ where
  no_ends : (pid : ℕ) (m : Hourly D) → lookup pid m ≡ none → ends pid m ≡ none
  unfolding ends
  no_ends pid m e = rw (ends, value_or, e) refl

  change_rates_missing :
      (group : ℕ → ℕ) (asks : Hourly D) (pairs : Map ℕ (Map ℕ D)) (bids : Hourly D) (rows : Rows D)
      (pid : ℕ)
      → Has pid (keys pairs)
      → lookup pid bids ≡ none
      → change_rates group asks pairs bids rows ≡ none
  unfolding change_rates
  change_rates_missing group asks [] bids rows pid h e = elim h [ ]
  change_rates_missing group asks ((k, hours) ∷ pairs) bids (stats, rates) pid h e =
      elim (Option-cases (ends k asks)) [
        | inl f ↦ rw (f, change_rates) refl
        | inr (buy, f) ↦ elim (Option-cases (ends k bids)) [
          | inl g ↦ rw (f, g, change_rates) refl
          | inr (sell, g) ↦ elim h [
            | inl same ↦
                absurd (some_not_none (sym g ∙ ap (λ j. ends j bids) same ∙ no_ends pid bids e))
            | inr later ↦
                rw (f, g, change_rates) (change_rates_missing group asks pairs bids _ pid later e)
          ]
        ]
      ]

  -- Where a pair has asks and no bids, `updateRates` reads past the end of an empty map.
  pub update_rates_missing :
      (count : ℕ → D) (group : ℕ → ℕ) (ask_rows bid_rows : List (ℕ × ℕ × D))
      (order_rows : List (ℕ × ℕ)) (s : Rates D) (pid : ℕ)
      → Has pid (keys (add_rows ask_rows []))
      → lookup pid (add_rows bid_rows []) ≡ none
      → update_rates count group ask_rows bid_rows order_rows s ≡ none
  unfolding update_rates
  update_rates_missing count group ask_rows bid_rows order_rows s pid h e =
      rw
        (
          change_rates_missing group (add_rows ask_rows []) (add_rows ask_rows [])
              (add_rows bid_rows []) (s.rates_stats, []) pid h e,
          update_rates,
        )
        refl
