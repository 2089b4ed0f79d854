-- ===== src/Window/ArbitragePair/Requirements.antt =====
-- swift-lib/arbitragepair.cpp: what the manager is told that the windows of a pair need.
use swift_bot.Prelude.{
  ℕ, ◌≡◌, refl, ◌∙◌, ap, inl, inr, [], ◌∷◌, arith, Bool-cases, if◌then◌else◌, ◌==◌ as nat_beq,
}
use swift_bot.Qt.Key.{nat_key}
use swift_bot.Qt.Map.{Map, lookup, value_or, insert, lookup-insert}
use swift_bot.Double.{Double, nought}
use swift_bot.Window.ArbitragePair.{
  Pair, add_requirements, sum_requirements, update_currencies_requirements,
}

module _ {D : Type 0} ⦃d : Double D⦄ where
  -- What one window, and what all windows need of a currency, added to a number in their order.
  unfoldable pub needed_by : ℕ → Map ℕ D → D → D
  needed_by k [] x = x
  needed_by k ((j, y) ∷ r) x = needed_by k r (if nat_beq j k then d.add x y else x)

  unfoldable pub needed : ℕ → Map ℕ (Map ℕ D) → D → D
  unfolding needed_by
  needed k [] x = x
  needed k ((w, r) ∷ rs) x = needed k rs (needed_by k r x)

  value_or-added :
      (j k : ℕ) (y : D) (s : Map ℕ D)
      → value_or k nought (insert j (d.add (value_or j nought s) y) s)
        ≡ (if nat_beq j k then d.add (value_or k nought s) y else value_or k nought s)
  value_or-added j k y s = elim (Bool-cases (nat_beq j k)) [
    | inl e ↦
        let same : j ≡ k = ground (arith, e) in
        rw (value_or, lookup-insert j k (d.add (value_or j nought s) y) s, e)
          (ap (λ i. d.add (value_or i nought s) y) same)
    | inr e ↦ rw (value_or, lookup-insert j k (d.add (value_or j nought s) y) s, e) refl
  ]

  add_requirements-needed_by :
      (k : ℕ) (r s : Map ℕ D)
      → value_or k nought (add_requirements r s) ≡ needed_by k r (value_or k nought s)
  unfolding add_requirements needed_by
  add_requirements-needed_by k [] s = refl
  add_requirements-needed_by k ((j, y) ∷ r) s =
      add_requirements-needed_by k r (insert j (d.add (value_or j nought s) y) s)
      ∙ ap (needed_by k r) (value_or-added j k y s)

  pub sum_requirements-needed :
      (k : ℕ) (rs : Map ℕ (Map ℕ D)) (s : Map ℕ D)
      → value_or k nought (sum_requirements rs s) ≡ needed k rs (value_or k nought s)
  unfolding sum_requirements needed
  sum_requirements-needed k [] s = refl
  sum_requirements-needed k ((w, r) ∷ rs) s =
      sum_requirements-needed k rs (add_requirements r s)
      ∙ ap (needed k rs) (add_requirements-needed_by k r s)

  -- What the manager is told of a currency is the sum of what the windows need of it, in their order.
  pub update_currencies_requirements-needed :
      (k : ℕ) (p : Pair D)
      → value_or k nought (update_currencies_requirements p) ≡ needed k p.required_summary nought
  unfolding update_currencies_requirements lookup
  update_currencies_requirements-needed k p = sum_requirements-needed k p.required_summary []
