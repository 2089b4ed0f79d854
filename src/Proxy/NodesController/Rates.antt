-- ===== src/Proxy/NodesController/Rates.antt =====
-- The rates of the pairs.
use swift_bot.Prelude.{
  ℕ, ◌≡◌, ◌∙◌, sym, ap, inl, inr, true, false, List, [], ◌∷◌, arith, Bool-cases, subst, some,
  Option-cases, Has,
}
use swift_bot.Qt.Key.{◌==◌, nat_key}
use swift_bot.Qt.Map.{Map, lookup, contains, value_or, insert, lookup-insert_self, lookup-insert_ne}
use swift_bot.Double.{Double, IsDouble}
use swift_bot.Proxy.NodesController.{keep_min, min_rates}

module _ {D : Type 0} ⦃d : Double D⦄ (laws : IsDouble D) where
  -- The rate that a pair holds is not above the rate given.
  abbrev pub AtMost : ℕ → D → Map ℕ D → Type 0
  AtMost k x m = (y : D) × (lookup k m ≡ some y) × (d.lt x y ≡ false)

  not_below : {x y z : D} → d.lt z y ≡ true → d.lt x y ≡ false → d.lt x z ≡ false
  not_below {x} {y} {z} below h = elim (Bool-cases (d.lt x z)) [
    | inl e ↦ absurd (ground (arith, laws.lt_trans x z y e below, h))
    | inr e ↦ e
  ]

  keep_min_self : (pid : ℕ) (rate : D) (m : Map ℕ D) → AtMost pid rate (keep_min pid rate m)
  unfolding keep_min
  keep_min_self pid rate m = elim (Option-cases (lookup pid m)) [
    | inl e ↦ rw (keep_min, contains, e) (rate, lookup-insert_self pid rate m, laws.lt_irrefl rate)
    | inr (y, e) ↦ elim (Bool-cases (d.lt rate y)) [
      | inl f ↦
          rw (keep_min, contains, value_or, e, f)
            (rate, lookup-insert_self pid rate m, laws.lt_irrefl rate)
      | inr f ↦ rw (keep_min, contains, value_or, e, f) (y, e, f)
    ]
  ]

  keep_min_keeps :
      (k : ℕ) (x : D) (pid : ℕ) (rate : D) (m : Map ℕ D)
      → AtMost k x m
      → AtMost k x (keep_min pid rate m)
  unfolding keep_min
  keep_min_keeps k x pid rate m (y, found, h) = elim (Bool-cases (pid == k)) [
    | inr ne ↦ elim (Option-cases (lookup pid m)) [
      | inl e ↦ rw (keep_min, contains, e) (y, lookup-insert_ne pid k rate m ne ∙ found, h)
      | inr (z, e) ↦ elim (Bool-cases (d.lt rate z)) [
        | inl f ↦
            rw (keep_min, contains, value_or, e, f) (y, lookup-insert_ne pid k rate m ne ∙ found, h)
        | inr f ↦ rw (keep_min, contains, value_or, e, f) (y, found, h)
      ]
    ]
    | inl same ↦
        let e : lookup pid m ≡ some y =
          ap (λ j. lookup j m) ((nat_key.beq_iff pid k).0 same) ∙ found in
        elim (Bool-cases (d.lt rate y)) [
          | inl f ↦
              rw (keep_min, contains, value_or, e, f)
                (
                  rate,
                  ap (λ j. lookup j (insert pid rate m)) (sym ((nat_key.beq_iff pid k).0 same))
                      ∙ lookup-insert_self pid rate m,
                  not_below f h,
                )
          | inr f ↦ rw (keep_min, contains, value_or, e, f) (y, found, h)
        ]
  ]

  min_rates_keeps :
      (k : ℕ) (x : D) (rs : List (ℕ × D)) (m : Map ℕ D) → AtMost k x m → AtMost k x (min_rates rs m)
  unfolding min_rates
  min_rates_keeps k x [] m h = h
  min_rates_keeps k x ((pid, rate) ∷ rs) m h =
      min_rates_keeps k x rs _ (keep_min_keeps k x pid rate m h)

  -- Where `<` is transitive and irreflexive: the rate that is kept of a pair's asks is above none of
  -- them.
  pub min_rates-AtMost :
      (k : ℕ) (x : D) (rs : List (ℕ × D)) (m : Map ℕ D)
      → Has (k, x) rs
      → AtMost k x (min_rates rs m)
  unfolding min_rates
  min_rates-AtMost k x [] m h = elim h [ ]
  min_rates-AtMost k x ((pid, rate) ∷ rs) m (inl same) =
      min_rates_keeps k x rs _
        (subst (λ p. AtMost p.0 p.1 (keep_min pid rate m)) same (keep_min_self pid rate m))
  min_rates-AtMost k x ((pid, rate) ∷ rs) m (inr h) = min_rates-AtMost k x rs _ h
