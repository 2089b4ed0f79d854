-- ===== src/Qt/Sorted.antt =====
-- Maps whose keys are numbers, in rising order: what `insert` makes of an empty map.
use swift_bot.Prelude.{
  ℕ, ◌≡◌, refl, inl, inr, true, none, [], ◌∷◌, arith, All, ltb, ◌==◌ as nat_beq, Bool-cases, subst,
  some, ap,
}
use swift_bot.Qt.Key.{nat_key}
use swift_bot.Qt.Map.{Map, lookup, insert}

module _ {V : Type 0} where
  abbrev pub AllAbove : ℕ → Map ℕ V → Type 0
  AllAbove k m = All (λ e. ltb k e.0 ≡ true) m

  abbrev pub IsSorted : Map ℕ V → Type 0
  IsSorted [] = Unit
  IsSorted ((k, v) ∷ m) = AllAbove k m × IsSorted m

  AllAbove-trans : (j k : ℕ) (m : Map ℕ V) → ltb j k ≡ true → AllAbove k m → AllAbove j m
  AllAbove-trans j k [] h p = tt
  AllAbove-trans j k ((i, v) ∷ m) h (p, rest) = (ground (arith, h, p), AllAbove-trans j k m h rest)

  AllAbove-insert :
      (j k : ℕ) (v : V) (m : Map ℕ V) → ltb j k ≡ true → AllAbove j m → AllAbove j (insert k v m)
  unfolding insert
  AllAbove-insert j k v [] h p = (h, tt)
  AllAbove-insert j k v ((i, w) ∷ m) h (p, rest) =
      let tail = AllAbove-insert j k v m h rest in ground (arith, tail, h, p, rest)

  -- A write keeps the order.
  pub insert-IsSorted : (k : ℕ) (v : V) (m : Map ℕ V) → IsSorted m → IsSorted (insert k v m)
  unfolding insert
  insert-IsSorted k v [] h = (tt, tt)
  insert-IsSorted k v ((i, w) ∷ m) (above, sorted) = elim (Bool-cases (nat_beq i k)) [
    | inl e ↦
        let same : i ≡ k = ground arith in rw (e) (subst (λ x. AllAbove x m) same above, sorted)
    | inr e ↦ elim (Bool-cases (ltb k i)) [
      | inl f ↦ rw (e, f) ((f, AllAbove-trans k i m f above), (above, sorted))
      | inr f ↦
          rw (e, f)
            (AllAbove-insert i k v m (ground (arith, e, f)) above, insert-IsSorted k v m sorted)
    ]
  ]

  -- A key below all others is not there.
  pub lookup-AllAbove : (k : ℕ) (m : Map ℕ V) → AllAbove k m → lookup k m ≡ none
  unfolding lookup
  lookup-AllAbove k [] h = refl
  lookup-AllAbove k ((i, v) ∷ m) (p, rest) = ground (arith, lookup-AllAbove k m rest, p)

  All-lookup_of :
      (m part : Map ℕ V)
      → IsSorted part
      → ((k : ℕ) (v : V) → lookup k part ≡ some v → lookup k m ≡ some v)
      → All (λ e. lookup e.0 m ≡ some e.1) part
  unfolding lookup
  All-lookup_of m [] h found = tt
  All-lookup_of m ((k, v) ∷ part) (above, h) found =
      let none_here = lookup-AllAbove k part above in
      (
        found k v (ground arith),
        All-lookup_of m part h (λ j w e. found j w (elim (Bool-cases (nat_beq k j)) [
          | inl s ↦ let same : k ≡ j = ground arith in ground (arith, ap (λ i. lookup i part) same)
          | inr s ↦ rw (s) e
        ])),
      )

  -- In rising order each entry is the one that is found under its key.
  pub All-lookup : (m : Map ℕ V) → IsSorted m → All (λ e. lookup e.0 m ≡ some e.1) m
  All-lookup m h = All-lookup_of m m h (λ k v e. e)
