-- ===== src/Qt/Map.antt =====
-- `QMap` and `QHash`: lists of entries in the order of iteration, one entry to a key.
use swift_bot.Prelude.{
  ◌≡◌, refl, Bool, true, false, Option, none, some, List, [], ◌∷◌, arith, if◌then◌else◌, map, All,
  Bool-cases, inl, inr,
}
use swift_bot.Qt.Key.{Key, ◌==◌, ==_refl}
use swift_bot.Qt.Vector.{list_contains}

abbrev pub Map {ℓ κ} : Type ℓ → Type κ → Type (ℓ ⊔ κ)
Map K V = List (K × V)

module _ {ℓ κ} {K : Type ℓ} {V : Type κ} ⦃k : Key K⦄ where
  -- `find`
  unfoldable pub lookup : K → Map K V → Option V
  lookup a [] = none
  lookup a ((b, v) ∷ m) = if b == a then some v else lookup a m

  -- `contains`
  abbrev pub contains : K → Map K V → Bool
  contains a m = elim (lookup a m) [ none ↦ false | some v ↦ true ]

  -- `value(key, default)`
  abbrev pub value_or : K → V → Map K V → V
  value_or a d m = elim (lookup a m) [ none ↦ d | some v ↦ v ]

  -- `insert`, and assignment through `operator[]`
  unfoldable pub insert : K → V → Map K V → Map K V
  insert a v [] = (a, v) ∷ []
  insert a v ((b, w) ∷ m) =
      let rest = insert a v m in
      if b == a then (a, v) ∷ m else if k.before a b then (a, v) ∷ (b, w) ∷ m else (b, w) ∷ rest

  -- `remove`
  unfoldable pub remove : K → Map K V → Map K V
  remove a [] = []
  remove a ((b, w) ∷ m) = let rest = remove a m in if b == a then rest else (b, w) ∷ rest

  -- `keys`
  abbrev pub keys : Map K V → List K
  keys m = map (λ e. e.0) m

  pub lookup-insert :
      (a b : K) (v : V) (m : Map K V)
      → lookup b (insert a v m) ≡ (if a == b then some v else lookup b m)
  unfolding lookup insert
  lookup-insert a b v [] = refl
  lookup-insert a b v ((c, w) ∷ m) =
      ground (arith, k.beq_iff a b, k.beq_iff c a, k.beq_iff c b, lookup-insert a b v m)

  pub lookup-remove :
      (a b : K) (m : Map K V) → lookup b (remove a m) ≡ (if a == b then none else lookup b m)
  unfolding lookup remove
  lookup-remove a b [] = ground arith
  lookup-remove a b ((c, w) ∷ m) =
      ground (arith, k.beq_iff a b, k.beq_iff c a, k.beq_iff c b, lookup-remove a b m)

  pub lookup-insert_self : (a : K) (v : V) (m : Map K V) → lookup a (insert a v m) ≡ some v
  lookup-insert_self a v m = rw (lookup-insert a a v m, ==_refl a)

  pub lookup-insert_ne :
      (a b : K) (v : V) (m : Map K V) → (a == b) ≡ false → lookup b (insert a v m) ≡ lookup b m
  lookup-insert_ne a b v m h = rw (lookup-insert a b v m, h)

  pub lookup-remove_self : (a : K) (m : Map K V) → lookup a (remove a m) ≡ none
  lookup-remove_self a m = rw (lookup-remove a a m, ==_refl a)

  -- A key that an entry was written for, or that was there before.
  pub contains-insert :
      (a b : K) (v : V) (m : Map K V)
      → contains b (insert a v m) ≡ (if a == b then true else contains b m)
  contains-insert a b v m = ground (arith, lookup-insert a b v m)

  -- A removal leaves no entry that was not there.
  pub lookup-remove-some :
      (a b : K) (m : Map K V) {v : V} → lookup b (remove a m) ≡ some v → lookup b m ≡ some v
  lookup-remove-some a b m h = ground (arith, lookup-remove a b m)

  -- `keys` lists the keys that `contains` accepts.
  pub contains-keys : (a : K) (m : Map K V) → list_contains (keys m) a ≡ contains a m
  unfolding lookup list_contains
  contains-keys a [] = refl
  contains-keys a ((b, v) ∷ m) = ground (arith, contains-keys a m)

  All-keys_of :
      (m n : Map K V)
      → ((a : K) → contains a m ≡ true → contains a n ≡ true)
      → All (λ a. contains a n ≡ true) (keys m)
  unfolding lookup
  All-keys_of [] n h = tt
  All-keys_of ((b, v) ∷ m) n h =
      (h b (ground (arith, ==_refl b)), All-keys_of m n (λ a e. h a (ground arith)))

  pub All-keys : (m : Map K V) → All (λ a. contains a m ≡ true) (keys m)
  All-keys m = All-keys_of m m (λ a h. h)

  -- What holds of the entries holds after a write, where it holds of the written one.
  pub All-insert {μ} :
      (P : K × V → Type μ) (a : K) (v : V) (m : Map K V) → P (a, v) → All P m → All P (insert a v m)
  unfolding insert
  All-insert P a v [] p h = (p, tt)
  All-insert P a v ((b, w) ∷ m) p (q, h) = elim (Bool-cases (b == a)) [
    | inl e ↦ rw (e) (p, h)
    | inr e ↦ elim (Bool-cases (k.before a b)) [
      | inl f ↦ rw (e, f) (p, (q, h))
      | inr f ↦ rw (e, f) (q, All-insert P a v m p h)
    ]
  ]
