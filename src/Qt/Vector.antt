-- ===== src/Qt/Vector.antt =====
-- `QList` and `QStringList`: membership and removal.
use swift_bot.Prelude.{
  ◌≡◌, refl, Bool, true, false, ◌||◌, List, [], ◌∷◌, ◌++◌, arith, if◌then◌else◌, Bool-cases, inl,
  inr, All,
}
use swift_bot.Qt.Key.{Key, ◌==◌, ==_refl}

module _ {ℓ} {A : Type ℓ} ⦃k : Key A⦄ where
  -- `contains`
  unfoldable pub list_contains : List A → A → Bool
  list_contains [] a = false
  list_contains (b ∷ bs) a = b == a || list_contains bs a

  -- `removeAll`
  unfoldable pub remove_all : A → List A → List A
  remove_all a [] = []
  remove_all a (b ∷ bs) = let rest = remove_all a bs in if b == a then rest else b ∷ rest

  -- `removeOne`: the first occurrence.
  unfoldable pub remove_one : A → List A → List A
  remove_one a [] = []
  remove_one a (b ∷ bs) = let rest = remove_one a bs in if b == a then bs else b ∷ rest

  pub contains-append :
      (xs bs : List A) (a : A)
      → list_contains (xs ++ bs) a ≡ (list_contains xs a || list_contains bs a)
  unfolding list_contains
  contains-append [] bs a = refl
  contains-append (b ∷ xs) bs a = ground (arith, contains-append xs bs a)

  pub contains-append_last : (xs : List A) (a : A) → list_contains (xs ++ (a ∷ [])) a ≡ true
  unfolding list_contains
  contains-append_last [] a = rw (==_refl a)
  contains-append_last (b ∷ xs) a = ground (arith, contains-append_last xs a)

  pub contains-remove_all :
      (a b : A) (xs : List A)
      → list_contains (remove_all a xs) b ≡ (if a == b then false else list_contains xs b)
  unfolding list_contains remove_all
  contains-remove_all a b [] = ground arith
  contains-remove_all a b (c ∷ cs) =
      ground (arith, k.beq_iff a b, k.beq_iff c a, k.beq_iff c b, contains-remove_all a b cs)

  -- No value stands twice.
  abbrev pub NoDup : List A → Type 0
  NoDup [] = Unit
  NoDup (x ∷ xs) = (list_contains xs x ≡ false) × NoDup xs

  pub NoDup-append_last :
      (a : A) (xs : List A) → list_contains xs a ≡ false → NoDup xs → NoDup (xs ++ (a ∷ []))
  unfolding list_contains
  NoDup-append_last a [] out h = (refl, tt)
  NoDup-append_last a (x ∷ xs) out (own, rest) = (
    ground (arith, contains-append xs (a ∷ []) x, own, out, k.beq_iff x a, k.beq_iff a x),
    NoDup-append_last a xs (ground (arith, out)) rest,
  )

  -- What stands once is gone when it is removed once.
  pub contains-remove_one :
      (a b : A) (xs : List A)
      → NoDup xs
      → list_contains (remove_one a xs) b ≡ (if a == b then false else list_contains xs b)
  unfolding list_contains remove_one
  contains-remove_one a b [] h = ground arith
  contains-remove_one a b (c ∷ cs) (own, rest) =
      ground
        (arith, k.beq_iff a b, k.beq_iff c a, k.beq_iff c b, contains-remove_one a b cs rest, own)

  -- Nothing else is gone.
  pub contains-remove_one_ne :
      (a b : A) (xs : List A)
      → (a == b) ≡ false
      → list_contains (remove_one a xs) b ≡ list_contains xs b
  unfolding list_contains remove_one
  contains-remove_one_ne a b [] h = refl
  contains-remove_one_ne a b (c ∷ cs) h =
      ground (arith, k.beq_iff a b, k.beq_iff c a, k.beq_iff c b, contains-remove_one_ne a b cs h)

  pub NoDup-remove_one : (a : A) (xs : List A) → NoDup xs → NoDup (remove_one a xs)
  unfolding list_contains remove_one
  NoDup-remove_one a [] h = tt
  NoDup-remove_one a (c ∷ cs) (own, rest) = elim (Bool-cases (c == a)) [
    | inl e ↦ rw (e) rest
    | inr e ↦
        rw (e) (ground (arith, contains-remove_one a c cs rest, own), NoDup-remove_one a cs rest)
  ]

  pub All-remove_one {μ} :
      (P : A → Type μ) (a : A) (xs : List A) → All P xs → All P (remove_one a xs)
  unfolding remove_one
  All-remove_one P a [] h = tt
  All-remove_one P a (c ∷ cs) (p, h) = elim (Bool-cases (c == a)) [
    | inl e ↦ rw (e) h
    | inr e ↦ rw (e) (p, All-remove_one P a cs h)
  ]
