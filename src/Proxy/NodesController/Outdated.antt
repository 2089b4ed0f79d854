-- ===== src/Proxy/NodesController/Outdated.antt =====
-- The list of the pairs that are out of date.
use swift_bot.Prelude.{
  ℕ, ◌≡◌, refl, ◌∙◌, sym, ap, inl, inr, false, List, [], ◌∷◌, ◌++◌, leb, arith, Bool-cases, subst,
  some_inj, some, ◌==◌ as nat_beq,
}
use swift_bot.Qt.Key.{◌==◌, nat_key}
use swift_bot.Qt.Vector.{list_contains, remove_one, contains-append, contains-append_last}
use swift_bot.Qt.Map.{Map, lookup, value_or, keys}
use swift_bot.Proxy.NodesController.{
  Controller, check_pair, check_pairs, find_outdated_pairs, since,
}

-- No pair stands twice in the list.
abbrev pub IsUnique : List ℕ → Type 0
IsUnique [] = Unit
IsUnique (k ∷ ks) = (list_contains ks k ≡ false) × IsUnique ks

IsUnique-append :
    (ks : List ℕ) (k : ℕ) → list_contains ks k ≡ false → IsUnique ks → IsUnique (ks ++ (k ∷ []))
unfolding list_contains
IsUnique-append [] k h u = (refl, tt)
IsUnique-append (j ∷ ks) k h (v, u) = (
  contains-append ks (k ∷ []) j ∙ ground (arith, h, v, nat_key.beq_iff j k, nat_key.beq_iff k j),
  IsUnique-append ks k (ground (arith, h)) u,
)

contains-append_ne :
    (j k : ℕ) (ks : List ℕ)
    → (j == k) ≡ false
    → list_contains (ks ++ (j ∷ [])) k ≡ list_contains ks k
unfolding list_contains
contains-append_ne j k ks h = contains-append ks (j ∷ []) k ∙ ground (arith, h)

contains-remove_one_ne :
    (j k : ℕ) (ks : List ℕ)
    → (j == k) ≡ false
    → list_contains (remove_one j ks) k ≡ list_contains ks k
unfolding list_contains remove_one
contains-remove_one_ne j k [] h = refl
contains-remove_one_ne j k (i ∷ ks) h = ground (
  arith,
  contains-remove_one_ne j k ks h,
  nat_key.beq_iff i j,
  nat_key.beq_iff i k,
  nat_key.beq_iff j k,
  h,
)

contains-remove_one_self :
    (j : ℕ) (ks : List ℕ) → IsUnique ks → list_contains (remove_one j ks) j ≡ false
unfolding list_contains remove_one
contains-remove_one_self j [] u = refl
contains-remove_one_self j (i ∷ ks) (v, u) = elim (Bool-cases (i == j)) [
  | inl e ↦ rw (e) (subst (λ k. list_contains ks k ≡ false) ((nat_key.beq_iff i j).0 e) v)
  | inr e ↦ rw (e, e) (contains-remove_one_self j ks u)
]

remove_one-false :
    (j k : ℕ) (ks : List ℕ) → list_contains ks k ≡ false → list_contains (remove_one j ks) k ≡ false
unfolding list_contains remove_one
remove_one-false j k [] h = refl
remove_one-false j k (i ∷ ks) h = ground (arith, h, remove_one-false j k ks)

IsUnique-remove_one : (j : ℕ) (ks : List ℕ) → IsUnique ks → IsUnique (remove_one j ks)
unfolding remove_one
IsUnique-remove_one j [] u = tt
IsUnique-remove_one j (i ∷ ks) (v, u) = elim (Bool-cases (i == j)) [
  | inl e ↦ rw (e) u
  | inr e ↦ rw (e) (remove_one-false j i ks v, IsUnique-remove_one j ks u)
]

check_pair-IsUnique :
    (now pid time : ℕ) (c : Controller)
    → IsUnique c.current_outdated_list
    → IsUnique (check_pair now pid time c).current_outdated_list
unfolding check_pair
check_pair-IsUnique now pid time c u =
    elim (Bool-cases (nat_beq (value_or pid 0 c.last_pair_update) 0)) [
      | inl e ↦ rw (e, check_pair) u
      | inr e ↦ elim (Bool-cases (leb 6 (since now time))) [
        | inr f ↦ rw (e, f, check_pair) (IsUnique-remove_one pid _ u)
        | inl f ↦ elim (Bool-cases (list_contains c.current_outdated_list pid)) [
          | inl g ↦ rw (e, f, g, check_pair) u
          | inr g ↦ rw (e, f, g, check_pair) (IsUnique-append _ pid g u)
        ]
      ]
    ]

-- The pair that is looked at is listed as out of date exactly where its update is 6 seconds old.
check_pair_self :
    (now pid time : ℕ) (c : Controller)
    → IsUnique c.current_outdated_list
    → nat_beq (value_or pid 0 c.last_pair_update) 0 ≡ false
    → list_contains (check_pair now pid time c).current_outdated_list pid ≡ leb 6 (since now time)
unfolding check_pair
check_pair_self now pid time c u e = elim (Bool-cases (leb 6 (since now time))) [
  | inr f ↦ rw (e, f, check_pair) (contains-remove_one_self pid _ u)
  | inl f ↦ elim (Bool-cases (list_contains c.current_outdated_list pid)) [
    | inl g ↦ rw (e, f, g, check_pair) g
    | inr g ↦ rw (e, f, g, check_pair) (contains-append_last _ pid)
  ]
]

check_pair_ne :
    (now pid time k : ℕ) (c : Controller)
    → (pid == k) ≡ false
    → list_contains (check_pair now pid time c).current_outdated_list k
      ≡ list_contains c.current_outdated_list k
unfolding check_pair
check_pair_ne now pid time k c ne =
    elim (Bool-cases (nat_beq (value_or pid 0 c.last_pair_update) 0)) [
      | inl e ↦ rw (e, check_pair) refl
      | inr e ↦ elim (Bool-cases (leb 6 (since now time))) [
        | inr f ↦ rw (e, f, check_pair) (contains-remove_one_ne pid k _ ne)
        | inl f ↦ elim (Bool-cases (list_contains c.current_outdated_list pid)) [
          | inl g ↦ rw (e, f, g, check_pair) refl
          | inr g ↦ rw (e, f, g, check_pair) (contains-append_ne pid k _ ne)
        ]
      ]
    ]

check_pair-last_pair_update :
    (now pid time : ℕ) (c : Controller)
    → (check_pair now pid time c).last_pair_update ≡ c.last_pair_update
unfolding check_pair
check_pair-last_pair_update now pid time c =
    elim (Bool-cases (nat_beq (value_or pid 0 c.last_pair_update) 0)) [
      | inl e ↦ rw (e, check_pair) refl
      | inr e ↦ elim (Bool-cases (leb 6 (since now time))) [
        | inr f ↦ rw (e, f, check_pair) refl
        | inl f ↦ rw (e, f, check_pair) refl
      ]
    ]

check_pairs_ne :
    (now k : ℕ) (times : Map ℕ ℕ) (c : Controller)
    → list_contains (keys times) k ≡ false
    → list_contains (check_pairs now times c).current_outdated_list k
      ≡ list_contains c.current_outdated_list k
unfolding check_pairs list_contains
check_pairs_ne now k [] c h = refl
check_pairs_ne now k ((pid, time) ∷ times) c h =
    check_pairs_ne now k times _ (ground (arith, h))
    ∙ check_pair_ne now pid time k c (ground (arith, h))

check_pairs_settled :
    (now k time : ℕ) (times : Map ℕ ℕ) (c : Controller)
    → IsUnique (keys times)
    → IsUnique c.current_outdated_list
    → lookup k times ≡ some time
    → nat_beq (value_or k 0 c.last_pair_update) 0 ≡ false
    → list_contains (check_pairs now times c).current_outdated_list k ≡ leb 6 (since now time)
unfolding check_pairs lookup
check_pairs_settled now k time [] c m u found e = ground (arith, found)
check_pairs_settled now k time ((pid, t) ∷ times) c (fresh, m) u found e =
    elim (Bool-cases (pid == k)) [
      | inl f ↦
          let same : pid ≡ k = (nat_key.beq_iff pid k).0 f in
          let same_time : t ≡ time = some_inj (sym (rw (f) refl) ∙ found) in
          let e' = ap (λ j. nat_beq (value_or j 0 c.last_pair_update) 0) same ∙ e in
          subst
            (λ j.
              list_contains (check_pairs now times (check_pair now pid t c)).current_outdated_list j
              ≡ leb 6 (since now time))
            same
            (check_pairs_ne now pid times (check_pair now pid t c) fresh
              ∙ check_pair_self now pid t c u e'
              ∙ ap (λ x. leb 6 (since now x)) same_time)
      | inr f ↦
          check_pairs_settled now k time times (check_pair now pid t c) m
            (check_pair-IsUnique now pid t c u) (sym (rw (f) refl) ∙ found)
            (ap (λ x. nat_beq (value_or k 0 x) 0) (check_pair-last_pair_update now pid t c) ∙ e)
    ]

-- After `findOutdatedPairs` a pair that has been updated is listed as out of date exactly where its
-- last update is 6 seconds old or older. The map of the updates has one entry to a pair, and the list
-- held no pair twice.
pub find_outdated_pairs_lem :
    (now k time : ℕ) (c : Controller)
    → IsUnique (keys c.last_pair_update)
    → IsUnique c.current_outdated_list
    → lookup k c.last_pair_update ≡ some time
    → nat_beq time 0 ≡ false
    → list_contains (find_outdated_pairs now c).current_outdated_list k ≡ leb 6 (since now time)
unfolding find_outdated_pairs
find_outdated_pairs_lem now k time c m u found e =
    check_pairs_settled now k time c.last_pair_update c m u found (rw (found, value_or) e)
