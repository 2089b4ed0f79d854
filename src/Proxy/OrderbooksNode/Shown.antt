-- ===== src/Proxy/OrderbooksNode/Shown.antt =====
-- swift-orderbooks-proxy/orderbooksnode.cpp: what `rebuildIndexes` shows of a book, against the best fresh
-- levels of it.
use mathlib.Core.List.{reverse, reverse-append}
use swift_bot.Prelude.{
  ℕ, zero, suc, ◌+◌, ◌≡◌, refl, ◌∙◌, sym, ap, true, false, none, some, List, [], ◌∷◌, ◌++◌,
  append-nil, append_assoc, length, get_elem?, arith, Bool-cases, Option-cases, reverse-cons,
  some_inj, inl, inr, ltb, if◌then◌else◌,
}
use swift_bot.Double.{Double}
use swift_bot.Proxy.OrderbooksNode.{
  Item, Levels, Walk, is_fresh, records_limit, walk_ask, walk_asks, walk_bid, walk_bids, shown_asks,
  shown_bids, Env, Node, rebuild_indexes,
}

module _ {ℓ} {A : Type ℓ} where
  abbrev pub take : ℕ → List A → List A
  take zero xs = []
  take (suc n) [] = []
  take (suc n) (x ∷ xs) = x ∷ take n xs

  abbrev pub tail : List A → List A
  tail [] = []
  tail (x ∷ xs) = xs

  take-length : (xs : List A) → take (length xs) xs ≡ xs
  take-length [] = refl
  take-length (x ∷ xs) = ap (λ ys. x ∷ ys) (take-length xs)

  get_elem?-length : (xs : List A) → get_elem? xs (length xs) ≡ none
  get_elem?-length [] = refl
  get_elem?-length (x ∷ xs) = get_elem?-length xs

  take-none : (xs : List A) (k : ℕ) → get_elem? xs k ≡ none → take (suc k) xs ≡ take k xs
  take-none [] zero h = refl
  take-none [] (suc k) h = refl
  take-none (x ∷ xs) zero h = cc
  take-none (x ∷ xs) (suc k) h = ap (λ ys. x ∷ ys) (take-none xs k h)

  take-some :
      (xs : List A) (k : ℕ) (x : A)
      → get_elem? xs k ≡ some x
      → take (suc k) xs ≡ take k xs ++ (x ∷ [])
  take-some [] k x h = cc
  take-some (y ∷ xs) zero x h = ap (λ z. z ∷ []) (some_inj h)
  take-some (y ∷ xs) (suc k) x h = ap (λ ys. y ∷ ys) (take-some xs k x h)

module _ {D : Type 0} ⦃d : Double D⦄ (now : ℕ) where
  -- The items of the fresh levels.
  pub fresh_items : Levels D → List Item
  fresh_items [] = []
  fresh_items (l ∷ ls) = let rest = fresh_items ls in if is_fresh now l then l.1 ∷ rest else rest

  ask_step :
      (l : D × Item) (ls : Levels D) (w : Walk D) (k : ℕ) (rest : Walk D → List Item)
      → ((w' : Walk D) (k' : ℕ)
          → w'.used + k' ≡ records_limit
          → rest w' ≡ w'.items ++ take k' (fresh_items ls))
      → w.used + k ≡ records_limit
      → rest (walk_ask now l w) ≡ w.items ++ take k (fresh_items (l ∷ ls))
  unfolding walk_ask fresh_items
  ask_step l ls w zero rest ih h = elim (Bool-cases (is_fresh now l)) [
    | inl e ↦
        let full : ltb w.used records_limit ≡ false = ground arith in
        rw (e, full) (ih (record w { removed = w.removed ++ (l.0 ∷ []) }) zero h)
    | inr e ↦ rw (e) (ih w zero h)
  ]
  ask_step l ls w (suc k) rest ih h = elim (Bool-cases (is_fresh now l)) [
    | inl e ↦
        let room : ltb w.used records_limit ≡ true = ground arith in
        rw (e, room)
          (ih (record w { items = w.items ++ (l.1 ∷ []); used = w.used + 1 }) k (omega arith)
            ∙ append_assoc w.items (l.1 ∷ []) (take k (fresh_items ls)))
    | inr e ↦ rw (e) (ih w (suc k) h)
  ]

  walk_asks-items :
      (ls : Levels D) (w : Walk D) (k : ℕ)
      → w.used + k ≡ records_limit
      → (walk_asks now ls w).items ≡ w.items ++ take k (fresh_items ls)
  unfolding walk_asks fresh_items
  walk_asks-items [] w zero h = sym (append-nil w.items)
  walk_asks-items [] w (suc k) h = sym (append-nil w.items)
  walk_asks-items (l ∷ ls) w k h =
      ask_step l ls w k (λ w'. (walk_asks now ls w').items) (walk_asks-items ls) h

  -- The levels that the loop over the bids visits, from a position down.
  walk_down : Levels D → ℕ → Levels D
  walk_down m zero = []
  walk_down m (suc k) = elim (get_elem? m (suc k)) [
    | none ↦ walk_down m k
    | some l ↦ l ∷ walk_down m k
  ]

  bid_step :
      (l : D × Item) (ls : Levels D) (w : Walk D) (k : ℕ) (rest : Walk D → List Item)
      → ((w' : Walk D) (k' : ℕ)
          → w'.used + k' ≡ records_limit
          → rest w' ≡ reverse (take k' (fresh_items ls)) ++ w'.items)
      → w.used + k ≡ records_limit
      → rest (walk_bid now l w) ≡ reverse (take k (fresh_items (l ∷ ls))) ++ w.items
  unfolding walk_bid fresh_items
  bid_step l ls w zero rest ih h = elim (Bool-cases (is_fresh now l)) [
    | inl e ↦
        let full : ltb w.used records_limit ≡ false = ground arith in
        rw (e, full) (ih (record w { removed = w.removed ++ (l.0 ∷ []) }) zero h)
    | inr e ↦ rw (e) (ih w zero h)
  ]
  bid_step l ls w (suc k) rest ih h = elim (Bool-cases (is_fresh now l)) [
    | inl e ↦
        let room : ltb w.used records_limit ≡ true = ground arith in
        rw (e, room)
          (ih (record w { items = l.1 ∷ w.items; used = w.used + 1 }) k (omega arith)
            ∙ sym (
                ap (λ r. r ++ w.items) (reverse-cons l.1 (take k (fresh_items ls)))
                ∙ append_assoc (reverse (take k (fresh_items ls))) (l.1 ∷ []) w.items))
    | inr e ↦ rw (e) (ih w (suc k) h)
  ]

  walk_bids-items :
      (m : Levels D) (i : ℕ) (w : Walk D) (k : ℕ)
      → w.used + k ≡ records_limit
      → (walk_bids now m i w).items ≡ reverse (take k (fresh_items (walk_down m i))) ++ w.items
  unfolding walk_bids walk_down fresh_items
  walk_bids-items m zero w zero h = refl
  walk_bids-items m zero w (suc k) h = refl
  walk_bids-items m (suc i) w k h = elim (Option-cases (get_elem? m (suc i))) [
    | inl e ↦ rw (e, walk_bids, walk_down) (walk_bids-items m i w k h)
    | inr (l, e) ↦
        rw (e, walk_bids, walk_down)
          (bid_step l (walk_down m i) w k (λ w'. (walk_bids now m i w').items) (walk_bids-items m i)
            h)
  ]

  walk_down-cons :
      (l : D × Item) (ls : Levels D) (k : ℕ) → walk_down (l ∷ ls) k ≡ reverse (take k ls)
  unfolding walk_down
  walk_down-cons l ls zero = refl
  walk_down-cons l ls (suc k) = elim (Option-cases (get_elem? ls k)) [
    | inl e ↦ rw (e, walk_down) (walk_down-cons l ls k ∙ ap reverse (sym (take-none ls k e)))
    | inr (x, e) ↦
        rw (e, walk_down)
          (ap (λ r. x ∷ r) (walk_down-cons l ls k)
            ∙ sym (ap reverse (take-some ls k x e) ∙ reverse-append (take k ls) (x ∷ [])))
  ]

  shown_bids_down :
      (m : Levels D)
      → (shown_bids now m).items ≡ reverse (take records_limit (fresh_items (reverse (tail m))))
  unfolding shown_bids walk_bids fresh_items
  shown_bids_down [] = refl
  shown_bids_down (l ∷ ls) =
      let past = take-none ls (length ls) (get_elem?-length ls) ∙ take-length ls in
      walk_bids-items (l ∷ ls) (suc (length ls)) (record { items = []; used = 0; removed = [] })
        records_limit refl
      ∙ append-nil
          (reverse (take records_limit (fresh_items (walk_down (l ∷ ls) (suc (length ls))))))
      ∙ ap (λ d. reverse (take records_limit (fresh_items d)))
          (walk_down-cons l ls (suc (length ls)) ∙ ap reverse past)

-- What `rebuildIndexes` shows of the asks are the 20 lowest fresh levels, and of the bids the 20 highest
-- fresh levels without the lowest level of the whole book, each by rising rates.
pub rebuild_indexes_lem :
    {D : Type 0} ⦃d : Double D⦄ (env : Env D) (n : Node D)
    → let built = rebuild_indexes env n in
      (built.0.asks ≡ take records_limit (fresh_items env.now n.asks_indexed))
      × (built.0.bids
          ≡ reverse (take records_limit (fresh_items env.now (reverse (tail n.bids_indexed)))))
unfolding rebuild_indexes shown_asks
rebuild_indexes_lem env n = (
  walk_asks-items env.now n.asks_indexed (record { items = []; used = 0; removed = [] })
      records_limit refl,
  shown_bids_down env.now n.bids_indexed,
)
