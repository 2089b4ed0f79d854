-- ===== src/Bot/OrdersManager/Locks.antt =====
-- No market is sent an order while it is locked.
use swift_bot.Prelude.{
  ℕ, ◌≡◌, refl, subst, inl, inr, false, Option, none, some, List, [], ◌∷◌, ◌++◌, Bool-cases, ◌||◌,
  ◌==◌ as nat_beq,
}
use swift_bot.Qt.Key.{nat_key}
use swift_bot.Qt.Vector.{list_contains}
use swift_bot.Qt.Map.{Map, contains}
use swift_bot.Double.{Double}
use swift_bot.Bot.OrdersManager.{
  Candidat, Call, get_available, reserve_create, reserve_cancel, set_requested, place_sell,
  place_buy, Manager, Env, place_order, Round, fetch, reserve, commit, use_virtual, is_unused,
  is_covered, on_candidat, run_candidats, request_calls, create_money_refill_requests, on_candidats,
}

module _ {D : Type 0} where
  -- The locks after a list of calls.
  pub locked_after : List ℕ → List (Call D) → List ℕ
  locked_after l [] = l
  locked_after l (place_sell c ∷ cs) =
      locked_after ((l ++ (c.sell_pair_id ∷ [])) ++ (c.buy_pair_id ∷ [])) cs
  locked_after l (get_available k ∷ cs) = locked_after l cs
  locked_after l (reserve_create k x ∷ cs) = locked_after l cs
  locked_after l (reserve_cancel k x ∷ cs) = locked_after l cs
  locked_after l (set_requested k x ∷ cs) = locked_after l cs
  locked_after l (place_buy c ∷ cs) = locked_after l cs

  -- Each order to sell goes, with the order to buy of the same candidate right behind it, to two markets
  -- that no earlier lock holds, and no other order is sent. The candidate is the one whose order to buy
  -- is due.
  abbrev pub WellLocked : Option (Candidat D) → List ℕ → List (Call D) → Type 0
  WellLocked none l [] = Unit
  WellLocked none l (place_sell c ∷ cs) =
      (list_contains l c.sell_pair_id ≡ false)
      × (list_contains l c.buy_pair_id ≡ false)
      × WellLocked (some c) ((l ++ (c.sell_pair_id ∷ [])) ++ (c.buy_pair_id ∷ [])) cs
  WellLocked none l (place_buy c ∷ cs) = ⊥
  WellLocked none l (get_available k ∷ cs) = WellLocked none l cs
  WellLocked none l (reserve_create k x ∷ cs) = WellLocked none l cs
  WellLocked none l (reserve_cancel k x ∷ cs) = WellLocked none l cs
  WellLocked none l (set_requested k x ∷ cs) = WellLocked none l cs
  WellLocked (some c) l (place_buy b ∷ cs) = (b ≡ c) × WellLocked none l cs
  WellLocked (some c) l [] = ⊥
  WellLocked (some c) l (place_sell b ∷ cs) = ⊥
  WellLocked (some c) l (get_available k ∷ cs) = ⊥
  WellLocked (some c) l (reserve_create k x ∷ cs) = ⊥
  WellLocked (some c) l (reserve_cancel k x ∷ cs) = ⊥
  WellLocked (some c) l (set_requested k x ∷ cs) = ⊥

  abbrev Consistent : List ℕ → List (Call D) → List ℕ → Type 0
  Consistent l calls now = WellLocked none l calls × (now ≡ locked_after l calls)

  Consistent-append :
      (calls more : List (Call D)) (l mid now : List ℕ)
      → Consistent l calls mid
      → Consistent mid more now
      → Consistent l (calls ++ more) now
  unfolding locked_after
  Consistent-append [] more l mid now (w, e) h = subst (λ k. Consistent k more now) e h
  Consistent-append (place_sell c ∷ []) more l mid now ((a, b, w), e) h = absurd w
  Consistent-append (place_sell c ∷ place_buy b ∷ cs) more l mid now ((p, q, (same, w)), e) h =
      let (w', e') = Consistent-append cs more _ mid now (w, e) h in ((p, q, (same, w')), e')
  Consistent-append (place_sell c ∷ place_sell b ∷ cs) more l mid now ((p, q, w), e) h = absurd w
  Consistent-append (place_sell c ∷ get_available k ∷ cs) more l mid now ((p, q, w), e) h = absurd w
  Consistent-append (place_sell c ∷ reserve_create k x ∷ cs) more l mid now ((p, q, w), e) h =
      absurd w
  Consistent-append (place_sell c ∷ reserve_cancel k x ∷ cs) more l mid now ((p, q, w), e) h =
      absurd w
  Consistent-append (place_sell c ∷ set_requested k x ∷ cs) more l mid now ((p, q, w), e) h =
      absurd w
  Consistent-append (get_available k ∷ cs) more l mid now h g =
      Consistent-append cs more l mid now h g
  Consistent-append (reserve_create k x ∷ cs) more l mid now h g =
      Consistent-append cs more l mid now h g
  Consistent-append (reserve_cancel k x ∷ cs) more l mid now h g =
      Consistent-append cs more l mid now h g
  Consistent-append (set_requested k x ∷ cs) more l mid now h g =
      Consistent-append cs more l mid now h g
  Consistent-append (place_buy c ∷ cs) more l mid now (w, e) g = absurd w

  place_order-Consistent :
      (env : Env D) (m : Manager D) (c : Candidat D)
      → Consistent m.locked_markets (place_order env m c).1 (place_order env m c).0.locked_markets
  unfolding place_order locked_after
  place_order-Consistent env m c =
      elim (Bool-cases (list_contains m.locked_markets c.sell_pair_id)) [
        | inl e ↦ rw (e, place_order) (tt, refl)
        | inr e ↦ elim (Bool-cases (list_contains m.locked_markets c.buy_pair_id)) [
          | inl f ↦ rw (e, f, place_order) (tt, refl)
          | inr f ↦ rw (e, f, place_order) ((e, f, (refl, tt)), refl)
        ]
      ]

module _ {D : Type 0} ⦃d : Double D⦄ (env : Env D) (l : List ℕ) where
  abbrev InStep : Round D → Type 0
  InStep r = Consistent l r.calls r.manager.locked_markets

  fetch-InStep : (k : ℕ) (r : Round D) → InStep r → InStep (fetch env k r)
  unfolding fetch locked_after
  fetch-InStep k r h = elim (Bool-cases (contains k r.funds)) [
    | inl e ↦ rw (e, fetch) h
    | inr e ↦
        rw (e, fetch)
          (Consistent-append r.calls (get_available k ∷ []) l _ r.manager.locked_markets h
            (tt, refl))
  ]

  reserve-InStep : (k : ℕ) (x : D) (r : Round D) → InStep r → InStep (reserve k x r)
  unfolding reserve locked_after
  reserve-InStep k x r h =
      Consistent-append r.calls (reserve_create k x ∷ []) l _ r.manager.locked_markets h (tt, refl)

  commit-InStep : (c : Candidat D) (r : Round D) → InStep r → InStep (commit env c r)
  unfolding commit
  commit-InStep c r h =
      let r' =
        reserve (env.price_currency c.buy_pair_id) c.buy_price
          (reserve (env.base_currency c.sell_pair_id) c.amount r) in
      Consistent-append r'.calls (place_order env r'.manager c).1 l _ _
        (reserve-InStep (env.price_currency c.buy_pair_id) c.buy_price
          (reserve (env.base_currency c.sell_pair_id) c.amount r)
          (reserve-InStep (env.base_currency c.sell_pair_id) c.amount r h))
        (place_order-Consistent env r'.manager c)

  on_candidat-InStep : (c : Candidat D) (r : Round D) → InStep r → InStep (on_candidat env r c)
  unfolding on_candidat
  on_candidat-InStep c r h =
      let r' =
        fetch env (env.price_currency c.buy_pair_id)
          (fetch env (env.base_currency c.sell_pair_id) r) in
      let h' : InStep r' = fetch-InStep _ _ (fetch-InStep _ r h) in
      elim (Bool-cases (is_covered env c r')) [
        | inr e ↦ rw (e, on_candidat) h'
        | inl e ↦ elim (Bool-cases env.is_emulation) [
          | inl f ↦ elim (Bool-cases (is_unused r'.manager c)) [
            | inl g ↦
                rw (e, f, g, on_candidat) (commit-InStep c (use_virtual c r') (virtual c r' h'))
            | inr g ↦ rw (e, f, g, on_candidat) h'
          ]
          | inr f ↦ elim (Bool-cases (nat_beq env.mode 2 || nat_beq env.mode 3)) [
            | inl g ↦ rw (e, f, g, on_candidat) (commit-InStep c r' h')
            | inr g ↦ rw (e, f, g, on_candidat) h'
          ]
        ]
      ]
    where
      virtual : (c : Candidat D) (r : Round D) → InStep r → InStep (use_virtual c r)
      virtual c r h = h

  run_candidats-InStep :
      (cs : List (Candidat D)) (r : Round D) → InStep r → InStep (run_candidats env r cs)
  unfolding run_candidats
  run_candidats-InStep [] r h = h
  run_candidats-InStep (c ∷ cs) r h = run_candidats-InStep cs _ (on_candidat-InStep c r h)

request_calls-Consistent :
    {D : Type 0} ⦃d : Double D⦄ (q : Map ℕ D) (l : List ℕ) → Consistent l (request_calls q) l
unfolding request_calls locked_after
request_calls-Consistent [] l = (tt, refl)
request_calls-Consistent ((k, x) ∷ q) l = request_calls-Consistent q l

module _ {D : Type 0} ⦃d : Double D⦄ where
  pub on_candidats-WellLocked :
      (env : Env D) (m : Manager D) (cs : List (Candidat D))
      → WellLocked none m.locked_markets (on_candidats env m cs).1
        × ((on_candidats env m cs).0.locked_markets
            ≡ locked_after m.locked_markets (on_candidats env m cs).1)
  unfolding on_candidats locked_after
  on_candidats-WellLocked env m cs = go (env.by_profit cs) refl
    where
      start_round : Manager D → Round D
      start_round m = record { manager = m; funds = m.balances; calls = []; refused = [] }

      round : Candidat D → List (Candidat D) → Round D
      round c queue = run_candidats env (start_round m) (c ∷ queue)

      go :
          (queue : List (Candidat D))
          → env.by_profit cs ≡ queue
          → Consistent m.locked_markets
              (on_candidats env m cs).1
              (on_candidats env m cs).0.locked_markets
      go [] e = rw (e, on_candidats) (tt, refl)
      go (c ∷ queue) e =
          rw (e, on_candidats)
            (Consistent-append (round c queue).calls _ m.locked_markets _ _
              (run_candidats-InStep env m.locked_markets (c ∷ queue) (start_round m) (tt, refl))
              (request_calls-Consistent
                (create_money_refill_requests env (round c queue).refused (round c queue).funds) _))
