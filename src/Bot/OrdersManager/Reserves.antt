-- ===== src/Bot/OrdersManager/Reserves.antt =====
-- What a run of `onCandidats` reserves.
use swift_bot.Prelude.{
  ℕ, ◌≡◌, refl, ◌∙◌, sym, ap, inl, inr, ◌⊎◌, true, false, ◌||◌, some, List, [], ◌∷◌, ◌++◌, arith,
  All, Bool-cases, some_inj, subst, append-nil, append_assoc, and_left, and_right, ◌==◌ as nat_beq,
}
use swift_bot.Qt.Key.{◌==◌, nat_key}
use swift_bot.Qt.Vector.{list_contains}
use swift_bot.Qt.Map.{Map, lookup, contains, value_or, lookup-insert}
use swift_bot.Double.{Double, IsDouble, nought}
use swift_bot.Bot.OrdersManager.{
  Candidat, Call, reserve_create, Manager, Env, place_order, Round, fetch, reserve, commit,
  use_virtual, is_unused, is_covered, on_candidat, run_candidats,
}

module _ {D : Type 0} ⦃d : Double D⦄ (laws : IsDouble D) (env : Env D) (known : Map ℕ D) where
  -- Funds of a round: above zero, or as they were known or answered.
  abbrev pub Backed : Map ℕ D → Type 0
  Backed funds =
      (k : ℕ) (x : D)
      → lookup k funds ≡ some x
      → (d.lt nought x ≡ true) ⊎ (x ≡ env.available k) ⊎ (lookup k known ≡ some x)

  fetch-Backed : (k : ℕ) (r : Round D) → Backed r.funds → Backed (fetch env k r).funds
  unfolding fetch
  fetch-Backed k r h = elim (Bool-cases (contains k r.funds)) [
    | inl e ↦ rw (e, fetch) h
    | inr e ↦
        rw (e, fetch) (λ j x f. ground (arith, lookup-insert k j (env.available k) r.funds, h j x))
  ]

  -- A reservation below the funds leaves them above zero.
  reserve-Backed :
      (k : ℕ) (x : D) (r : Round D)
      → d.lt x (value_or k nought r.funds) ≡ true
      → Backed r.funds
      → Backed (reserve k x r).funds
  unfolding reserve
  reserve-Backed k x r lt h j y f =
      let left = d.sub (value_or k nought r.funds) x in
      let pos : d.lt nought left ≡ true = laws.sub_pos _ x lt in
      elim (Bool-cases (k == j)) [
        | inl e ↦
            let same : left ≡ y = some_inj (sym (lookup-insert k j left r.funds ∙ rw e refl) ∙ f) in
            inl (subst (λ z. d.lt nought z ≡ true) same pos)
        | inr e ↦ h j y (sym (lookup-insert k j left r.funds ∙ rw e refl) ∙ f)
      ]

  value_or-reserve :
      (j k : ℕ) (x : D) (r : Round D)
      → (k == j) ≡ false
      → value_or j nought (reserve k x r).funds ≡ value_or j nought r.funds
  unfolding reserve
  value_or-reserve j k x r e =
      rw (lookup-insert k j (d.sub (value_or k nought r.funds) x) r.funds, e, value_or) refl

  abbrev pub TwoCurrencies : Candidat D → Type 0
  TwoCurrencies c = (env.base_currency c.sell_pair_id == env.price_currency c.buy_pair_id) ≡ false

  commit-Backed :
      (c : Candidat D) (r : Round D)
      → TwoCurrencies c
      → is_covered env c r ≡ true
      → Backed r.funds
      → Backed (commit env c r).funds
  unfolding commit is_covered
  commit-Backed c r two covered h =
      let sell = env.base_currency c.sell_pair_id in
      let buy = env.price_currency c.buy_pair_id in
      let lt_sell : d.lt c.amount (value_or sell nought r.funds) ≡ true = and_left _ _ covered in
      let lt_buy : d.lt c.buy_price (value_or buy nought r.funds) ≡ true = and_right _ _ covered in
      reserve-Backed buy c.buy_price (reserve sell c.amount r)
        (ap (d.lt c.buy_price) (value_or-reserve buy sell c.amount r two) ∙ lt_buy)
        (reserve-Backed sell c.amount r lt_sell h)

  on_candidat-Backed :
      (c : Candidat D) (r : Round D)
      → TwoCurrencies c
      → Backed r.funds
      → Backed (on_candidat env r c).funds
  unfolding on_candidat
  on_candidat-Backed c r two h =
      let r' =
        fetch env (env.price_currency c.buy_pair_id)
          (fetch env (env.base_currency c.sell_pair_id) r) in
      let h' : Backed r'.funds = fetch-Backed _ _ (fetch-Backed _ r h) in
      elim (Bool-cases (is_covered env c r')) [
        | inr e ↦ rw (e, on_candidat) h'
        | inl e ↦ elim (Bool-cases env.is_emulation) [
          | inl f ↦ elim (Bool-cases (is_unused r'.manager c)) [
            | inl g ↦ rw (e, f, g, on_candidat) (commit-Backed c (use_virtual c r') two e h')
            | inr g ↦ rw (e, f, g, on_candidat) h'
          ]
          | inr f ↦ elim (Bool-cases (nat_beq env.mode 2 || nat_beq env.mode 3)) [
            | inl g ↦ rw (e, f, g, on_candidat) (commit-Backed c r' two e h')
            | inr g ↦ rw (e, f, g, on_candidat) h'
          ]
        ]
      ]

  -- Where every candidate sells one currency and pays with another: if the funds of a run start above
  -- zero or as known, then each amount at its end is above zero, as it was known, or as the balances
  -- worker answered it. A reservation never takes one to zero or below.
  pub run_candidats-Backed :
      (cs : List (Candidat D)) (r : Round D)
      → All TwoCurrencies cs
      → Backed r.funds
      → Backed (run_candidats env r cs).funds
  unfolding run_candidats
  run_candidats-Backed [] r two h = h
  run_candidats-Backed (c ∷ cs) r (two, rest) h =
      run_candidats-Backed cs _ rest (on_candidat-Backed c r two h)

module _ {D : Type 0} ⦃d : Double D⦄ where
  fetch_known : (env : Env D) (k : ℕ) (r : Round D) → contains k r.funds ≡ true → fetch env k r ≡ r
  unfolding fetch
  fetch_known env k r e = rw (e, fetch) refl

  abbrev pub Locked : Manager D → Candidat D → Type 0
  Locked m c =
      (list_contains m.locked_markets c.sell_pair_id
        || list_contains m.locked_markets c.buy_pair_id)
      ≡ true

  place_order-Locked :
      (env : Env D) (m : Manager D) (c : Candidat D)
      → Locked m c
      → place_order env m c ≡ (m, [], true)
  unfolding place_order
  place_order-Locked env m c locked =
      elim (Bool-cases (list_contains m.locked_markets c.sell_pair_id)) [
        | inl e ↦ rw (e, place_order) refl
        | inr e ↦
            let e' : list_contains m.locked_markets c.buy_pair_id ≡ true =
              sym (rw (e) refl) ∙ locked in
            rw (e, e', place_order) refl
      ]

  -- The calls of the two reservations of a candidate.
  abbrev pub reservations : Env D → Candidat D → List (Call D)
  reservations env c =
      reserve_create (env.base_currency c.sell_pair_id) c.amount
      ∷ reserve_create (env.price_currency c.buy_pair_id) c.buy_price
      ∷ []

  commit-Locked :
      (env : Env D) (c : Candidat D) (r : Round D)
      → Locked r.manager c
      → ((commit env c r).manager ≡ r.manager)
        × ((commit env c r).calls ≡ r.calls ++ reservations env c)
  unfolding commit reserve
  commit-Locked env c r locked =
      let sent = place_order-Locked env r.manager c locked in
      (ap (λ p. p.0) sent, rw (sent) (append-nil _ ∙ append_assoc r.calls _ _))

  -- Outside emulation, in mode 2, with the funds of both currencies fetched: a covered candidate of a
  -- locked market is reserved for, on both sides, and no order is sent: the
  -- reservations stay behind without an order.
  pub on_candidat-Locked :
      (env : Env D) (r : Round D) (c : Candidat D)
      → env.is_emulation ≡ false
      → env.mode ≡ 2
      → contains (env.base_currency c.sell_pair_id) r.funds ≡ true
      → contains (env.price_currency c.buy_pair_id) r.funds ≡ true
      → is_covered env c r ≡ true
      → Locked r.manager c
      → ((on_candidat env r c).manager ≡ r.manager)
        × ((on_candidat env r c).calls ≡ r.calls ++ reservations env c)
  unfolding on_candidat
  on_candidat-Locked env r c emu mode known_sell known_buy covered locked =
      rw
        (
          on_candidat,
          fetch_known env _ r known_sell,
          fetch_known env _ r known_buy,
          covered,
          emu,
          mode,
        )
        (commit-Locked env c r locked)
