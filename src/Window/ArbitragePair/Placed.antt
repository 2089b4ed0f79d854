-- ===== src/Window/ArbitragePair/Placed.antt =====
-- swift-lib/arbitragepair.cpp: what a run over the candidates places.
use swift_bot.Prelude.{
  ◌≡◌, refl, ap, ◌⊎◌, inl, inr, true, false, List, [], ◌∷◌, ◌++◌, Bool-cases, subst, sym,
}
use swift_bot.Double.{Double}
use swift_bot.Window.ArbitragePair.{
  Classic, PairEnv, Call, Pair, lock, is_covered, covered, calls_of, try_candidat, try_candidats,
  check_candidats,
}

module _ {D : Type 0} ⦃d : Double D⦄ (env : PairEnv D) where
  -- A candidate that is worth its orders, from a pair that is not locked.
  abbrev pub Worth : Pair D → Classic D → Type 0
  Worth p c =
      (p.is_locked ≡ false)
      × (is_covered env c ≡ true)
      × (d.lt env.min_profit (env.real_profit c.window (env.round_amount c.size)) ≡ true)
      × (env.is_placing ≡ true)

  -- A run over candidates: each is passed over, or is worth its orders at that moment, and then the pair is
  -- locked, both orders are linked and placed, and the run goes on with the pair that the events during
  -- the calls leave.
  pub data Placed : List (Classic D) → Pair D → Pair D × List (Call D) → Type 0 where
    finished : (p : Pair D) → Placed [] p (p, [])
    passed :
        (c : Classic D) (cs : List (Classic D)) (p : Pair D) (r : Pair D × List (Call D))
        → Placed cs p r
        → Placed (c ∷ cs) p r
    placed :
        (c : Classic D) (cs : List (Classic D)) (p : Pair D) (r : Pair D × List (Call D))
        → Worth p c
        → Placed cs (env.during c (lock env.now p)) r
        → Placed (c ∷ cs) p (r.0, calls_of env c ++ r.1)

  abbrev Tried : Classic D → Pair D → Pair D × List (Call D) → Type 0
  Tried c p r =
      (r ≡ (p, []))
      ⊎ ((p.is_locked ≡ false)
          × (d.lt env.min_profit (env.real_profit c.window (env.round_amount c.size)) ≡ true)
          × (env.is_placing ≡ true)
          × (r ≡ (env.during c (lock env.now p), calls_of env c)))

  try_candidat-Tried : (p : Pair D) (c : Classic D) → Tried c p (try_candidat env p c)
  unfolding try_candidat
  try_candidat-Tried p c = elim (Bool-cases p.is_locked) [
    | inl e ↦ inl (rw (try_candidat, e) refl)
    | inr e ↦
        elim (Bool-cases
          (d.lt env.min_profit (env.real_profit c.window (env.round_amount c.size)))) [
            | inr f ↦ inl (rw (try_candidat, e, f) refl)
            | inl f ↦ elim (Bool-cases env.is_joined) [
              | inr g ↦ inl (rw (try_candidat, e, f, g) refl)
              | inl g ↦ elim (Bool-cases env.is_placing) [
                | inr h ↦ inl (rw (try_candidat, e, f, g, h) refl)
                | inl h ↦ inr (e, f, h, rw (try_candidat, e, f, g, h) refl)
              ]
            ]
          ]
  ]

  -- The first turn, and those after it.
  abbrev then_rest : List (Classic D) → Pair D × List (Call D) → Pair D × List (Call D)
  then_rest cs step = let rest = try_candidats env step.0 cs in (rest.0, step.1 ++ rest.1)

  try_candidats-Placed :
      (p : Pair D) (cs : List (Classic D)) → Placed cs p (try_candidats env p (covered env cs))
  unfolding try_candidats covered
  try_candidats-Placed p [] = finished p
  try_candidats-Placed p (c ∷ cs) = elim (Bool-cases (is_covered env c)) [
    | inr own ↦ rw (own) (passed c cs p _ (try_candidats-Placed p cs))
    | inl own ↦ rw (own) (elim (try_candidat-Tried p c) [
      | inl step ↦
          subst (Placed (c ∷ cs) p) (sym (ap (then_rest (covered env cs)) step))
            (passed c cs p _ (try_candidats-Placed p cs))
      | inr (open_pair, profit, placing, step) ↦
          subst (Placed (c ∷ cs) p) (sym (ap (then_rest (covered env cs)) step)) (
            placed c cs p _ (open_pair, own, profit, placing)
              (try_candidats-Placed (env.during c (lock env.now p)) cs))
    ])
  ]

  pub check_candidats-Placed :
      (p : Pair D)
      → Placed
          (env.by_percent p.classic_candidats)
          (record p { classic_candidats = [] })
          (check_candidats env p)
  unfolding check_candidats
  check_candidats-Placed p =
      try_candidats-Placed (record p { classic_candidats = [] })
        (env.by_percent p.classic_candidats)
