-- ===== src/Workers/BalancesWorker/Ledger.antt =====
-- workers/balancesworker.cpp: the reserve and the requested amounts as functions of the currency.
-- `Ledger` is what the orders manager can see of the balances worker.
use mathlib.Core.Path.{fun_ext}
use swift_bot.Prelude.{
  ℕ, ◌≡◌, refl, ap, ap₂, inl, inr, ◌∙◌, List, [], ◌∷◌, arith, Bool-cases, if◌then◌else◌,
  ◌==◌ as nat_beq,
}
use swift_bot.Qt.Key.{◌==◌, nat_key, text_key}
use swift_bot.Qt.Map.{Map, value_or, insert, remove, lookup-insert, lookup-remove}
use swift_bot.Double.{Double, nought, le}
use swift_bot.Bot.OrdersManager.{
  Call, get_available as ask_available, reserve_create, reserve_cancel,
  set_requested as ask_requested, place_sell, place_buy,
}
use swift_bot.Workers.BalancesWorker.{Env, Worker}
use swift_bot.Workers.BalancesWorker.Reserve.{
  Answer, amount, success, elsewhere, get_available, set_requested, serve, serve_all,
  reserve_internal, reserve_cancel_internal,
}

pub record Ledger (D : Type 0) : Type 0 where
  pub available : ℕ → D
  pub reserved : ℕ → D
  pub requested : ℕ → D

-- A function with one value written.
abbrev pub update {ℓ} : {A : Type ℓ} → (ℕ → A) → ℕ → A → ℕ → A
update f k x j = if nat_beq k j then x else f j

module _ {D : Type 0} ⦃d : Double D⦄ where
  abbrev pub ledger_of : Worker D → Ledger D
  ledger_of w = record {
    available = λ k. value_or k nought w.bals_available;
    reserved = λ k. value_or k nought w.internal_reserve;
    requested = λ k. value_or k nought w.bals_requested;
  }

  -- A call, on functions.
  unfoldable pub replay : Ledger D → Call D → Ledger D × Answer D
  replay l (ask_available k) =
      let free =
        if le (l.reserved k) (l.available k)
        then d.sub (l.available k) (l.reserved k)
        else nought in
      (l, amount (if d.lt nought (l.available k) then free else nought))
  replay l (reserve_create k x) =
      (record l { reserved = update l.reserved k (d.add (l.reserved k) x) }, success 1)
  replay l (reserve_cancel k x) =
      if le x (l.reserved k)
      then (record l { reserved = update l.reserved k (d.sub (l.reserved k) x) }, success 1)
      else (record l { reserved = update l.reserved k nought }, success 0)
  replay l (ask_requested k x) = (record l { requested = update l.requested k x }, success 1)
  replay l (place_sell c) = (l, elsewhere)
  replay l (place_buy c) = (l, elsewhere)

  unfoldable pub replay_all : Ledger D → List (Call D) → Ledger D × List (Answer D)
  unfolding replay
  replay_all l [] = (l, [])
  replay_all l (c ∷ cs) =
      let step = replay l c in let rest = replay_all step.0 cs in (rest.0, step.1 ∷ rest.1)

  value_or-insert :
      (k : ℕ) (x : D) (m : Map ℕ D)
      → (λ j. value_or j nought (insert k x m)) ≡ update (λ j. value_or j nought m) k x
  value_or-insert k x m = fun_ext (λ j. ground (arith, lookup-insert k j x m))

  value_or-remove :
      (k : ℕ) (m : Map ℕ D)
      → (λ j. value_or j nought (remove k m)) ≡ update (λ j. value_or j nought m) k nought
  value_or-remove k m = fun_ext (λ j. ground (arith, lookup-remove k j m))

  ledger_of-set_requested :
      (env : Env D) (w : Worker D) (k : ℕ) (x : D)
      → ledger_of (set_requested env w k x)
        ≡ record (ledger_of w) { requested = update (ledger_of w).requested k x }
  unfolding set_requested
  ledger_of-set_requested env w k x =
      let own =
        ap (λ f. record (ledger_of w) { requested = f }) (value_or-insert k x w.bals_requested) in
      elim (Bool-cases (env.currency_name k == "???")) [
        | inl e ↦ rw (e, set_requested) own
        | inr e ↦ rw (e, set_requested) own
      ]

  -- The worker after a call, and its answer, as the manager sees them.
  abbrev seen : Worker D × Answer D → Ledger D × Answer D
  seen p = (ledger_of p.0, p.1)

  serve-replay :
      (env : Env D) (w : Worker D) (c : Call D) → seen (serve env w c) ≡ replay (ledger_of w) c
  unfolding serve replay reserve_internal reserve_cancel_internal get_available
  serve-replay env w (ask_available k) = refl
  serve-replay env w (reserve_create k x) =
      ap (λ f. (record (ledger_of w) { reserved = f }, success 1))
        (value_or-insert k _ w.internal_reserve)
  serve-replay env w (reserve_cancel k x) =
      elim (Bool-cases (le x (value_or k nought w.internal_reserve))) [
        | inl e ↦ rw (e) (
            ap (λ f. (record (ledger_of w) { reserved = f }, success 1))
              (value_or-insert k _ w.internal_reserve))
        | inr e ↦ rw (e) (
            ap (λ f. (record (ledger_of w) { reserved = f }, success 0))
              (value_or-remove k w.internal_reserve))
      ]
  serve-replay env w (ask_requested k x) =
      ap (λ l. (l, success 1)) (ledger_of-set_requested env w k x)
  serve-replay env w (place_sell c) = refl
  serve-replay env w (place_buy c) = refl

  -- Any list of calls of the orders manager is answered as three functions of the currency would
  -- answer it, and leaves the worker such that it reads as those functions after the calls. The tables
  -- show nothing else.
  pub serve_all-replay_all :
      (env : Env D) (w : Worker D) (cs : List (Call D))
      → (ledger_of (serve_all env w cs).0 ≡ (replay_all (ledger_of w) cs).0)
        × ((serve_all env w cs).1 ≡ (replay_all (ledger_of w) cs).1)
  unfolding serve_all replay_all
  serve_all-replay_all env w [] = (refl, refl)
  serve_all-replay_all env w (c ∷ cs) =
      let step = serve env w c in
      let one = serve-replay env w c in
      let rest = serve_all-replay_all env step.0 cs in
      let state = ap (λ p. p.0) one in
      (
        rest.0 ∙ ap (λ l. (replay_all l cs).0) state,
        ap₂ (λ a as'. a ∷ as') (ap (λ p. p.1) one) (rest.1 ∙ ap (λ l. (replay_all l cs).1) state),
      )
