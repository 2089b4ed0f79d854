-- ===== src/Workers/BalancesWorker/Events.antt =====
-- workers/balancesworker.cpp: the updates and calls that reach the worker, in any order, and what they
-- do together with the orders manager.
use swift_bot.Prelude.{
  ℕ, String, ◌≡◌, refl, ap, inl, inr, ◌∙◌, sym, true, false, some, List, [], ◌∷◌, ◌++◌, arith,
  Bool-cases, List-cases, Option-cases, some_inj, All, subst, ◌==◌ as nat_beq,
}
use swift_bot.Qt.Key.{◌==◌, nat_key, text_key}
use swift_bot.Qt.Map.{Map, lookup, contains, value_or, insert}
use swift_bot.Qt.Sorted.{IsSorted, insert-IsSorted}
use swift_bot.Qt.Json.{JsonObject, get_text, put_text, get_text-put_text_ne}
use swift_bot.Double.{Double, nought, le}
use swift_bot.Bot.OrdersManager.{
  Call, get_available as ask_available, reserve_create, reserve_cancel,
  set_requested as ask_requested, place_sell, place_buy, Candidat, Round, is_covered, on_candidat,
}
use swift_bot.Bot.OrdersManager
use swift_bot.Bot.OrdersManager.Reserves.{Locked, reservations, on_candidat-Locked}
use swift_bot.Workers.BalancesWorker.{
  Env, Worker, id_of, put_items, summarise, summarise_all, get_balances, any_currency,
  calculate_summaries, on_update_event,
}
use swift_bot.Workers.BalancesWorker.Summaries.{
  IsKeyed, calculate_summaries_idle, calculate_summaries_run,
}
use swift_bot.Workers.BalancesWorker.Updates.{IsKept, IsKeyed-insert, all_items, put_items-IsKept}
use swift_bot.Workers.BalancesWorker.Reserve.{
  serve, serve_all, new_item, item_of, set_requested, add_requested, cancel_all, reserve_internal,
  reserve_cancel_internal,
}
use swift_bot.Workers.BalancesWorker.Ledger.{
  ledger_of, update, replay, replay_all, serve_all-replay_all,
}

-- What reaches the worker.
pub data Event (D : Type 0) : Type 0 where
  updated : String → List JsonObject → Event D
  called : Call D → Event D
  requested_more : ℕ → D → Event D
  cancelled_all : Event D

module _ {D : Type 0} where
  -- The orders among the calls.
  unfoldable pub orders_of : List (Call D) → List (Call D)
  orders_of [] = []
  orders_of (place_sell c ∷ cs) = place_sell c ∷ orders_of cs
  orders_of (place_buy c ∷ cs) = place_buy c ∷ orders_of cs
  orders_of (ask_available k ∷ cs) = orders_of cs
  orders_of (reserve_create k x ∷ cs) = orders_of cs
  orders_of (reserve_cancel k x ∷ cs) = orders_of cs
  orders_of (ask_requested k x ∷ cs) = orders_of cs

module _ {D : Type 0} ⦃d : Double D⦄ where
  orders_of-reservations :
      (menv : OrdersManager.Env D) (c : Candidat D) (cs : List (Call D))
      → orders_of (cs ++ reservations menv c) ≡ orders_of cs
  unfolding orders_of
  orders_of-reservations menv c [] = refl
  orders_of-reservations menv c (place_sell b ∷ cs) =
      ap (λ os. place_sell b ∷ os) (orders_of-reservations menv c cs)
  orders_of-reservations menv c (place_buy b ∷ cs) =
      ap (λ os. place_buy b ∷ os) (orders_of-reservations menv c cs)
  orders_of-reservations menv c (ask_available k ∷ cs) = orders_of-reservations menv c cs
  orders_of-reservations menv c (reserve_create k x ∷ cs) = orders_of-reservations menv c cs
  orders_of-reservations menv c (reserve_cancel k x ∷ cs) = orders_of-reservations menv c cs
  orders_of-reservations menv c (ask_requested k x ∷ cs) = orders_of-reservations menv c cs

module _ {D : Type 0} ⦃d : Double D⦄ (env : Env D) where
  unfoldable pub on_event : Worker D → Event D → Worker D
  on_event w (updated exchange balances) = on_update_event env w exchange balances
  on_event w (called c) = (serve env w c).0
  on_event w (requested_more k x) = add_requested w k x
  on_event w cancelled_all = cancel_all w

  unfoldable pub run_events : Worker D → List (Event D) → Worker D
  unfolding on_event
  run_events w [] = w
  run_events w (e ∷ es) = run_events (on_event w e) es

  -- A requested currency reads back as it is printed.
  abbrev pub IsReadable : Event D → Type 0
  IsReadable (called (ask_requested k x)) = env.to_uint (env.nat_text k) ≡ k
  IsReadable (called (ask_available k)) = Unit
  IsReadable (called (reserve_create k x)) = Unit
  IsReadable (called (reserve_cancel k x)) = Unit
  IsReadable (called (place_sell c)) = Unit
  IsReadable (called (place_buy c)) = Unit
  IsReadable (updated exchange balances) = Unit
  IsReadable (requested_more k x) = Unit
  IsReadable cancelled_all = Unit

  summarise_all-mapped :
      (os : List JsonObject) (w : Worker D) → (summarise_all env w os).mapped ≡ w.mapped
  unfolding summarise_all summarise
  summarise_all-mapped [] w = refl
  summarise_all-mapped (o ∷ os) w = summarise_all-mapped os (summarise env w o)

  calculate_summaries-mapped : (w : Worker D) → (calculate_summaries env w).mapped ≡ w.mapped
  calculate_summaries-mapped w = elim (List-cases w.mapped) [
    | inl e ↦ ap (λ v. v.mapped) (calculate_summaries_idle env w e)
    | inr (e, m, q) ↦
        ap (λ v. v.mapped) (calculate_summaries_run env e m w q)
        ∙ summarise_all-mapped (get_balances w) _
  ]

  on_update_event-IsKept :
      (w : Worker D) (exchange : String) (balances : List JsonObject)
      → IsKept env w
      → IsKept env (on_update_event env w exchange balances)
  unfolding on_update_event
  on_update_event-IsKept w exchange balances h =
      let items = all_items env exchange balances in
      let after = put_items-IsKept env items w h in
      elim (Bool-cases (any_currency env items)) [
        | inl e ↦
            rw (e, on_update_event)
              (subst (λ m. IsSorted m × IsKeyed env m)
                (sym (calculate_summaries-mapped (put_items env w items))) after)
        | inr e ↦ rw (e, on_update_event) after
      ]

  id_of-new_item : (k : ℕ) → env.to_uint (env.nat_text k) ≡ k → id_of env (new_item env k) ≡ k
  unfolding new_item get_text put_text lookup insert swift_bot.Qt.Key.text_before
  id_of-new_item k h = h

  -- An item under a key names that key.
  IsKeyed-lookup :
      (k : ℕ) (m : Map ℕ JsonObject) (o : JsonObject)
      → IsKeyed env m
      → lookup k m ≡ some o
      → id_of env o ≡ k
  unfolding lookup
  IsKeyed-lookup k [] o h e = ground (arith, e)
  IsKeyed-lookup k ((j, p) ∷ m) o (own, rest) e = elim (Bool-cases (nat_beq j k)) [
    | inl f ↦
        let same : p ≡ o = some_inj (sym (rw (f) refl) ∙ e) in
        let key : j ≡ k = ground (arith, f) in ap (id_of env) (sym same) ∙ own ∙ key
    | inr f ↦ IsKeyed-lookup k m o rest (sym (rw (f) refl) ∙ e)
  ]

  id_of-item_of :
      (k : ℕ) (m : Map ℕ JsonObject)
      → env.to_uint (env.nat_text k) ≡ k
      → IsKeyed env m
      → id_of env (item_of env m k) ≡ k
  unfolding item_of
  id_of-item_of k m back h = elim (Option-cases (lookup k m)) [
    | inl e ↦ rw (e, item_of, value_or) (id_of-new_item k back)
    | inr ([], e) ↦ rw (e, item_of, value_or) (id_of-new_item k back)
    | inr (x ∷ o, e) ↦ rw (e, item_of, value_or) (IsKeyed-lookup k m (x ∷ o) h e)
  ]

  set_requested-IsKept :
      (w : Worker D) (k : ℕ) (x : D)
      → env.to_uint (env.nat_text k) ≡ k
      → IsKept env w
      → IsKept env (set_requested env w k x)
  unfolding set_requested
  set_requested-IsKept w k x back (sorted, keyed) =
      let item = item_of env w.mapped k in
      elim (Bool-cases (env.currency_name k == "???")) [
        | inl e ↦ rw (e, set_requested) (sorted, keyed)
        | inr e ↦
            let own : id_of env (put_text "required" (env.fixed8 x) item) ≡ k =
              ap env.to_uint (get_text-put_text_ne "" "required" "currency_id" _ item refl)
              ∙ id_of-item_of k w.mapped back keyed in
            rw (e, set_requested)
              (insert-IsSorted k _ w.mapped sorted, IsKeyed-insert env k _ w.mapped own keyed)
      ]

  serve-IsKept :
      (w : Worker D) (c : Call D)
      → IsReadable (called c)
      → IsKept env w
      → IsKept env (serve env w c).0
  unfolding serve reserve_internal reserve_cancel_internal
  serve-IsKept w (ask_available k) back h = h
  serve-IsKept w (reserve_create k x) back h = h
  serve-IsKept w (reserve_cancel k x) back h =
      elim (Bool-cases (le x (value_or k nought w.internal_reserve))) [
        | inl e ↦ rw (e, reserve_cancel_internal) h
        | inr e ↦ rw (e, reserve_cancel_internal) h
      ]
  serve-IsKept w (ask_requested k x) back h = set_requested-IsKept w k x back h
  serve-IsKept w (place_sell c) back h = h
  serve-IsKept w (place_buy c) back h = h

  on_event-IsKept :
      (w : Worker D) (e : Event D) → IsReadable e → IsKept env w → IsKept env (on_event w e)
  unfolding on_event add_requested cancel_all
  on_event-IsKept w (updated exchange balances) r h = on_update_event-IsKept w exchange balances h
  on_event-IsKept w (called c) r h = serve-IsKept w c r h
  on_event-IsKept w (requested_more k x) r h = h
  on_event-IsKept w cancelled_all r h = h

  run_events-IsKept :
      (w : Worker D) (es : List (Event D))
      → All IsReadable es
      → IsKept env w
      → IsKept env (run_events w es)
  unfolding run_events
  run_events-IsKept w [] rs h = h
  run_events-IsKept w (e ∷ es) (r, rs) h =
      run_events-IsKept (on_event w e) es rs (on_event-IsKept w e r h)

  -- Through any sequence of updates and calls of a worker that starts with no items, an item that is kept
  -- under a currency names that currency, where the currencies that amounts are requested for read back
  -- as they are printed.
  pub run_events-id_of :
      (w : Worker D) (es : List (Event D)) (k : ℕ) (o : JsonObject)
      → w.mapped ≡ []
      → All IsReadable es
      → lookup k (run_events w es).mapped ≡ some o
      → id_of env o ≡ k
  run_events-id_of w es k o empty readable found =
      let start : IsKept env w = subst (λ m. IsSorted m × IsKeyed env m) (sym empty) (tt, tt) in
      IsKeyed-lookup k (run_events w es).mapped o (run_events-IsKept w es readable start).1 found

  serve_all-append :
      (w : Worker D) (cs ds : List (Call D))
      → (serve_all env w (cs ++ ds)).0 ≡ (serve_all env (serve_all env w cs).0 ds).0
  unfolding serve_all
  serve_all-append w [] ds = refl
  serve_all-append w (c ∷ cs) ds = serve_all-append (serve env w c).0 cs ds

  pub serve_all-Locked :
      (w : Worker D) (menv : OrdersManager.Env D) (r : Round D) (c : Candidat D)
      → menv.is_emulation ≡ false
      → menv.mode ≡ 2
      → contains (menv.base_currency c.sell_pair_id) r.funds ≡ true
      → contains (menv.price_currency c.buy_pair_id) r.funds ≡ true
      → is_covered menv c r ≡ true
      → Locked r.manager c
      → ((on_candidat menv r c).manager ≡ r.manager)
        × (orders_of (on_candidat menv r c).calls ≡ orders_of r.calls)
        × ((ledger_of (serve_all env w (on_candidat menv r c).calls).0).reserved ≡ (
            let before = (ledger_of (serve_all env w r.calls).0).reserved in
            let sell = menv.base_currency c.sell_pair_id in
            let buy = menv.price_currency c.buy_pair_id in
            let half = update before sell (d.add (before sell) c.amount) in
            update half buy (d.add (half buy) c.buy_price)))
  unfolding replay_all replay
  serve_all-Locked w menv r c emu mode sell buy covered locked =
      let alone = on_candidat-Locked menv r c emu mode sell buy covered locked in
      let served = (serve_all env w r.calls).0 in
      (
        alone.0,
        ap orders_of alone.1 ∙ orders_of-reservations menv c r.calls,
        ap (λ cs. (ledger_of (serve_all env w cs).0).reserved) alone.1
            ∙ ap (λ v. (ledger_of v).reserved) (serve_all-append w r.calls (reservations menv c))
            ∙ ap (λ l. l.reserved) (serve_all-replay_all env served (reservations menv c)).0,
      )
