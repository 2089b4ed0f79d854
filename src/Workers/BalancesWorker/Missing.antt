-- ===== src/Workers/BalancesWorker/Missing.antt =====
-- workers/balancesworker.cpp: an update of an exchange, for the currencies that it reports and for
-- those that it leaves out.
use swift_bot.Prelude.{
  ℕ, String, ◌≡◌, refl, ◌∙◌, ap, inl, inr, true, false, none, some, List, [], ◌∷◌, ◌++◌, arith, map,
  ltb, Bool-cases, Option-cases, ◌==◌ as nat_beq, if◌then◌else◌, All,
}
use swift_bot.Qt.Key.{◌==◌, nat_key, text_key}
use swift_bot.Qt.Vector.{list_contains}
use swift_bot.Qt.Map.{lookup, insert}
use swift_bot.Qt.Json.{JsonObject, get_text, put_text}
use swift_bot.Double.{Double, nought}
use swift_bot.Workers.BalancesWorker.{
  Env, Worker, id_of, number_of, in_orders_of, zero_item, missing_items, on_update_event,
}
use swift_bot.Workers.BalancesWorker.Summaries.{Shows}
use swift_bot.Workers.BalancesWorker.Updates.{reported, IsKept, on_update_event-items}

module _ {D : Type 0} ⦃d : Double D⦄ (env : Env D) where
  reported-append :
      (k : ℕ) (os ps : List JsonObject)
      → reported env k (os ++ ps)
        ≡ elim (reported env k ps) [ none ↦ reported env k os | some p ↦ some p ]
  unfolding reported
  reported-append k [] ps = elim (Option-cases (reported env k ps)) [
    | inl e ↦ rw (e) refl
    | inr (p, e) ↦ rw (e) refl
  ]
  reported-append k (o ∷ os) ps = elim (Option-cases (reported env k ps)) [
    | inl e ↦ rw (reported-append k os ps, e) refl
    | inr (p, e) ↦ rw (reported-append k os ps, e) refl
  ]

  -- Numbers of currencies that read back as they are printed.
  abbrev pub ReadBack : List ℕ → Type 0
  ReadBack ks = All (λ k. env.to_uint (env.nat_text k) ≡ k) ks

  id_of-zero_item : (e k : ℕ) → env.to_uint (env.nat_text k) ≡ k → id_of env (zero_item env e k) ≡ k
  unfolding zero_item get_text put_text lookup insert swift_bot.Qt.Key.text_before
  id_of-zero_item e k h = h

  contains-reported :
      (k : ℕ) (os : List JsonObject) {o : JsonObject}
      → reported env k os ≡ some o
      → list_contains (map (id_of env) os) k ≡ true
  unfolding reported list_contains
  contains-reported k [] h = ground (arith, h)
  contains-reported k (p ∷ os) h = elim (Option-cases (reported env k os)) [
    | inr (q, e) ↦ rw (contains-reported k os e) (ground arith)
    | inl e ↦ ground (arith, e, h)
  ]

  reported-missing_items :
      (k e : ℕ) (ids ks : List ℕ)
      → ReadBack ks
      → reported env k (missing_items env e ids ks) ≡ (
          if list_contains ids k
          then none
          else if list_contains ks k
          then some (zero_item env e k)
          else none)
  unfolding reported missing_items list_contains
  reported-missing_items k e ids [] h = ground arith
  reported-missing_items k e ids (c ∷ cs) (own, rest) =
      let run = reported-missing_items k e ids cs rest in
      let id : id_of env (zero_item env e c) ≡ c = id_of-zero_item e c own in
      elim (Bool-cases (nat_beq c k)) [
        | inl same ↦ let p : c ≡ k = ground (arith, same) in ground (arith, p, run, id)
        | inr other ↦ ground (arith, other, run, id)
      ]

  -- Where the items are sorted by currency and each names its own, and the ids of the exchange's
  -- currencies read back as they are printed: after an update the four tables show, for a currency above
  -- 0, the numbers of the last item of the update that names it.
  pub on_update_event-reported :
      (k : ℕ) (exchange : String) (balances : List JsonObject) (w : Worker D) (o : JsonObject)
      → IsKept env w
      → ReadBack (env.exchange_currencies (env.to_uint exchange))
      → ltb 0 k ≡ true
      → reported env k balances ≡ some o
      → Shows env k o (on_update_event env w exchange balances)
  on_update_event-reported k exchange balances w o kept back pos h =
      let e = env.to_uint exchange in
      let ids = map (id_of env) balances in
      let curs = env.exchange_currencies e in
      let inside : list_contains ids k ≡ true = contains-reported k balances h in
      let none_missing : reported env k (missing_items env e ids curs) ≡ none =
        reported-missing_items k e ids curs back ∙ rw (inside) refl in
      on_update_event-items env k exchange balances w kept pos
        (reported-append k balances _ ∙ rw (none_missing) h)

  on_update_event_left_out :
      (k : ℕ) (exchange : String) (balances : List JsonObject) (w : Worker D)
      → IsKept env w
      → ReadBack (env.exchange_currencies (env.to_uint exchange))
      → ltb 0 k ≡ true
      → list_contains (env.exchange_currencies (env.to_uint exchange)) k ≡ true
      → list_contains (map (id_of env) balances) k ≡ false
      → Shows env k
          (zero_item env (env.to_uint exchange) k)
          (on_update_event env w exchange balances)
  on_update_event_left_out k exchange balances w kept back pos listed out =
      let e = env.to_uint exchange in
      let ids = map (id_of env) balances in
      let curs = env.exchange_currencies e in
      let filled : reported env k (missing_items env e ids curs) ≡ some (zero_item env e k) =
        reported-missing_items k e ids curs back ∙ rw (out, listed) refl in
      on_update_event-items env k exchange balances w kept pos
        (reported-append k balances _ ∙ rw (filled) refl)

  -- How a 0 is read that was printed, and a text that is missing or "0".
  pub record ReadsZero : Type 0 where
    pub printed : env.to_double (env.fixed8 nought) ≡ nought
    pub missing : env.to_double "" ≡ nought
    pub digit : env.to_double "0" ≡ nought

  -- Where the items are sorted by currency and each names its own, the ids of the exchange's currencies read
  -- back as they are printed, and a printed 0, a missing text and "0" are read as 0: after an update a
  -- currency above 0 of the exchange that the update leaves out has a 0 in each of the four tables.
  pub on_update_event-zero_item :
      (k : ℕ) (exchange : String) (balances : List JsonObject) (w : Worker D)
      → IsKept env w
      → ReadBack (env.exchange_currencies (env.to_uint exchange))
      → ReadsZero
      → ltb 0 k ≡ true
      → list_contains (env.exchange_currencies (env.to_uint exchange)) k ≡ true
      → list_contains (map (id_of env) balances) k ≡ false
      → let after = on_update_event env w exchange balances in
        (lookup k after.bals_total ≡ some nought)
        × (lookup k after.bals_available ≡ some nought)
        × (lookup k after.bals_reserved ≡ some nought)
        × (lookup k after.bals_orders ≡ some nought)
  unfolding zero_item number_of in_orders_of get_text put_text lookup insert
      swift_bot.Qt.Key.text_before
  on_update_event-zero_item k exchange balances w kept back zero pos listed out =
      let (total, available, reserved, orders) =
        on_update_event_left_out k exchange balances w kept back pos listed out in
      (
        total ∙ ap (λ x. some x) zero.printed,
        available ∙ ap (λ x. some x) zero.printed,
        reserved ∙ ap (λ x. some x) zero.missing,
        orders ∙ ap (λ x. some x) zero.digit,
      )
