-- ===== src/Workers/BalanceWorker/Load/Exchanges.antt =====
-- The exchanges of the loaded transactions.
use swift_bot.Prelude.{
  ◌≡◌, refl, ◌∙◌, sym, ap, String, none, some, List, [], ◌∷◌, inl, inr, Bool-cases, some_inj,
}
use swift_bot.Qt.Key.{◌==◌, text_key}
use swift_bot.Qt.Map.{Map, lookup, value_or, insert, lookup-insert, lookup-insert_self}
use swift_bot.Double.{Double}
use swift_bot.Workers.BalanceWorker.{Env, Transaction, Worker, no_transaction}
use swift_bot.Workers.BalanceWorker.Load.{Row, of_row, load_deposits, load_withdraws}

module _ {D : Type 0} ⦃d : Double D⦄ (env : Env D) where
  -- Every transaction has the exchange of its currency.
  abbrev pub HasExchanges : Map String (Transaction D) → Type 0
  HasExchanges m =
      (uuid : String) (t : Transaction D)
      → lookup uuid m ≡ some t
      → t.exchange_id ≡ env.currency_exchange t.currency_id

  insert-HasExchanges :
      (uuid : String) (t : Transaction D) (m : Map String (Transaction D))
      → t.exchange_id ≡ env.currency_exchange t.currency_id
      → HasExchanges m
      → HasExchanges (insert uuid t m)
  insert-HasExchanges uuid t m same h u s found = elim (Bool-cases (uuid == u)) [
    | inl e ↦
        let found' : t ≡ s = some_inj (sym (lookup-insert uuid u t m ∙ rw e refl) ∙ found) in
        sym (ap (λ x. x.exchange_id) found')
        ∙ same
        ∙ ap (λ x. env.currency_exchange x.currency_id) found'
    | inr e ↦ h u s (sym (lookup-insert uuid u t m ∙ rw e refl) ∙ found)
  ]

  -- From a store whose deposits have the exchanges of their currencies, the constructor's loop leaves
  -- one that has them.
  pub load_deposits-HasExchanges :
      (rows : List (Row D)) (w : Worker D)
      → HasExchanges w.deposits
      → HasExchanges (load_deposits env w rows).deposits
  unfolding load_deposits of_row
  load_deposits-HasExchanges [] w h = h
  load_deposits-HasExchanges (r ∷ rows) w h =
      load_deposits-HasExchanges rows _ (insert-HasExchanges r.remote_id _ w.deposits refl h)

  -- A withdrawal that no deposit shares its key with is given the exchange of the currency 0, whatever
  -- its own currency is, and leaves an empty deposit under that key.
  pub load_withdraws_alone :
      (w : Worker D) (r : Row D)
      → lookup r.remote_id w.deposits ≡ none
      → let w' = load_withdraws env w (r ∷ []) in
        (lookup r.remote_id w'.withdraws ≡ some (of_row r (env.currency_exchange 0)))
        × (lookup r.remote_id w'.deposits ≡ some no_transaction)
  unfolding load_withdraws
  load_withdraws_alone w r missing =
      let deposit : value_or r.remote_id no_transaction w.deposits ≡ no_transaction =
        rw (missing, value_or) refl in
      (
        lookup-insert_self r.remote_id _ w.withdraws
            ∙ ap (λ t. some (of_row r (env.currency_exchange t.currency_id))) deposit,
        lookup-insert_self r.remote_id _ w.deposits ∙ ap some deposit,
      )
