-- ===== src/Assets/Named.antt =====
-- swift-lib/assetsstorage.cpp: which loaded currency a name finds, and which loaded market has an exchange.
use swift_bot.Prelude.{
  ℕ, String, ◌≡◌, refl, ◌∙◌, ap, ◌&&◌, Option, none, some, List, [], ◌∷◌, if◌then◌else◌, Bool-cases,
  inl, inr,
}
use swift_bot.Qt.Key.{◌==◌, nat_key, text_key}
use swift_bot.Qt.Map.{Map, lookup, insert, value_or, lookup-insert}
use swift_bot.Assets.{Assets, Texts, get_currency_id_by_name, first_named}
use swift_bot.Assets.Load.{
  CurrencyRow, AddressRow, Rows, insert_at, load_assets, load_each, load_coin, load_address,
}

lookup-insert_at :
    (k e : ℕ) (n m : String) (v : ℕ) (ms : Map ℕ (Map String ℕ))
    → lookup m (value_or e [] (insert_at k n v ms))
      ≡ (if k == e && n == m then some v else lookup m (value_or e [] ms))
lookup-insert_at k e n m v ms =
    let opened =
      ap (λ o. lookup m (elim o as (λ y. Map String ℕ) [ none ↦ [] | some w ↦ w ]))
        (lookup-insert k e (insert n v (value_or k [] ms)) ms) in
    opened ∙ elim (Bool-cases (k == e)) [
      | inl p ↦
          let same : k ≡ e = (nat_key.beq_iff k e).0 p in
          rw (p) (
            lookup-insert n m v (value_or k [] ms)
            ∙ ap (λ j. if n == m then some v else lookup m (value_or j [] ms)) same)
      | inr p ↦ rw (p) refl
    ]

module _ {D : Type 0} (x : Texts D) where
  -- The number of the last row with a name and an exchange, and what was known where there is none.
  unfoldable pub last_named : String → ℕ → List (CurrencyRow D) → Option ℕ → Option ℕ
  last_named n e [] known = known
  last_named n e (r ∷ rs) known =
      last_named n e rs (if r.exchange_id == e && r.name == n then some r.id else known)

  abbrev known_as : String → ℕ → Assets D → Option ℕ
  known_as n e a = lookup n (value_or e [] a.exchange_currencies)

  load_coin-known_as :
      (n : String) (e : ℕ) (r : CurrencyRow D) (a : Assets D)
      → known_as n e (load_coin x r a)
        ≡ (if r.exchange_id == e && r.name == n then some r.id else known_as n e a)
  unfolding load_coin
  load_coin-known_as n e r a = lookup-insert_at r.exchange_id e r.name n r.id a.exchange_currencies

  load_coins-known_as :
      (n : String) (e : ℕ) (rs : List (CurrencyRow D)) (a : Assets D)
      → known_as n e (load_each (load_coin x) rs a) ≡ last_named n e rs (known_as n e a)
  unfolding load_each last_named
  load_coins-known_as n e [] a = refl
  load_coins-known_as n e (r ∷ rs) a =
      load_coins-known_as n e rs (load_coin x r a)
      ∙ ap (last_named n e rs) (load_coin-known_as n e r a)

  load_addresses-known_as :
      (n : String) (e : ℕ) (rs : List AddressRow) (a : Assets D)
      → known_as n e (load_each (load_address x) rs a) ≡ known_as n e a
  unfolding load_each load_address
  load_addresses-known_as n e [] a = refl
  load_addresses-known_as n e (r ∷ rs) a = load_addresses-known_as n e rs (load_address x r a)

  last_named_found :
      (n : String) (e i : ℕ) (rs : List (CurrencyRow D)) (known : Option ℕ)
      → last_named n e rs none ≡ some i
      → last_named n e rs known ≡ some i
  unfolding last_named
  last_named_found n e i [] known h = cc
  last_named_found n e i (r ∷ rs) known h = elim (Bool-cases (r.exchange_id == e && r.name == n)) [
    | inl p ↦ rw (p) (rw (p) at h)
    | inr p ↦ rw (p) (last_named_found n e i rs known (rw (p) at h))
  ]

  -- After the assets are loaded, a name is answered with the last row of the currencies that has this name
  -- and this exchange, where there is one, whatever was loaded before.
  pub load_assets-get_currency_id_by_name :
      (rows : Rows D) (a : Assets D) (n : String) (e i : ℕ)
      → last_named n e rows.coins none ≡ some i
      → (get_currency_id_by_name (load_assets x rows a) x n e).1 ≡ i
  unfolding load_assets get_currency_id_by_name first_named
  load_assets-get_currency_id_by_name rows a n e i h =
      let found : known_as n e (load_assets x rows a) ≡ some i =
        load_addresses-known_as n e rows.addresses _
        ∙ load_coins-known_as n e rows.coins _
        ∙ last_named_found n e i rows.coins _ h in
      ap
        (λ o.
          let rest =
            first_named (x.to_upper n ∷ x.to_lower n ∷ x.replace "BTC" "XBT" (x.to_upper n) ∷ [])
              (value_or e [] (load_assets x rows a).exchange_currencies) in
          elim o as (λ y. ℕ) [ none ↦ rest | some w ↦ w ])
        found
