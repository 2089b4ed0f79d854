-- ===== src/Assets/Enabled.antt =====
-- swift-lib/assetsstorage.cpp: the table of the markets that are not enabled.
use swift_bot.Prelude.{ℕ, ◌≡◌, refl, ◌∙◌, ap, true, false, List, [], ◌∷◌, All, ◌==◌ as nat_beq}
use swift_bot.Qt.Key.{nat_key, text_key}
use swift_bot.Qt.Map.{value_or}
use swift_bot.Assets.{Assets, Texts, get_market_exchange_id}
use swift_bot.Assets.Load.{
  MarketRow, Rows, load_assets, load_each, load_coin_names, load_exchange, load_arbitrage_pair,
  load_currency, load_market, load_coin, load_address,
}

load_each-keeps :
    {R S T : Type 0} (f : R → S → S) (g : S → T)
    → ((r : R) (s : S) → g (f r s) ≡ g s)
    → (rs : List R) (s : S) → g (load_each f rs s) ≡ g s
unfolding load_each
load_each-keeps f g keeps [] s = refl
load_each-keeps f g keeps (r ∷ rs) s = load_each-keeps f g keeps rs (f r s) ∙ keeps r s

module _ {D : Type 0} (x : Texts D) where
  load_markets-all_market_exchange :
      (rs : List MarketRow) (a : Assets D)
      → All (λ r. nat_beq r.market_valid 1 ≡ true) rs
      → (load_each load_market rs a).all_market_exchange ≡ a.all_market_exchange
  unfolding load_each load_market
  load_markets-all_market_exchange [] a h = refl
  load_markets-all_market_exchange (r ∷ rs) a (valid, h) =
      load_markets-all_market_exchange rs (load_market r a) h ∙ rw (valid) refl

  -- Where the query finds enabled markets alone, as it asks for, loading the assets never says of which
  -- exchange a market is that is not enabled.
  pub load_assets-get_market_exchange_id :
      (rows : Rows D) (a : Assets D) (p : ℕ)
      → All (λ r. nat_beq r.market_valid 1 ≡ true) rows.markets
      → get_market_exchange_id (load_assets x rows a) p false ≡ get_market_exchange_id a p false
  unfolding load_assets get_market_exchange_id load_coin_names load_exchange load_arbitrage_pair
      load_currency load_coin load_address
  load_assets-get_market_exchange_id rows a p h =
      let of = λ (b : Assets D). b.all_market_exchange in
      ap (value_or p 0) (
        load_each-keeps (load_address x) of (λ r s. refl) rows.addresses _
        ∙ load_each-keeps (load_coin x) of (λ r s. refl) rows.coins _
        ∙ load_markets-all_market_exchange rows.markets _ h
        ∙ load_each-keeps load_currency of (λ r s. refl) rows.currencies _
        ∙ load_each-keeps load_arbitrage_pair of (λ r s. refl) rows.arbitrage_pairs _
        ∙ load_each-keeps load_exchange of (λ r s. refl) rows.exchanges (load_coin_names a))
