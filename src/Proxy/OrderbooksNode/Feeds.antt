-- ===== src/Proxy/OrderbooksNode/Feeds.antt =====
-- swift-orderbooks-proxy/orderbooksnode.cpp: the handlers of the answers and messages of the exchanges, as
-- far as they reach the books. Addresses, signatures and the setup of connections are left out.
use swift_bot.Prelude.{
  ℕ, ◌+◌, ◌%◌, ◌^◌, String, Bool, true, false, ◌&&◌, Option, none, some, List, [], ◌∷◌, ◌++◌,
  if◌then◌else◌,
}
use swift_bot.Qt.Key.{◌==◌, text_key}
use swift_bot.Qt.Map.{lookup}
use swift_bot.Qt.Vector.{list_contains}
use swift_bot.Double.{Double, nought}
use swift_bot.Proxy.OrderbooksNode.{
  Env, Item, Node, RawLevel, node_starting, node_connected, node_error, node_shutdown,
  on_raw_orderbooks,
}

-- The two sides of a book, as they arrive, or as they are handed on.
abbrev pub Sides : Type 0 → Type 0
Sides A = List A × List A

abbrev pub supported_exchanges : List String
supported_exchanges =
    "cexio" ∷ "bittrex" ∷ "lbank" ∷ "kucoin" ∷ "binance" ∷ "kraken" ∷ "livecoin" ∷ "lakebtc"
    ∷ "exmo" ∷ "hitbtc" ∷ "bitfinex" ∷ "okcoin" ∷ "zb" ∷ "huobi" ∷ "idcm" ∷ []

-- What a node sends, reports, or hands on.
pub data Output : Type 0 where
  subscribe : ℕ → Output
  pong : ℕ → Output
  auth_error : Output
  orderbooks : Sides Item → Output

-- A message of the socket of cexio; one without an event is only logged.
pub record CexioMessage (D : Type 0) : Type 0 where
  pub event : Option String
  pub ok : String
  pub has_error : Bool
  pub sides : Sides (RawLevel D)

-- A message of the socket of kraken: an event, or books under the name of a market.
pub data KrakenMessage (D : Type 0) : Type 0 where
  event : String → KrakenMessage D
  books : String → Sides (RawLevel D) → KrakenMessage D

unfoldable pub to_output : Option (Sides Item) → List Output
to_output none = []
to_output (some s) = orderbooks s ∷ []

unfoldable pub is_empty : {A : Type 0} → List A → Bool
is_empty [] = true
is_empty (x ∷ xs) = false

module _ {D : Type 0} ⦃d : Double D⦄ (env : Env D) where
  -- `startNode`, up to the feeds of the exchange.
  unfoldable pub start_node : Node D → Node D
  start_node n = record n {
    current_state =
        if list_contains supported_exchanges n.exchange_name then node_starting else node_shutdown;
  }

  unfoldable pub clear_books : Node D → Node D
  clear_books n = record n { asks_indexed = []; bids_indexed = [] }

  -- An answer with the whole books of a market.
  unfoldable pub on_books : Sides (RawLevel D) → ℕ → Node D → Node D × List Output
  unfolding clear_books on_raw_orderbooks to_output
  on_books s pair n =
      let r = on_raw_orderbooks env s.0 s.1 pair (clear_books n) in (r.0, to_output r.1)

  -- The books of cexio are taken in without a market.
  unfoldable pub on_cexio_books : Sides (RawLevel D) → Node D → Node D × List Output
  unfolding on_books
  on_cexio_books s n = on_books s 0 n

  -- One answer with the books of all markets: each market that it names takes the place of the last.
  unfoldable pub on_all_books :
      (String → Option (Sides (RawLevel D))) → List (String × ℕ) → Node D → Node D × List Output
  unfolding on_books
  on_all_books answer [] n = (n, [])
  on_all_books answer ((name, pair) ∷ pairs) n =
      let step : Node D × List Output = elim (answer name) [
        | none ↦ (n, [])
        | some s ↦ on_books s pair n
      ] in
      let rest = on_all_books answer pairs step.0 in (rest.0, step.1 ++ rest.1)

  -- The levels of bitfinex: a bid has an amount above 0, all else is an ask. `print` makes of a rate and
  -- an amount the level of the two printed numbers, the second without its sign.
  unfoldable pub split_levels : (D → D → RawLevel D) → List (RawLevel D) → Sides (RawLevel D)
  split_levels print [] = ([], [])
  split_levels print (l ∷ ls) =
      let rest = split_levels print ls in
      let level = print (l.number_at 1) (l.number_at 2) in
      if d.lt nought (l.number_at 2) then (rest.0, level ∷ rest.1) else (level ∷ rest.0, rest.1)

  unfoldable pub on_bitfinex_books :
      (D → D → RawLevel D) → List (RawLevel D) → ℕ → Node D → Node D × List Output
  unfolding split_levels on_books
  on_bitfinex_books print ls pair n = on_books (split_levels print ls) pair n

  -- `getPairId`: 0 for an unknown market.
  unfoldable pub get_pair_id : Node D → String → ℕ
  get_pair_id n name = elim (lookup name n.target_pairs) [ none ↦ 0 | some pair ↦ pair ]

  -- Changed levels of a market.
  unfoldable pub on_changes : String → Sides (RawLevel D) → Node D → Node D × List Output
  unfolding get_pair_id on_raw_orderbooks to_output
  on_changes name s n =
      let r = on_raw_orderbooks env s.0 s.1 (get_pair_id n name) n in (r.0, to_output r.1)

  unfoldable pub on_kraken_message : KrakenMessage D → Node D → Node D × List Output
  unfolding on_changes is_empty
  on_kraken_message (event e) n = (n, [])
  on_kraken_message (books name s) n =
      if is_empty s.0 && is_empty s.1 then (n, []) else on_changes name s n

  unfoldable pub next_nonce : Node D → Node D
  next_nonce n = record n { req_noncer = (n.req_noncer + 1) % 2 ^ 64 }

  unfoldable pub on_cexio_event : String → CexioMessage D → Node D → Node D × List Output
  unfolding on_raw_orderbooks to_output next_nonce
  on_cexio_event e m n =
      let taken = on_raw_orderbooks env m.sides.0 m.sides.1 0 n in
      let answered = next_nonce n in
      if e == "auth"
      then if m.ok == "ok"
        then (
          record answered { current_state = node_connected },
          subscribe answered.req_noncer ∷ [],
        )
        else (record n { current_state = node_error }, auth_error ∷ [])
      else if e == "ping"
      then (answered, pong answered.req_noncer ∷ [])
      else if e == "order-book-subscribe"
      then if m.has_error then (n, []) else (taken.0, to_output taken.1)
      else if e == "md_update"
      then (taken.0, to_output taken.1)
      else (n, [])

  unfoldable pub on_cexio_message : CexioMessage D → Node D → Node D × List Output
  unfolding on_cexio_event
  on_cexio_message m n = elim m.event [ none ↦ (n, []) | some e ↦ on_cexio_event e m n ]
