-- ===== src/Orders/Order.antt =====
-- `OrdersStorage::prepareOrderData`, `uniTime` and `getLocalIdByRemote`.
use swift_bot.Prelude.{
  ℕ, ◌/◌, ◌≡◌, ◌≢◌, refl, ◌∙◌, String, false, ◌||◌, Option, none, some, List, [], ◌∷◌, ◌++◌, ltb,
  if◌then◌else◌, arith,
}
use swift_bot.Qt.Key.{◌==◌, text_key}
use swift_bot.Qt.Vector.{list_contains}
use swift_bot.Qt.Map.{Map, lookup, contains, insert}
use swift_bot.Qt.Json.{JsonObject, get_text, put_text, lookup-put_text_ne, put_text-ne-nil}
use swift_bot.Double.{Double}

-- What the storage asks of Qt's conversions, the clock, the assets, the arbitrage manager and the
-- database. `uuid_row` is the answer of the query on `orders_uuids`: `none` where it fails, and
-- `some none` where it finds no row.
pub record Env (D : Type 0) : Type 0 where
  pub now : ℕ
  pub to_uint : String → ℕ
  pub to_ulonglong : String → ℕ
  pub to_double : String → D
  pub nat_text : ℕ → String
  pub fixed8 : D → String
  pub double_text : D → String
  pub market_exchange : ℕ → ℕ
  pub market_exchange_name : ℕ → String
  pub exchange_name : ℕ → String
  pub exchange_fee : ℕ → D
  pub window_orders : Map ℕ (List String)
  pub uuid_row : String → Option (Option String)

-- The static cache of local ids, and the rows that were inserted into `orders_uuids`.
pub record Uuids : Type 0 where
  pub cached : Map String String
  pub inserted : List (ℕ × String × String)

unfoldable pub put_missing : String → String → JsonObject → JsonObject
put_missing k s o = if contains k o then o else put_text k s o

module _ {D : Type 0} where
  -- A time stamp that lies ahead of the clock is one in milliseconds.
  unfoldable pub uni_time : Env D → ℕ → String
  uni_time env ts = if ltb env.now ts then env.nat_text (ts / 1000) else env.nat_text ts

  unfoldable pub get_local_id_by_remote : Env D → Uuids → String → ℕ → String × Uuids
  get_local_id_by_remote env u remote exchange = elim (lookup remote u.cached) [
    | some local ↦ (local, u)
    | none ↦ elim (env.uuid_row remote) [
      | none ↦ (remote, u)
      | some row ↦ elim row [
        | some local ↦ (local, record u { cached = insert remote local u.cached })
        | none ↦ (
          remote,
          record u {
            cached = insert remote remote u.cached;
            inserted = u.inserted ++ ((exchange, remote, remote) ∷ []);
          },
        )
      ]
    ]
  ]

  -- The local id is looked up only where the order has none.
  unfoldable pub fill_local_id : Env D → Uuids → ℕ → JsonObject → JsonObject × Uuids
  fill_local_id env u exchange o =
      let (local, u') = get_local_id_by_remote env u (get_text "" "remote_id" o) exchange in
      if contains "local_id" o then (o, u) else (put_text "local_id" local o, u')

  -- The last window that lists one of the two ids wins.
  unfoldable pub link_windows : Env D → Map ℕ (List String) → String → JsonObject → JsonObject
  link_windows env [] local o = o
  link_windows env ((window, ids) ∷ rest) local o = link_windows env rest local (
      if list_contains ids local || list_contains ids (get_text "" "remote_id" o)
      then put_text "arb_window" (env.nat_text window) o
      else o)

  unfoldable pub exchange_of : Env D → JsonObject → ℕ
  exchange_of env o =
      if contains "exchange_id" o
      then env.to_uint (get_text "" "exchange_id" o)
      else env.market_exchange (env.to_uint (get_text "" "market_id" o))

module _ {D : Type 0} ⦃d : Double D⦄ where
  -- The bracketing is the source's: the remainder is priced, not the filled part.
  unfoldable pub price_of : Env D → JsonObject → D
  price_of env o =
      d.sub (env.to_double (get_text "" "amount" o))
        (d.mul (env.to_double (get_text "" "amount_left" o)) (env.to_double (get_text "" "rate" o)))

  unfoldable pub prepare_order_data : Env D → Uuids → JsonObject → JsonObject × Uuids
  unfolding uni_time fill_local_id link_windows put_missing exchange_of price_of
  prepare_order_data env u o =
      let created = uni_time env (env.to_ulonglong (get_text "" "created_at" o)) in
      let stamped = put_text "created_at" created o in
      let exchange = exchange_of env stamped in
      let (named, u') = fill_local_id env u exchange stamped in
      let priced = put_text "price" (env.fixed8 (price_of env named)) named in
      let fee = d.mul (env.to_double (get_text "" "price" priced)) (env.exchange_fee exchange) in
      let linked = link_windows env env.window_orders (get_text "" "local_id" o) priced in
      let placed = put_missing "exchange_id" (env.nat_text exchange) linked in
      let titled = put_missing "exchange_name" (env.exchange_name exchange) placed in
      (put_text "fee" (env.double_text fee) titled, u')

-- The keys that the preparation may write.
abbrev pub Untouched : String → Type 0
Untouched k =
    (("created_at" == k) ≡ false)
    × (("local_id" == k) ≡ false)
    × (("price" == k) ≡ false)
    × (("arb_window" == k) ≡ false)
    × (("exchange_id" == k) ≡ false)
    × (("exchange_name" == k) ≡ false)
    × (("fee" == k) ≡ false)

module _ {D : Type 0} where
  lookup-fill_local_id :
      (env : Env D) (u : Uuids) (x : ℕ) (o : JsonObject) (k : String)
      → ("local_id" == k) ≡ false
      → lookup k (fill_local_id env u x o).0 ≡ lookup k o
  unfolding fill_local_id
  lookup-fill_local_id env u x o k h = ground (
    arith,
    lookup-put_text_ne "local_id" k (get_local_id_by_remote env u (get_text "" "remote_id" o) x).0
        o,
  )

  lookup-link_windows :
      (env : Env D) (ws : Map ℕ (List String)) (local : String) (o : JsonObject) (k : String)
      → ("arb_window" == k) ≡ false
      → lookup k (link_windows env ws local o) ≡ lookup k o
  unfolding link_windows
  lookup-link_windows env [] local o k h = refl
  lookup-link_windows env ((w, ids) ∷ ws) local o k h =
      lookup-link_windows env ws local _ k h
      ∙ ground (arith, lookup-put_text_ne "arb_window" k (env.nat_text w) o)

lookup-put_missing :
    (j s : String) (o : JsonObject) (k : String)
    → (j == k) ≡ false
    → lookup k (put_missing j s o) ≡ lookup k o
unfolding put_missing
lookup-put_missing j s o k h = ground (arith, lookup-put_text_ne j k s o)

module _ {D : Type 0} ⦃d : Double D⦄ where
  -- Every other key of an order keeps its value.
  pub lookup-prepare :
      (env : Env D) (u : Uuids) (o : JsonObject) (k : String)
      → Untouched k
      → lookup k (prepare_order_data env u o).0 ≡ lookup k o
  unfolding prepare_order_data
  lookup-prepare env u o k (hc, hl, hp, ha, hi, hn, hf) =
      lookup-put_text_ne "fee" k _ _ hf
      ∙ lookup-put_missing "exchange_name" _ _ k hn
      ∙ lookup-put_missing "exchange_id" _ _ k hi
      ∙ lookup-link_windows env env.window_orders _ _ k ha
      ∙ lookup-put_text_ne "price" k _ _ hp
      ∙ lookup-fill_local_id env u _ _ k hl
      ∙ lookup-put_text_ne "created_at" k _ o hc

  -- So the text that stands there reads the same before and after.
  pub get_text-prepare :
      (env : Env D) (u : Uuids) (o : JsonObject) (fallback k : String)
      → Untouched k
      → get_text fallback k (prepare_order_data env u o).0 ≡ get_text fallback k o
  unfolding get_text
  get_text-prepare env u o fallback k h = rw (lookup-prepare env u o k h)

  -- A prepared order is never the empty object: it has a fee.
  pub prepare-ne-nil :
      (env : Env D) (u : Uuids) (o : JsonObject) → (prepare_order_data env u o).0 ≢ []
  unfolding prepare_order_data
  prepare-ne-nil env u o h = put_text-ne-nil "fee" _ _ h
