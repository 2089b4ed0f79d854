-- ===== src/Workers/BalanceWorker/Delivery.antt =====
-- What a second delivery of a transaction does.
use swift_bot.Prelude.{
  ℕ, ◌≡◌, ◌≢◌, refl, ◌∙◌, sym, ap, String, true, false, some, [], ltb, arith, Bool-cases,
  Option-cases, inl, inr, if◌then◌else◌,
}
use swift_bot.Qt.Key.{◌==◌, text_key}
use swift_bot.Qt.Map.{Map, lookup, contains, value_or, lookup-insert_self, lookup-insert_ne}
use swift_bot.Qt.Json.{JsonObject, get_text, put_text, get_text-put_text_ne, text}
use swift_bot.Double.{Double, nought}
use swift_bot.Workers.BalanceWorker.{
  Env, Transaction, Worker, no_transaction, remote_uuid, at_most_250, uuid_of, filled, is_news,
  event_item, on_deposit,
}

-- Qt's `length` and `mid`, and a digest that is never empty.
pub record IsQt {D : Type 0} (env : Env D) : Type 0 where
  pub mid_ne_nil : (s : String) → ltb 250 (env.text_length s) ≡ true → env.mid s 0 250 ≢ ""
  pub length-mid : (s : String) → ltb 250 (env.text_length (env.mid s 0 250)) ≡ false
  pub digest_ne_nil : (o : JsonObject) → env.digest o ≢ ""

module _ {D : Type 0} ⦃d : Double D⦄ (env : Env D) where
  -- An item whose transaction is stored with its status.
  abbrev pub Known : Map String (Transaction D) → JsonObject → Type 0
  Known store o =
      (t : Transaction D) × (lookup (uuid_of env o) store ≡ some t)
      × (t.status ≡ get_text "" "status" o)

  is_news-Known :
      (store : Map String (Transaction D)) (o : JsonObject)
      → Known store o
      → is_news env store o ≡ false
  unfolding is_news
  is_news-Known store o (t, found, same) =
      ground (arith, found, same, text_key.beq_iff t.status (get_text "" "status" o))

  not_news :
      (store : Map String (Transaction D)) (o : JsonObject)
      → is_news env store o ≡ false
      → Known store o
  unfolding is_news
  not_news store o h = elim (Option-cases (lookup (uuid_of env o) store)) [
    | inl e ↦ absurd (ground (arith, h, e))
    | inr (t, e) ↦ (t, e, ground (arith, h, e, text_key.beq_iff t.status (get_text "" "status" o)))
  ]

  on_deposit-Known :
      (exchange : String) (w : Worker D) (o : JsonObject)
      → Known (on_deposit env exchange w o).0.deposits o
  unfolding on_deposit filled
  on_deposit-Known exchange w o = elim (Bool-cases (is_news env w.deposits o)) [
    | inr e ↦ rw (e, on_deposit) (not_news w.deposits o e)
    | inl e ↦
        let t =
          filled env "address" "#" (uuid_of env o) o
            (value_or (uuid_of env o) no_transaction w.deposits) in
        elim (Option-cases (env.upsert "deposits" t nought)) [
          | inl f ↦ rw (e, f, on_deposit) (t, lookup-insert_self _ _ _, refl)
          | inr (id, f) ↦
              rw (e, f, on_deposit) (record t { id = id }, lookup-insert_self _ _ _, refl)
        ]
  ]

  remote_uuid_nonempty : IsQt env → (o : JsonObject) → remote_uuid env o ≢ ""
  unfolding remote_uuid
  remote_uuid_nonempty qt o =
      let remote =
        if contains "remote_id" o
        then get_text "" "remote_id" o
        else if contains "tx" o
        then get_text "" "tx" o
        else env.digest o in
      elim (Bool-cases (remote == "")) [
        | inl e ↦ rw (e, remote_uuid) (qt.digest_ne_nil o)
        | inr e ↦ rw (e, remote_uuid) (λ same. ground (arith, same, e, text_key.beq_iff remote ""))
      ]

  at_most_250_nonempty : IsQt env → (s : String) → s ≢ "" → at_most_250 env s ≢ ""
  unfolding at_most_250
  at_most_250_nonempty qt s h = elim (Bool-cases (ltb 250 (env.text_length s))) [
    | inl e ↦ rw (e, at_most_250) (qt.mid_ne_nil s e)
    | inr e ↦ rw (e, at_most_250) h
  ]

  -- What is cut once is not cut again.
  at_most_250_idem :
      IsQt env → (s : String) → at_most_250 env (at_most_250 env s) ≡ at_most_250 env s
  unfolding at_most_250
  at_most_250_idem qt s = elim (Bool-cases (ltb 250 (env.text_length s))) [
    | inl e ↦ rw (e, qt.length-mid s, at_most_250) refl
    | inr e ↦ rw (e, e, at_most_250) refl
  ]

  remote_uuid_given :
      (o : JsonObject) (u : String)
      → u ≢ ""
      → lookup "remote_id" o ≡ some (text u)
      → remote_uuid env o ≡ u
  unfolding remote_uuid get_text
  remote_uuid_given o u h given = ground (arith, given, text_key.beq_iff u "", h)

  -- The published item is filed under the key of the item that it tells of.
  uuid_of-event_item :
      IsQt env
      → (id : ℕ) (o : JsonObject)
      → uuid_of env (event_item env id (uuid_of env o) o) ≡ uuid_of env o
  unfolding uuid_of event_item put_text
  uuid_of-event_item qt id o =
      let u = uuid_of env o in
      let h : u ≢ "" = at_most_250_nonempty qt _ (remote_uuid_nonempty qt o) in
      let given : lookup "remote_id" (event_item env id u o) ≡ some (text u) =
        lookup-insert_ne "local_id" "remote_id" (text u) _ refl
        ∙ lookup-insert_self "remote_id" (text u) _ in
      ap (at_most_250 env) (remote_uuid_given (event_item env id u o) u h given)
      ∙ at_most_250_idem qt (remote_uuid env o)

  status-event_item :
      (id : ℕ) (u : String) (o : JsonObject)
      → get_text "" "status" (event_item env id u o) ≡ get_text "" "status" o
  unfolding event_item
  status-event_item id u o =
      get_text-put_text_ne "" "local_id" "status" u _ refl
      ∙ get_text-put_text_ne "" "remote_id" "status" u _ refl
      ∙ get_text-put_text_ne "" "id" "status" (env.nat_text id) o refl

  event_item-Known :
      IsQt env
      → (store : Map String (Transaction D)) (id : ℕ) (o : JsonObject) → Known store o
      → Known store (event_item env id (uuid_of env o) o)
  event_item-Known qt store id o (t, found, same) =
      (t, rw (uuid_of-event_item qt id o) found, same ∙ sym (status-event_item id _ o))

  on_deposit_unchanged :
      (exchange : String) (w : Worker D) (o : JsonObject)
      → Known w.deposits o
      → on_deposit env exchange w o ≡ (w, [])
  unfolding on_deposit
  on_deposit_unchanged exchange w o h = rw (is_news-Known w.deposits o h, on_deposit) refl

  -- Where `mid` cuts to 250 characters and not to none, and a digest is not empty: a delivered deposit,
  -- whether or not its row was written, changes and publishes nothing when it
  -- comes again; nor does the item that was published of it, whatever id it was given.
  pub on_deposit_again :
      IsQt env
      → (exchange other : String) (w : Worker D) (o : JsonObject) (id : ℕ)
      → let w' = (on_deposit env exchange w o).0 in
        (on_deposit env other w' o ≡ (w', []))
        × (on_deposit env other w' (event_item env id (uuid_of env o) o) ≡ (w', []))
  on_deposit_again qt exchange other w o id =
      let h = on_deposit-Known exchange w o in
      (
        on_deposit_unchanged other _ o h,
        on_deposit_unchanged other _ _ (event_item-Known qt _ id o h),
      )
