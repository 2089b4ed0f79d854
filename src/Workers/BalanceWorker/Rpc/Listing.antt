-- ===== src/Workers/BalanceWorker/Rpc/Listing.antt =====
-- What the calls list.
use swift_bot.Prelude.{◌≡◌, ◌∙◌, ap, String, true, inl, inr, List, [], ◌∷◌, Has, Bool-cases}
use swift_bot.Qt.Key.{text_key}
use swift_bot.Qt.Vector.{list_contains}
use swift_bot.Qt.Map.{Map}
use swift_bot.Qt.Json.{JsonObject}
use swift_bot.Workers.BalanceWorker.{Env, Transaction}
use swift_bot.Workers.BalanceWorker.Rpc.{to_json, of_exchanges, rpc_transactions}

module _ {D : Type 0} (env : Env D) where
  -- The exchanges that the arguments name.
  abbrev pub selected : List String → List (List String) → List String
  selected first [] = first
  selected first ([] ∷ args) = first
  selected first ((name ∷ names) ∷ args) = name ∷ names

  of_exchanges-Has :
      (names : List String) (m : Map String (Transaction D)) (k : String) (t : Transaction D)
      → Has (k, t) m
      → list_contains names (env.nat_text t.exchange_id) ≡ true
      → Has (to_json env t) (of_exchanges env names m)
  unfolding of_exchanges
  of_exchanges-Has names [] k t h e = elim h [ ]
  of_exchanges-Has names ((j, s) ∷ m) k t (inl same) e =
      let same_t : s ≡ t = ap (λ p. p.1) same in
      let e' : list_contains names (env.nat_text s.exchange_id) ≡ true =
        ap (λ x. list_contains names (env.nat_text x.exchange_id)) same_t ∙ e in
      rw (e', of_exchanges) (inl (ap (to_json env) same_t))
  of_exchanges-Has names ((j, s) ∷ m) k t (inr h) e =
      let rest = of_exchanges-Has names m k t h e in
      elim (Bool-cases (list_contains names (env.nat_text s.exchange_id))) [
        | inl f ↦ rw (f, of_exchanges) (inr rest)
        | inr f ↦ rw (f, of_exchanges) rest
      ]

  -- A stored transaction of a named exchange is listed.
  pub rpc_transactions-Has :
      (first : List String) (args : List (List String)) (m : Map String (Transaction D))
      (k : String) (t : Transaction D)
      → Has (k, t) m
      → list_contains (selected first args) (env.nat_text t.exchange_id) ≡ true
      → Has (to_json env t) (rpc_transactions env m (first ∷ args))
  unfolding rpc_transactions
  rpc_transactions-Has first [] m k t h e = of_exchanges-Has first m k t h e
  rpc_transactions-Has first ([] ∷ args) m k t h e = of_exchanges-Has first m k t h e
  rpc_transactions-Has first ((n ∷ ns) ∷ args) m k t h e = of_exchanges-Has (n ∷ ns) m k t h e

  -- A listed one is stored and its exchange is named.
  abbrev pub FromStore : List String → Map String (Transaction D) → JsonObject → Type 0
  FromStore names m j =
      (k : String) × (t : Transaction D) × Has (k, t) m
      × (list_contains names (env.nat_text t.exchange_id) ≡ true)
      × (to_json env t ≡ j)
