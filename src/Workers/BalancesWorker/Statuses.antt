-- ===== src/Workers/BalancesWorker/Statuses.antt =====
-- workers/balancesworker.cpp: the requests of the timers to the nodes of the exchanges.
use swift_bot.Prelude.{
  ℕ, String, ◌≡◌, refl, sym, Bool, true, List, [], ◌∷◌, ◌++◌, inl, inr, Has, Has-append_left,
  Has-append_right, Bool-cases, if◌then◌else◌, Option, none, some, ap, subst,
}
use swift_bot.Qt.Key.{nat_key, text_key}
use swift_bot.Qt.Vector.{list_contains}

-- The assets and the settings, and whether the session is joined.
pub record Nodes : Type 0 where
  pub is_joined : Bool
  pub exchange_names : List String
  pub enabled : List String
  pub exchange_id : String → ℕ
  pub is_separated_api : ℕ → Bool
  pub exchange_currencies : ℕ → List ℕ

-- `ask exchange method currency` is a call of the exchange's node, without a currency where it asks for
-- all of them.
pub data Ask : Type 0 where
  ask : ℕ → String → Option ℕ → Ask

unfoldable pub ask_all : Nodes → List String → List Ask
ask_all env [] = []
ask_all env (name ∷ names) =
    let rest = ask_all env names in
    if list_contains env.enabled name
    then ask (env.exchange_id name) "balance.get" none ∷ rest
    else rest

unfoldable pub process_queue : Nodes → List Ask
unfolding ask_all
process_queue env = if env.is_joined then ask_all env env.exchange_names else []

unfoldable pub ask_each : ℕ → String → List ℕ → List Ask
ask_each e method [] = []
ask_each e method (k ∷ ks) = ask e method (some k) ∷ ask_each e method ks

-- The loop that `getDepositsStatuses` and `getWithdrawStatuses` share.
unfoldable pub ask_statuses : Nodes → String → List String → List Ask
unfolding ask_each
ask_statuses env method [] = []
ask_statuses env method (name ∷ names) =
    let rest = ask_statuses env method names in
    let e = env.exchange_id name in
    if list_contains env.enabled name
    then if env.is_separated_api e
      then ask_each e method (env.exchange_currencies e) ++ rest
      else ask e method none ∷ rest
    else rest

unfoldable pub get_deposits_statuses : Nodes → List Ask
unfolding ask_statuses
get_deposits_statuses env =
    if env.is_joined then ask_statuses env "balance.deposits" env.exchange_names else []

unfoldable pub get_withdraw_statuses : Nodes → List Ask
unfolding ask_statuses
get_withdraw_statuses env =
    if env.is_joined then ask_statuses env "balance.withdraws" env.exchange_names else []

ask_each-Has :
    (e : ℕ) (method : String) (k : ℕ) (ks : List ℕ)
    → Has k ks
    → Has (ask e method (some k)) (ask_each e method ks)
unfolding ask_each
ask_each-Has e method k [] h = elim h [ ]
ask_each-Has e method k (j ∷ ks) (inl p) = inl (ap (λ i. ask e method (some i)) p)
ask_each-Has e method k (j ∷ ks) (inr h) = inr (ask_each-Has e method k ks h)

ask_statuses-tail :
    (env : Nodes) (method : String) (n : String) (names : List String) (a : Ask)
    → Has a (ask_statuses env method names)
    → Has a (ask_statuses env method (n ∷ names))
unfolding ask_statuses
ask_statuses-tail env method n names a h = elim (Bool-cases (list_contains env.enabled n)) [
  | inr e ↦ rw (e, ask_statuses) h
  | inl e ↦ elim (Bool-cases (env.is_separated_api (env.exchange_id n))) [
    | inl f ↦
        rw (e, f, ask_statuses) (Has-append_right a (ask_each (env.exchange_id n) method _) _ h)
    | inr f ↦ rw (e, f, ask_statuses) (inr h)
  ]
]

-- The call that asks for a currency of an exchange.
abbrev pub ask_for : Nodes → String → ℕ → ℕ → Ask
ask_for env method e k = ask e method (if env.is_separated_api e then some k else none)

ask_statuses_head :
    (env : Nodes) (method : String) (n : String) (names : List String) (k : ℕ)
    → list_contains env.enabled n ≡ true
    → Has k (env.exchange_currencies (env.exchange_id n))
    → Has (ask_for env method (env.exchange_id n) k) (ask_statuses env method (n ∷ names))
unfolding ask_statuses
ask_statuses_head env method n names k on h =
    elim (Bool-cases (env.is_separated_api (env.exchange_id n))) [
      | inl f ↦
          rw (on, f, ask_statuses)
            (Has-append_left (ask (env.exchange_id n) method (some k)) _ _
              (ask_each-Has (env.exchange_id n) method k _ h))
      | inr f ↦ rw (on, f, ask_statuses) (inl refl)
    ]

-- The loop on the deposits, and that on the withdrawals, asks for each currency of an enabled exchange:
-- for the currency alone where the API is separated, with all the others of the exchange where it is
-- not.
pub ask_statuses-Has :
    (env : Nodes) (method : String) (name : String) (names : List String) (k : ℕ)
    → Has name names
    → list_contains env.enabled name ≡ true
    → Has k (env.exchange_currencies (env.exchange_id name))
    → Has (ask_for env method (env.exchange_id name) k) (ask_statuses env method names)
ask_statuses-Has env method name [] k h on cur = elim h [ ]
ask_statuses-Has env method name (n ∷ names) k (inl same) on cur =
    subst
      (λ m. Has (ask_for env method (env.exchange_id name) k) (ask_statuses env method (m ∷ names)))
      (sym same) (ask_statuses_head env method name names k on cur)
ask_statuses-Has env method name (n ∷ names) k (inr h) on cur =
    ask_statuses-tail env method n names _ (ask_statuses-Has env method name names k h on cur)
