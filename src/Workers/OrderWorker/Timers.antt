-- ===== src/Workers/OrderWorker/Timers.antt =====
-- workers/orderworker.cpp: the timers of the worker, each of which runs once and sets another.
pub mod History
use swift_bot.Prelude.{
  ℕ, String, ◌≡◌, refl, ◌∙◌, sym, ap, subst, Bool, true, false, Option, none, some, List, [], ◌∷◌,
  ◌++◌, arith, if◌then◌else◌, All, All-append, append-nil, append_assoc, Bool-cases, inl, inr,
  some_inj,
}
use swift_bot.Orders.Store.{Store}
use swift_bot.Workers.OrderWorker

-- The exchanges of the settings, and the assets.
pub record Exchanges : Type 0 where
  pub exchanges : List String
  pub exchange_id : String → ℕ
  pub is_separated_api : ℕ → Bool
  pub exchange_pairs : ℕ → List ℕ

-- `ask_active exchange market`, without a market where all are asked for.
pub data Ask : Type 0 where
  ask_active : ℕ → Option ℕ → Ask
  ask_history : ℕ → Option ℕ → Ask

pub data Timer : Type 0 where
  active_queue : Timer
  history_queue : Timer
  actives : Timer
  history : Timer
  updates : Timer

pub record Worker : Type 0 where
  pub store : Store
  pub queued_active : List (ℕ × ℕ)
  pub queued_history : List (ℕ × ℕ)

unfoldable pub queue_pairs : ℕ → List ℕ → List (ℕ × ℕ)
queue_pairs e [] = []
queue_pairs e (p ∷ ps) = (e, p) ∷ queue_pairs e ps

-- The loop that `requestActives` and `requestHistory` share: what it queues, and what it asks.
unfoldable pub request_each :
    Exchanges → (ℕ → Option ℕ → Ask) → List String → List (ℕ × ℕ) × List Ask
unfolding queue_pairs
request_each env ask [] = ([], [])
request_each env ask (name ∷ names) =
    let rest = request_each env ask names in
    let e = env.exchange_id name in
    if env.is_separated_api e
    then (queue_pairs e (env.exchange_pairs e) ++ rest.0, rest.1)
    else (rest.0, ask e none ∷ rest.1)

-- Each handler answers the worker, the calls, and the timer that it sets.
abbrev pub Turn : Type 0
Turn = Worker × List Ask × Timer

unfoldable pub process_active_queue : Worker → Option Turn
process_active_queue w = elim w.queued_active [
  | [] ↦ some (w, [], active_queue)
  | p ∷ q ↦ some (record w { queued_active = q }, ask_active p.0 (some p.1) ∷ [], active_queue)
]

-- It tests the queue of the active orders; an empty queue of the history has no head, which is `none`.
unfoldable pub process_history_queue : Worker → Option Turn
process_history_queue w = elim w.queued_active [
  | [] ↦ some (w, [], history_queue)
  | a ∷ as' ↦ elim w.queued_history [
    | [] ↦ none
    | p ∷ q ↦ some (record w { queued_history = q }, ask_history p.0 (some p.1) ∷ [], history_queue)
  ]
]

unfoldable pub request_actives : Exchanges → Worker → Turn
unfolding request_each
request_actives env w =
    let r = request_each env ask_active env.exchanges in
    (record w { queued_active = w.queued_active ++ r.0 }, r.1, active_queue)

-- It sets the timer of the queue of the active orders.
unfoldable pub request_history : Exchanges → Worker → Turn
unfolding request_each
request_history env w =
    let r = request_each env ask_history env.exchanges in
    (record w { queued_history = w.queued_history ++ r.0 }, r.1, active_queue)

unfoldable pub on_timer : Exchanges → Timer → Worker → Option Turn
unfolding process_active_queue process_history_queue request_actives request_history
on_timer env active_queue w = process_active_queue w
on_timer env history_queue w = process_history_queue w
on_timer env actives w = some (request_actives env w)
on_timer env history w = some (request_history env w)
on_timer env updates w =
    some (record w { store = (OrderWorker.check_updates w.store).1 }, [], updates)

-- The worker, its pending timers and the calls that it has made.
pub record Run : Type 0 where
  pub worker : Worker
  pub pending : List Timer
  pub asked : List Ask

-- The timers that `initWorker` sets.
unfoldable pub start : Store → Run
start s = record {
  worker = record { store = s; queued_active = []; queued_history = [] };
  pending = actives ∷ history ∷ updates ∷ [];
  asked = [];
}

-- A pending timer runs; or a message changes the store.
pub data Step (env : Exchanges) : Run → Run → Type 0 where
  fires :
      {r : Run} (ts : List Timer) (t : Timer) (us : List Timer) (turn : Turn)
      → r.pending ≡ ts ++ (t ∷ us)
      → on_timer env t r.worker ≡ some turn
      → Step env r (record {
        worker = turn.0;
        pending = ts ++ us ++ (turn.2 ∷ []);
        asked = r.asked ++ turn.1;
      })
  stores :
      {r : Run} (s : Store) → Step env r (record r { worker = record (r.worker) { store = s } })

pub data Steps (env : Exchanges) : Run → Run → Type 0 where
  stop : {r : Run} → Steps env r r
  next : {r s t : Run} → Step env r s → Steps env s t → Steps env r t
