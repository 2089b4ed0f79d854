-- ===== src/Workers/OrderWorker/Timers/History.antt =====
-- workers/orderworker.cpp: the queue of the history, which no timer takes from.
use swift_bot.Prelude.{
  ℕ, String, ◌≡◌, refl, ◌∙◌, sym, ap, subst, Bool, true, false, Option, none, some, List, [], ◌∷◌,
  ◌++◌, arith, All, All-append, append-nil, append_assoc, Bool-cases, List-cases, inl, inr,
  some_inj, OnSome,
}
use swift_bot.Orders.Store.{Store}
use swift_bot.Workers.OrderWorker.Timers.{
  Exchanges, Ask, ask_active, ask_history, Timer, active_queue, history_queue, actives, history,
  updates, Worker, Turn, request_each, process_active_queue, request_actives, request_history,
  on_timer, Run, start, Step, fires, stores, Steps, stop, next,
}

-- The timer that takes from the queue of the history, and the call that it makes.
abbrev pub takes_history : Timer → Bool
takes_history history_queue = true
takes_history active_queue = false
takes_history actives = false
takes_history history = false
takes_history updates = false

abbrev pub is_market_history : Ask → Bool
is_market_history (ask_history e (some p)) = true
is_market_history (ask_history e none) = false
is_market_history (ask_active e p) = false

-- No such timer is pending, and no such call was made.
abbrev pub Idle : Run → Type 0
Idle r =
    All (λ t. takes_history t ≡ false) r.pending × All (λ a. is_market_history a ≡ false) r.asked

-- The queue of the first worker is a first part of that of the second.
abbrev pub Grows : Worker → Worker → Type 0
Grows v w = (more : List (ℕ × ℕ)) × (w.queued_history ≡ v.queued_history ++ more)

All-split :
    (P : Timer → Type 0) (ts : List Timer) (t : Timer) (us : List Timer)
    → All P (ts ++ (t ∷ us))
    → All P ts × P t × All P us
All-split P [] t us (p, ps) = (tt, p, ps)
All-split P (s ∷ ts) t us (p, ps) = let (l, m, r) = All-split P ts t us ps in ((p, l), m, r)

request_each-All :
    (env : Exchanges) (ask : ℕ → Option ℕ → Ask) (names : List String)
    → ((e : ℕ) → is_market_history (ask e none) ≡ false)
    → All (λ a. is_market_history a ≡ false) (request_each env ask names).1
unfolding request_each
request_each-All env ask [] h = tt
request_each-All env ask (n ∷ names) h =
    elim (Bool-cases (env.is_separated_api (env.exchange_id n))) [
      | inl e ↦ rw (e) (request_each-All env ask names h)
      | inr e ↦ rw (e) (h (env.exchange_id n), request_each-All env ask names h)
    ]

-- What a turn of another timer keeps.
abbrev Keeps : Worker → Turn → Type 0
Keeps w turn =
    (takes_history turn.2 ≡ false) × All (λ a. is_market_history a ≡ false) turn.1 × Grows w turn.0

process_active_queue-Keeps : (w : Worker) → OnSome (Keeps w) (process_active_queue w)
unfolding process_active_queue
process_active_queue-Keeps w = elim (List-cases w.queued_active) [
  | inl e ↦ rw (e, process_active_queue) (refl, tt, ([], sym (append-nil w.queued_history)))
  | inr (p, q, e) ↦
      rw (e, process_active_queue) (refl, (refl, tt), ([], sym (append-nil w.queued_history)))
]

on_timer-Keeps :
    (env : Exchanges) (t : Timer) (w : Worker) (turn : Turn)
    → takes_history t ≡ false
    → on_timer env t w ≡ some turn
    → Keeps w turn
unfolding on_timer request_actives request_history
on_timer-Keeps env active_queue w turn not h =
    subst (OnSome (Keeps w)) h (process_active_queue-Keeps w)
on_timer-Keeps env history_queue w turn not h = ground (arith, not)
on_timer-Keeps env actives w turn not h = subst (Keeps w) (some_inj h) (
  refl,
  request_each-All env ask_active env.exchanges (λ e. refl),
  ([], sym (append-nil w.queued_history)),
)
on_timer-Keeps env history w turn not h =
    subst (Keeps w) (some_inj h)
      (refl, request_each-All env ask_history env.exchanges (λ e. refl), (_, refl))
on_timer-Keeps env updates w turn not h =
    subst (Keeps w) (some_inj h) (refl, tt, ([], sym (append-nil w.queued_history)))

Step-Idle : (env : Exchanges) (r s : Run) → Step env r s → Idle r → Idle s × Grows r.worker s.worker
Step-Idle env r _ (fires ts t us turn pending ran) (idle, quiet) =
    let (before, this, after) =
      All-split (λ u. takes_history u ≡ false) ts t us
        (subst (λ ps. All (λ u. takes_history u ≡ false) ps) pending idle) in
    let (set, asks, grows) = on_timer-Keeps env t r.worker turn this ran in
    (
      (
        All-append _ (ts ++ us) (turn.2 ∷ []) (All-append _ ts us before after) (set, tt),
        All-append _ r.asked turn.1 quiet asks,
      ),
      grows,
    )
Step-Idle env r _ (stores s) idle = (idle, ([], sym (append-nil r.worker.queued_history)))

Steps-Idle :
    (env : Exchanges) (r s : Run) → Steps env r s → Idle r → Idle s × Grows r.worker s.worker
Steps-Idle env r _ stop idle = (idle, ([], sym (append-nil r.worker.queued_history)))
Steps-Idle env r t (next {s = s} step steps) idle =
    let (mid, (more, grown)) = Step-Idle env r s step idle in
    let (end, (later, grown')) = Steps-Idle env s t steps mid in
    (
      end,
      (
        more ++ later,
        grown' ∙ ap (λ q. q ++ later) grown ∙ append_assoc r.worker.queued_history more later,
      ),
    )

-- Whatever the order in which the timers that the worker sets run: the timer that takes from the queue
-- of the history is never pending, no market's history is ever asked for, and no pair that is queued
-- for it ever leaves the queue.
pub Steps-start-Idle :
    (env : Exchanges) (s : Store) (r t : Run)
    → Steps env (start s) r
    → Steps env r t
    → Idle t × Grows r.worker t.worker
unfolding start
Steps-start-Idle env s r t before after =
    let (idle, grown) = Steps-Idle env (start s) r before ((refl, (refl, (refl, tt))), tt) in
    Steps-Idle env r t after idle
