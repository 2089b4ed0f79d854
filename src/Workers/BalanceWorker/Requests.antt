-- ===== src/Workers/BalanceWorker/Requests.antt =====
-- workers/balanceworker.cpp: the requests to the nodes of the exchanges.
pub mod Drain
use swift_bot.Prelude.{
  ℕ, String, Bool, true, false, Option, none, some, List, [], ◌∷◌, ◌++◌, if◌then◌else◌,
}
use swift_bot.Workers.BalanceWorker.{Env, Call, request, Worker}

unfoldable pub enqueue_all : ℕ → List ℕ → List (ℕ × ℕ) → List (ℕ × ℕ)
enqueue_all eid [] q = q
enqueue_all eid (cid ∷ cids) q = enqueue_all eid cids (q ++ ((eid, cid) ∷ []))

-- What a timer of a queue does: the head is asked for, where there is one.
pub process_queue : String → List (ℕ × ℕ) → List (ℕ × ℕ) × List Call
process_queue method [] = ([], [])
process_queue method ((eid, cid) ∷ q) = (q, request eid method (some cid) ∷ [])

module _ {D : Type 0} where
  -- The loop that `requestBalances`, `requestDeposits` and `requestWithdraws` share.
  unfoldable pub request_each :
      Env D → String → List String → List (ℕ × ℕ) → List (ℕ × ℕ) × List Call
  unfolding enqueue_all
  request_each env method [] q = (q, [])
  request_each env method (name ∷ names) q =
      let eid = env.exchange_id name in
      let queued =
        request_each env method names (enqueue_all eid (env.exchange_currencies eid) q) in
      let asked = request_each env method names q in
      if env.is_separated_api eid then queued else (asked.0, request eid method none ∷ asked.1)

  pub request_balances : Env D → Worker D → Worker D × List Call
  unfolding request_each
  request_balances env w =
      let r = request_each env "balance.get" env.exchanges w.queued_balances in
      (record w { queued_balances = r.0 }, r.1)

  pub request_deposits : Env D → Worker D → Worker D × List Call
  unfolding request_each
  request_deposits env w =
      let r = request_each env "balance.deposits" env.exchanges w.queued_deposits in
      (record w { queued_deposits = r.0 }, r.1)

  pub request_withdraws : Env D → Worker D → Worker D × List Call
  unfolding request_each
  request_withdraws env w =
      let r = request_each env "balance.withdraws" env.exchanges w.queued_withdraws in
      (record w { queued_withdraws = r.0 }, r.1)

  process_balances_queue : Worker D → Worker D × List Call
  unfolding process_queue
  process_balances_queue w =
      let r = process_queue "balance.get" w.queued_balances in
      (record w { queued_balances = r.0 }, r.1)

  process_deposits_queue : Worker D → Worker D × List Call
  unfolding process_queue
  process_deposits_queue w =
      let r = process_queue "balance.deposits" w.queued_deposits in
      (record w { queued_deposits = r.0 }, r.1)

  process_withdraws_queue : Worker D → Worker D × List Call
  unfolding process_queue
  process_withdraws_queue w =
      let r = process_queue "balance.withdraws" w.queued_withdraws in
      (record w { queued_withdraws = r.0 }, r.1)
