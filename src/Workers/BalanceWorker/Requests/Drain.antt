-- ===== src/Workers/BalanceWorker/Requests/Drain.antt =====
-- What the timers ask of the exchanges, in the end.
use swift_bot.Prelude.{
  ℕ, zero, suc, ◌≤◌, ◌≡◌, refl, ◌∙◌, sym, ap, subst, String, true, inl, inr, some, List, [], ◌∷◌,
  ◌++◌, map, append-nil, append_assoc, length, arith, Has, Has-append_left, Has-append_right,
  Bool-cases,
}
use swift_bot.Workers.BalanceWorker.{Env, Call, request}
use swift_bot.Workers.BalanceWorker.Requests.{enqueue_all, request_each, process_queue}

-- The timer of a queue, `n` times.
pub drain : String → ℕ → List (ℕ × ℕ) → List Call
unfolding process_queue
drain method zero q = []
drain method (suc n) q = let step = process_queue method q in step.1 ++ drain method n step.0

abbrev pub asked : String → ℕ × ℕ → Call
asked method p = request p.0 method (some p.1)

-- Every queued pair is asked for, in its order, and nothing else.
drain_all :
    (method : String) (n : ℕ) (q : List (ℕ × ℕ))
    → length q ≤ n
    → drain method n q ≡ map (asked method) q
unfolding drain
drain_all method zero [] h = refl
drain_all method (suc n) [] h = drain_all method n [] (omega arith)
drain_all method zero (p ∷ q) h = absurd (omega arith)
drain_all method (suc n) (p ∷ q) h =
    ap (λ r. asked method p ∷ r) (drain_all method n q (omega arith))

enqueue_all-append :
    (eid : ℕ) (cids : List ℕ) (q : List (ℕ × ℕ))
    → enqueue_all eid cids q ≡ q ++ map (λ c. (eid, c)) cids
unfolding enqueue_all
enqueue_all-append eid [] q = sym (append-nil q)
enqueue_all-append eid (c ∷ cids) q =
    enqueue_all-append eid cids (q ++ ((eid, c) ∷ [])) ∙ append_assoc q _ _

Has-map : {A B : Type 0} (f : A → B) (a : A) (xs : List A) → Has a xs → Has (f a) (map f xs)
Has-map f a [] h = elim h [ ]
Has-map f a (x ∷ xs) (inl e) = inl (ap f e)
Has-map f a (x ∷ xs) (inr h) = inr (Has-map f a xs h)

module _ {D : Type 0} (env : Env D) (method : String) where
  -- What was queued stays queued.
  request_each-Has :
      (names : List String) (q : List (ℕ × ℕ)) (p : ℕ × ℕ)
      → Has p q
      → Has p (request_each env method names q).0
  unfolding request_each
  request_each-Has [] q p h = h
  request_each-Has (name ∷ names) q p h =
      elim (Bool-cases (env.is_separated_api (env.exchange_id name))) [
        | inl e ↦
            rw (e, enqueue_all-append (env.exchange_id name) _ q, request_each)
              (request_each-Has names _ p (Has-append_left p q _ h))
        | inr e ↦ rw (e, request_each) (request_each-Has names q p h)
      ]

  queued :
      (names : List String) (q : List (ℕ × ℕ)) (name : String) (cid : ℕ)
      → Has name names
      → env.is_separated_api (env.exchange_id name) ≡ true
      → Has cid (env.exchange_currencies (env.exchange_id name))
      → Has (env.exchange_id name, cid) (request_each env method names q).0
  unfolding request_each
  queued [] q name cid h sep has = elim h [ ]
  queued (x ∷ names) q name cid (inl same) sep has =
      let sep' : env.is_separated_api (env.exchange_id x) ≡ true =
        ap (λ s. env.is_separated_api (env.exchange_id s)) same ∙ sep in
      let at_x : Has cid (env.exchange_currencies (env.exchange_id x)) =
        subst (λ s. Has cid (env.exchange_currencies (env.exchange_id s))) (sym same) has in
      let here : Has (env.exchange_id x, cid)
          (q ++ map (λ c. (env.exchange_id x, c)) (env.exchange_currencies (env.exchange_id x))) =
        Has-append_right _ q _ (Has-map (λ c. (env.exchange_id x, c)) cid _ at_x) in
      rw (sep', enqueue_all-append (env.exchange_id x) _ q, request_each)
        (request_each-Has names _ _ (
          subst
            (λ s.
              Has (env.exchange_id s, cid)
                (q
                  ++ map (λ c. (env.exchange_id x, c))
                      (env.exchange_currencies (env.exchange_id x))))
            same here))
  queued (x ∷ names) q name cid (inr later) sep has =
      elim (Bool-cases (env.is_separated_api (env.exchange_id x))) [
        | inl e ↦ rw (e, request_each) (queued names _ name cid later sep has)
        | inr e ↦ rw (e, request_each) (queued names q name cid later sep has)
      ]

  -- After the loop of a request and enough turns of the timer of its queue, a currency of a configured
  -- exchange with a separated API has been asked for.
  pub request_each-drain :
      (names : List String) (q : List (ℕ × ℕ)) (n : ℕ) (name : String) (cid : ℕ)
      → Has name names
      → env.is_separated_api (env.exchange_id name) ≡ true
      → Has cid (env.exchange_currencies (env.exchange_id name))
      → length (request_each env method names q).0 ≤ n
      → Has
          (request (env.exchange_id name) method (some cid))
          (drain method n (request_each env method names q).0)
  request_each-drain names q n name cid named sep has enough =
      rw (drain_all method n _ enough) (
        Has-map (asked method) (env.exchange_id name, cid) _
          (queued names q name cid named sep has))
