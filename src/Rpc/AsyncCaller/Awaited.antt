-- ===== src/Rpc/AsyncCaller/Awaited.antt =====
-- swift-lib/asyncrcpcallerinterface.cpp: what a caller sees of its calls. The order of the waiting
-- numbers is forgotten: how often each is waited for, and its result.
use mathlib.Core.Path.{fun_ext}
use swift_bot.Prelude.{
  ℕ, suc, ◌+◌, ◌-◌, ◌≡◌, refl, ◌∙◌, ap, subst, String, true, Option, none, some, List, [], ◌∷◌,
  ◌++◌, arith, if◌then◌else◌, ltb, Bool-cases, Option-cases, inl, inr, ◌==◌ as nat_beq,
}
use swift_bot.Qt.Key.{nat_key}
use swift_bot.Qt.Vector.{list_contains, remove_one, contains-append_last}
use swift_bot.Qt.Map.{lookup, lookup-insert, lookup-remove}
use swift_bot.Qt.Json.{JsonObject}
use swift_bot.Rpc.AsyncCaller.{
  Caller, process_async_result, on_wamp_async_result, async_call, begin_wait, finish_remote,
  wait_loop, wait_answer, wait_result, timeout_result,
}

-- How often a number stands in a list.
unfoldable pub count : ℕ → List ℕ → ℕ
count k [] = 0
count k (j ∷ js) = let rest = count k js in if nat_beq j k then suc rest else rest

-- A call, as its caller sees it.
pub record Awaited : Type 0 where
  pub waits : ℕ
  pub result : Option JsonObject

-- What a caller does, and what arrives.
pub data Op : Type 0 where
  call : ℕ → ℕ → Op
  wait : ℕ → Op
  arrive : ℕ → JsonObject → Op
  finish : ℕ → Op

unfoldable pub perform : Caller → Op → Caller
unfolding async_call begin_wait on_wamp_async_result finish_remote
perform c (call uuid method) = async_call c uuid method
perform c (wait uuid) = begin_wait c uuid
perform c (arrive uuid r) = on_wamp_async_result c uuid r
perform c (finish uuid) = finish_remote c uuid

unfoldable pub run : Caller → List Op → Caller
unfolding perform
run c [] = c
run c (o ∷ os) = run (perform c o) os

abbrev pub view : Caller → ℕ → Awaited
view c k = record { waits = count k c.waiting; result = lookup k c.results }

-- A number's call, after what is done.
abbrev pub see : Awaited → Op → ℕ → Awaited
see a (call uuid method) k = if nat_beq uuid k then record a { waits = a.waits + 1 } else a
see a (wait uuid) k = if nat_beq uuid k then record a { waits = a.waits + 1 } else a
see a (arrive uuid r) k =
    if nat_beq uuid k then if ltb 0 a.waits then record a { result = some r } else a else a
see a (finish uuid) k = if nat_beq uuid k then record { waits = a.waits - 1; result = none } else a

unfoldable pub replay : (ℕ → Awaited) → List Op → ℕ → Awaited
replay f [] = f
replay f (o ∷ os) = replay (λ k. see (f k) o k) os

count-append_last :
    (k u : ℕ) (js : List ℕ)
    → count k (js ++ (u ∷ [])) ≡ (if nat_beq u k then count k js + 1 else count k js)
unfolding count
count-append_last k u [] = ground arith
count-append_last k u (j ∷ js) = ground (arith, count-append_last k u js)

count-remove_one :
    (k u : ℕ) (js : List ℕ)
    → count k (remove_one u js) ≡ (if nat_beq u k then count k js - 1 else count k js)
unfolding count remove_one
count-remove_one k u [] = ground arith
count-remove_one k u (j ∷ js) = ground (arith, count-remove_one k u js)

count-contains : (u : ℕ) (js : List ℕ) → list_contains js u ≡ ltb 0 (count u js)
unfolding count list_contains
count-contains u [] = ground arith
count-contains u (j ∷ js) = ground (arith, count-contains u js)

view-perform : (c : Caller) (o : Op) (k : ℕ) → view (perform c o) k ≡ see (view c k) o k
unfolding perform async_call begin_wait on_wamp_async_result process_async_result finish_remote
view-perform c (call uuid method) k = elim (Bool-cases (nat_beq uuid k)) [
  | inl e ↦ rw (count-append_last k uuid c.waiting, e) refl
  | inr e ↦ rw (count-append_last k uuid c.waiting, e) refl
]
view-perform c (wait uuid) k = elim (Bool-cases (nat_beq uuid k)) [
  | inl e ↦ rw (count-append_last k uuid c.waiting, e) refl
  | inr e ↦ rw (count-append_last k uuid c.waiting, e) refl
]
view-perform c (finish uuid) k = elim (Bool-cases (nat_beq uuid k)) [
  | inl e ↦ rw (count-remove_one k uuid c.waiting, lookup-remove uuid k c.results, e) refl
  | inr e ↦ rw (count-remove_one k uuid c.waiting, lookup-remove uuid k c.results, e) refl
]
view-perform c (arrive uuid r) k = elim (Bool-cases (nat_beq uuid k)) [
  | inl e ↦
      let same : uuid ≡ k = ground (arith, e) in
      let known : list_contains c.waiting uuid ≡ ltb 0 (count k c.waiting) =
        count-contains uuid c.waiting ∙ ap (λ u. ltb 0 (count u c.waiting)) same in
      elim (Bool-cases (ltb 0 (count k c.waiting))) [
        | inl p ↦ rw (known, p, lookup-insert uuid k r c.results, e) refl
        | inr p ↦ rw (known, p, e) refl
      ]
  | inr e ↦ elim (Bool-cases (list_contains c.waiting uuid)) [
    | inl p ↦ rw (p, lookup-insert uuid k r c.results, e) refl
    | inr p ↦ rw (p, e) refl
  ]
]

-- Through any sequence of calls, waits, arrivals and ends, what is kept for each number is what its
-- caller sees: how often the number is waited for, and the last result that came while it was. Other
-- numbers do not matter, nor does the order in which they wait.
pub run-replay : (c : Caller) (os : List Op) → view (run c os) ≡ replay (view c) os
unfolding run replay
run-replay c [] = refl
run-replay c (o ∷ os) =
    run-replay (perform c o) os ∙ ap (λ f. replay f os) (fun_ext (λ k. view-perform c o k))

-- The first result that arrives for a number.
unfoldable pub first_for : ℕ → List (ℕ × JsonObject) → Option JsonObject
first_for u [] = none
first_for u ((n, r) ∷ rs) = let rest = first_for u rs in if nat_beq n u then some r else rest

abbrev or_before : Option JsonObject → Option JsonObject → Option JsonObject
or_before none was = was
or_before (some r) was = some r

wait_loop-first_for :
    (c : Caller) (u : ℕ) (rs : List (ℕ × JsonObject))
    → list_contains c.waiting u ≡ true
    → (lookup u (wait_loop c u rs).results ≡ or_before (first_for u rs) (lookup u c.results))
      × ((wait_loop c u rs).waiting ≡ c.waiting)
unfolding wait_loop first_for on_wamp_async_result process_async_result
wait_loop-first_for c u [] waits = (refl, refl)
wait_loop-first_for c u ((n, r) ∷ rs) waits = elim (Bool-cases (nat_beq n u)) [
  | inl e ↦
      let same : u ≡ n = ground (arith, e) in
      let on : list_contains c.waiting n ≡ true =
        subst (λ i. list_contains c.waiting i ≡ true) same waits in
      rw (e, on) (lookup-insert n u r c.results ∙ rw (e) refl, refl)
  | inr e ↦ elim (Bool-cases (list_contains c.waiting n)) [
    | inl on ↦
        let later = wait_loop-first_for (process_async_result c n r) u rs waits in
        let kept : lookup u (process_async_result c n r).results ≡ lookup u c.results =
          lookup-insert n u r c.results ∙ rw (e) refl in
        rw (e, on) (later.0 ∙ ap (or_before (first_for u rs)) kept, later.1)
    | inr off ↦ rw (e, off) (wait_loop-first_for c u rs waits)
  ]
]

-- With a joined session and a call number that has no result yet: `waitResult` answers the first
-- result that arrives for it in time, or else that the call timed out; and it leaves its number
-- among the waiting ones, behind those that were waiting before.
pub wait_result-first_for :
    (nat_text : ℕ → String) (c : Caller) (u : ℕ) (rs : List (ℕ × JsonObject))
    → lookup u c.results ≡ none
    → ((wait_result nat_text true c u rs).1
        ≡ elim (first_for u rs) [ none ↦ timeout_result nat_text u | some r ↦ r ])
      × ((wait_result nat_text true c u rs).0.waiting ≡ c.waiting ++ (u ∷ []))
unfolding wait_result begin_wait wait_answer
wait_result-first_for nat_text c u rs fresh =
    let found = wait_loop-first_for (begin_wait c u) u rs (contains-append_last c.waiting u) in
    let answer : lookup u (wait_loop (begin_wait c u) u rs).results
        ≡ or_before (first_for u rs) none =
      found.0 ∙ ap (or_before (first_for u rs)) fresh in
    elim (Option-cases (first_for u rs)) [
      | inl e ↦
          let late : lookup u (wait_loop (begin_wait c u) u rs).results ≡ none =
            answer ∙ rw (e) refl in
          (rw (wait_answer, late, e) refl, found.1)
      | inr (r, e) ↦
          let came : lookup u (wait_loop (begin_wait c u) u rs).results ≡ some r =
            answer ∙ rw (e) refl in
          (rw (wait_answer, came, e) refl, found.1)
    ]
