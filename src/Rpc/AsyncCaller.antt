-- ===== src/Rpc/AsyncCaller.antt =====
-- swift-lib/asyncrcpcallerinterface.cpp and asyncrcpcallerinterface.h: calls whose results come later,
-- under the number that the call answered.
pub mod Awaited
use swift_bot.Prelude.{
  ℕ, String, Bool, true, false, Option, none, some, List, [], ◌∷◌, ◌++◌, if◌then◌else◌,
  ◌==◌ as nat_beq,
}
use swift_bot.Qt.Key.{nat_key, text_key}
use swift_bot.Qt.Vector.{list_contains, remove_one}
use swift_bot.Qt.Map.{Map, lookup, insert, remove, value_or}
use swift_bot.Qt.Json.{JsonObject, raw, put_text, get_text}

-- The methods of `SwiftApiClient` are numbers.
pub record Caller : Type 0 where
  pub waiting : List ℕ
  pub results : Map ℕ JsonObject
  pub methods : Map ℕ ℕ

abbrev pub no_calls : Caller
no_calls = record { waiting = []; results = []; methods = [] }

unfoldable pub process_async_result : Caller → ℕ → JsonObject → Caller
process_async_result c uuid r = record c { results = insert uuid r c.results }

-- `onWampAsyncResult`, and the subscription of `onWampSession`, with the number of the result read.
unfoldable pub on_wamp_async_result : Caller → ℕ → JsonObject → Caller
unfolding process_async_result
on_wamp_async_result c uuid r =
    if list_contains c.waiting uuid then process_async_result c uuid r else c

-- With a joined session, whose call answers `uuid`.
unfoldable pub async_call : Caller → ℕ → ℕ → Caller
async_call c uuid method = record c {
  methods = insert uuid method c.methods;
  waiting = c.waiting ++ (uuid ∷ []);
}

unfoldable pub get_method_by_uuid : Caller → ℕ → ℕ
get_method_by_uuid c uuid = value_or uuid 0 c.methods

unfoldable pub get_result_by_uuid : Caller → ℕ → JsonObject
get_result_by_uuid c uuid = value_or uuid [] c.results

unfoldable pub finish_remote : Caller → ℕ → Caller
finish_remote c uuid = record {
  methods = remove uuid c.methods;
  results = remove uuid c.results;
  waiting = remove_one uuid c.waiting;
}

-- The answer of `waitResult` after its loop, which a result of the call or ten seconds end; `raw 0` is
-- false.
unfoldable pub timeout_result : (ℕ → String) → ℕ → JsonObject
timeout_result nat_text uuid =
    put_text "async_uuid" (nat_text uuid)
      (put_text "error" "RPC call timeout" (insert "success" (raw 0) []))

unfoldable pub not_connected : JsonObject
not_connected = put_text "error" "RPC client not connected!" (insert "success" (raw 0) [])

-- The number of a call is waited for.
unfoldable pub begin_wait : Caller → ℕ → Caller
begin_wait c uuid = record c { waiting = c.waiting ++ (uuid ∷ []) }

-- The loop of `waitResult`, on the results that arrive within ten seconds: that of the call ends it.
unfoldable pub wait_loop : Caller → ℕ → List (ℕ × JsonObject) → Caller
unfolding on_wamp_async_result
wait_loop c uuid [] = c
wait_loop c uuid ((n, r) ∷ rs) =
    let c' = on_wamp_async_result c n r in
    let rest = wait_loop c' uuid rs in if nat_beq n uuid then c' else rest

unfoldable pub wait_answer : (ℕ → String) → Caller → ℕ → JsonObject
unfolding timeout_result
wait_answer nat_text c uuid = elim (lookup uuid c.results) [
  | none ↦ timeout_result nat_text uuid
  | some r ↦ r
]

-- `waitResult`, with the state of the session, the number that its call answers, and the results that
-- arrive in time.
unfoldable pub wait_result :
    (ℕ → String) → Bool → Caller → ℕ → List (ℕ × JsonObject) → Caller × JsonObject
unfolding begin_wait wait_loop wait_answer not_connected
wait_result nat_text is_joined c uuid arrivals =
    let c' = wait_loop (begin_wait c uuid) uuid arrivals in
    if is_joined then (c', wait_answer nat_text c' uuid) else (c, not_connected)
