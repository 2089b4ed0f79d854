-- ===== src/Api/Client/Run.antt =====
-- swift-lib/swiftapiclient.cpp: all that happens to a client, as steps, and the way of an answer.
use swift_bot.Prelude.{
  ℕ, String, ◌≤◌, refl, Bool, true, false, Option, List, [], arith, if◌then◌else◌,
}
use swift_bot.Qt.Key.{◌==◌, nat_key, text_key}
use swift_bot.Qt.Vector.{list_contains}
use swift_bot.Qt.Map.{lookup}
use swift_bot.Qt.Json.{JsonObject}
use swift_bot.Api.Client.{
  Client, Env, Effect, Method, create_async_waiter, take_in, call_rpc, process_async_queue,
  unfreeze, reset_limits, unrealized_method, get_exchange_api_key,
}
use swift_bot.Api.Client.Numbers.{IsTime}
use swift_bot.Api.Client.Responses.{on_api_response_parsed}
use swift_bot.Api.Client.Results.{process_async_queue_result}
use swift_bot.Api.Client.Replies.{Reply, on_network_reply, on_param_changed}
use swift_bot.Api.Client.Named.{IsNamed, Same-IsNamed, take_in-IsNamed, result_turn-IsNamed}
use swift_bot.Api.Client.Results.{result_turn}
use swift_bot.Api.Client.Kept.{
  IsKept, Same, Same-IsKept, take_in-IsKept, process_async_queue-Same, on_api_response_parsed-Same,
  on_network_reply-Same, result_turn-IsKept,
}

if_holds {ℓ κ} :
    {A : Type ℓ} (P : A → Type κ) (b : Bool) {x y : A} → P x → P y → P (if b then x else y)
if_holds P true p q = p
if_holds P false p q = q

-- A client before its first call.
unfoldable pub new_client : (D : Type 0) → ℕ → Client D
new_client D start = record {
  request_pause = false;
  uuids_counter = start;
  asyncs = [];
  async_dictionary = [];
  async_params = [];
  async_results = [];
  async_queue = [];
  async_results_queue = [];
  registered_orders = [];
  registered_orders_objects = [];
  balances_total_cached = [];
  balances_inner_cached = [];
  req_total_counter = 0;
  api_key = "";
  api_secret = "";
  api_user = "";
}

-- What is asked of the time of a call: nothing, or that the clock has reached the counter, is past 300 and
-- below its last number.
abbrev pub AtTime : Bool → ℕ → ℕ → Type 0
AtTime false now counter = Unit
AtTime true now counter = IsTime now × (counter ≤ now)

-- The invariant, by what is asked of the times.
abbrev pub Holds : {D : Type 0} → Bool → Client D → Type 0
Holds false c = IsNamed c
Holds true c = IsKept c

module _ {D : Type 0} (env : Env D) where
  pub data Step (timely : Bool) : Client D → Client D → Type 0 where
    called :
        (c : Client D) (now : ℕ) (m : Method) (args : Option JsonObject)
        → AtTime timely now c.uuids_counter
        → Step timely c (call_rpc env now m args c).0
    queued : (c : Client D) → Step timely c (process_async_queue c).0
    replied : (c : Client D) (reply : Reply) → Step timely c (on_network_reply env reply c).0
    parsed :
        (c : Client D) (u : ℕ) (r : JsonObject) → Step timely c (on_api_response_parsed env u r c).0
    unrealized : (c : Client D) (u : ℕ) → Step timely c (unrealized_method env u c)
    sent : (c : Client D) → Step timely c (process_async_queue_result env c).0
    unfrozen : (c : Client D) → Step timely c (unfreeze c)
    limited : (c : Client D) → Step timely c (reset_limits c)
    changed : (c : Client D) (p v : String) → Step timely c (on_param_changed env p v c)

  pub data Steps (timely : Bool) (c : Client D) : Client D → Type 0 where
    here : Steps timely c c
    next : {c' c'' : Client D} → Steps timely c c' → Step timely c' c'' → Steps timely c c''

  Same-Holds : (timely : Bool) (c c' : Client D) → Same c c' → Holds timely c → Holds timely c'
  Same-Holds false c c' same k = Same-IsNamed c c' same k
  Same-Holds true c c' same k = Same-IsKept c c' same k

  take_in-Holds :
      (timely : Bool) (now : ℕ) (m : Method) (j : JsonObject) (c : Client D)
      → AtTime timely now c.uuids_counter
      → Holds timely c
      → Holds timely (take_in now m j c)
  take_in-Holds false now m j c time k = take_in-IsNamed now m j c k
  take_in-Holds true now m j c (time, h) k = take_in-IsKept now m j c time h k

  result_turn-Holds :
      (timely : Bool) (q : List ℕ) (c : Client D)
      → Holds timely c
      → Holds timely (result_turn env q c).0
  result_turn-Holds false q c k = result_turn-IsNamed env q c k
  result_turn-Holds true q c k = result_turn-IsKept env q c k

  create_async_waiter-Holds :
      (timely : Bool) (now : ℕ) (m : Method) (j : JsonObject) (c : Client D)
      → AtTime timely now c.uuids_counter
      → Holds timely c
      → Holds timely (create_async_waiter env now m j c).0
  unfolding create_async_waiter
  create_async_waiter-Holds timely now m j c time k =
      let P = λ (r : Client D × ℕ × List Effect). Holds timely r.0 in
      if_holds P (get_exchange_api_key env c == "") k
        (if_holds P c.request_pause k (take_in-Holds timely now m j c time k))

  call_rpc-Holds :
      (timely : Bool) (now : ℕ) (m : Method) (args : Option JsonObject) (c : Client D)
      → AtTime timely now c.uuids_counter
      → Holds timely c
      → Holds timely (call_rpc env now m args c).0
  unfolding call_rpc
  call_rpc-Holds timely now m args c time k =
      if_holds (λ (r : Client D × ℕ × List Effect). Holds timely r.0) c.request_pause k
        (create_async_waiter-Holds timely now m _ c time k)

  on_param_changed-Same : (p v : String) (c : Client D) → Same c (on_param_changed env p v c)
  unfolding on_param_changed
  on_param_changed-Same p v c = ground arith

  Step-Holds :
      (timely : Bool) {c c' : Client D} → Step timely c c' → Holds timely c → Holds timely c'
  unfolding unrealized_method unfreeze reset_limits process_async_queue_result
  Step-Holds b (called c now m args time) k = call_rpc-Holds b now m args c time k
  Step-Holds b (queued c) k = Same-Holds b c _ (process_async_queue-Same c) k
  Step-Holds b (replied c reply) k = Same-Holds b c _ (on_network_reply-Same env reply c) k
  Step-Holds b (parsed c u r) k = Same-Holds b c _ (on_api_response_parsed-Same env u r c) k
  Step-Holds b (unrealized c u) k = Same-Holds b c _ (refl, refl, refl, refl) k
  Step-Holds b (sent c) k = result_turn-Holds b c.async_results_queue c k
  Step-Holds b (unfrozen c) k = Same-Holds b c _ (refl, refl, refl, refl) k
  Step-Holds b (limited c) k = Same-Holds b c _ (refl, refl, refl, refl) k
  Step-Holds b (changed c p v) k = Same-Holds b c _ (on_param_changed-Same p v c) k

  Steps-Holds :
      (timely : Bool) {c c' : Client D} → Steps timely c c' → Holds timely c → Holds timely c'
  Steps-Holds b here k = k
  Steps-Holds b (next steps step) k = Step-Holds b step (Steps-Holds b steps k)

  new_client-Holds : (timely : Bool) (start : ℕ) → Holds timely (new_client D start)
  unfolding new_client list_contains lookup
  new_client-Holds false start = record { paired = λ u. refl; known = λ u h. cc }
  new_client-Holds true start = record {
    once = tt;
    below = tt;
    named = λ u. refl;
    given = λ u. refl;
  }

  -- Through any sequence of calls, turns of the timers, replies, parsed answers and changed settings, from
  -- a client without calls. Whatever the clock shows at the calls, exactly the calls with a method have
  -- parameters, and each of them is known. Where every call comes at a clock that has reached the
  -- counter, is past 300 and below the last number, moreover each call is known once, under a number not
  -- above the counter, and exactly the known calls have a method and parameters.
  pub Steps-new_client-Holds :
      (timely : Bool) (start : ℕ) {c : Client D}
      → Steps timely (new_client D start) c
      → Holds timely c
  Steps-new_client-Holds timely start steps =
      Steps-Holds timely steps (new_client-Holds timely start)
