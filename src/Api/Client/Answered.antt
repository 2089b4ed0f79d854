-- ===== src/Api/Client/Answered.antt =====
-- swift-lib/swiftapiclient.cpp: how a result reaches the one who waits for it, and what is then left of
-- the call.
use swift_bot.Prelude.{
  String, ℕ, ◌≡◌, refl, ◌∙◌, sym, ap, subst, true, false, some, none, List, [], ◌∷◌, arith, ltb,
  ◌<◌, if◌then◌else◌,
}
use swift_bot.Qt.Key.{◌==◌, nat_key, text_key}
use swift_bot.Qt.Vector.{list_contains, contains-remove_one}
use swift_bot.Qt.Map.{lookup, value_or, lookup-remove}
use swift_bot.Qt.Json.{JsonObject, get_text, put_text, get_text-put_text_self, lookup-put_text_ne}
use swift_bot.Api.Client.{
  Client, Env, Effect, send_result, method_state, method_number, time_sync_method,
}
use swift_bot.Api.Client.Responses.{is_true, is_success, on_api_response_parsed}
use swift_bot.Api.Client.Results.{
  forget, send_async_result, process_async_queue_result, result_turn,
}
use swift_bot.Api.Client.Kept.{IsKept}

module _ {D : Type 0} (env : Env D) where
  -- What a client hands out for a call: its result, with the number of the call in it and all else as it is
  -- stored, a report whether it was a success, and nothing more. The call is then unknown, and the others
  -- are as they were.
  pub record HandsOut (u : ℕ) (r : JsonObject) (c : Client D) (after : Client D × List Effect)
      : Type 0 where
    pub result : JsonObject
    pub events :
        after.1
        ≡ send_result result
          ∷ method_state (is_success r) (value_or u time_sync_method c.async_dictionary)
          ∷ []
    pub stored : (key : String) → ("async_uuid" == key) ≡ false → lookup key result ≡ lookup key r
    pub numbered : get_text "" "async_uuid" result ≡ env.nat_text u
    pub known :
        (v : ℕ)
        → list_contains after.0.asyncs v ≡ (if u == v then false else list_contains c.asyncs v)
    pub named :
        (v : ℕ)
        → lookup v after.0.async_dictionary ≡ (if u == v then none else lookup v c.async_dictionary)
    pub given :
        (v : ℕ) → lookup v after.0.async_params ≡ (if u == v then none else lookup v c.async_params)
    pub kept :
        (v : ℕ)
        → lookup v after.0.async_results ≡ (if u == v then none else lookup v c.async_results)

  send_async_result_lem :
      (u : ℕ) (c : Client D) (r : JsonObject)
      → 0 < u
      → env.is_joined ≡ true
      → lookup u c.async_results ≡ some r
      → list_contains c.asyncs (method_number (value_or u time_sync_method c.async_dictionary))
        ≡ false
      → send_async_result env u c ≡ (
        forget env u c,
        true,
        send_result (put_text "async_uuid" (env.nat_text u) r)
            ∷ method_state (is_success r) (value_or u time_sync_method c.async_dictionary)
            ∷ [],
      )
  unfolding send_async_result on_api_response_parsed
  send_async_result_lem u c r pos joined has apart =
      let test : ltb 0 u ≡ true = ground arith in
      rw (has, joined, apart, test, send_async_result) refl

  -- Where a joined client that keeps its calls has a result for the number that heads its queue, which is
  -- not 0, and no call is known under the number of that call's method, the next turn hands the result out once, as it is
  -- stored but for the number of the call: its call is forgotten, and every other call keeps its state.
  pub process_async_queue_result-HandsOut :
      (u : ℕ) (rest : List ℕ) (c : Client D) (r : JsonObject)
      → IsKept c
      → 0 < u
      → env.is_joined ≡ true
      → c.async_results_queue ≡ u ∷ rest
      → lookup u c.async_results ≡ some r
      → list_contains c.asyncs (method_number (value_or u time_sync_method c.async_dictionary))
        ≡ false
      → HandsOut u r c (process_async_queue_result env c)
  unfolding process_async_queue_result is_true
  process_async_queue_result-HandsOut u rest c r k pos joined q has apart =
      let c' = record c { async_results_queue = rest } in
      let sent = send_async_result_lem u c' r pos joined has apart in
      let turn : process_async_queue_result env c
          ≡ ((send_async_result env u c').0, (send_async_result env u c').2) =
        ap (λ l. result_turn env l c) q in
      let whole = turn ∙ ap (λ p. (p.0, p.2)) sent in
      subst (HandsOut u r c) (sym whole) (record {
        result = put_text "async_uuid" (env.nat_text u) r;
        events = refl;
        stored = λ key e. lookup-put_text_ne "async_uuid" key (env.nat_text u) r e;
        numbered = get_text-put_text_self "" "async_uuid" (env.nat_text u) r;
        known = λ v. contains-remove_one u v c.asyncs k.once;
        named = λ v. lookup-remove u v c.async_dictionary;
        given = λ v. lookup-remove u v c.async_params;
        kept = λ v. lookup-remove u v c.async_results;
      })
