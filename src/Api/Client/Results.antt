-- ===== src/Api/Client/Results.antt =====
-- swift-lib/swiftapiclient.cpp: how `sendAsyncResult` hands a result out, and the queue of the results.
use swift_bot.Prelude.{ℕ, Bool, true, false, none, some, List, [], ◌∷◌, ltb, if◌then◌else◌}
use swift_bot.Qt.Key.{nat_key, text_key}
use swift_bot.Qt.Vector.{remove_one}
use swift_bot.Qt.Map.{lookup, remove, value_or}
use swift_bot.Qt.Json.{put_text}
use swift_bot.Api.Client.{
  Client, Env, Effect, send_result, method_state, method_number, time_sync_method,
}
use swift_bot.Api.Client.Responses.{is_true, is_success, on_api_response_parsed}

module _ {D : Type 0} (env : Env D) where
  abbrev pub forget : ℕ → Client D → Client D
  forget uuid c = record c {
    async_params = remove uuid c.async_params;
    async_dictionary = remove uuid c.async_dictionary;
    async_results = remove uuid c.async_results;
    asyncs = remove_one uuid c.asyncs;
  }

  -- Behind the published result stands the signal `apiParsedResponse`, which is connected to
  -- `onApiResponseParsed`: the number of the method arrives there as the number of a call.
  unfoldable pub send_async_result : ℕ → Client D → Client D × Bool × List Effect
  unfolding on_api_response_parsed is_true
  send_async_result uuid c = elim (lookup uuid c.async_results) [
    | none ↦ (c, false, [])
    | some r ↦
        let method = value_or uuid time_sync_method c.async_dictionary in
        let sent = if ltb 0 uuid then put_text "async_uuid" (env.nat_text uuid) r else r in
        let parsed = on_api_response_parsed env (method_number method) r c in
        if env.is_joined
        then (
          forget uuid parsed.0,
          true,
          send_result sent ∷ method_state (is_success r) method ∷ parsed.1,
        )
        else (c, false, [])
  ]

  unfoldable pub result_turn : List ℕ → Client D → Client D × List Effect
  unfolding send_async_result
  result_turn [] c = (c, [])
  result_turn (uuid ∷ rest) c =
      let sent = send_async_result uuid (record c { async_results_queue = rest }) in
      (sent.0, sent.2)

  -- A turn of the timer. The number leaves the queue also where its result is not sent.
  unfoldable pub process_async_queue_result : Client D → Client D × List Effect
  unfolding result_turn
  process_async_queue_result c = result_turn c.async_results_queue c
