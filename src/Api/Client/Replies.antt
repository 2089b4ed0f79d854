-- ===== src/Api/Client/Replies.antt =====
-- swift-lib/swiftapiclient.cpp: `onNetworkReply`, by the code of the answer, and changed settings.
use swift_bot.Prelude.{
  ℕ, String, true, ◌||◌, Option, none, some, List, [], ◌∷◌, if◌then◌else◌, ◌==◌ as nat_beq,
}
use swift_bot.Qt.Key.{◌==◌, nat_key, text_key}
use swift_bot.Qt.Map.{insert, value_or}
use swift_bot.Qt.Json.{JsonObject, raw, put_text}
use swift_bot.Api.Client.{
  Client, Env, Effect, exchange_param_path, unfreeze_after, parse_response, custom_request,
  get_method_name, time_sync_method,
}
use swift_bot.Api.Client.Responses.{on_api_response_parsed}

-- An answer from the network: the name of a request of its own, the number of the call, the code, and
-- the text.
pub record Reply : Type 0 where
  pub custom : Option String
  pub uuid : ℕ
  pub http_code : ℕ
  pub body : String

module _ {D : Type 0} (env : Env D) where
  -- The result of a call that the exchange refused; `raw 0` is false.
  unfoldable pub refused : ℕ → ℕ → Client D → JsonObject
  refused uuid code c = put_text "error" (env.nat_text code) (
      put_text "exchange" env.exchange_name (
        put_text "method" (get_method_name (value_or uuid time_sync_method c.async_dictionary)) (
          put_text "nonce" (env.nat_text uuid)
            (put_text "async_uuid" (env.nat_text uuid) (insert "success" (raw 0) [])))))

  unfoldable pub on_network_reply : Reply → Client D → Client D × List Effect
  unfolding refused
  on_network_reply reply c =
      let paused = record c { request_pause = true } in
      let code = reply.http_code in
      elim reply.custom [
        | some name ↦ (c, custom_request name reply.body ∷ [])
        | none ↦
            if nat_beq code 200 || nat_beq code 201
            then (
              c,
              parse_response reply.uuid (value_or reply.uuid time_sync_method c.async_dictionary)
                    reply.body
                  ∷ [],
            )
            else if nat_beq code 521
            then (paused, unfreeze_after 30000 ∷ [])
            else if nat_beq code 400
            then (c, [])
            else if nat_beq code 403
            then (let answered =
                  on_api_response_parsed env reply.uuid (refused reply.uuid code c) paused in
                (answered.0, unfreeze_after 30000 ∷ answered.1))
            else if nat_beq code 429
            then (paused, unfreeze_after 120000 ∷ [])
            else on_api_response_parsed env reply.uuid (refused reply.uuid code c) c
      ]

  -- `onParamChanged`, but for the status of the worker.
  unfoldable pub on_param_changed : String → String → Client D → Client D
  unfolding exchange_param_path
  on_param_changed param v c =
      if param == exchange_param_path env "api_key"
      then record c { api_key = v }
      else if param == exchange_param_path env "api_secret"
      then record c { api_secret = v }
      else if param == exchange_param_path env "username"
      then record c { api_user = v }
      else c
