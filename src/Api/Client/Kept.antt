-- ===== src/Api/Client/Kept.antt =====
-- swift-lib/swiftapiclient.cpp: which calls a client knows, through all that happens to it.
use swift_bot.Prelude.{
  ℕ, ◌≤◌, ◌<◌, ◌≡◌, refl, ◌∙◌, true, false, List, [], ◌∷◌, ◌++◌, arith, All, All-map, All-append,
  Bool-cases, Option-cases, inl, inr,
}
use swift_bot.Qt.Key.{nat_key, text_key}
use swift_bot.Qt.Vector.{
  list_contains, contains-append, NoDup, NoDup-append_last, contains-remove_one, NoDup-remove_one,
  All-remove_one,
}
use swift_bot.Qt.Map.{Map, lookup, contains, value_or, insert, contains-insert, lookup-remove}
use swift_bot.Qt.Json.{JsonObject, get_text}
use swift_bot.Api.Client.{
  Client, Env, Method, take_in, is_order_place, method_number, process_async_queue, get_next_uuid,
  set_cached_balance, get_balances, order_place, order_cancel, order_get, order_replace,
  time_sync_method,
}
use swift_bot.Api.Client.Numbers.{IsTime, get_next_uuid_grows, get_next_uuid_bounds}
use swift_bot.Api.Client.Responses.{
  is_success, cache_balances, fill_order, handle_method, explain_error, on_api_response_parsed,
}
use swift_bot.Api.Client.Results.{result_turn, send_async_result, forget}
use swift_bot.Api.Client.Replies.{Reply, refused, on_network_reply}

-- The calls that a client knows: each number once, none above the counter, with a method and with
-- parameters.
pub record IsKept {D : Type 0} (c : Client D) : Type 0 where
  pub once : NoDup c.asyncs
  pub below : All (λ u. u ≤ c.uuids_counter) c.asyncs
  pub named : (u : ℕ) → contains u c.async_dictionary ≡ list_contains c.asyncs u
  pub given : (u : ℕ) → contains u c.async_params ≡ list_contains c.asyncs u

module _ {D : Type 0} where
  -- The same calls.
  abbrev pub Same : Client D → Client D → Type 0
  Same c c' =
      (c'.asyncs ≡ c.asyncs)
      × (c'.uuids_counter ≡ c.uuids_counter)
      × (c'.async_dictionary ≡ c.async_dictionary)
      × (c'.async_params ≡ c.async_params)

  pub Same-IsKept : (c c' : Client D) → Same c c' → IsKept c → IsKept c'
  Same-IsKept c c' (a, n, d, p) k = record {
    once = rw (a) k.once;
    below = rw (a, n) k.below;
    named = λ u. rw (a, d) (k.named u);
    given = λ u. rw (a, p) (k.given u);
  }

  Same-trans : (a b c : Client D) → Same a b → Same b c → Same a c
  Same-trans a b c (p, q, r, s) (p', q', r', s') = (p' ∙ p, q' ∙ q, r' ∙ r, s' ∙ s)

  pub process_async_queue-Same : (c : Client D) → Same c (process_async_queue c).0
  unfolding process_async_queue
  process_async_queue-Same c = ground arith

module _ {D : Type 0} (env : Env D) where
  cache_balances-Same : (os : List JsonObject) (c : Client D) → Same c (cache_balances env os c)
  unfolding cache_balances
  cache_balances-Same [] c = (refl, refl, refl, refl)
  cache_balances-Same (o ∷ os) c = cache_balances-Same os (
      set_cached_balance (env.to_uint (get_text "" "currency_id" o))
        (env.to_double (get_text "" "total" o)) (env.to_double (get_text "" "reserved" o)) c)

  fill_order-Same : (u : ℕ) (r : JsonObject) (c : Client D) → Same c (fill_order env u r c).0
  unfolding fill_order
  fill_order-Same u r c = ground arith

  handle_method-Same :
      (m : Method) (u : ℕ) (r : JsonObject) (c : Client D) → Same c (handle_method env m u r c).0
  unfolding handle_method
  handle_method-Same get_balances u r c = elim (Bool-cases (is_success r)) [
    | inl e ↦ rw (e) (cache_balances-Same (env.to_array (lookup "balances" r)) c)
    | inr e ↦ rw (e) (refl, refl, refl, refl)
  ]
  handle_method-Same order_place u r c = fill_order-Same u r c
  handle_method-Same order_cancel u r c = fill_order-Same u r c
  handle_method-Same order_get u r c = fill_order-Same u r c
  handle_method-Same order_replace u r c = fill_order-Same u r c
  handle_method-Same m u r c = (refl, refl, refl, refl)

  explain_error-Same : (u : ℕ) (r : JsonObject) (c : Client D) → Same c (explain_error env u r c).0
  unfolding explain_error
  explain_error-Same u r c = ground arith

  pub on_api_response_parsed-Same :
      (u : ℕ) (r : JsonObject) (c : Client D) → Same c (on_api_response_parsed env u r c).0
  unfolding on_api_response_parsed
  on_api_response_parsed-Same u r c =
      let m = value_or u time_sync_method c.async_dictionary in
      let handled = handle_method-Same m u r c in
      elim (Bool-cases (list_contains c.asyncs u)) [
        | inr e ↦ rw (e) (refl, refl, refl, refl)
        | inl e ↦ elim (Bool-cases (is_success r)) [
          | inl f ↦ rw (e, f) handled
          | inr f ↦
              rw (e, f)
                (Same-trans c (handle_method env m u r c).0
                  (explain_error env u r (handle_method env m u r c).0).0 handled
                  (explain_error-Same u r (handle_method env m u r c).0))
        ]
      ]

  pub on_network_reply-Same :
      (reply : Reply) (c : Client D) → Same c (on_network_reply env reply c).0
  unfolding on_network_reply
  on_network_reply-Same reply c = ground (
    arith,
    on_api_response_parsed-Same reply.uuid (refused env reply.uuid reply.http_code c) c,
    on_api_response_parsed-Same reply.uuid (refused env reply.uuid reply.http_code c)
        (record c { request_pause = true }),
  )

  forget-IsKept : (u : ℕ) (c : Client D) → IsKept c → IsKept (forget env u c)
  forget-IsKept u c k = record {
    once = NoDup-remove_one u c.asyncs k.once;
    below = All-remove_one _ u c.asyncs k.below;
    named = λ v. ground (
      arith,
      lookup-remove u v c.async_dictionary,
      contains-remove_one u v c.asyncs k.once,
      k.named v,
    );
    given = λ v. ground (
      arith,
      lookup-remove u v c.async_params,
      contains-remove_one u v c.asyncs k.once,
      k.given v,
    );
  }

  send_async_result-IsKept :
      (u : ℕ) (c : Client D) → IsKept c → IsKept (send_async_result env u c).0
  unfolding send_async_result
  send_async_result-IsKept u c k = elim (Option-cases (lookup u c.async_results)) [
    | inl e ↦ rw (e, send_async_result) k
    | inr (r, e) ↦ elim (Bool-cases env.is_joined) [
      | inr f ↦ rw (e, f, send_async_result) k
      | inl f ↦
          let number = method_number (value_or u time_sync_method c.async_dictionary) in
          let parsed = on_api_response_parsed-Same number r c in
          rw (e, f, send_async_result)
            (forget-IsKept u (on_api_response_parsed env number r c).0
              (Same-IsKept c (on_api_response_parsed env number r c).0 parsed k))
    ]
  ]

  pub result_turn-IsKept : (q : List ℕ) (c : Client D) → IsKept c → IsKept (result_turn env q c).0
  unfolding result_turn
  result_turn-IsKept [] c k = k
  result_turn-IsKept (u ∷ rest) c k =
      let c' = record c { async_results_queue = rest } in
      send_async_result-IsKept u c' (Same-IsKept c c' (refl, refl, refl, refl) k)

not-contains-below :
    (n u : ℕ) (us : List ℕ) → n < u → All (λ v. v ≤ n) us → list_contains us u ≡ false
unfolding list_contains
not-contains-below n u [] h b = refl
not-contains-below n u (v ∷ us) h (p, b) = ground (arith, not-contains-below n u us h b)

-- A new key in a map, and at the end of a list.
contains-insert-append :
    {V : Type 0} (u v : ℕ) (x : V) (m : Map ℕ V) (us : List ℕ)
    → contains v m ≡ list_contains us v
    → contains v (insert u x m) ≡ list_contains (us ++ (u ∷ [])) v
unfolding list_contains
contains-insert-append u v x m us h =
    ground (arith, contains-insert u v x m, contains-append us (u ∷ []) v)

module _ {D : Type 0} where
  -- A call under a number above the counter.
  grown-IsKept :
      (u : ℕ) (m : Method) (j : JsonObject) (c : Client D)
      → c.uuids_counter < u
      → IsKept c
      → IsKept (record c {
        uuids_counter = u;
        asyncs = c.asyncs ++ (u ∷ []);
        async_dictionary = insert u m c.async_dictionary;
        async_params = insert u j c.async_params;
      })
  grown-IsKept u m j c grows k = record {
    once =
        NoDup-append_last u c.asyncs (not-contains-below c.uuids_counter u c.asyncs grows k.below)
          k.once;
    below =
        All-append _ c.asyncs (u ∷ []) (All-map c.asyncs (λ v lt. omega arith) k.below)
          (omega arith, tt);
    named = λ v. contains-insert-append u v m c.async_dictionary c.asyncs (k.named v);
    given = λ v. contains-insert-append u v j c.async_params c.asyncs (k.given v);
  }

  -- A call that comes when the clock has reached the counter gets a number of its own.
  pub take_in-IsKept :
      (now : ℕ) (m : Method) (j : JsonObject) (c : Client D)
      → IsTime now
      → c.uuids_counter ≤ now
      → IsKept c
      → IsKept (take_in now m j c)
  unfolding take_in
  take_in-IsKept now m j c time h k =
      let u = (get_next_uuid now c.uuids_counter).0 in
      let grown = grown-IsKept u m j c (get_next_uuid_grows now c.uuids_counter time h) k in
      let ends = (get_next_uuid_bounds now c.uuids_counter time (omega (arith, time, h))).2 in
      elim (Bool-cases (is_order_place m)) [
        | inl e ↦ rw (e, ends) (Same-IsKept _ _ (refl, refl, refl, refl) grown)
        | inr e ↦ rw (e, ends) (Same-IsKept _ _ (refl, refl, refl, refl) grown)
      ]
