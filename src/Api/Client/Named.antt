-- ===== src/Api/Client/Named.antt =====
-- swift-lib/swiftapiclient.cpp: which calls have a method and parameters, whatever the clock shows.
use swift_bot.Prelude.{
  ℕ, ◌≡◌, refl, true, List, [], ◌∷◌, ◌++◌, arith, Bool-cases, Option-cases, inl, inr,
}
use swift_bot.Qt.Key.{nat_key, text_key}
use swift_bot.Qt.Vector.{list_contains, contains-append, contains-remove_one_ne}
use swift_bot.Qt.Map.{lookup, contains, value_or, insert, contains-insert, lookup-remove}
use swift_bot.Qt.Json.{JsonObject}
use swift_bot.Api.Client.{
  Client, Env, Method, take_in, is_order_place, get_next_uuid, method_number, time_sync_method,
}
use swift_bot.Api.Client.Responses.{on_api_response_parsed}
use swift_bot.Api.Client.Results.{forget, send_async_result, result_turn}
use swift_bot.Api.Client.Kept.{Same, on_api_response_parsed-Same}

-- Exactly the calls with a method have parameters, and each of them is known.
pub record IsNamed {D : Type 0} (c : Client D) : Type 0 where
  pub paired : (u : ℕ) → contains u c.async_params ≡ contains u c.async_dictionary
  pub known : (u : ℕ) → contains u c.async_dictionary ≡ true → list_contains c.asyncs u ≡ true

module _ {D : Type 0} where
  pub Same-IsNamed : (c c' : Client D) → Same c c' → IsNamed c → IsNamed c'
  Same-IsNamed c c' (a, n, d, p) k = record {
    paired = λ u. rw (d, p) (k.paired u);
    known = λ u. rw (a, d) (k.known u);
  }

  -- A call under any number, known or not.
  pub grown-IsNamed :
      (u n : ℕ) (m : Method) (j : JsonObject) (c : Client D)
      → IsNamed c
      → IsNamed (record c {
        uuids_counter = n;
        asyncs = c.asyncs ++ (u ∷ []);
        async_dictionary = insert u m c.async_dictionary;
        async_params = insert u j c.async_params;
      })
  unfolding list_contains
  grown-IsNamed u n m j c k = record {
    paired = λ v. ground (
      arith,
      contains-insert u v j c.async_params,
      contains-insert u v m c.async_dictionary,
      k.paired v,
    );
    known = λ v h. ground (
      arith,
      contains-insert u v m c.async_dictionary,
      contains-append c.asyncs (u ∷ []) v,
      k.known v,
    );
  }

  pub take_in-IsNamed :
      (now : ℕ) (m : Method) (j : JsonObject) (c : Client D)
      → IsNamed c
      → IsNamed (take_in now m j c)
  unfolding take_in
  take_in-IsNamed now m j c k =
      let next = get_next_uuid now c.uuids_counter in
      let grown = grown-IsNamed next.0 next.1 m j c k in
      elim (Bool-cases (is_order_place m)) [
        | inl e ↦ rw (e) (Same-IsNamed _ _ (refl, refl, refl, refl) grown)
        | inr e ↦ rw (e) (Same-IsNamed _ _ (refl, refl, refl, refl) grown)
      ]

module _ {D : Type 0} (env : Env D) where
  forget-IsNamed : (u : ℕ) (c : Client D) → IsNamed c → IsNamed (forget env u c)
  forget-IsNamed u c k = record {
    paired = λ v.
        ground (
          arith,
          lookup-remove u v c.async_dictionary,
          lookup-remove u v c.async_params,
          k.paired v,
        );
    known = λ v h. ground (
      arith,
      lookup-remove u v c.async_dictionary,
      contains-remove_one_ne u v c.asyncs,
      k.known v,
    );
  }

  send_async_result-IsNamed :
      (u : ℕ) (c : Client D) → IsNamed c → IsNamed (send_async_result env u c).0
  unfolding send_async_result
  send_async_result-IsNamed u c k = elim (Option-cases (lookup u c.async_results)) [
    | inl e ↦ rw (e, send_async_result) k
    | inr (r, e) ↦ elim (Bool-cases env.is_joined) [
      | inr f ↦ rw (e, f, send_async_result) k
      | inl f ↦
          let number = method_number (value_or u time_sync_method c.async_dictionary) in
          let parsed = on_api_response_parsed-Same env number r c in
          rw (e, f, send_async_result)
            (forget-IsNamed u (on_api_response_parsed env number r c).0
              (Same-IsNamed c (on_api_response_parsed env number r c).0 parsed k))
    ]
  ]

  pub result_turn-IsNamed :
      (q : List ℕ) (c : Client D) → IsNamed c → IsNamed (result_turn env q c).0
  unfolding result_turn
  result_turn-IsNamed [] c k = k
  result_turn-IsNamed (u ∷ rest) c k =
      let c' = record c { async_results_queue = rest } in
      send_async_result-IsNamed u c' (Same-IsNamed c c' (refl, refl, refl, refl) k)
