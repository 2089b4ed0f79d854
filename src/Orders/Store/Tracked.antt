-- ===== src/Orders/Store/Tracked.antt =====
-- `checkUpdates` of the workers saves what `getUpdatedOrders` hands out: no changed order is missed.
use swift_bot.Prelude.{
  ℕ, ◌≡◌, ◌≢◌, ◌<◌, inl, inr, true, some, arith, Bool-cases, refl, length, ap, String, sym, ◌∙◌,
  subst, some_inj, get_or, set, get_or-set_self, get_or-set_ne, get_or-append_ne,
  get_or-append_last, [], List, ◌⊎◌, ◌++◌, ◌∷◌, set_out_of_range, leb, Has,
}
use mathlib.Core.Bool.{false≢true}
use native.Mathlib.Decide.{dec_lt, ℕ_discrete}
use swift_bot.Qt.Key.{nat_key}
use swift_bot.Qt.Vector.{list_contains, contains-append, contains-append_last}
use swift_bot.Qt.Json.{JsonObject, get_text, json_eq, json_eq→eq}
use swift_bot.Double.{Double}
use swift_bot.Orders.Order.{Env, prepare-ne-nil}
use swift_bot.Orders.Index.{mark_updated, value_or-lt, Bounded-contains}
use swift_bot.Orders.Store.{
  Store, order_at, overwrite, file_known, update_order, append_order, add_order, add_orders,
  hits_remote, hits_local, remote_of, local_of, pick_updated, get_updated_orders,
}
use swift_bot.Orders.Store.Valid.{
  IsValid, prepared, stamped, slot, Updates, update_order-Updates, add_order-IsValid,
}

-- Between the two stores every order stayed as it was, or is marked as changed and is not empty.
abbrev pub Tracks : Store → Store → Type 0
Tracks s t =
    (i : ℕ)
    → ((order_at t i ≡ order_at s i) ⊎ ((list_contains t.updated i ≡ true) × (order_at t i ≢ [])))
      × (list_contains s.updated i ≡ true → list_contains t.updated i ≡ true)

Tracks-trans : (s t u : Store) → Tracks s t → Tracks t u → Tracks s u
Tracks-trans s t u h k i =
    let (a, m) = h i in
    let (b, n) = k i in
    (
      elim b [
        | inr new ↦ inr new
        | inl same ↦ elim a [
          | inl same' ↦ inl (same ∙ same')
          | inr (marked, full) ↦ inr (n marked, λ e. full (sym same ∙ e))
        ]
      ],
      λ e. n (m e),
    )

contains-mark_updated_self : (i : ℕ) (us : List ℕ) → list_contains (mark_updated i us) i ≡ true
contains-mark_updated_self i us = elim (Bool-cases (list_contains us i)) [
  | inl e ↦ rw (e, mark_updated) e
  | inr e ↦ rw (e, mark_updated) (contains-append_last us i)
]

contains-mark_updated :
    (i j : ℕ) (us : List ℕ) → list_contains us j ≡ true → list_contains (mark_updated i us) j ≡ true
contains-mark_updated i j us h = elim (Bool-cases (list_contains us i)) [
  | inl e ↦ rw (e, mark_updated) h
  | inr e ↦ rw (e, mark_updated) (rw (contains-append us (i ∷ []) j, h) refl)
]

overwrite-Tracks : (s : Store) (i : ℕ) (o : JsonObject) → o ≢ [] → Tracks s (overwrite s i o)
unfolding overwrite
overwrite-Tracks s i o full j = (
  elim (ℕ_discrete i j) [
    | no ne ↦ inl (get_or-set_ne s.orders i j o [] ne)
    | yes e ↦ elim (dec_lt i (length s.orders)) [
      | yes lt ↦
          subst
            (λ k.
              (get_or (set s.orders i o) k [] ≡ get_or s.orders k [])
              ⊎ ((list_contains (mark_updated i s.updated) k ≡ true)
                  × (get_or (set s.orders i o) k [] ≢ [])))
            e
            (inr (
              contains-mark_updated_self i s.updated,
              λ f. full (sym (get_or-set_self s.orders i o [] lt) ∙ f),
            ))
      | no ge ↦ inl (set_out_of_range s.orders i j o [] ge)
    ]
  ],
  contains-mark_updated i j s.updated,
)

module _ {D : Type 0} ⦃d : Double D⦄ (env : Env D) where
  file_known-Tracks :
      (s t : Store) (r : String) (o : JsonObject) → Tracks s t → Tracks s (file_known env t r o)
  unfolding file_known
  file_known-Tracks s t r o h i = elim (Bool-cases (leb (env.to_uint (get_text "" "status" o)) 1)) [
    | inl e ↦ rw (e, file_known) (h i)
    | inr e ↦ rw (e, file_known) (h i)
  ]

  append_order-Tracks :
      (s : Store) (r l : String) (o : JsonObject) → o ≢ [] → Tracks s (append_order env s r l o)
  unfolding append_order
  append_order-Tracks s r l o full j =
      elim (Bool-cases (leb (env.to_uint (get_text "0" "status" o)) 1)) [
        | inl e ↦ rw (e, append_order) (appended s.orders s.updated o j full)
        | inr e ↦ rw (e, append_order) (appended s.orders s.updated o j full)
      ]
    where
      appended :
          (os : List JsonObject) (us : List ℕ) (o : JsonObject) (j : ℕ)
          → o ≢ []
          → ((get_or (os ++ (o ∷ [])) j [] ≡ get_or os j [])
              ⊎ ((list_contains (mark_updated (length os) us) j ≡ true)
                  × (get_or (os ++ (o ∷ [])) j [] ≢ [])))
            × (list_contains us j ≡ true → list_contains (mark_updated (length os) us) j ≡ true)
      appended os us o j full = (
        elim (ℕ_discrete (length os) j) [
          | no ne ↦ inl (get_or-append_ne os o j [] ne)
          | yes e ↦ inr (
            subst (λ k. list_contains (mark_updated (length os) us) k ≡ true) e
                (contains-mark_updated_self (length os) us),
            λ f.
                full
                  (sym (get_or-append_last os o []) ∙ ap (λ k. get_or (os ++ (o ∷ [])) k []) e ∙ f),
          )
        ],
        contains-mark_updated (length os) j us,
      )

  update_order-Tracks :
      (s : Store) (o : JsonObject) (t : Store)
      → slot env s o < length s.orders
      → update_order env s o ≡ some t
      → Tracks s t
  update_order-Tracks s o t lt e =
      let (t', e', made) = update_order-Updates env s o lt in
      subst (Tracks s) (some_inj (sym e' ∙ e)) (tracked t' made)
    where
      tracked : (t : Store) → Updates env s o t → Tracks s t
      tracked t (inl (same, e)) =
          subst (Tracks s) (sym e)
            (file_known-Tracks s (stamped env s o) _ (prepared env s o) (λ i. (inl refl, λ f. f)))
      tracked t (inr e) = subst (Tracks s) (sym e) (
          file_known-Tracks s _ _ (prepared env s o) (
            overwrite-Tracks (stamped env s o) (slot env s o) (prepared env s o)
              (prepare-ne-nil env s.uuids o)))

  add_by_update :
      (s : Store) (o : JsonObject) (t : Store)
      → IsValid s
      → 0 < length s.orders
      → update_order env (stamped env s o) (prepared env s o) ≡ some t
      → Tracks s t
  add_by_update s o t v h e =
      update_order-Tracks (stamped env s o) (prepared env s o) t
        (value_or-lt _ _ s.ext_id h v.ext_bounded) e

  add_order-Tracks :
      (s : Store) (o : JsonObject) (t : Store) → IsValid s → add_order env s o ≡ some t → Tracks s t
  unfolding add_order
  add_order-Tracks s o t v e =
      let p = prepared env s o in
      elim (Bool-cases (hits_remote s (remote_of p))) [
        | inl hit ↦
            add_by_update s o t v
              (Bounded-contains _ (remote_of p) s.ext_id (ground arith) v.ext_bounded)
              (rw (hit, add_order) at e)
        | inr miss ↦ elim (Bool-cases (hits_local s (remote_of p) (local_of p))) [
          | inl hit ↦
              add_by_update s o t v
                (Bounded-contains _ (local_of p) s.loc_id (ground arith) v.loc_bounded)
                (rw (miss, hit, add_order) at e)
          | inr fresh ↦ subst (Tracks s) (some_inj (rw (miss, fresh, add_order) at e)) (
              append_order-Tracks (stamped env s o) (remote_of p) (local_of p) p
                (prepare-ne-nil env s.uuids o))
        ]
      ]

  add_orders-Tracks :
      (s : Store) (os : List JsonObject) (t : Store)
      → IsValid s
      → add_orders env s os ≡ some t
      → Tracks s t
  unfolding add_orders
  add_orders-Tracks s [] t v e = subst (Tracks s) (some_inj e) (λ i. (inl refl, λ f. f))
  add_orders-Tracks s (o ∷ os) t v e =
      let (u, e', v') = add_order-IsValid env s o v in
      Tracks-trans s u t (add_order-Tracks s o u v e')
        (add_orders-Tracks u os t v' (rw (e', add_orders) at e))

pick_updated-Has :
    (s : Store) (us : List ℕ) (i : ℕ)
    → list_contains us i ≡ true
    → order_at s i ≢ []
    → Has (order_at s i) (pick_updated s us)
unfolding pick_updated list_contains
pick_updated-Has s [] i h full = absurd (false≢true h)
pick_updated-Has s (u ∷ us) i h full = elim (ℕ_discrete u i) [
  | yes same ↦ elim (Bool-cases (json_eq (order_at s u) [])) [
    | inl e ↦ absurd (full (subst (λ k. order_at s k ≡ []) same (json_eq→eq _ _ e)))
    | inr e ↦ rw (e, pick_updated) (inl (ap (order_at s) same))
  ]
  | no ne ↦
      let rest = pick_updated-Has s us i (ground arith) full in
      elim (Bool-cases (json_eq (order_at s u) [])) [
        | inl e ↦ rw (e, pick_updated) rest
        | inr e ↦ rw (e, pick_updated) (inr rest)
      ]
]

module _ {D : Type 0} ⦃d : Double D⦄ where
  -- After a list of orders was taken into a valid store, the order at any place is the one that stood
  -- there before, or `getUpdatedOrders` hands it out.
  pub add_orders-get_updated_orders :
      (env : Env D) (s : Store) (os : List JsonObject) (t : Store) (i : ℕ)
      → IsValid s
      → add_orders env s os ≡ some t
      → (order_at t i ≡ order_at s i) ⊎ Has (order_at t i) (get_updated_orders t).0
  unfolding get_updated_orders
  add_orders-get_updated_orders env s os t i v e = elim (add_orders-Tracks env s os t v e i).0 [
    | inl same ↦ inl same
    | inr (marked, full) ↦ inr (pick_updated-Has t t.updated i marked full)
  ]
