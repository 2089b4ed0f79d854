-- ===== src/Orders/Store.antt =====
-- `class OrdersStorage`: the orders in the sequence of their arrival, and five indexes into it.
pub mod Valid
pub mod Nowhere
pub mod Listed
pub mod Lookup
pub mod Frame
pub mod Provision
pub mod Tracked
use swift_bot.Prelude.{
  ℕ, String, Bool, true, false, not, ◌&&◌, Option, none, some, List, [], ◌∷◌, ◌++◌, length, get_or,
  set, ltb, leb, if◌then◌else◌,
}
use swift_bot.Qt.Key.{◌==◌, nat_key, text_key}
use swift_bot.Qt.Vector.{list_contains}
use swift_bot.Qt.Map.{Map, contains, value_or, insert, remove, keys}
use swift_bot.Orders.Index.{drop_key, add_key, mark_updated}
use swift_bot.Qt.Json.{JsonObject, get_text, json_eq}
use swift_bot.Double.{Double}
use swift_bot.Orders.Order.{Env, Uuids, prepare_order_data}

pub record Store : Type 0 where
  pub orders : List JsonObject
  pub ext_id : Map String ℕ
  pub loc_id : Map String ℕ
  pub open_orders : Map String ℕ
  pub closed_orders : Map String ℕ
  pub updated : List ℕ
  pub uuids : Uuids

unfoldable pub empty : Store
empty = record {
  orders = [];
  ext_id = [];
  loc_id = [];
  open_orders = [];
  closed_orders = [];
  updated = [];
  uuids = record { cached = []; inserted = [] };
}

-- `data->orders_array.at( i ).toObject()`, which is the empty object out of range.
abbrev pub order_at : Store → ℕ → JsonObject
order_at s i = get_or s.orders i []

-- The tests of the two kinds of id. The second one asks the index of remote ids, as the source does.
abbrev pub is_exists_remote_id : Store → String → Bool
is_exists_remote_id s uid = contains uid s.ext_id

abbrev pub is_exists_local_id : Store → String → Bool
is_exists_local_id s uid = contains uid s.ext_id

pub get_order : Store → String → String → JsonObject
get_order s remote local =
    if is_exists_remote_id s remote
    then order_at s (value_or remote 0 s.ext_id)
    else if not (local == "#") && (not (local == "") && is_exists_local_id s local)
    then order_at s (value_or local 0 s.loc_id)
    else []

pub overwrite : Store → ℕ → JsonObject → Store
overwrite s i o = record s { orders = set s.orders i o; updated = mark_updated i s.updated }

-- `QJsonArray::replace` out of range is undefined behaviour, `none`.
replace_order : Store → ℕ → JsonObject → Option Store
unfolding overwrite
replace_order s i o = if ltb i (length s.orders) then some (overwrite s i o) else none

abbrev pub with_uuids : Store → Uuids → Store
with_uuids s u = record s { uuids = u }

abbrev pub remote_of : JsonObject → String
remote_of o = get_text "#" "remote_id" o

abbrev pub local_of : JsonObject → String
local_of o = get_text "#" "local_id" o

-- The first part of `updateOrder`: an order that has changed is written over the stored one.
store_prepared : Store → JsonObject → Option Store
unfolding replace_order get_order
store_prepared s p =
    let remote = remote_of p in
    if json_eq p (get_order s remote (local_of p))
    then some s
    else replace_order s (value_or remote 0 s.ext_id) p

-- The two tests that send `addOrder` to `updateOrder`.
abbrev pub hits_remote : Store → String → Bool
hits_remote s remote = not (remote == "") && (not (remote == "#") && contains remote s.ext_id)

abbrev pub hits_local : Store → String → String → Bool
hits_local s remote local = not (remote == "") && (not (local == "#") && contains local s.loc_id)

module _ {D : Type 0} ⦃d : Double D⦄ where
  -- The last part of `updateOrder`: the order moves to the index of its state.
  pub file_known : Env D → Store → String → JsonObject → Store
  file_known env s remote o =
      if leb (env.to_uint (get_text "" "status" o)) 1
      then record s {
        closed_orders = drop_key remote s.closed_orders;
        open_orders = add_key remote (value_or remote 0 s.ext_id) s.open_orders;
      }
      else record s {
        open_orders = drop_key remote s.open_orders;
        closed_orders = add_key remote (value_or remote 0 s.ext_id) s.closed_orders;
      }

  pub update_order : Env D → Store → JsonObject → Option Store
  unfolding file_known store_prepared
  update_order env s o =
      let (p, u) = prepare_order_data env s.uuids o in
      elim (store_prepared (with_uuids s u) p) [
        | none ↦ none
        | some t ↦ some (file_known env t (remote_of p) p)
      ]

  -- The last branch of `addOrder`: the order goes to the end, and into every index.
  pub append_order : Env D → Store → String → String → JsonObject → Store
  append_order env s remote local o =
      let i = length s.orders in
      if leb (env.to_uint (get_text "0" "status" o)) 1
      then record s {
        orders = s.orders ++ (o ∷ []);
        ext_id = insert remote i s.ext_id;
        loc_id = insert local i s.loc_id;
        updated = mark_updated i s.updated;
        closed_orders = drop_key remote s.closed_orders;
        open_orders = insert remote i s.open_orders;
      }
      else record s {
        orders = s.orders ++ (o ∷ []);
        ext_id = insert remote i s.ext_id;
        loc_id = insert local i s.loc_id;
        updated = mark_updated i s.updated;
        open_orders = drop_key remote s.open_orders;
        closed_orders = insert remote i s.closed_orders;
      }

  pub add_order : Env D → Store → JsonObject → Option Store
  unfolding append_order
  add_order env s o =
      let (p, u) = prepare_order_data env s.uuids o in
      let remote = remote_of p in
      let local = local_of p in
      let s' = with_uuids s u in
      if hits_remote s remote
      then update_order env s' p
      else if hits_local s remote local
      then update_order env s' p
      else some (append_order env s' remote local p)

  -- A list of orders, one after the other.
  pub add_orders : Env D → Store → List JsonObject → Option Store
  add_orders env s [] = some s
  add_orders env s (o ∷ os) = elim (add_order env s o) [
    | none ↦ none
    | some t ↦ add_orders env t os
  ]

-- `getUpdatedOrders` and `clearUpdated`
pub pick_updated : Store → List ℕ → List JsonObject
pick_updated s [] = []
pick_updated s (i ∷ is) =
    let rest = pick_updated s is in if json_eq (order_at s i) [] then rest else order_at s i ∷ rest

pub get_updated_orders : Store → List JsonObject × Store
unfolding pick_updated
get_updated_orders s = (pick_updated s s.updated, record s { updated = [] })

pub clear_updated : Store → Store
clear_updated s = record s { updated = [] }

-- `provision`: what both indexes list is taken out of the open orders.
remove_closed : List String → List String → Map String ℕ → Map String ℕ
remove_closed [] closed m = m
remove_closed (uid ∷ uids) closed m =
    remove_closed uids closed (if list_contains closed uid then remove uid m else m)

abbrev is_empty {ℓ} : {A : Type ℓ} → List A → Bool
is_empty [] = true
is_empty (x ∷ xs) = false

pub provision : Store → Store
unfolding remove_closed
provision s =
    let opened = keys s.open_orders in
    let closed = keys s.closed_orders in
    if not (is_empty opened) && not (is_empty closed)
    then record s { open_orders = remove_closed opened closed s.open_orders }
    else s
