-- ===== src/Orders/Store/Provision.antt =====
-- `provision`, the search for orders that both indexes list.
use swift_bot.Prelude.{
  ℕ, ◌≡◌, refl, inl, inr, true, false, not, ◌&&◌, List, [], ◌∷◌, All, All-map, Bool-cases, String,
  ap, ◌∙◌, arith,
}
use swift_bot.Qt.Key.{text_key}
use swift_bot.Qt.Vector.{list_contains}
use swift_bot.Qt.Map.{Map, contains, keys, contains-keys, All-keys}
use swift_bot.Orders.Index.{Apart}
use swift_bot.Orders.Store.{Store, provision, remove_closed, is_empty}
use swift_bot.Orders.Store.Valid.{IsValid}

remove_closed_none :
    (uids closed : List String) (m : Map String ℕ)
    → All (λ u. list_contains closed u ≡ false) uids
    → remove_closed uids closed m ≡ m
unfolding remove_closed
remove_closed_none [] closed m h = refl
remove_closed_none (u ∷ us) closed m (h, hs) = rw h (remove_closed_none us closed m hs)

Apart-contains :
    (k : String) (m p : Map String ℕ)
    → Apart m p
    → contains k m ≡ true
    → list_contains (keys p) k ≡ false
Apart-contains k m p h e = contains-keys k p ∙ ground (arith, h k)

-- On a valid store `provision` finds nothing to remove: the operations already keep the open and the
-- closed orders apart.
pub provision_idle : (s : Store) → IsValid s → provision s ≡ s
unfolding provision
provision_idle s v =
    let none_closed =
      All-map (keys s.open_orders) (λ k e. Apart-contains k s.open_orders s.closed_orders v.apart e)
        (All-keys s.open_orders) in
    let same =
      remove_closed_none (keys s.open_orders) (keys s.closed_orders) s.open_orders none_closed in
    elim (Bool-cases
      (not (is_empty (keys s.open_orders)) && not (is_empty (keys s.closed_orders)))) [
        | inl e ↦ rw (e, provision) (ap (λ m. record s { open_orders = m }) same)
        | inr e ↦ rw (e, provision) refl
      ]
