-- ===== src/Bot/OrdersManager/Timer.antt =====
-- When the timer ends a lock.
use swift_bot.Prelude.{
  ℕ, ◌≡◌, ◌≢◌, refl, ◌∙◌, inl, inr, Bool, true, false, not, ◌&&◌, List, [], ◌∷◌, leb, arith,
  Bool-cases, if◌then◌else◌,
}
use native.Mathlib.Decide.{ℕ_discrete}
use swift_bot.Qt.Key.{nat_key, ==_refl}
use swift_bot.Qt.Vector.{list_contains, remove_all, contains-remove_all}
use swift_bot.Qt.Map.{Map, value_or}
use swift_bot.Bot.OrdersManager.{Manager, elapsed, release_old, on_timer}

-- The Boolean part of one turn: the market of the turn, and another one.
and_not_same :
    (m k : ℕ) (ms : List ℕ) (a b old : Bool)
    → m ≡ k
    → (a ≡ (if old then false else b))
    → (a && not (list_contains ms k && old)) ≡ (b && not (list_contains (m ∷ ms) k && old))
unfolding list_contains
and_not_same m k ms a b old e h = ground arith

and_not_other :
    (m k : ℕ) (ms : List ℕ) (b old : Bool)
    → m ≢ k
    → (b && not (list_contains ms k && old)) ≡ (b && not (list_contains (m ∷ ms) k && old))
unfolding list_contains
and_not_other m k ms b old e = ground arith

contains_other :
    (m k : ℕ) (l : List ℕ) → m ≢ k → list_contains (remove_all m l) k ≡ list_contains l k
contains_other m k l ne = ground (arith, contains-remove_all m k l)

release_old-contains :
    (now : ℕ) (times : Map ℕ ℕ) (ms l : List ℕ) (k : ℕ)
    → list_contains (release_old now times ms l) k
      ≡ (list_contains l k && not (list_contains ms k && leb 20 (elapsed now (value_or k 0 times))))
unfolding release_old list_contains
release_old-contains now times [] l k = ground arith
release_old-contains now times (m ∷ ms) l k =
    elim (Bool-cases (leb 20 (elapsed now (value_or m 0 times)))) [
      | inl e ↦
          rw (e, release_old) (release_old-contains now times ms (remove_all m l) k ∙ drop_old e)
      | inr e ↦ rw (e, release_old) (release_old-contains now times ms l k ∙ keep_young e)
    ]
  where
    drop_old :
        leb 20 (elapsed now (value_or m 0 times)) ≡ true
        → (list_contains (remove_all m l) k
            && not (list_contains ms k && leb 20 (elapsed now (value_or k 0 times))))
          ≡ (list_contains l k
              && not (list_contains (m ∷ ms) k && leb 20 (elapsed now (value_or k 0 times))))
    drop_old e = elim (ℕ_discrete m k) [
      | yes same ↦
          and_not_same m k ms _ _ _ same
            (rw (← same, e) (contains-remove_all m m l ∙ rw (==_refl m) refl))
      | no ne ↦ rw (contains_other m k l ne) (and_not_other m k ms _ _ ne)
    ]

    keep_young :
        leb 20 (elapsed now (value_or m 0 times)) ≡ false
        → (list_contains l k
            && not (list_contains ms k && leb 20 (elapsed now (value_or k 0 times))))
          ≡ (list_contains l k
              && not (list_contains (m ∷ ms) k && leb 20 (elapsed now (value_or k 0 times))))
    keep_young e = elim (ℕ_discrete m k) [
      | yes same ↦ and_not_same m k ms _ _ _ same (rw (← same, e) refl)
      | no ne ↦ and_not_other m k ms _ _ ne
    ]

-- A turn of the timer drops exactly the locks that are 20 seconds old or older.
pub on_timer-contains :
    {D : Type 0} (now : ℕ) (m : Manager D) (k : ℕ)
    → list_contains (on_timer now m).locked_markets k ≡ (
        list_contains m.locked_markets k
        && not (leb 20 (elapsed now (value_or k 0 m.lock_market_time))))
unfolding on_timer
on_timer-contains now m k =
    release_old-contains now m.lock_market_time m.locked_markets m.locked_markets k ∙ absorb _ _
  where
    absorb : (a b : Bool) → (a && not (a && b)) ≡ (a && not b)
    absorb a b = ground arith
