-- ===== src/Api/Emulator/Deposits.antt =====
-- swift-arbitrage-api-node/apiemulator.cpp: which transfers `getDeposits` credits.
use swift_bot.Prelude.{
  ℕ, ◌≡◌, refl, ◌∙◌, ap, List, [], ◌∷◌, arith, ltb, if◌then◌else◌, Bool, true, false,
}
use swift_bot.Qt.Key.{nat_key}
use swift_bot.Qt.Map.{Map}
use swift_bot.Double.{Double}
use swift_bot.Api.Emulator.{Env, Emulator, Transfer}
use swift_bot.Api.Emulator.Transfers.{credit_one, credit, mark_one, mark_done, get_deposits}

module _ {D : Type 0} ⦃d : Double D⦄ (env : Env D) where
  -- The transfers that come due after one time and before another.
  unfoldable pub credit_between : ℕ → ℕ → List (Transfer D) → Map ℕ D → Map ℕ D
  unfolding credit_one
  credit_between after now [] m = m
  credit_between after now (t ∷ ts) m =
      credit_between after now ts (if ltb after t.complete_at then credit_one env now t m else m)

  credit_one-mark_one :
      (after now : ℕ) (t : Transfer D) (m : Map ℕ D)
      → credit_one env now (mark_one env after t) m
        ≡ (if ltb after t.complete_at then credit_one env now t m else m)
  unfolding credit_one mark_one
  credit_one-mark_one after now t m = ground arith

  credit-mark_done :
      (after now : ℕ) (ts : List (Transfer D)) (m : Map ℕ D)
      → credit env now (mark_done env after ts) m ≡ credit_between after now ts m
  unfolding credit credit_between mark_done
  credit-mark_done after now [] m = refl
  credit-mark_done after now (t ∷ ts) m =
      ap (credit env now (mark_done env after ts)) (credit_one-mark_one after now t m)
      ∙ credit-mark_done after now ts _

  -- Of two turns of `getDeposits` the first credits the transfers that are due at its query, and the second
  -- credits of the same transfers those that come due after the statement of the first and before its own
  -- query. A turn whose query fails credits none; where the statement of the first fails, the second
  -- credits all that are due at its query, also those that the first credited.
  pub get_deposits-credit_between :
      (is_found is_marked is_found' is_marked' : Bool) (now later now' later' : ℕ) (e : Emulator D)
      → (get_deposits env is_found' is_marked' now' later'
          (get_deposits env is_found is_marked now later e)).plus
        ≡ (let once = if is_found then credit env now e.transfers e.plus else e.plus in
            if is_found'
            then if is_marked
              then credit_between later now' e.transfers once
              else credit env now' e.transfers once
            else once)
  unfolding get_deposits
  get_deposits-credit_between is_found true true is_marked' now later now' later' e =
      credit-mark_done later now' e.transfers _
  get_deposits-credit_between is_found false true is_marked' now later now' later' e = refl
  get_deposits-credit_between is_found is_marked false is_marked' now later now' later' e = refl
