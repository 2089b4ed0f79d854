-- ===== src/Bot/MoneyShiftManager/Turns.antt =====
-- swift-bot/moneyshiftmanager.cpp: what the turns of the timer leave, and the sign of a shift.
use swift_bot.Prelude.{ℕ, ◌≡◌, refl, inl, inr, ◌⊎◌, true, List, [], ◌∷◌, ◌++◌, arith, Bool-cases}
use swift_bot.Double.{Double, IsDouble, nought}
use swift_bot.Bot.MoneyShiftManager.{
  Totals, Manager, OrderRow, add_orders, has_shifted, is_positional_shift, get_shift_size,
  load_period_orders,
}

module _ {D : Type 0} ⦃d : Double D⦄ (to_u64 : D → ℕ) where
  add_orders-append :
      (rows more : List (OrderRow D)) (t : Totals D)
      → add_orders (rows ++ more) t ≡ add_orders more (add_orders rows t)
  unfolding add_orders
  add_orders-append [] more t = refl
  add_orders-append (r ∷ rows) more t = add_orders-append rows more _

  -- Two turns of the timer leave what one turn would leave whose query answers the rows of both: the
  -- rows that both turns read are counted twice.
  pub load_period_orders-append :
      (rows more : List (OrderRow D)) (m : Manager D)
      → load_period_orders to_u64 more (load_period_orders to_u64 rows m).0
        ≡ load_period_orders to_u64 (rows ++ more) m
  unfolding load_period_orders
  load_period_orders-append rows more m = rw (add_orders-append rows more m.totals) refl

  -- Where there is a shift and one amount is below the other, its size is above zero, in either
  -- direction.
  pub get_shift_size_positive :
      IsDouble D
      → (t : Totals D) → has_shifted to_u64 t ≡ true
      → (d.lt t.sell.amount t.buy.amount ≡ true) ⊎ (d.lt t.buy.amount t.sell.amount ≡ true)
      → d.lt nought (get_shift_size to_u64 t) ≡ true
  unfolding get_shift_size is_positional_shift
  get_shift_size_positive law t h side = elim (Bool-cases (d.lt t.sell.amount t.buy.amount)) [
    | inl e ↦ rw (h, e) (law.sub_pos t.buy.amount t.sell.amount e)
    | inr e ↦ elim side [
      | inl above ↦ ground (arith, e, above)
      | inr below ↦ rw (h, e) (law.sub_pos t.sell.amount t.buy.amount below)
    ]
  ]
