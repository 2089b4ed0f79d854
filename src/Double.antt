-- ===== src/Double.antt =====
-- `double`: any type with the operations that the program uses. `lit m k` is the literal m / 10^k.
-- NaN is allowed: nothing here says that the comparisons are total.
use swift_bot.Prelude.{ℕ, ◌+◌, ◌-◌, ◌*◌, ◌/◌, ◌^◌, Bool, false, true, ◌≡◌, ltb, ◌==◌, ◌||◌, arith}

pub record Double (D : Type 0) : Type 0 where
  pub lit : ℕ → ℕ → D
  pub add : D → D → D
  pub sub : D → D → D
  pub mul : D → D → D
  pub div : D → D → D
  pub lt : D → D → Bool
  pub eq : D → D → Bool

module _ {D : Type 0} ⦃d : Double D⦄ where
  abbrev pub nought : D
  nought = d.lit 0 0

  abbrev pub le : D → D → Bool
  le a b = d.lt a b || d.eq a b

-- What IEEE comparison and subtraction promise of every value, NaN included.
pub record IsDouble (D : Type 0) ⦃d : Double D⦄ : Type 0 where
  pub lt_trans : (a b c : D) → d.lt a b ≡ true → d.lt b c ≡ true → d.lt a c ≡ true
  pub lt_irrefl : (a : D) → d.lt a a ≡ false
  pub sub_pos : (a b : D) → d.lt b a ≡ true → d.lt (d.lit 0 0) (d.sub a b) ≡ true

-- The laws can be met: whole numbers, whose subtraction stops at 0.
instance abbrev pub whole : Double ℕ
whole = record {
  lit = λ m k. m / 10 ^ k;
  add = λ a b. a + b;
  sub = λ a b. a - b;
  mul = λ a b. a * b;
  div = λ a b. a / b;
  lt = ltb;
  eq = λ a b. a == b;
}

pub whole-IsDouble : IsDouble ℕ
whole-IsDouble = record {
  lt_trans = λ a b c p q. ground arith;
  lt_irrefl = λ a. ground arith;
  sub_pos = λ a b p. ground arith;
}
