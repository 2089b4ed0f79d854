-- ===== src/Qt/Key.antt =====
-- Keys of `QHash` and `QMap`: an equality test, and the test of which of two keys an iteration
-- visits first. For `QMap` that is `<`; a `QHash` promises no order, and takes the same one here.
use Prim.Native.Char.{code}
use text.Mathlib.Text.{◌==◌ as str_eq}
use text.Mathlib.TextEquality.{eq_iff}
use swift_bot.Prelude.{
  ℕ, String, ◌≡◌, ◌↔◌, Bool, true, false, ◌&&◌, ◌||◌, ◌==◌ as nat_beq, ==_iff, ltb, refl,
}

pub record Key {ℓ} (K : Type ℓ) : Type ℓ where
  pub beq : K → K → Bool
  pub beq_iff : (a b : K) → (beq a b ≡ true) ↔ (a ≡ b)
  pub before : K → K → Bool

infix 50 ◌==◌
abbrev pub ◌==◌ {ℓ} : {K : Type ℓ} ⦃k : Key K⦄ → K → K → Bool
◌==◌ ⦃k⦄ = k.beq

instance abbrev pub nat_key : Key ℕ
nat_key = record { beq = nat_beq; beq_iff = ==_iff; before = ltb }

-- `QString::operator<` on texts of the basic plane: by code units, from the left.
unfoldable pub text_before : String → String → Bool
text_before String.[] String.[] = false
text_before String.[] (String.◌∷◌ d t) = true
text_before (String.◌∷◌ c s) String.[] = false
text_before (String.◌∷◌ c s) (String.◌∷◌ d t) =
    let rest = text_before s t in ltb (code c) (code d) || (nat_beq (code c) (code d) && rest)

instance abbrev pub text_key : Key String
text_key = record { beq = str_eq; beq_iff = eq_iff; before = text_before }

-- A key equals itself.
pub ==_refl {ℓ} : {K : Type ℓ} ⦃k : Key K⦄ (a : K) → (a == a) ≡ true
==_refl ⦃k⦄ a = (k.beq_iff a a).1 refl
