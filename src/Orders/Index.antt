-- ===== src/Orders/Index.antt =====
-- The indexes of the order store: maps from an id to a place in the list of orders.
use swift_bot.Prelude.{
  ℕ, ◌≤◌, ◌<◌, ◌≡◌, ◌⊎◌, inl, inr, String, none, some, List, [], ◌∷◌, ◌++◌, All, All-append,
  All-map, arith, Bool-cases, if◌then◌else◌, Option-cases,
}
use mathlib.Core.Bool.{true, false≢true}
use swift_bot.Qt.Key.{◌==◌, text_key, nat_key}
use swift_bot.Qt.Vector.{list_contains}
use swift_bot.Qt.Map.{Map, lookup, contains, value_or, insert, remove, lookup-insert, lookup-remove}

-- `if ( m.contains( k ) ) m.remove( k )` and `if ( !m.contains( k ) ) m[ k ] = i`
abbrev pub drop_key : String → Map String ℕ → Map String ℕ
drop_key k m = if contains k m then remove k m else m

abbrev pub add_key : String → ℕ → Map String ℕ → Map String ℕ
add_key k i m = if contains k m then m else insert k i m

-- `if ( !updated.contains( i ) ) updated.push_back( i )`
abbrev pub mark_updated : ℕ → List ℕ → List ℕ
mark_updated i us = if list_contains us i then us else us ++ (i ∷ [])

pub lookup-drop_key :
    (a k : String) (m : Map String ℕ)
    → lookup k (drop_key a m) ≡ (if a == k then none else lookup k m)
lookup-drop_key a k m = ground (arith, text_key.beq_iff a k, lookup-remove a k m)

pub lookup-add_key :
    (a k : String) (i : ℕ) (m : Map String ℕ)
    → lookup k (add_key a i m) ≡ (if a == k then some (value_or a i m) else lookup k m)
lookup-add_key a k i m = ground (arith, text_key.beq_iff a k, lookup-insert a k i m)

-- Every index of the map lies below the bound.
abbrev pub Bounded : ℕ → Map String ℕ → Type 0
Bounded n m = (k : String) (i : ℕ) → lookup k m ≡ some i → i < n

-- No key stands in both maps.
abbrev pub Apart : Map String ℕ → Map String ℕ → Type 0
Apart m p = (k : String) → (lookup k m ≡ none) ⊎ (lookup k p ≡ none)

-- Two keys of the map never have the same index.
abbrev pub Injective : Map String ℕ → Type 0
Injective m = (j k : String) (i : ℕ) → lookup j m ≡ some i → lookup k m ≡ some i → j ≡ k

pub Bounded-mono : (m n : ℕ) (p : Map String ℕ) → m ≤ n → Bounded m p → Bounded n p
Bounded-mono m n p h b k i e = let lt = b k i e in omega arith

pub Bounded-insert :
    (n i : ℕ) (a : String) (m : Map String ℕ) → i < n → Bounded n m → Bounded n (insert a i m)
Bounded-insert n i a m h b k j e = ground (arith, lookup-insert a k i m, b k j)

pub Bounded-drop_key :
    (n : ℕ) (a : String) (m : Map String ℕ) → Bounded n m → Bounded n (drop_key a m)
Bounded-drop_key n a m b k j e = ground (arith, lookup-drop_key a k m, b k j)

pub Bounded-add_key :
    (n i : ℕ) (a : String) (m : Map String ℕ) → i < n → Bounded n m → Bounded n (add_key a i m)
Bounded-add_key n i a m h b k j e = ground (arith, lookup-insert a k i m, b k j)

-- The default 0 of a missing key is in range where there is an order at all.
pub value_or-lt : (n : ℕ) (a : String) (m : Map String ℕ) → 0 < n → Bounded n m → value_or a 0 m < n
value_or-lt n a m h b = elim (Option-cases (lookup a m)) [
  | inl e ↦ rw (e, value_or) h
  | inr (i, e) ↦ rw (e, value_or) (b a i e)
]

-- A map that has an entry is bounded by a positive number only.
pub Bounded-contains :
    (n : ℕ) (a : String) (m : Map String ℕ) → contains a m ≡ true → Bounded n m → 0 < n
Bounded-contains n a m h b = elim (Option-cases (lookup a m)) [
  | inl e ↦ absurd (false≢true (rw (e, contains) at h))
  | inr (i, e) ↦ let lt = b a i e in omega arith
]

pub All-mark_updated :
    (n i : ℕ) (us : List ℕ) → i < n → All (λ j. j < n) us → All (λ j. j < n) (mark_updated i us)
All-mark_updated n i us h b = elim (Bool-cases (list_contains us i)) [
  | inl e ↦ rw (e, mark_updated) b
  | inr e ↦ rw (e, mark_updated) (All-append (λ j. j < n) us (i ∷ []) b (h, tt))
]

pub All-lt_mono : (m n : ℕ) (us : List ℕ) → m ≤ n → All (λ j. j < m) us → All (λ j. j < n) us
All-lt_mono m n us h b = All-map us (λ j lt. omega arith) b

pub Apart-move :
    (a : String) (i : ℕ) (m p : Map String ℕ) → Apart m p → Apart (drop_key a m) (insert a i p)
Apart-move a i m p h k = ground (arith, lookup-insert a k i p, lookup-drop_key a k m, h k)

pub Apart-move_add :
    (a : String) (i : ℕ) (m p : Map String ℕ) → Apart m p → Apart (drop_key a m) (add_key a i p)
Apart-move_add a i m p h k = ground (arith, lookup-add_key a k i p, lookup-drop_key a k m, h k)

pub Apart-swap : (m p : Map String ℕ) → Apart m p → Apart p m
Apart-swap m p h k = ground (arith, h k)

pub Injective-insert :
    (n : ℕ) (a : String) (m : Map String ℕ) → Bounded n m → Injective m → Injective (insert a n m)
Injective-insert n a m b inj j k i p q = ground (
  arith,
  lookup-insert a j n m,
  lookup-insert a k n m,
  b j i,
  b k i,
  inj j k i,
  text_key.beq_iff a j,
  text_key.beq_iff a k,
)

pub Apart-remove :
    (a : String) (i : ℕ) (m p : Map String ℕ) → Apart m p → Apart (remove a m) (insert a i p)
Apart-remove a i m p h k = ground (arith, lookup-insert a k i p, lookup-remove a k m, h k)
