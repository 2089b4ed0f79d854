-- ===== src/Qt/Json.antt =====
-- `QJsonObject`, a map that is sorted by key. The program reads its order objects as texts alone; a
-- value of any other type stands as `raw`, with a number that tells it apart.
use package.text.Mathlib.Text.{◌==◌ as str_eq}
use package.text.Mathlib.TextEquality.{eq_iff}
use swift_bot.Prelude.{
  ℕ, String, ◌≡◌, ◌≢◌, refl, Bool, true, false, ◌&&◌, Option, none, some, [], ◌∷◌, arith,
  ◌==◌ as nat_beq,
}
use swift_bot.Qt.Key.{◌==◌, text_key}
use swift_bot.Qt.Map.{Map, lookup, insert, lookup-insert_ne, lookup-insert_self}

pub data JsonValue : Type 0 where
  text : String → JsonValue
  raw : ℕ → JsonValue

abbrev pub JsonObject : Type 0
JsonObject = Map String JsonValue

-- `value(key).toString(default)`: the default also for a value that is no text.
abbrev pub to_string : String → Option JsonValue → String
to_string d none = d
to_string d (some (text s)) = s
to_string d (some (raw n)) = d

unfoldable pub get_text : String → String → JsonObject → String
get_text d k o = to_string d (lookup k o)

-- `object[key] = text`
unfoldable pub put_text : String → String → JsonObject → JsonObject
put_text k s o = insert k (text s) o

pub value_eq : JsonValue → JsonValue → Bool
value_eq (text s) (text t) = str_eq s t
value_eq (raw m) (raw n) = nat_beq m n
value_eq (text s) (raw n) = false
value_eq (raw m) (text t) = false

-- `operator==` of objects
unfoldable pub json_eq : JsonObject → JsonObject → Bool
unfolding value_eq
json_eq [] [] = true
json_eq [] (f ∷ p) = false
json_eq (e ∷ o) [] = false
json_eq ((j, v) ∷ o) ((k, w) ∷ p) = let rest = json_eq o p in str_eq j k && (value_eq v w && rest)

value_eq→eq : (v w : JsonValue) → value_eq v w ≡ true → v ≡ w
unfolding value_eq
value_eq→eq (text s) (text t) h = ground (arith, eq_iff s t)
value_eq→eq (raw m) (raw n) h = ground arith
value_eq→eq (text s) (raw n) h = ground arith
value_eq→eq (raw m) (text t) h = ground arith

-- Objects that the test accepts are equal.
pub json_eq→eq : (o p : JsonObject) → json_eq o p ≡ true → o ≡ p
unfolding json_eq
json_eq→eq [] [] h = refl
json_eq→eq [] (f ∷ p) h = ground arith
json_eq→eq (e ∷ o) [] h = ground arith
json_eq→eq ((j, v) ∷ o) ((k, w) ∷ p) h = ground (arith, eq_iff j k, value_eq→eq v w, json_eq→eq o p)

-- A written key reads back, and the other keys keep their values.
pub get_text-put_text_self : (d k s : String) (o : JsonObject) → get_text d k (put_text k s o) ≡ s
unfolding get_text put_text
get_text-put_text_self d k s o = rw (lookup-insert_self k (text s) o)

pub lookup-put_text_ne :
    (k j s : String) (o : JsonObject) → (k == j) ≡ false → lookup j (put_text k s o) ≡ lookup j o
unfolding put_text
lookup-put_text_ne k j s o h = lookup-insert_ne k j (text s) o h

pub put_text-ne-nil : (k s : String) (o : JsonObject) → put_text k s o ≢ []
unfolding put_text insert
put_text-ne-nil k s [] h = cc
put_text-ne-nil k s ((j, v) ∷ o) h = ground (arith, h)

pub get_text-put_text_ne :
    (d k j s : String) (o : JsonObject)
    → (k == j) ≡ false
    → get_text d j (put_text k s o) ≡ get_text d j o
unfolding get_text
get_text-put_text_ne d k j s o h = rw (lookup-put_text_ne k j s o h)
