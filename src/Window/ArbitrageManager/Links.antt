-- ===== src/Window/ArbitrageManager/Links.antt =====
-- swift-lib/arbitragemanager.cpp: what loading the links from disk leaves of those in memory, and what
-- the pairs need together.
use swift_bot.Prelude.{
  ℕ, String, ◌≡◌, refl, ◌∙◌, ap, inl, inr, Option, none, some, List, [], ◌∷◌, Bool-cases,
  Option-cases, if◌then◌else◌, ◌==◌ as nat_beq,
}
use swift_bot.Qt.Key.{nat_key, text_key}
use swift_bot.Qt.Map.{Map, lookup, value_or, insert, lookup-insert}
use swift_bot.Double.{Double, nought}
use swift_bot.Window.ArbitragePair.Requirements.{needed, sum_requirements-needed}
use swift_bot.Window.ArbitrageManager.{
  RelsFile, IdEnv, Manager, load_entries, load_orders_rels, update_requested,
}

-- The last entry of the file whose key reads as the window.
unfoldable pub file_entry : IdEnv → ℕ → RelsFile → Option (List String)
file_entry env w [] = none
file_entry env w ((k, ids) ∷ file) = elim (file_entry env w file) [
  | none ↦ if nat_beq (env.to_uint k) w then some ids else none
  | some later ↦ some later
]

abbrev pub or_kept : Option (List String) → Option (List String) → Option (List String)
or_kept none was = was
or_kept (some ids) was = some ids

lookup-load_entries :
    (env : IdEnv) (w : ℕ) (file : RelsFile) (m : Map ℕ (List String))
    → lookup w (load_entries env file m) ≡ or_kept (file_entry env w file) (lookup w m)
unfolding load_entries file_entry
lookup-load_entries env w [] m = refl
lookup-load_entries env w ((k, ids) ∷ file) m =
    let run =
      lookup-load_entries env w file (insert (env.to_uint k) ids m)
      ∙ ap (or_kept (file_entry env w file)) (lookup-insert (env.to_uint k) w ids m) in
    elim (Option-cases (file_entry env w file)) [
      | inr (later, e) ↦ run ∙ rw (e) refl
      | inl e ↦ elim (Bool-cases (nat_beq (env.to_uint k) w)) [
        | inl f ↦ run ∙ rw (e, f) refl
        | inr f ↦ run ∙ rw (e, f) refl
      ]
    ]

module _ {D : Type 0} (env : IdEnv) where
  -- Loading a file: its entry for a window, or the list that was kept before.
  pub lookup-load_orders_rels :
      (file : RelsFile) (w : ℕ) (m : Manager D)
      → lookup w (load_orders_rels env file m).linked_orders
        ≡ or_kept (file_entry env w file) (lookup w m.linked_orders)
  unfolding load_orders_rels
  lookup-load_orders_rels file w m = lookup-load_entries env w file m.linked_orders

module _ {D : Type 0} ⦃d : Double D⦄ (env : IdEnv) where
  -- What `updateRequested` adds up for a currency is the sum of what the pairs need of it.
  pub update_requested-needed :
      (k : ℕ) (m : Manager D)
      → value_or k nought (update_requested m).0.aggregated_requests
        ≡ needed k m.requested_separated nought
  unfolding update_requested lookup
  update_requested-needed k m = sum_requirements-needed k m.requested_separated []
