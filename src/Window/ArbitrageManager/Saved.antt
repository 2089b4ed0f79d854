-- ===== src/Window/ArbitrageManager/Saved.antt =====
-- swift-lib/arbitragemanager.cpp: the links are saved by `saveOrdersRelsToDisk` and come back by
-- `loadOrdersRelFromDisk`.
use swift_bot.Prelude.{
  ℕ, String, ◌≡◌, refl, ◌∙◌, sym, ap, inl, inr, ◌⊎◌, true, false, none, some, List, [], ◌∷◌, arith,
  All, subst, ltb, Bool-cases, Option-cases, ◌==◌ as nat_beq,
}
use swift_bot.Qt.Key.{◌==◌, nat_key, text_key}
use swift_bot.Qt.Map.{
  Map, lookup, contains, insert, All-insert, contains-insert, lookup-insert_self,
}
use swift_bot.Qt.Sorted.{IsSorted, All-lookup}
use swift_bot.Window.ArbitrageManager.{
  RelsFile, IdEnv, Manager, save_entries, save_orders_rels, load_orders_rels,
}
use swift_bot.Window.ArbitrageManager.Links.{file_entry, or_kept, lookup-load_orders_rels}

-- Each entry of the file reads as an entry of the map.
abbrev Agrees : IdEnv → Map ℕ (List String) → RelsFile → Type 0
Agrees env m file = All (λ e. lookup (env.to_uint e.0) m ≡ some e.1) file

-- Ids are of 32 bits.
abbrev pub IsId : ℕ → Type 0
IsId w = ltb w 4294967296 ≡ true

module _ (env : IdEnv) (printed : (w : ℕ) → IsId w → env.to_uint (env.nat_text w) ≡ w) where
  save_entries-Agrees :
      (m part : Map ℕ (List String)) (file : RelsFile)
      → All (λ e. lookup e.0 m ≡ some e.1) part
      → All (λ e. IsId e.0) part
      → Agrees env m file
      → Agrees env m (save_entries env part file)
  unfolding save_entries
  save_entries-Agrees m [] file h ids agrees = agrees
  save_entries-Agrees m ((w, ids) ∷ part) file (p, h) (is_id, are_ids) agrees =
      save_entries-Agrees m part (insert (env.nat_text w) ids file) h are_ids
        (All-insert _ (env.nat_text w) ids file (ap (λ v. lookup v m) (printed w is_id) ∙ p) agrees)

  -- What is in the file stays, and what is saved gets in.
  save_entries-contains :
      (w : ℕ) (part : Map ℕ (List String)) (file : RelsFile)
      → (contains w part ≡ true) ⊎ (contains (env.nat_text w) file ≡ true)
      → contains (env.nat_text w) (save_entries env part file) ≡ true
  unfolding save_entries lookup
  save_entries-contains w [] file (inl h) = ground arith
  save_entries-contains w [] file (inr h) = h
  save_entries-contains w ((v, ids) ∷ part) file h =
      save_entries-contains w part (insert (env.nat_text v) ids file)
        (elim (Bool-cases (nat_beq v w)) [
          | inl e ↦
              let same : v ≡ w = ground arith in
              inr (
                subst (λ i. contains (env.nat_text i) (insert (env.nat_text v) ids file) ≡ true)
                  same (ground (arith, lookup-insert_self (env.nat_text v) ids file)))
          | inr e ↦ elim h [
            | inl here ↦ inl (ground (arith, here, e))
            | inr there ↦
                inr (ground (arith, contains-insert (env.nat_text v) (env.nat_text w) ids file))
          ]
        ])

  file_entry-Agrees :
      (w : ℕ) (m : Map ℕ (List String)) (file : RelsFile) {ids : List String}
      → Agrees env m file
      → file_entry env w file ≡ some ids
      → lookup w m ≡ some ids
  unfolding file_entry
  file_entry-Agrees w m [] agrees h = ground arith
  file_entry-Agrees w m ((k, ids) ∷ file) (p, agrees) h =
      elim (Option-cases (file_entry env w file)) [
        | inr (later, e) ↦ file_entry-Agrees w m file agrees (ground arith)
        | inl e ↦
            let same : env.to_uint k ≡ w = ground arith in ground (arith, ap (λ i. lookup i m) same)
      ]

  contains-file_entry :
      (w : ℕ) (file : RelsFile)
      → IsId w
      → file_entry env w file ≡ none
      → contains (env.nat_text w) file ≡ false
  unfolding file_entry lookup
  contains-file_entry w [] is_id h = refl
  contains-file_entry w ((k, ids) ∷ file) is_id h = elim (Option-cases (file_entry env w file)) [
    | inr (later, e) ↦ ground arith
    | inl e ↦ elim (Bool-cases (k == env.nat_text w)) [
      | inl f ↦
          let same : env.to_uint k ≡ w =
            ap env.to_uint ((text_key.beq_iff k (env.nat_text w)).0 f) ∙ printed w is_id in
          ground arith
      | inr f ↦ ground (arith, contains-file_entry w file is_id e)
    ]
  ]

  -- What the file of saved links holds for a window is what is linked to it.
  file_entry-save_entries :
      (w : ℕ) (m : Map ℕ (List String))
      → IsSorted m
      → All (λ e. IsId e.0) m
      → IsId w
      → file_entry env w (save_entries env m []) ≡ lookup w m
  file_entry-save_entries w m sorted are_ids is_id =
      let agrees = save_entries-Agrees m m [] (All-lookup m sorted) are_ids tt in
      elim (Option-cases (file_entry env w (save_entries env m []))) [
        | inr (ids, e) ↦ e ∙ sym (file_entry-Agrees w m (save_entries env m []) agrees e)
        | inl e ↦
            let gone = contains-file_entry w (save_entries env m []) is_id e in
            elim (Option-cases (lookup w m)) [
              | inl f ↦ e ∙ sym f
              | inr (ids, f) ↦
                  let there = save_entries-contains w m [] (inl (ground arith)) in ground arith
            ]
      ]

  -- Where there are links, in rising order and all to ids of 32 bits, and such ids read back as
  -- printed, a manager that loads what one saved has the saved list of each window of 32 bits that had
  -- one then, whatever was linked to it since; of the other windows it keeps its own.
  pub load_orders_rels-save_orders_rels :
      {D : Type 0} (saved later : Manager D) (file : RelsFile) (e : ℕ × List String)
      (rest : Map ℕ (List String))
      → saved.linked_orders ≡ e ∷ rest
      → IsSorted saved.linked_orders
      → All (λ e. IsId e.0) saved.linked_orders
      → (w : ℕ) → IsId w
      → lookup w (load_orders_rels env (save_orders_rels env saved file) later).linked_orders
        ≡ or_kept (lookup w saved.linked_orders) (lookup w later.linked_orders)
  unfolding save_orders_rels
  load_orders_rels-save_orders_rels saved later file e rest h sorted are_ids w is_id =
      let written : file_entry env w (save_orders_rels env saved file)
          ≡ file_entry env w (save_entries env saved.linked_orders []) =
        rw (h) refl in
      lookup-load_orders_rels env (save_orders_rels env saved file) w later
      ∙ ap (λ x. or_kept x (lookup w later.linked_orders))
          (written ∙ file_entry-save_entries w saved.linked_orders sorted are_ids is_id)
