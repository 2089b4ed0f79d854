-- ===== src/Workers/BalancesWorker/History/Once.antt =====
-- workers/balancesworker.cpp: a transaction is inserted once, however often the exchange reports it.
use mathlib.Core.List.{map-append}
use swift_bot.Prelude.{
  String, ◌≡◌, refl, ◌∙◌, sym, ap, ap₂, inl, inr, true, ◌||◌, List, [], ◌∷◌, ◌++◌, arith, map,
  Bool-cases, append-nil, append_assoc, subst, if◌then◌else◌,
}
use swift_bot.Qt.Key.{◌==◌, text_key}
use swift_bot.Qt.Vector.{
  NoDup, NoDup-append_last, list_contains, contains-append, contains-append_last,
}
use swift_bot.Qt.Json.{JsonObject}
use swift_bot.Double.{Double}
use swift_bot.Workers.BalancesWorker.History.{
  HistoryEnv, HistoryRow, uuid_of, deposit_row, withdraw_row, has_null, on_deposit_record,
  on_deposit_history, on_withdraw_record, on_withdraw_history,
}

module _ {D : Type 0} ⦃d : Double D⦄ (env : HistoryEnv D) where
  -- What a run leaves: the ids that it inserted behind the saved ones, and none twice.
  abbrev pub Inserted : List String → List String × List (HistoryRow D) → Type 0
  Inserted saved r = (r.0 ≡ saved ++ map (λ t. t.remote_id) r.1) × NoDup r.0

  on_deposit_record-Inserted :
      (saved : List String) (o : JsonObject)
      → NoDup saved
      → Inserted saved (on_deposit_record env saved o)
  unfolding on_deposit_record deposit_row
  on_deposit_record-Inserted saved o h = elim (Bool-cases (list_contains saved (uuid_of env o))) [
    | inl e ↦ rw (e, on_deposit_record) (sym (append-nil saved), h)
    | inr e ↦ elim (Bool-cases (uuid_of env o == "")) [
      | inl f ↦ rw (e, f, on_deposit_record) (sym (append-nil saved), h)
      | inr f ↦ rw (e, f, on_deposit_record) (refl, NoDup-append_last (uuid_of env o) saved e h)
    ]
  ]

  -- Each record with an id is saved.
  abbrev pub AllSaved : List String → List JsonObject → Type 0
  AllSaved saved [] = Unit
  AllSaved saved (o ∷ os) =
      ((uuid_of env o == "" || list_contains saved (uuid_of env o)) ≡ true) × AllSaved saved os

  on_deposit_record_saved :
      (saved : List String) (o : JsonObject)
      → (uuid_of env o == "" || list_contains (on_deposit_record env saved o).0 (uuid_of env o))
        ≡ true
  unfolding on_deposit_record
  on_deposit_record_saved saved o = elim (Bool-cases (list_contains saved (uuid_of env o))) [
    | inl e ↦ rw (e, on_deposit_record) (ground (arith, e))
    | inr e ↦ elim (Bool-cases (uuid_of env o == "")) [
      | inl f ↦ ground (arith, f)
      | inr f ↦
          rw (e, f, on_deposit_record) (ground (arith, contains-append_last saved (uuid_of env o)))
    ]
  ]

  -- From ids without repetition, any sequence of reported deposits leaves ids without repetition, which
  -- are those of before and, behind them, those of the inserted rows in their order; and the id of each
  -- report, unless it is empty, is among them.
  pub on_deposit_history-Inserted :
      (saved : List String) (os : List JsonObject)
      → NoDup saved
      → Inserted saved (on_deposit_history env saved os)
        × AllSaved (on_deposit_history env saved os).0 os
  unfolding on_deposit_history
  on_deposit_history-Inserted saved [] h = ((sym (append-nil saved), h), tt)
  on_deposit_history-Inserted saved (o ∷ os) h =
      let step = on_deposit_record env saved o in
      let one = on_deposit_record-Inserted saved o h in
      let rest = on_deposit_history env step.0 os in
      let run = on_deposit_history-Inserted step.0 os one.1 in
      let here : (uuid_of env o == "" || list_contains rest.0 (uuid_of env o)) ≡ true =
        subst (λ ids. (uuid_of env o == "" || list_contains ids (uuid_of env o)) ≡ true)
          (sym run.0.0)
          (ground (
            arith,
            on_deposit_record_saved saved o,
            contains-append step.0 (map (λ t. t.remote_id) rest.1) (uuid_of env o),
          )) in
      (
        (
          run.0.0
              ∙ ap (λ ids. ids ++ map (λ t. t.remote_id) rest.1) one.0
              ∙ append_assoc saved (map (λ t. t.remote_id) step.1) (map (λ t. t.remote_id) rest.1)
              ∙ ap (λ ids. saved ++ ids) (sym (map-append (λ t. t.remote_id) step.1 rest.1)),
          run.0.1,
        ),
        (here, run.1),
      )

  unfoldable pub drop_empty : List String → List String
  drop_empty [] = []
  drop_empty (u ∷ us) = let rest = drop_empty us in if u == "" then rest else u ∷ rest

  drop_empty-append : (us vs : List String) → drop_empty (us ++ vs) ≡ drop_empty us ++ drop_empty vs
  unfolding drop_empty
  drop_empty-append [] vs = refl
  drop_empty-append (u ∷ us) vs = elim (Bool-cases (u == "")) [
    | inl e ↦ rw (e) (drop_empty-append us vs)
    | inr e ↦ rw (e) (ap (λ ids. u ∷ ids) (drop_empty-append us vs))
  ]

  -- What a run on withdrawals leaves: the new ids behind the saved ones, none twice, and rows for those
  -- of the new ones that are not empty.
  abbrev pub Withdrawn : List String → List String × List (HistoryRow D) → Type 0
  Withdrawn saved r =
      (new : List String) × (r.0 ≡ saved ++ new)
      × (map (λ t. t.remote_id) r.1 ≡ drop_empty new)
      × NoDup r.0

  on_withdraw_record-Withdrawn :
      (saved : List String) (o : JsonObject)
      → NoDup saved
      → Withdrawn saved (on_withdraw_record env saved o)
  unfolding on_withdraw_record drop_empty withdraw_row
  on_withdraw_record-Withdrawn saved o h = elim (Bool-cases (has_null env "deposit_address" o)) [
    | inl e ↦ rw (e, on_withdraw_record) ([], sym (append-nil saved), refl, h)
    | inr e ↦ elim (Bool-cases (list_contains saved (uuid_of env o))) [
      | inl f ↦ rw (e, f, on_withdraw_record) ([], sym (append-nil saved), refl, h)
      | inr f ↦
          let own = NoDup-append_last (uuid_of env o) saved f h in
          elim (Bool-cases (uuid_of env o == "")) [
            | inl g ↦
                rw (e, f, g, on_withdraw_record)
                  (uuid_of env o ∷ [], refl, rw (g, drop_empty) refl, own)
            | inr g ↦
                rw (e, f, g, on_withdraw_record)
                  (uuid_of env o ∷ [], refl, rw (g, drop_empty) refl, own)
          ]
    ]
  ]

  -- From ids without repetition, any sequence of reported withdrawals leaves ids without repetition;
  -- the inserted rows are those of the new ids, in their order, but for an empty one.
  pub on_withdraw_history-Withdrawn :
      (saved : List String) (os : List JsonObject)
      → NoDup saved
      → Withdrawn saved (on_withdraw_history env saved os)
  unfolding on_withdraw_history drop_empty
  on_withdraw_history-Withdrawn saved [] h = ([], sym (append-nil saved), refl, h)
  on_withdraw_history-Withdrawn saved (o ∷ os) h =
      let step = on_withdraw_record env saved o in
      let rest = on_withdraw_history env step.0 os in
      let (new, ids, rows, once) = on_withdraw_record-Withdrawn saved o h in
      let (later, ids', rows', once') = on_withdraw_history-Withdrawn step.0 os once in
      (
        new ++ later,
        ids' ∙ ap (λ us. us ++ later) ids ∙ append_assoc saved new later,
        map-append (λ t. t.remote_id) step.1 rest.1
            ∙ ap₂ (λ us vs. us ++ vs) rows rows'
            ∙ sym (drop_empty-append new later),
        once',
      )
