-- ===== src/UserEvents/Window/Cells.antt =====
-- The methods of a rolling window leave every feature vector as long as it was.
use nimble_sdk.Prelude.{
  ℕ, ◌-◌, ◌≡◌, ◌∙◌, inl, inr, Bool-cases, some, List, [], ◌∷◌, Text, eq_text, get_elem?, set,
  length, length-set, ltb, arith, IfSome, IfSome->>=, IfSome-bind, IfSome-if, Option-cases,
}
use nimble_sdk.Prelude.Map.{Map, find, insert, find-insert}
use nimble_sdk.Prelude.Int.{ℤ}
use nimble_sdk.UserEvents.Structs.{TableEvent}
use nimble_sdk.UserEvents.Scalar.{Scalar}
use nimble_sdk.UserEvents.AggregateColumn.{Column, Outcome}
use nimble_sdk.UserEvents.Window.{
  Window, through_cell, each_column, add_event, remove_all, update_window, skip_expired,
  size_rounds, columns_of,
}

-- Every vector has n cells.
abbrev pub AllLong : {T : Type 0} → ℕ → Map (List T) → Type 0
AllLong n features = (g : Text) (v : List _) → find g features ≡ some v → length v ≡ n

pub AllLong-insert :
    {T : Type 0} (n : ℕ) (features : Map (List T)) (g : Text) (v : List T)
    → AllLong n features
    → length v ≡ n
    → AllLong n (insert g v features)
AllLong-insert n features g v h l j w e = elim (Bool-cases (eq_text j g)) [
  | inl same ↦ grind (arith, find-insert j g v features, same, e, l)
  | inr other ↦ h j w (grind (arith, find-insert j g v features, other, e))
]

module _ (s : Scalar) where
  open s use {T}

  through_cell-AllLong :
      (n : ℕ) (method : Column T → T → Outcome T) (c : Column T) (features : Map (List T))
      → AllLong n features
      → IfSome (λ r. AllLong n r.1) (through_cell s method c features)
  unfolding through_cell
  through_cell-AllLong n method c features h = elim (Option-cases (find c.group features)) [
    | inl nothing ↦ simp (through_cell, nothing) tt
    | inr (vector, e) ↦
        simp (through_cell, e)
          (IfSome-bind _ (get_elem? vector c.cell) _ (λ stored.
            IfSome-bind _ (method c stored) _ (λ (c', stored').
              AllLong-insert n features c.group (set vector c.cell stored') h
                (length-set vector c.cell stored' ∙ h c.group vector e))))
  ]

  each_column-AllLong :
      (n : ℕ) (method : Column T → T → Outcome T) (cs : List (Column T)) (features : Map (List T))
      → AllLong n features
      → IfSome (λ r. AllLong n r.1) (each_column s method cs features)
  unfolding each_column
  each_column-AllLong n method [] features h = h
  each_column-AllLong n method (c ∷ cs) features h =
      IfSome->>= (λ r. AllLong n r.1) _ (through_cell s method c features) _
        (through_cell-AllLong n method c features h)
        (λ (c', features') k.
          IfSome->>= (λ r. AllLong n r.1) _ (each_column s method cs features') _
            (each_column-AllLong n method cs features' k) (λ r k'. k'))

  remove_all-AllLong :
      (n : ℕ) (all_events : List TableEvent) (oldest : ℤ) (m : Map (List (Column T)))
      (features : Map (List T))
      → AllLong n features
      → IfSome (λ r. AllLong n r.1) (remove_all s all_events oldest m features)
  unfolding remove_all
  remove_all-AllLong n all_events oldest [] features h = h
  remove_all-AllLong n all_events oldest ((group, cs) ∷ m) features h =
      IfSome->>= (λ r. AllLong n r.1) _ _ _ (each_column-AllLong n _ cs features h)
        (λ (cs', features') k.
          IfSome->>= (λ r. AllLong n r.1) _ _ _
            (remove_all-AllLong n all_events oldest m features' k) (λ r k'. k'))

  pub update_window-AllLong :
      (n now : ℕ) (w : Window T) (features : Map (List T)) (all_events : List TableEvent)
      → AllLong n features
      → IfSome (λ r. AllLong n r.1) (update_window s now w features all_events)
  unfolding update_window
  update_window-AllLong n now w features all_events h =
      IfSome-bind _
        (skip_expired now w.window_time all_events (size_rounds w.oldest_index all_events)
          w.oldest_index w.oldest_index)
        _
        (λ (oldest, ended).
          IfSome-if _ ended _ _
            (IfSome->>= (λ r. AllLong n r.1) _ _ _
              (remove_all-AllLong n all_events oldest w.columns features h) (λ r k. k))
            h)

  pub add_event-AllLong :
      (n now : ℕ) (w : Window T) (features : Map (List T)) (all_events : List TableEvent) (i : ℕ)
      → AllLong n features
      → IfSome (λ r. AllLong n r.1) (add_event s now w features all_events i)
  unfolding add_event
  add_event-AllLong n now w features all_events i h = IfSome-bind _ (get_elem? all_events i) _ (λ e.
      IfSome-if _ (ltb w.window_time (now - e.timestamp)) _ _ h (
        IfSome-bind _ (get_elem? e.groups w.preprocessor_id) _ (λ group.
          IfSome->>= (λ r. AllLong n r.1) _ _ _
            (each_column-AllLong n _ (columns_of s w group) features h) (λ r k. k))))
