-- ===== src/UserEvents/Window/Expiry.antt =====
-- What update_window does when events of the window have expired.
use nimble_sdk.Prelude.{
  ℕ, zero, suc, ◌+◌, ◌-◌, ◌≡◌, ◌∙◌, ap, ◌⊎◌, inl, inr, refl, true, false, none, some, List, [], ◌∷◌,
  get_elem?, get_elem?-lt, length, ltb, lt→ltb, arith, Option-cases,
}
use nimble_sdk.Prelude.Map.{Map, find}
use nimble_sdk.Prelude.Int.{pos, minus_one}
use nimble_sdk.UserEvents.Structs.{TableEvent}
use nimble_sdk.UserEvents.Scalar.{Scalar}
use nimble_sdk.UserEvents.AggregateColumn.{Column, Operator, sum, count, average, max, min, Outcome}
use nimble_sdk.UserEvents.SumColumn
use nimble_sdk.UserEvents.CountColumn
use nimble_sdk.UserEvents.AverageColumn
use nimble_sdk.UserEvents.MaxColumn
use nimble_sdk.UserEvents.MinColumn
use nimble_sdk.UserEvents.Faults.{remove_events_out_of_bounds}
use nimble_sdk.UserEvents.Window.{
  Window, skip_expired, update_window, remove_all, each_column, through_cell, column_remove_events,
  size_rounds,
}

-- The events i, …, i + n - 1 are there and older than the window.
abbrev pub Expired : ℕ → ℕ → List TableEvent → ℕ → ℕ → Type 0
Expired now window_time all_events zero i = Unit
Expired now window_time all_events (suc n) i =
    (e : TableEvent) × (get_elem? all_events i ≡ some e)
    × (ltb window_time (now - e.timestamp) ≡ true)
    × Expired now window_time all_events n (i + 1)

skip_expired-Expired :
    (now window_time : ℕ) (all_events : List TableEvent) (m k i : ℕ)
    → Expired now window_time all_events m i
    → skip_expired now window_time all_events (m + k) (pos i) (pos i)
      ≡ skip_expired now window_time all_events k (pos (i + m)) (pos (i + m))
unfolding skip_expired
skip_expired-Expired now window_time all_events zero k i h =
    let a : zero + k ≡ k = omega arith in let b : i + zero ≡ i = omega arith in rw (a, b) refl
skip_expired-Expired now window_time all_events (suc m) k i (e, g, p, h) =
    let a : suc m + k ≡ suc (m + k) = omega arith in
    let b : i + suc m ≡ i + 1 + m = omega arith in
    rw (a, b, g, p) (skip_expired-Expired now window_time all_events m k (i + 1) h)

rounds_to_end :
    (all_events : List TableEvent) (lo m : ℕ)
    → lo + m ≡ length all_events
    → size_rounds (pos lo) all_events ≡ m + 0
rounds_to_end all_events lo m h = ground arith

module _ (s : Scalar) where
  open s use {T}

  -- An event that is still in the window makes update_window return at once: whatever expired
  -- before it stays in every column and in every feature, and only the window's start moves on.
  pub update_window_keeps_Expired :
      (now : ℕ) (w : Window T) (features : Map (List T)) (all_events : List TableEvent) (lo m : ℕ)
      (live : TableEvent)
      → w.oldest_index ≡ pos lo
      → Expired now w.window_time all_events m lo
      → get_elem? all_events (lo + m) ≡ some live
      → ltb w.window_time (now - live.timestamp) ≡ false
      → update_window s now w features all_events
        ≡ some (record w { oldest_index = pos (lo + m) }, features)
  unfolding update_window
  update_window_keeps_Expired now w features all_events lo m live o h g l =
      let size = length all_events in
      let inside : ltb lo size ≡ true =
        lt→ltb lo size (omega (arith, get_elem?-lt all_events (lo + m) g)) in
      let n : size - lo ≡ m + suc (size - lo - m - 1) =
        omega (arith, get_elem?-lt all_events (lo + m) g) in
      let skip =
        skip_expired-Expired now w.window_time all_events m (suc (size - lo - m - 1)) lo h in
      rw (o, inside, n, skip, g, l) refl

  -- A column with no event, of an operator that subtracts.
  abbrev pub IsDrained : Column T → Type 0
  IsDrained c =
      (c.oldest_index ≡ minus_one)
      × ((c.operator ≡ sum) ⊎ (c.operator ≡ count) ⊎ (c.operator ≡ average))

  abbrev pub SomeColumn : (Column T → Type 0) → List (Column T) → Type 0
  SomeColumn P [] = ⊥
  SomeColumn P (c ∷ cs) = P c ⊎ SomeColumn P cs

  abbrev pub SomeGroup : (Column T → Type 0) → Map (List (Column T)) → Type 0
  SomeGroup P [] = ⊥
  SomeGroup P ((group, cs) ∷ m) = SomeColumn P cs ⊎ SomeGroup P m

  drained_faults :
      (c : Column T) (stored : T) (all_events : List TableEvent) (k : ℕ)
      → IsDrained c
      → column_remove_events s c stored all_events (pos k) ≡ none
  unfolding column_remove_events
  drained_faults c stored all_events k (o, op) =
      let removed : Operator → Outcome T = λ operator. elim operator [
        | sum ↦ SumColumn.remove_events s c stored all_events (pos k)
        | count ↦ CountColumn.remove_events s c stored all_events (pos k)
        | average ↦ AverageColumn.remove_events s c stored all_events (pos k)
        | max ↦ MaxColumn.remove_events s c stored all_events (pos k)
        | min ↦ MinColumn.remove_events s c stored all_events (pos k)
      ] in
      let faults = remove_events_out_of_bounds s c stored all_events k o in
      elim op [
        | inl e ↦ ap removed e ∙ faults.0
        | inr (inl e) ↦ ap removed e ∙ faults.1
        | inr (inr e) ↦ ap removed e ∙ faults.2
      ]

  through_cell_faults :
      (method : Column T → T → Outcome T) (c : Column T) (features : Map (List T))
      → ((stored : T) → method c stored ≡ none)
      → through_cell s method c features ≡ none
  unfolding through_cell
  through_cell_faults method c features faults = elim (Option-cases (find c.group features)) [
    | inl e ↦ rw e refl
    | inr (vector, e) ↦ elim (Option-cases (get_elem? vector c.cell)) [
      | inl e' ↦ rw (e, e') refl
      | inr (stored, e') ↦ rw (e, e', faults stored) refl
    ]
  ]

  each_column_faults :
      (method : Column T → T → Outcome T) (P : Column T → Type 0)
      → ((c : Column T) (stored : T) → P c → method c stored ≡ none)
      → (cs : List (Column T)) (features : Map (List T)) → SomeColumn P cs
      → each_column s method cs features ≡ none
  unfolding each_column
  each_column_faults method P faults [] features h = elim h [ ]
  each_column_faults method P faults (c ∷ cs) features (inl h) =
      rw (through_cell_faults method c features (λ stored. faults c stored h)) refl
  each_column_faults method P faults (c ∷ cs) features (inr h) =
      elim (Option-cases (through_cell s method c features)) [
        | inl e ↦ rw e refl
        | inr ((c', features'), e) ↦ rw (e, each_column_faults method P faults cs features' h) refl
      ]

  remove_all_faults :
      (all_events : List TableEvent) (k : ℕ) (m : Map (List (Column T))) (features : Map (List T))
      → SomeGroup IsDrained m
      → remove_all s all_events (pos k) m features ≡ none
  unfolding remove_all
  remove_all_faults all_events k [] features h = elim h [ ]
  remove_all_faults all_events k ((group, cs) ∷ m) features (inl h) =
      rw
        (each_column_faults (λ c stored. column_remove_events s c stored all_events (pos k))
          IsDrained (λ c stored d. drained_faults c stored all_events k d) cs features h)
        refl
  remove_all_faults all_events k ((group, cs) ∷ m) features (inr h) =
      elim (Option-cases (
        each_column s (λ c stored. column_remove_events s c stored all_events (pos k)) cs
          features)) [
            | inl e ↦ rw e refl
            | inr ((cs', features'), e) ↦ rw (e, remove_all_faults all_events k m features' h) refl
          ]

  -- Once all events of a window have expired, an update reads `allEvents[-1]` if any group has a
  -- sum, count or average column that holds no event, as every such column does after the update
  -- that emptied it.
  pub update_window_faults :
      (now : ℕ) (w : Window T) (features : Map (List T)) (all_events : List TableEvent) (lo m : ℕ)
      → w.oldest_index ≡ pos lo
      → lo + m ≡ length all_events
      → Expired now w.window_time all_events m lo
      → SomeGroup IsDrained w.columns
      → update_window s now w features all_events ≡ none
  unfolding update_window skip_expired
  update_window_faults now w features all_events lo m o len h d =
      let n : size_rounds (pos lo) all_events ≡ m + 0 = rounds_to_end all_events lo m len in
      let skip = skip_expired-Expired now w.window_time all_events m 0 lo h in
      let faults = remove_all_faults all_events (lo + m) w.columns features d in
      rw (o, n, skip, faults) refl
