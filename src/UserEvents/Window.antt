-- ===== src/UserEvents/Window.antt =====
-- nimblenet/UserEvents/RollingWindow: the columns of a rolling window, by group. A column's cell is
-- in the feature vector of its group, which the preprocessor owns: the methods that write cells take
-- the vectors of all groups and return them. `time(NULL)` is the argument `now` of a call.
pub mod Expiry
pub mod Cells
use nimble_sdk.Prelude.{
  ℕ, zero, suc, ◌+◌, ◌-◌, Bool, true, false, Option, none, some, List, [], ◌∷◌, ◌++◌, Text, codes,
  eq_text, get_elem?, set, length, ltb, if◌then◌else◌, ◌>>=◌,
}
use nimble_sdk.Prelude.Map.{Map, find, insert}
use nimble_sdk.Prelude.Int.{ℤ, pos, minus_one, suc_ℤ, is_minus_one, lt_size, at_int, rounds}
use nimble_sdk.UserEvents.Structs.{TableEvent, PreProcessorInfo}
use nimble_sdk.UserEvents.Scalar.{Scalar}
use nimble_sdk.UserEvents.AggregateColumn.{
  Column, Operator, sum, count, average, max, min, Outcome, new_column,
}
use nimble_sdk.UserEvents.SumColumn
use nimble_sdk.UserEvents.CountColumn
use nimble_sdk.UserEvents.AverageColumn
use nimble_sdk.UserEvents.MaxColumn
use nimble_sdk.UserEvents.MinColumn

-- TimeBasedRollingWindow with its base class.
pub record Window (T : Type 0) : Type 0 where
  pub preprocessor_id : ℕ
  pub info : PreProcessorInfo T
  pub columns : Map (List (Column T))
  pub oldest_index : ℤ
  pub window_time : ℕ

abbrev pub new_window : {T : Type 0} → ℕ → PreProcessorInfo T → ℕ → Window T
new_window preprocessor_id info window_time = record {
  preprocessor_id = preprocessor_id;
  info = info;
  columns = [];
  oldest_index = minus_one;
  window_time = window_time;
}

-- The names that the columns go by in the configuration.
unfoldable pub operator_named : Text → Option Operator
operator_named name =
    if eq_text name (codes "Sum")
    then some sum
    else if eq_text name (codes "Count")
    then some count
    else if eq_text name (codes "Min")
    then some min
    else if eq_text name (codes "Max")
    then some max
    else if eq_text name (codes "Avg")
    then some average
    else none

-- The loop of update_window over n events from i on: the new `_oldestIndex`, and whether the loop
-- came to its end (true) or returned from the method at an event that is still in the window.
unfoldable pub skip_expired : ℕ → ℕ → List TableEvent → ℕ → ℤ → ℤ → Option (ℤ × Bool)
skip_expired now window_time all_events zero i oldest = some (oldest, true)
skip_expired now window_time all_events (suc n) i oldest = do
  e ← at_int all_events i
  let rest = skip_expired now window_time all_events n (suc_ℤ i) (suc_ℤ oldest)
  if ltb window_time (now - e.timestamp) then rest else some (oldest, false)

-- The rounds of `for (int i = _oldestIndex; i < allEvents.size(); i++)`: none from -1.
abbrev pub size_rounds : ℤ → List TableEvent → ℕ
size_rounds i all_events =
    if lt_size i (length all_events) then rounds i (pos (length all_events)) else 0

module _ (s : Scalar) where
  open s use {T}

  -- The virtual calls.
  unfoldable pub column_add_event : Column T → T → List TableEvent → ℕ → Outcome T
  column_add_event c stored all_events i = elim c.operator [
    | sum ↦ SumColumn.add_event s c stored all_events i
    | count ↦ CountColumn.add_event s c stored all_events i
    | average ↦ AverageColumn.add_event s c stored all_events i
    | max ↦ MaxColumn.add_event s c stored all_events i
    | min ↦ MinColumn.add_event s c stored all_events i
  ]

  unfoldable pub column_remove_events : Column T → T → List TableEvent → ℤ → Outcome T
  column_remove_events c stored all_events oldest_valid = elim c.operator [
    | sum ↦ SumColumn.remove_events s c stored all_events oldest_valid
    | count ↦ CountColumn.remove_events s c stored all_events oldest_valid
    | average ↦ AverageColumn.remove_events s c stored all_events oldest_valid
    | max ↦ MaxColumn.remove_events s c stored all_events oldest_valid
    | min ↦ MinColumn.remove_events s c stored all_events oldest_valid
  ]

  -- A method of a column, through the pointer to its cell.
  unfoldable pub through_cell :
      (Column T → T → Outcome T) → Column T → Map (List T) → Option (Column T × Map (List T))
  through_cell method c features = do
    vector ← find c.group features
    stored ← get_elem? vector c.cell
    (c', stored') ← method c stored
    some (c', insert c.group (set vector c.cell stored') features)

  unfoldable pub each_column :
      (Column T → T → Outcome T)
      → List (Column T)
      → Map (List T)
      → Option (List (Column T) × Map (List T))
  unfolding through_cell
  each_column method [] features = some ([], features)
  each_column method (c ∷ cs) features = do
    (c', features') ← through_cell method c features
    (cs', features'') ← each_column method cs features'
    some (c' ∷ cs', features'')

  -- The loop of create_aggregate_columns_for_group, n columns from i on; the flag is its result.
  unfoldable pub create_columns :
      Window T
      → Text
      → List ℕ
      → List T
      → ℕ
      → ℕ
      → ℕ
      → List (Column T)
      → Option (List (Column T) × Bool)
  unfolding operator_named
  create_columns w group column_ids features start zero i created = some (created, true)
  create_columns w group column_ids features start (suc n) i created = do
    name ← get_elem? w.info.aggregate_operators i
    let rest = λ (operator : Operator). (do
      column_id ← get_elem? column_ids i
      stored ← get_elem? features (start + i)
      create_columns w group column_ids features start n (i + 1) (
          created
          ++ new_column s operator w.preprocessor_id column_id group (start + i) stored ∷ []))
    elim (operator_named name) [ none ↦ some (created, false) | some operator ↦ rest operator ]

  unfoldable pub create_aggregate_columns_for_group :
      Window T → Text → List ℕ → List T → ℕ → Option (Window T × Bool)
  unfolding create_columns
  create_aggregate_columns_for_group w group column_ids features start = do
    (created, success) ←
        create_columns w group column_ids features start (length w.info.columns_to_aggregate) 0 []
    some (record w { columns = insert group created w.columns }, success)

  -- `_groupWiseAggregatedColumnMap[group]`: operator[] makes an empty entry for a missing key.
  abbrev pub columns_of : Window T → Text → List (Column T)
  columns_of w group = elim (find group w.columns) [ none ↦ [] | some cs ↦ cs ]

  unfoldable pub add_event :
      ℕ → Window T → Map (List T) → List TableEvent → ℕ → Option (Window T × Map (List T))
  unfolding each_column column_add_event
  add_event now w features all_events i = do
    e ← get_elem? all_events i
    if ltb w.window_time (now - e.timestamp) then some (w, features) else do
      let oldest = (if is_minus_one w.oldest_index then pos i else w.oldest_index)
      group ← get_elem? e.groups w.preprocessor_id
      (cs, features') ←
          each_column (λ c stored. column_add_event c stored all_events i) (columns_of w group)
            features
      some (record w { oldest_index = oldest; columns = insert group cs w.columns }, features')

  unfoldable pub remove_all :
      List TableEvent
      → ℤ
      → Map (List (Column T))
      → Map (List T)
      → Option (Map (List (Column T)) × Map (List T))
  unfolding each_column column_remove_events
  remove_all all_events oldest [] features = some ([], features)
  remove_all all_events oldest ((group, cs) ∷ m) features = do
    (cs', features') ←
        each_column (λ c stored. column_remove_events c stored all_events oldest) cs features
    (m', features'') ← remove_all all_events oldest m features'
    some ((group, cs') ∷ m', features'')

  unfoldable pub update_window :
      ℕ → Window T → Map (List T) → List TableEvent → Option (Window T × Map (List T))
  unfolding skip_expired remove_all
  update_window now w features all_events = do
    (oldest, ended) ←
        skip_expired now w.window_time all_events (size_rounds w.oldest_index all_events)
          w.oldest_index w.oldest_index
    let moved = record w { oldest_index = oldest }
    if ended
        then (do
          (columns', features') ← remove_all all_events oldest w.columns features
          some (record moved { columns = columns' }, features'))
        else some (moved, features)
