-- ===== src/UserEvents/AggregateColumn.antt =====
-- nimblenet/UserEvents/AggregateColumn: the class that the five columns share. `_storeValue` points
-- into the feature vector of the group: a column keeps the index of its cell, and its methods take
-- the value of the cell and return the new one. -1 in `oldest_index` stands for no event.
use nimble_sdk.Prelude.{
  ℕ, zero, suc, Bool, Option, some, List, Text, eq_text, get_elem?, if◌then◌else◌, ◌>>=◌,
}
use nimble_sdk.Prelude.Int.{ℤ, pos, minus_one, suc_ℤ, pred_ℤ, at_int}
use nimble_sdk.UserEvents.Structs.{TableEvent}
use nimble_sdk.UserEvents.Scalar.{Scalar, get_as}

pub data Operator : Type 0 where
  sum count average max min : Operator

pub record Column (T : Type 0) : Type 0 where
  pub operator : Operator
  pub preprocessor_id : ℕ
  pub column_id : ℕ
  pub group : Text
  pub cell : ℕ
  pub default_value : T
  pub total_count : ℤ
  pub oldest_index : ℤ
  -- `_sum`, of an average column only.
  pub running_sum : T

-- A method's result: the column and the cell that it points to.
abbrev pub Outcome : Type 0 → Type 0
Outcome T = Option (Column T × T)

-- The constructor: the default is what the cell holds.
unfoldable pub new_column : (s : Scalar) → Operator → ℕ → ℕ → Text → ℕ → s.T → Column s.T
new_column s operator preprocessor_id column_id group cell stored = record {
  operator = operator;
  preprocessor_id = preprocessor_id;
  column_id = column_id;
  group = group;
  cell = cell;
  default_value = stored;
  total_count = pos 0;
  oldest_index = minus_one;
  running_sum = s.nought;
}

-- `GetAs<T>(event.row[this->_columnId])`.
abbrev pub column_value : (s : Scalar) → Column s.T → TableEvent → Option s.T
column_value s c e = do cell ← get_elem? e.row c.column_id; get_as s cell

-- `event.groups[this->_preprocessorId] == this->_group`.
abbrev pub in_group : {T : Type 0} → Column T → TableEvent → Option Bool
in_group c e = do group ← get_elem? e.groups c.preprocessor_id; some (eq_text group c.group)

-- The loop of `remove_events` in the sum, count and average columns: for each event of the group
-- the count falls by one and the total by what the event had added.
unfoldable pub remove_loop :
    (s : Scalar) (weight : TableEvent → Option s.T) (c : Column s.T) (all_events : List TableEvent)
    → ℕ
    → ℤ
    → ℤ
    → s.T
    → Option (ℤ × s.T)
remove_loop s weight c all_events zero i total_count total = some (total_count, total)
remove_loop s weight c all_events (suc n) i total_count total = do
  e ← at_int all_events i
  same ← in_group c e
  (count', total') ←
      (if same
        then (do w ← weight e; some (pred_ℤ total_count, s.minus total w))
        else some (total_count, total))
  remove_loop s weight c all_events n (suc_ℤ i) count' total'
