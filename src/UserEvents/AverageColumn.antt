-- ===== src/UserEvents/AverageColumn.antt =====
-- nimblenet/UserEvents/AggregateColumn/AverageColumn: the mean of a column over a window. The class declares a _totalCount of its own, which hides that of its base and is the only one in use.
pub mod Window
use nimble_sdk.Prelude.{
  ℕ, zero, suc, Bool, true, false, Option, none, some, List, [], ◌∷◌, Text, eq_text, get_elem?,
  if◌then◌else◌, ◌>>=◌, not, length, ◌+◌, ◌-◌,
}
use nimble_sdk.Prelude.Int.{
  ℤ, pos, negsuc, minus_one, suc_ℤ, pred_ℤ, is_zero, is_minus_one, rounds, at_int, lt_size, leb_ℤ,
}
use nimble_sdk.UserEvents.Structs.{TableEvent}
use nimble_sdk.UserEvents.Scalar.{Scalar, max_of, min_of}
use nimble_sdk.UserEvents.AggregateColumn.{Column, Outcome, column_value, in_group, remove_loop}

module _ (s : Scalar) where
  open s use {T, nought, plus, divide}

  unfoldable pub add_event : Column T → T → List TableEvent → ℕ → Outcome T
  add_event c stored all_events i = do
    e ← get_elem? all_events i
    same ← in_group c e
    if not same then some (c, stored) else do
      value ← column_value s c e
      let count = suc_ℤ c.total_count
      let oldest = (if is_minus_one c.oldest_index then pos i else c.oldest_index)
      let sum = plus c.running_sum value
      some (
        record c { total_count = count; oldest_index = oldest; running_sum = sum },
        divide sum count,
      )

  unfoldable pub remove_events : Column T → T → List TableEvent → ℤ → Outcome T
  unfolding remove_loop
  remove_events c stored all_events oldest_valid = do
    (count, sum) ←
        remove_loop s (column_value s c) c all_events (rounds c.oldest_index oldest_valid)
          c.oldest_index c.total_count c.running_sum
    if is_zero count
        then some (
          record c { total_count = count; oldest_index = minus_one; running_sum = nought },
          c.default_value,
        )
        else some (
          record c { total_count = count; oldest_index = oldest_valid; running_sum = sum },
          divide sum count,
        )
