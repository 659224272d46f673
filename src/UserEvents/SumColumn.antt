-- ===== src/UserEvents/SumColumn.antt =====
-- nimblenet/UserEvents/AggregateColumn/SumColumn: the sum of a column over a window.
pub mod Window
use nimble_sdk.Prelude.{
  ℕ, zero, suc, Bool, true, false, Option, none, some, List, [], ◌∷◌, Text, eq_text, get_elem?,
  if◌then◌else◌, ◌>>=◌, not, length, ◌+◌, ◌-◌,
}
use nimble_sdk.Prelude.Int.{
  ℤ, pos, negsuc, minus_one, suc_ℤ, pred_ℤ, is_zero, is_minus_one, rounds, at_int, lt_size, leb_ℤ,
}
use nimble_sdk.UserEvents.Structs.{TableEvent}
use nimble_sdk.UserEvents.Scalar.{Scalar, max_of, min_of}
use nimble_sdk.UserEvents.AggregateColumn.{Column, Outcome, column_value, in_group, remove_loop}

module _ (s : Scalar) where
  open s use {T, plus}

  unfoldable pub add_event : Column T → T → List TableEvent → ℕ → Outcome T
  add_event c stored all_events i = do
    e ← get_elem? all_events i
    same ← in_group c e
    if not same then some (c, stored) else do
      value ← column_value s c e
      let counted = record c { total_count = suc_ℤ c.total_count }
      if is_minus_one c.oldest_index
          then some (record counted { oldest_index = pos i }, value)
          else some (counted, plus stored value)

  unfoldable pub remove_events : Column T → T → List TableEvent → ℤ → Outcome T
  unfolding remove_loop
  remove_events c stored all_events oldest_valid = do
    (count, total) ←
        remove_loop s (column_value s c) c all_events (rounds c.oldest_index oldest_valid)
          c.oldest_index c.total_count stored
    if is_zero count
        then some (record c { total_count = count; oldest_index = minus_one }, c.default_value)
        else some (record c { total_count = count; oldest_index = oldest_valid }, total)
