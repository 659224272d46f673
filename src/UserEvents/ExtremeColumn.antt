-- ===== src/UserEvents/ExtremeColumn.antt =====
-- nimblenet/UserEvents/AggregateColumn/ExtremeColumn: the code that MaxColumn.cpp and MinColumn.cpp
-- share, with pick for std::max or std::min. The flag isMaxChanged never goes back to false, so the
-- one loop of remove_events is a scan while it is false, and a second loop over the events that
-- stay once it is true.
pub mod Best
pub mod Loops
pub mod Window
use nimble_sdk.Prelude.{
  ℕ, zero, suc, Option, some, List, get_elem?, if◌then◌else◌, ◌>>=◌, not, length,
}
use nimble_sdk.Prelude.Int.{
  ℤ, pos, minus_one, suc_ℤ, pred_ℤ, is_zero, is_minus_one, rounds, at_int, lt_size,
}
use nimble_sdk.UserEvents.Structs.{TableEvent}
use nimble_sdk.UserEvents.Scalar.{Scalar}
use nimble_sdk.UserEvents.AggregateColumn.{Column, Outcome, column_value, in_group}

module _ (s : Scalar) (pick : s.T → s.T → s.T) where
  open s use {T, eq}

  unfoldable pub add_event : Column T → T → List TableEvent → ℕ → Outcome T
  add_event c stored all_events i = do
    e ← get_elem? all_events i
    same ← in_group c e
    if not same then some (c, stored) else do
      value ← column_value s c e
      let counted = record c { total_count = suc_ℤ c.total_count }
      if is_minus_one c.oldest_index
          then some (record counted { oldest_index = pos i }, value)
          else some (counted, pick stored value)

  -- With the flag set: the events from the oldest valid one on are taken in anew. The state is the
  -- count, `_oldestIndex` and the cell.
  unfoldable pub recompute : Column T → List TableEvent → ℕ → ℤ → ℤ → ℤ → T → Option (ℤ × ℤ × T)
  recompute c all_events zero i count oldest stored = some (count, oldest, stored)
  recompute c all_events (suc n) i count oldest stored = do
    e ← at_int all_events i
    same ← in_group c e
    (count', oldest', stored') ←
        (if not same then some (count, oldest, stored) else do
          value ← column_value s c e
          some (
            suc_ℤ count,
            (if is_zero count then i else oldest),
            (if is_zero count then value else pick stored value),
          ))
    recompute c all_events n (suc_ℤ i) count' oldest' stored'

  -- With the flag clear: an event of the group that held the extreme sets the flag. The rounds are
  -- those of `i < allEvents.size()` and not `i >= oldestValidIndex`.
  unfoldable pub scan : Column T → List TableEvent → ℤ → ℕ → ℤ → ℤ → T → Option (ℤ × ℤ × T)
  unfolding recompute
  scan c all_events oldest_valid zero i count stored = some (count, c.oldest_index, stored)
  scan c all_events oldest_valid (suc n) i count stored =
      let next = λ (count' : ℤ). scan c all_events oldest_valid n (suc_ℤ i) count' stored in
      if not (lt_size i (length all_events)) then some (count, c.oldest_index, stored) else do
        e ← at_int all_events i
        same ← in_group c e
        if not same then next count else do
          value ← column_value s c e
          if eq value stored
              then recompute c all_events (rounds oldest_valid (pos (length all_events)))
                  oldest_valid (pos 0) c.oldest_index c.default_value
              else next (pred_ℤ count)

  unfoldable pub remove_events : Column T → T → List TableEvent → ℤ → Outcome T
  unfolding scan
  remove_events c stored all_events oldest_valid = do
    (count, oldest, stored') ←
        scan c all_events oldest_valid (rounds c.oldest_index oldest_valid) c.oldest_index
          c.total_count stored
    if is_zero count
        then some (record c { total_count = count; oldest_index = minus_one }, c.default_value)
        else some (record c { total_count = count; oldest_index = oldest_valid }, stored')
