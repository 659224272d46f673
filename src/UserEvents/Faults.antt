-- ===== src/UserEvents/Faults.antt =====
-- Where remove_events of AggregateColumn reads out of bounds.
use nimble_sdk.Prelude.{ℕ, ◌≡◌, refl, none, some, List}
use nimble_sdk.Prelude.Int.{pos, minus_one}
use nimble_sdk.UserEvents.Structs.{TableEvent}
use nimble_sdk.UserEvents.Scalar.{Scalar}
use nimble_sdk.UserEvents.AggregateColumn.{Column, column_value}
use nimble_sdk.UserEvents.Values.Removal.{remove_loop_faults}
use nimble_sdk.UserEvents.SumColumn
use nimble_sdk.UserEvents.CountColumn
use nimble_sdk.UserEvents.AverageColumn

-- A sum, count or average column that holds no event (`_oldestIndex` is -1) and is asked to drop
-- the events before index k, k ≥ 0, reads `allEvents[-1]`: its loop starts at -1.
pub remove_events_out_of_bounds :
    (s : Scalar) (c : Column s.T) (stored : s.T) (all_events : List TableEvent) (k : ℕ)
    → c.oldest_index ≡ minus_one
    → (SumColumn.remove_events s c stored all_events (pos k) ≡ none)
      × (CountColumn.remove_events s c stored all_events (pos k) ≡ none)
      × (AverageColumn.remove_events s c stored all_events (pos k) ≡ none)
unfolding SumColumn.remove_events CountColumn.remove_events AverageColumn.remove_events
remove_events_out_of_bounds s c stored all_events k o = (
  rw (remove_loop_faults s (column_value s c) c all_events k stored o) refl,
  rw (remove_loop_faults s (λ e. some s.one) c all_events k stored o) refl,
  rw (remove_loop_faults s (column_value s c) c all_events k c.running_sum o) refl,
)
