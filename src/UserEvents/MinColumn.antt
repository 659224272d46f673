-- ===== src/UserEvents/MinColumn.antt =====
-- nimblenet/UserEvents/AggregateColumn/MinColumn: the least value of a column over a window.
use nimble_sdk.Prelude.{ℕ, List}
use nimble_sdk.Prelude.Int.{ℤ}
use nimble_sdk.UserEvents.Structs.{TableEvent}
use nimble_sdk.UserEvents.Scalar.{Scalar, min_of}
use nimble_sdk.UserEvents.AggregateColumn.{Column, Outcome}
use nimble_sdk.UserEvents.ExtremeColumn

module _ (s : Scalar) where
  unfoldable pub add_event : Column s.T → s.T → List TableEvent → ℕ → Outcome s.T
  add_event = ExtremeColumn.add_event s (min_of s)

  unfoldable pub remove_events : Column s.T → s.T → List TableEvent → ℤ → Outcome s.T
  remove_events = ExtremeColumn.remove_events s (min_of s)
