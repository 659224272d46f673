-- ===== src/Examples/Columns.antt =====
-- AggregateColumn at three events of two groups: 5 and 7 are of the column's group.
use nimble_sdk.Prelude.{◌≡◌, refl, some, List, [], ◌∷◌, Text, codes, compare_text}
use nimble_sdk.Prelude.Int.{ℤ, pos}
use nimble_sdk.UserEvents.Structs.{TableEvent}
use nimble_sdk.UserEvents.Scalar.{get_as, is_blank, max_of}
use nimble_sdk.UserEvents.AggregateColumn.{
  Column, Operator, sum, count, average, max, column_value, in_group,
}
use nimble_sdk.UserEvents.Values.{Reads, done, mine, other, total}
use nimble_sdk.UserEvents.Represents.{Represents, filled, settle, or_default}
use nimble_sdk.UserEvents.Integers.{integers, integers-IsExact, integers-IsOrdered}
use nimble_sdk.UserEvents.SumColumn
use nimble_sdk.UserEvents.CountColumn
use nimble_sdk.UserEvents.AverageColumn
use nimble_sdk.UserEvents.ExtremeColumn
use nimble_sdk.UserEvents.ExtremeColumn.Best.{max_of-IsChoice, best}
use nimble_sdk.UserEvents.SumColumn.Window.{
  sum_remove_events-settle, sum_add_event-Represents, HoldsSum,
}
use nimble_sdk.UserEvents.CountColumn.Window.{
  count_remove_events-settle, count_add_event-Represents, HoldsCount,
}
use nimble_sdk.UserEvents.AverageColumn.Window.{
  average_remove_events-settle, average_add_event-Represents, HoldsAverage, mean,
}
use nimble_sdk.UserEvents.ExtremeColumn.Window.{
  extreme_remove_events-settle, extreme_add_event-Represents, HoldsBest, best_or,
}

abbrev pub event : Text → Text → TableEvent
event group cell = record { groups = group ∷ []; timestamp = 100; row = group ∷ cell ∷ [] }

abbrev pub three_events : List TableEvent
three_events =
    event (codes "a+") (codes "5")
    ∷ event (codes "b+") (codes "3")
    ∷ event (codes "a+") (codes "7")
    ∷ []

abbrev pub column : Operator → ℤ → ℤ → ℤ → Column ℤ
column operator total_count oldest_index running_sum = record {
  operator = operator;
  preprocessor_id = 0;
  column_id = 1;
  group = codes "a+";
  cell = 0;
  default_value = pos 9;
  total_count = total_count;
  oldest_index = oldest_index;
  running_sum = running_sum;
}

abbrev sum_column : Column ℤ
sum_column = column sum (pos 2) (pos 0) (pos 12)

-- After the first two events.
abbrev second_sum_column : Column ℤ
second_sum_column = column sum (pos 1) (pos 0) (pos 5)

sum-Reads :
    Reads
      (in_group sum_column)
      (column_value integers sum_column)
      three_events
      3
      0
      (pos 5 ∷ pos 7 ∷ [])
unfolding get_as is_blank compare_text
sum-Reads = mine _ (pos 5) refl refl refl (other _ refl refl (mine _ (pos 7) refl refl refl done))

sum_before :
    Reads
      (in_group second_sum_column)
      (column_value integers second_sum_column)
      three_events
      2
      0
      (pos 5 ∷ [])
unfolding get_as is_blank compare_text
sum_before = mine _ (pos 5) refl refl refl (other _ refl refl done)

sum_third :
    Reads
      (in_group second_sum_column)
      (column_value integers second_sum_column)
      three_events
      1
      2
      (pos 7 ∷ [])
unfolding get_as is_blank compare_text
sum_third = mine _ (pos 7) refl refl refl done

sum_remove_events-settle_example :
    (ys : List ℤ) × Reads
      (in_group sum_column)
      (column_value integers sum_column)
      three_events
      2
      1
      ys
    × (SumColumn.remove_events integers sum_column (pos 12) three_events (pos 1)
        ≡ some (settle sum_column 1 ys, or_default (pos 9) (total integers) ys))
unfolding total
sum_remove_events-settle_example =
    sum_remove_events-settle integers integers-IsExact sum_column (pos 12) three_events 0 1 2
      (pos 5 ∷ pos 7 ∷ []) refl sum-Reads refl refl

sum_add_event-Represents_example :
    (c : Column ℤ) × (stored : ℤ) × (SumColumn.add_event integers second_sum_column
        (pos 5)
        three_events
        2
      ≡ some (c, stored))
    × (c ≡ record second_sum_column { total_count = c.total_count; oldest_index = c.oldest_index })
    × Represents
        (HoldsSum integers)
        (column_value integers second_sum_column)
        three_events
        0
        3
        c
        stored
unfolding total
sum_add_event-Represents_example =
    sum_add_event-Represents integers integers-IsExact second_sum_column (pos 5) three_events 0 2
      (pos 7 ∷ []) sum_third (filled 0 0 2 (pos 5) [] refl done refl refl sum_before refl refl)

abbrev count_column : Column ℤ
count_column = column count (pos 2) (pos 0) (pos 12)

-- After the first two events.
abbrev second_count_column : Column ℤ
second_count_column = column count (pos 1) (pos 0) (pos 5)

count-Reads :
    Reads (in_group count_column) (λ e. some (pos 1)) three_events 3 0 (pos 1 ∷ pos 1 ∷ [])
unfolding get_as is_blank compare_text
count-Reads = mine _ (pos 1) refl refl refl (other _ refl refl (mine _ (pos 1) refl refl refl done))

count_before :
    Reads (in_group second_count_column) (λ e. some (pos 1)) three_events 2 0 (pos 1 ∷ [])
unfolding get_as is_blank compare_text
count_before = mine _ (pos 1) refl refl refl (other _ refl refl done)

count_third : Reads (in_group second_count_column) (λ e. some (pos 1)) three_events 1 2 (pos 1 ∷ [])
unfolding get_as is_blank compare_text
count_third = mine _ (pos 1) refl refl refl done

count_remove_events-settle_example :
    (ys : List ℤ) × Reads (in_group count_column) (λ e. some (pos 1)) three_events 2 1 ys
    × (CountColumn.remove_events integers count_column (pos 2) three_events (pos 1)
        ≡ some (settle count_column 1 ys, or_default (pos 9) (total integers) ys))
unfolding total
count_remove_events-settle_example =
    count_remove_events-settle integers integers-IsExact count_column (pos 2) three_events 0 1 2
      (pos 1 ∷ pos 1 ∷ []) refl count-Reads refl refl

count_add_event-Represents_example :
    (c : Column ℤ) × (stored : ℤ) × (CountColumn.add_event integers second_count_column
        (pos 1)
        three_events
        2
      ≡ some (c, stored))
    × (c
        ≡ record second_count_column { total_count = c.total_count; oldest_index = c.oldest_index })
    × Represents (HoldsCount integers) (λ e. some (pos 1)) three_events 0 3 c stored
unfolding total
count_add_event-Represents_example =
    count_add_event-Represents integers integers-IsExact second_count_column (pos 1) three_events 0
      2 (pos 1 ∷ []) count_third
      (filled 0 0 2 (pos 1) [] refl done refl refl count_before refl refl)

abbrev average_column : Column ℤ
average_column = column average (pos 2) (pos 0) (pos 12)

-- After the first two events.
abbrev second_average_column : Column ℤ
second_average_column = column average (pos 1) (pos 0) (pos 5)

average-Reads :
    Reads
      (in_group average_column)
      (column_value integers average_column)
      three_events
      3
      0
      (pos 5 ∷ pos 7 ∷ [])
unfolding get_as is_blank compare_text
average-Reads =
    mine _ (pos 5) refl refl refl (other _ refl refl (mine _ (pos 7) refl refl refl done))

average_before :
    Reads
      (in_group second_average_column)
      (column_value integers second_average_column)
      three_events
      2
      0
      (pos 5 ∷ [])
unfolding get_as is_blank compare_text
average_before = mine _ (pos 5) refl refl refl (other _ refl refl done)

average_third :
    Reads
      (in_group second_average_column)
      (column_value integers second_average_column)
      three_events
      1
      2
      (pos 7 ∷ [])
unfolding get_as is_blank compare_text
average_third = mine _ (pos 7) refl refl refl done

average_remove_events-settle_example :
    (ys : List ℤ) × Reads
      (in_group average_column)
      (column_value integers average_column)
      three_events
      2
      1
      ys
    × (AverageColumn.remove_events integers average_column (pos 6) three_events (pos 1)
        ≡ some (
          record (settle average_column 1 ys) { running_sum = total integers ys },
          or_default (pos 9) (mean integers) ys,
        ))
unfolding total
average_remove_events-settle_example =
    average_remove_events-settle integers integers-IsExact average_column (pos 6) three_events 0 1 2
      (pos 5 ∷ pos 7 ∷ []) refl average-Reads refl refl

average_add_event-Represents_example :
    (c : Column ℤ) × (stored : ℤ) × (AverageColumn.add_event integers second_average_column
        (pos 5)
        three_events
        2
      ≡ some (c, stored))
    × (c ≡ record second_average_column {
      total_count = c.total_count;
      oldest_index = c.oldest_index;
      running_sum = c.running_sum;
    })
    × Represents
        (HoldsAverage integers)
        (column_value integers second_average_column)
        three_events
        0
        3
        c
        stored
unfolding total
average_add_event-Represents_example =
    average_add_event-Represents integers integers-IsExact second_average_column (pos 5)
      three_events 0 2 (pos 7 ∷ []) average_third
      (filled 0 0 2 (pos 5) [] refl done refl refl average_before refl (refl, refl))

abbrev max_column : Column ℤ
max_column = column max (pos 2) (pos 0) (pos 12)

-- After the first two events.
abbrev second_max_column : Column ℤ
second_max_column = column max (pos 1) (pos 0) (pos 5)

max-Reads :
    Reads
      (in_group max_column)
      (column_value integers max_column)
      three_events
      3
      0
      (pos 5 ∷ pos 7 ∷ [])
unfolding get_as is_blank compare_text
max-Reads = mine _ (pos 5) refl refl refl (other _ refl refl (mine _ (pos 7) refl refl refl done))

max_before :
    Reads
      (in_group second_max_column)
      (column_value integers second_max_column)
      three_events
      2
      0
      (pos 5 ∷ [])
unfolding get_as is_blank compare_text
max_before = mine _ (pos 5) refl refl refl (other _ refl refl done)

max_third :
    Reads
      (in_group second_max_column)
      (column_value integers second_max_column)
      three_events
      1
      2
      (pos 7 ∷ [])
unfolding get_as is_blank compare_text
max_third = mine _ (pos 7) refl refl refl done

extreme_remove_events-settle_example :
    (ys : List ℤ) × Reads
      (in_group max_column)
      (column_value integers max_column)
      three_events
      2
      1
      ys
    × (ExtremeColumn.remove_events integers
          (max_of integers)
          max_column
          (pos 7)
          three_events
          (pos 1)
        ≡ some (settle max_column 1 ys, best_or integers (max_of integers) (pos 9) ys))
unfolding best
extreme_remove_events-settle_example =
    extreme_remove_events-settle integers (max_of integers)
      (max_of-IsChoice integers integers-IsOrdered) integers-IsOrdered.eq_refl max_column (pos 7)
      three_events 0 1 2 (pos 5) (pos 7 ∷ []) refl max-Reads refl refl refl

extreme_add_event-Represents_example :
    (c : Column ℤ) × (stored : ℤ) × (ExtremeColumn.add_event integers
        (max_of integers)
        second_max_column
        (pos 5)
        three_events
        2
      ≡ some (c, stored))
    × (c ≡ record second_max_column { total_count = c.total_count; oldest_index = c.oldest_index })
    × Represents
        (HoldsBest integers (max_of integers))
        (column_value integers second_max_column)
        three_events
        0
        3
        c
        stored
unfolding best
extreme_add_event-Represents_example =
    extreme_add_event-Represents integers (max_of integers) second_max_column (pos 5) three_events 0
      2 (pos 7 ∷ []) max_third (filled 0 0 2 (pos 5) [] refl done refl refl max_before refl refl)
