-- ===== src/Examples/Events.antt =====
-- The rolling window, the groups and the table store at concrete inputs, and base64.
use nimble_sdk.Prelude.{
  ◌≡◌, ◌≢◌, refl, sym, true, false, none, some, List, [], ◌∷◌, Text, codes, compare_text, get_elem?,
  length, arith, inl, All,
}
use nimble_sdk.Prelude.Map.{Map, find, insert}
use nimble_sdk.Prelude.Keys.{below, one_left}
use nimble_sdk.Prelude.Int.{ℤ, pos, minus_one}
use nimble_sdk.Base64.{base64_encode, base64_decode}
use nimble_sdk.Base64.RoundTrip.{decode-encode}
use nimble_sdk.UserEvents.Structs.{TableEvent, TableInfo, TableRow, PreProcessorInfo}
use nimble_sdk.UserEvents.Scalar.{Scalar}
use nimble_sdk.UserEvents.AggregateColumn.{sum}
use nimble_sdk.UserEvents.Integers.{integers}
use nimble_sdk.UserEvents.Window.{Window, new_window, update_window}
use nimble_sdk.UserEvents.Window.Expiry.{update_window_keeps_Expired, update_window_faults}
use nimble_sdk.UserEvents.PreProcessor.{join_group, join_filled}
use nimble_sdk.UserEvents.PreProcessor.Groups.{
  group_of_row-eq-group_of_event, join_group-injective, selected,
}
use nimble_sdk.UserEvents.TableStore.{
  Element, new_table_store, row_values, check_columns_of_row, number_columns, all_contained,
}
use nimble_sdk.UserEvents.TableStore.Columns.{row_values-places}
use nimble_sdk.Examples.Columns.{three_events, column}

abbrev pub info : PreProcessorInfo ℤ
info = record {
  rolling_windows_in_secs = 60 ∷ [];
  columns_to_aggregate = codes "price" ∷ [];
  aggregate_operators = codes "Sum" ∷ [];
  group_columns = codes "user" ∷ [];
  default_vector = pos 0 ∷ [];
  table_name = codes "clicks";
  valid = true;
}

-- A window that goes back to the first of the three events, with one group, whose column is empty.
abbrev window : Window ℤ
window = record (new_window 0 info 60) {
  oldest_index = pos 0;
  columns = (codes "b+", column sum (pos 0) minus_one (pos 0) ∷ []) ∷ [];
}

abbrev features : Map (List ℤ)
features = (codes "b+", pos 3 ∷ []) ∷ []

-- The second of two events, which is younger, is still in the window at time 200.
abbrev two_ages : List TableEvent
two_ages =
    record { groups = codes "b+" ∷ []; timestamp = 100; row = codes "b" ∷ codes "3" ∷ [] }
    ∷ record { groups = codes "b+" ∷ []; timestamp = 190; row = codes "b" ∷ codes "4" ∷ [] }
    ∷ []

update_window_keeps_Expired_example :
    update_window integers 200 window features two_ages
    ≡ some (record window { oldest_index = pos 1 }, features)
update_window_keeps_Expired_example =
    update_window_keeps_Expired integers 200 window features two_ages 0 1 _ refl (_, refl, refl, tt)
      refl refl

update_window_faults_example : update_window integers 200 window features three_events ≡ none
update_window_faults_example =
    update_window_faults integers 200 window features three_events 0 3 refl refl
      (_, refl, refl, (_, refl, refl, (_, refl, refl, tt))) (inl (inl (refl, inl refl)))

abbrev cells : List Text
cells = codes "ann" ∷ codes "5" ∷ codes "mon" ∷ []

group_of_row-eq-group_of_event_example :
    join_filled (0 ∷ 2 ∷ []) cells (true ∷ false ∷ true ∷ []) [] ≡ join_group (0 ∷ 2 ∷ []) cells
group_of_row-eq-group_of_event_example =
    group_of_row-eq-group_of_event (0 ∷ 2 ∷ []) cells (true ∷ false ∷ true ∷ []) (refl, (refl, tt))

abbrev other_cells : List Text
other_cells = codes "ann" ∷ codes "8" ∷ codes "mon" ∷ []

plain : {x cell : Text} → some x ≡ some cell → All (λ c. c ≢ b'+') x → All (λ c. c ≢ b'+') cell
plain {x} {cell} e h = let same : x ≡ cell = ground (arith, e) in rw (sym same) h

ann_plain : All (λ c. c ≢ b'+') (codes "ann")
ann_plain = (omega arith, (omega arith, (omega arith, tt)))

mon_plain : All (λ c. c ≢ b'+') (codes "mon")
mon_plain = (omega arith, (omega arith, (omega arith, tt)))

join_group-injective_example : selected (0 ∷ 2 ∷ []) cells ≡ selected (0 ∷ 2 ∷ []) other_cells
unfolding join_group
join_group-injective_example =
    join_group-injective (0 ∷ 2 ∷ []) cells other_cells (codes "ann+mon+")
      (λ c e. plain e ann_plain, (λ c e. plain e mon_plain, tt))
      (λ c e. plain e ann_plain, (λ c e. plain e mon_plain, tt)) refl refl

abbrev pub clicks : TableInfo
clicks = record {
  valid = true;
  name = codes "clicks";
  schema =
      (codes "price", codes "float")
      ∷ (codes "time", codes "int")
      ∷ (codes "user", codes "varchar")
      ∷ [];
  expiry_time_in_mins = 60;
}

abbrev pub click : TableRow
click = record {
  timestamp = 100;
  row = (codes "price", codes "5") ∷ (codes "time", codes "8") ∷ (codes "user", codes "ann") ∷ [];
}

abbrev pub numbers : Element → Scalar
numbers t = integers

row_values-places_example :
    (values : List Text) × (row_values (new_table_store numbers clicks).column_to_id click.row
      ≡ some values)
    × (length values ≡ 3)
    × (get_elem? values 2 ≡ find (codes "user") click.row)
unfolding new_table_store check_columns_of_row number_columns all_contained find insert compare_text
row_values-places_example =
    row_values-places numbers clicks click (codes "user") 2 (below refl (below refl one_left))
      (below refl (below refl one_left)) refl refl

decode-encode_example :
    base64_decode (base64_encode (0 ∷ 7 ∷ 255 ∷ 16 ∷ [])) ≡ 0 ∷ 7 ∷ 255 ∷ 16 ∷ []
decode-encode_example =
    decode-encode (0 ∷ 7 ∷ 255 ∷ 16 ∷ [])
      (omega arith, (omega arith, (omega arith, (omega arith, tt))))
