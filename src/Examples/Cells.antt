-- ===== src/Examples/Cells.antt =====
-- A table with a row and a preprocessor, and a model input for two users.
use nimble_sdk.Prelude.{ℕ, ◌*◌, ◌≡◌, refl, List, [], ◌∷◌, Text, codes, length, compare_text}
use nimble_sdk.Prelude.Map.{find, insert}
use nimble_sdk.Prelude.Int.{ℤ, pos}
use nimble_sdk.UserEvents.Structs.{ModelInput}
use nimble_sdk.UserEvents.Scalar.{get_as, is_blank}
use nimble_sdk.UserEvents.AggregateColumn.{new_column}
use nimble_sdk.UserEvents.SumColumn
use nimble_sdk.UserEvents.Window
use nimble_sdk.UserEvents.PreProcessor
use nimble_sdk.UserEvents.TableStore
use nimble_sdk.UserEvents.TableStore.{Element, new_table_store}
use nimble_sdk.UserEvents.TableStore.Cells
use nimble_sdk.UserEvents.TableStore.Cells.{model_input-cells}
use nimble_sdk.Examples.Events.{info, clicks, click, numbers}

abbrev seen : List (Cells.Call numbers)
seen = Cells.fill ∷ Cells.row 100 click ∷ Cells.create 100 Element.float (codes "m") info ∷ []

-- What one user spent, and the default of one who was not seen.
abbrev spent : ModelInput ℤ
spent = record { length = 2; values = pos 5 ∷ pos 0 ∷ [] }

abbrev requests : List (List (Text × Text))
requests = ((codes "user", codes "ann") ∷ []) ∷ ((codes "user", codes "bob") ∷ []) ∷ []

model_input-cells_example :
    (length spent.values ≡ spent.length) × (cells : ℕ) × (spent.length ≡ length requests * cells)
unfolding new_table_store Cells.calls Cells.call TableStore.add_row TableStore.row_values find
    insert compare_text TableStore.create_preprocessor PreProcessor.new_preprocessor
    PreProcessor.get_group_from_event PreProcessor.add_event
    Window.create_aggregate_columns_for_group Window.add_event new_column SumColumn.add_event
    TableStore.get_model_input PreProcessor.get_group_from_row PreProcessor.get_model_input
    Window.update_window get_as is_blank
model_input-cells_example =
    model_input-cells numbers clicks seen _ _ 110 (codes "m") requests Element.float spent refl refl
