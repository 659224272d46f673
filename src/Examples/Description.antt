-- ===== src/Examples/Description.antt =====
-- The description of a preprocessor with two columns and two rolling windows.
use nimble_sdk.Prelude.{ℕ, ◌*◌, ◌≡◌, Option, some, none, List, [], ◌∷◌, Text, codes, length}
use nimble_sdk.Prelude.Int.{ℤ, pos}
use nimble_sdk.UserEvents.PreProcessor.{PreProcessor, new_preprocessor}
use nimble_sdk.UserEvents.TableStore.{Element, new_table_store, column_ids_of}
use nimble_sdk.UserEvents.Description.{described}
use nimble_sdk.UserEvents.Description.Complete.{described_is_made}
use nimble_sdk.Examples.ToyJson.{toy_json, write_list, write_object}
use nimble_sdk.Examples.Events.{clicks, numbers}

abbrev first_code : Text → Option ℕ
first_code [] = none
first_code (c ∷ t) = some c

abbrev as_integer : Text → Option ℤ
as_integer t = some (pos (length t))

abbrev operation : Text → Text → Text
operation column operator =
    write_object
      ((codes "columnName", column) ∷ (codes "operator", operator) ∷ (codes "default", []) ∷ [])

abbrev preprocessor_json : Text
preprocessor_json = write_object (
    (codes "rollingWindowsInSecs", write_list ((60 ∷ []) ∷ (3600 ∷ []) ∷ []))
    ∷ (
      codes "operations",
      write_list
          (operation (codes "price") (codes "Sum") ∷ operation (codes "user") (codes "Count") ∷ []),
    )
    ∷ (codes "groupBy", write_list (codes "user" ∷ []))
    ∷ [])

described_is_made_example :
    ((p : PreProcessor ℤ) × (new_preprocessor 0
          (described toy_json first_code as_integer preprocessor_json)
          (2 ∷ [])
          []
        ≡ some p)
      × (length p.default_feature
          ≡ length
              (described toy_json first_code as_integer preprocessor_json).rolling_windows_in_secs
            * length
                (described toy_json first_code as_integer preprocessor_json).columns_to_aggregate))
    × ((ids : Option (List ℕ)) × (column_ids_of numbers
            (new_table_store numbers clicks)
            (described toy_json first_code as_integer preprocessor_json).aggregate_operators
            (described toy_json first_code as_integer preprocessor_json).columns_to_aggregate
            0
          ≡ some ids))
described_is_made_example =
    described_is_made toy_json first_code numbers Element.float as_integer preprocessor_json 0
      (2 ∷ []) [] (new_table_store numbers clicks)
