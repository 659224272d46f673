-- ===== src/Examples/Manager.antt =====
-- The manager of the user events over a database that notes the statements it gets.
use nimble_sdk.Prelude.{
  ◌≡◌, refl, false, true, some, List, [], ◌∷◌, Text, codes, Bool, IfSome, ◌>>=◌, eq_text,
  compare_text,
}
use nimble_sdk.Prelude.Map.{find, contains}
use nimble_sdk.UserEvents.Structs.{TableInfo}
use nimble_sdk.UserEvents.Scalar.{Scalar}
use nimble_sdk.UserEvents.Integers.{integers}
use nimble_sdk.UserEvents.TableStore.{Element, TableStore, new_table_store}
use nimble_sdk.UserEvents.Manager.{Database, Manager, add_event, create_preprocessor, new_manager}
use nimble_sdk.UserEvents.Manager.Events.{add_event_lem, create_preprocessor_after_failure}
use nimble_sdk.UserEvents.Manager.Routes.{manager-Routed, calls, create, ask}
use nimble_sdk.Examples.ToyJson.{toy_json}
use nimble_sdk.Examples.Events.{info}

abbrev all_integers : Element → Scalar
all_integers t = integers

abbrev no_items : Text → List Text
no_items j = []

-- Every statement ends with the given flag and without rows.
abbrev noting : Bool → Database
noting ok = record { D = List Text; exec = λ log command. (command ∷ log, [], ok) }

abbrev clicks : TableInfo
clicks = record {
  valid = true;
  name = codes "clicks";
  schema = (codes "price", codes "INT") ∷ (codes "user", codes "TEXT") ∷ [];
  expiry_time_in_mins = 10;
}

abbrev clicks_store : TableStore all_integers
clicks_store = new_table_store all_integers clicks

abbrev manager : (ok : Bool) → Manager all_integers toy_json no_items (noting ok)
manager ok = record {
  db = [];
  table_stores = (codes "clicks", clicks_store) ∷ [];
  model_inputs = [];
  debug_mode = false;
}

add_event_lem_example :
    IfSome
      (λ (m', added).
        (m'.model_inputs ≡ [])
        × (added ≡ false → m'.table_stores ≡ (manager true).table_stores)
        × ((other : Text)
            → eq_text other (codes "clicks") ≡ false
            → find other m'.table_stores ≡ find other (manager true).table_stores))
      (add_event all_integers toy_json no_items
        (noting true)
        100
        101
        102
        (manager true)
        []
        (codes "clicks"))
add_event_lem_example =
    add_event_lem all_integers toy_json no_items (noting true) 100 101 102 (manager true) []
      (codes "clicks")

manager-Routed_example :
    IfSome
      (λ m.
        (identifier name : Text)
        → find identifier m.model_inputs ≡ some name
        → contains name m.table_stores ≡ true)
      (new_manager all_integers toy_json no_items (noting true) 100 [] false (clicks ∷ [])
        >>= calls all_integers toy_json no_items
            (noting true)
            (create 110 Element.int64 (codes "model+in") info ∷ ask 120 (codes "model+in") [] ∷ []))
manager-Routed_example =
    manager-Routed all_integers toy_json no_items (noting true) 100 [] false (clicks ∷ [])
      (create 110 Element.int64 (codes "model+in") info ∷ ask 120 (codes "model+in") [] ∷ [])

create_preprocessor_after_failure_example :
    IfSome
      (λ (m', made).
        (made ≡ false)
        × IfSome
            (λ (m'', made'). m''.db ≡ m'.db)
            (create_preprocessor all_integers toy_json no_items
              (noting false)
              200
              m'
              Element.int64
              (codes "model+in")
              info))
      (create_preprocessor all_integers toy_json no_items
        (noting false)
        100
        (manager false)
        Element.int64
        (codes "model+in")
        info)
unfolding find new_table_store compare_text
create_preprocessor_after_failure_example =
    create_preprocessor_after_failure all_integers toy_json no_items (noting false) 100 200
      (manager false) clicks_store Element.int64 (codes "model+in") info refl refl refl refl
