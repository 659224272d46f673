-- ===== src/UserEvents/Manager.antt =====
-- nimblenet/UserEvents/UserEventsManager: the tables of user events, in the database and in memory.
-- SQLite is the argument `sql`: a statement gives the rows that its callback gets, each the names
-- of the columns with their texts (`none` for NULL), and whether it ended with SQLITE_OK. A table or
-- a preprocessor is taken as its parsed description. `none` is a fault or an uncaught exception.
pub mod Events
pub mod Routes
use nimble_sdk.Prelude.{
  ℕ, zero, suc, ◌+◌, ◌*◌, ◌/◌, ◌%◌, ◌-◌, Bool, true, false, not, ◌&&◌, Option, none, some, List, [],
  ◌∷◌, ◌++◌, Text, codes, eq_text, leb, ltb, if◌then◌else◌, ◌>>=◌,
}
use nimble_sdk.Prelude.Map.{Map, find, insert}
use nimble_sdk.Json.{Json}
use nimble_sdk.UserEvents.Structs.{TableRow, TableInfo, PreProcessorInfo}
use nimble_sdk.UserEvents.Scalar.{Scalar}
use nimble_sdk.UserEvents.TableStore
use nimble_sdk.UserEvents.TableStore.{
  Element, AnyModelInput, TableStore, new_table_store, set_to_fill_in_memory, check_columns_of_row,
  add_row,
}

-- What a callback gets: `azColName` with `argv`.
abbrev pub Fields : Type 0
Fields = List (Text × Option Text)

pub record Database : Type 1 where
  pub D : Type 0
  pub exec : D → Text → D × List Fields × Bool

-- A number in decimal, of at most 20 digits (`%ld`).
long_digits : ℕ → ℕ → Text
long_digits zero n = []
long_digits (suc digits) n =
    let higher = long_digits digits (n / 10) in
    if ltb n 10 then (b'0' + n) ∷ [] else higher ++ (b'0' + n % 10) ∷ []

unfoldable pub print_long : ℕ → Text
unfolding long_digits
print_long n = long_digits 20 n

-- `stoll` of the text of an INT column that is not negative.
stoll_loop : ℕ → Text → ℕ
stoll_loop n [] = n
stoll_loop n (c ∷ t) = if leb b'0' c && leb c b'9' then stoll_loop (n * 10 + (c - b'0')) t else n

unfoldable pub stoll : Text → Option ℕ
unfolding stoll_loop
stoll [] = none
stoll (c ∷ t) = if leb b'0' c && leb c b'9' then some (stoll_loop 0 (c ∷ t)) else none

-- get_schema_call_back, over all rows: the last one that is not empty counts.
unfoldable pub get_schema_call_back : Text → List Fields → Option Text
get_schema_call_back output [] = some output
get_schema_call_back output ([] ∷ rows) = get_schema_call_back output rows
get_schema_call_back output (((name, value) ∷ fields) ∷ rows) =
    if eq_text name (codes "sql")
    then elim value [ none ↦ none | some sql ↦ get_schema_call_back sql rows ]
    else get_schema_call_back [] rows

-- The columns of a row and its timestamp.
unfoldable pub read_fields : Fields → Option ℕ → Map Text → Option (Option ℕ × Map Text)
unfolding stoll
read_fields [] timestamp row = some (timestamp, row)
read_fields ((name, value) ∷ fields) timestamp row =
    if eq_text name (codes "TIMESTAMP")
    then (do text ← value; n ← stoll text; read_fields fields (some n) row)
    else read_fields fields timestamp
        (insert name (elim value [ none ↦ codes "NULL" | some text ↦ text ]) row)

unfoldable pub schema_fields : Map Text → Text
schema_fields [] = []
schema_fields ((name, type) ∷ schema) =
    codes ", " ++ name ++ codes " " ++ type ++ schema_fields schema

unfoldable pub create_command : TableInfo → Text
unfolding schema_fields
create_command info =
    codes "CREATE TABLE "
    ++ info.name
    ++ codes " (TIMESTAMP INT"
    ++ schema_fields info.schema
    ++ codes ") STRICT;"

unfoldable pub delete_command : ℕ → TableInfo → Text
unfolding print_long
delete_command now info =
    let age = info.expiry_time_in_mins * 60 in
    codes "DELETE FROM "
    ++ info.name
    ++ codes " where TIMESTAMP <"
    ++ (if leb age now then print_long (now - age) else b'-' ∷ print_long (age - now))

unfoldable pub select_command : Text → Text
select_command name = codes "SELECT * from " ++ name ++ codes " ORDER BY TIMESTAMP"

unfoldable pub insert_columns : Map Text → Text
insert_columns [] = []
insert_columns ((name, value) ∷ row) = codes " ," ++ name ++ codes " " ++ insert_columns row

unfoldable pub insert_values : Map Text → Text
insert_values [] = []
insert_values ((name, value) ∷ row) = codes ", '" ++ value ++ codes "' " ++ insert_values row

unfoldable pub insert_command : Text → ℕ → Map Text → Text
unfolding print_long insert_columns insert_values
insert_command table time items =
    codes "INSERT INTO "
    ++ table
    ++ codes " (TIMESTAMP "
    ++ insert_columns items
    ++ codes ") VALUES ('"
    ++ print_long time
    ++ codes "' "
    ++ insert_values items
    ++ codes ");"

-- `j.items()` of a parsed event gives its keys.
module _ (numbers : Element → Scalar) (json : Json) (items : json.J → List Text)
    (sql : Database) where
  open sql use {D, exec}

  pub record Manager : Type 0 where
    pub db : D
    pub table_stores : Map (TableStore numbers)
    pub model_inputs : Map Text
    pub debug_mode : Bool

  unfoldable pub execute : Text → D → D × Bool
  execute command db = let (db', rows, ok) = exec db command in (db', ok)

  unfoldable pub get_existing_create_table_command : Text → D → Option (D × Text)
  unfolding get_schema_call_back
  get_existing_create_table_command name db =
      let (db', rows, ok) =
        exec db (codes "SELECT sql FROM sqlite_schema where name='" ++ name ++ codes "';") in
      do
        existing ← get_schema_call_back [] rows
        if not ok then some (db', []) else some (db', existing)

  unfoldable pub create_table_in_db : Bool → TableInfo → D → Option (D × Bool)
  unfolding create_command execute get_existing_create_table_command
  create_table_in_db debug info db = do
    let command = create_command info
    (db', existing) ← get_existing_create_table_command info.name db
    if eq_text existing []
        then some (execute command db')
        else if eq_text (existing ++ codes ";") command
        then some (db', true)
        else if not debug
        then some (db', false)
        else (let (db'', dropped) = execute (codes "Drop table " ++ info.name ++ codes ";") db' in
            if not dropped then some (db'', false) else some (execute command db''))

  -- A failure of the deletion is only logged.
  unfoldable pub create_table : ℕ → Manager → TableInfo → Option (Manager × Bool)
  unfolding create_table_in_db execute delete_command
  create_table now m info = if not info.valid then some (m, false) else (do
    (db', created) ← create_table_in_db m.debug_mode info m.db
    if not created
        then some (record m { db = db' }, false)
        else some (
          record m {
            db = (execute (delete_command now info) db').0;
            table_stores = insert info.name (new_table_store numbers info) m.table_stores;
          },
          true,
        ))

  unfoldable pub create_tables : ℕ → Manager → List TableInfo → Option Manager
  unfolding create_table
  create_tables now m [] = some m
  create_tables now m (info ∷ infos) = do
    (m', created) ← create_table now m info
    create_tables now m' infos

  unfoldable pub new_manager : ℕ → D → Bool → List TableInfo → Option Manager
  unfolding create_tables
  new_manager now db debug infos =
      create_tables now
        (record { db = db; table_stores = []; model_inputs = []; debug_mode = debug }) infos

  -- A row without a timestamp is only logged.
  unfoldable pub add_rows_to_table_store :
      ℕ → TableStore numbers → List Fields → Option (TableStore numbers)
  unfolding read_fields
  add_rows_to_table_store now t [] = some t
  add_rows_to_table_store now t (fields ∷ rows) = do
    (timestamp, row) ← read_fields fields none []
    t' ← (elim timestamp [
      | none ↦ some t
      | some n ↦ add_row numbers now t (record { timestamp = n; row = row })
    ])
    add_rows_to_table_store now t' rows

  -- The table in memory, filled from the database at the first preprocessor.
  unfoldable pub fill_in_memory :
      ℕ → Manager → Text → TableStore numbers → Option (Manager × TableStore numbers × Bool)
  unfolding add_rows_to_table_store select_command
  fill_in_memory now m name t =
      if t.is_ready_to_be_filled
      then some (m, t, true)
      else (let (db', rows, ok) = exec m.db (select_command name) in
          do
            t' ← add_rows_to_table_store now (set_to_fill_in_memory numbers t) rows
            some (record m { db = db'; table_stores = insert name t' m.table_stores }, t', ok))

  unfoldable pub create_preprocessor :
      ℕ → Manager → (t : Element) → Text → PreProcessorInfo (numbers t).T → Option (Manager × Bool)
  unfolding fill_in_memory
  create_preprocessor now m element identifier info =
      if not info.valid then some (m, false) else elim (find info.table_name m.table_stores) [
        | none ↦ some (m, false)
        | some t ↦ (do
          (m', t', ok) ← fill_in_memory now m info.table_name t
          if not ok then some (m', false) else (do
            (t'', made) ← TableStore.create_preprocessor numbers now t' element identifier info
            some (
              record m' {
                model_inputs = insert identifier info.table_name m'.model_inputs;
                table_stores = insert info.table_name t'' m'.table_stores;
              },
              made,
            )))
      ]

  abbrev pub get_value_as_string : json.J → Text
  get_value_as_string j = elim (json.as_text j) [ none ↦ json.dump j | some t ↦ t ]

  -- The loop over the items of an event.
  unfoldable pub event_items : json.J → List Text → Option (Map Text)
  event_items j [] = some []
  event_items j (key ∷ keys) = do
    v ← json.at key j
    rest ← event_items j keys
    some ((key, get_value_as_string v) ∷ rest)

  unfoldable pub row_of_items : Map Text → Map Text → Map Text
  row_of_items [] row = row
  row_of_items ((key, value) ∷ rest) row = row_of_items rest (insert key value row)

  -- The three times are those of the three calls of `time`.
  unfoldable pub add_event : ℕ → ℕ → ℕ → Manager → Text → Text → Option (Manager × Bool)
  unfolding event_items row_of_items execute insert_command
  add_event now later last m event name = elim (find name m.table_stores) [
    | none ↦ some (m, false)
    | some t ↦ elim (json.parse event) [
      | none ↦ some (m, false)
      | some j ↦ (do
        pairs ← event_items j (items j)
        let r : TableRow = record { timestamp = now; row = row_of_items pairs [] }
        if not (check_columns_of_row numbers t r)
            then some (m, false)
            else (let (db', inserted) = execute (insert_command name later pairs) m.db in
                if not inserted then some (record m { db = db' }, false) else (do
                  t' ← add_row numbers last t r
                  some
                      (record m { db = db'; table_stores = insert name t' m.table_stores }, true))))
    ]
  ]

  unfoldable pub get_model_input :
      ℕ
      → Manager
      → Text
      → List (List (Text × Text))
      → Option (Manager × Option (AnyModelInput numbers))
  get_model_input now m identifier inputs = elim (find identifier m.model_inputs) [
    | none ↦ some (m, none)
    | some name ↦ elim (find name m.table_stores) [
      | none ↦ some (m, none)
      | some t ↦ (do
        (t', input) ← TableStore.get_model_input numbers now t identifier inputs
        some (record m { table_stores = insert name t' m.table_stores }, input))
    ]
  ]
