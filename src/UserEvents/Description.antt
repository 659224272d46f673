-- ===== src/UserEvents/Description.antt =====
-- nimblenet/UserEvents/UserEventsManager/src/UserEventsStruct.cpp, and the description of a table in
-- UserEventsManager.cpp. `seconds` reads the length of a rolling window, to its whole part, and
-- `element` the default of a column, in the element type of the preprocessor.
pub mod Complete
use nimble_sdk.Prelude.{
  ℕ, Bool, true, false, not, Option, none, some, List, [], ◌∷◌, ◌++◌, Text, codes, if◌then◌else◌,
  ◌>>=◌,
}
use nimble_sdk.Prelude.Map.{Map}
use nimble_sdk.Json.{Json, text_at, texts_at, optional}
use nimble_sdk.UserEvents.Structs.{TableInfo, PreProcessorInfo}

abbrev pub no_info : {T : Type 0} → PreProcessorInfo T
no_info = record {
  rolling_windows_in_secs = [];
  columns_to_aggregate = [];
  aggregate_operators = [];
  group_columns = [];
  default_vector = [];
  table_name = [];
  valid = false;
}

-- JSONParser::get_from_json, given T().
abbrev pub or_default {ℓ} : {T : Type ℓ} → Option T → T → T
or_default none default = default
or_default (some t) default = t

module _ (json : Json) (seconds : json.J → Option ℕ) {T : Type 0}
    (element : json.J → Option T) where
  open json use {J, at, as_text, as_list}

  unfoldable pub all_seconds : List J → Option (List ℕ)
  all_seconds [] = some []
  all_seconds (v ∷ vs) = do n ← seconds v; ns ← all_seconds vs; some (n ∷ ns)

  -- The loop over the operations; false if it returns from from_json.
  unfoldable pub read_operations : List J → PreProcessorInfo T → Option (PreProcessorInfo T × Bool)
  read_operations [] info = some (info, true)
  read_operations (operation ∷ operations) info = elim (at (codes "columnName") operation) [
    | none ↦ some (info, false)
    | some column ↦ elim (at (codes "operator") operation) [
      | none ↦ some (info, false)
      | some operator ↦ elim (at (codes "default") operation) [
        | none ↦ some (info, false)
        | some default ↦ (do
          c ← as_text column
          o ← as_text operator
          d ← element default
          read_operations operations (record info {
            columns_to_aggregate = info.columns_to_aggregate ++ c ∷ [];
            aggregate_operators = info.aggregate_operators ++ o ∷ [];
            default_vector = info.default_vector ++ d ∷ [];
          }))
      ]
    ]
  ]

  -- from_json; `none` is an exception.
  unfoldable pub read_info : J → Option (PreProcessorInfo T)
  unfolding all_seconds read_operations
  read_info j = do
    windows_json ← at (codes "rollingWindowsInSecs") j
    windows_list ← as_list windows_json
    windows ← all_seconds windows_list
    operations_json ← at (codes "operations") j
    operations ← as_list operations_json
    (info, complete) ←
        read_operations operations (record no_info { rolling_windows_in_secs = windows })
    if not complete then some info else (do
      table ← optional json as_text (codes "tableName") j info.table_name
      groups ← texts_at json (codes "groupBy") j
      some (record info { table_name = table; group_columns = groups; valid = true }))

  -- The description that UserEventsManager::create_preprocessor starts with.
  unfoldable pub described : J → PreProcessorInfo T
  unfolding read_info
  described j = or_default (read_info j) no_info

-- The description of a table; `schema_of` is the conversion to a map of strings, and `minutes` reads
-- a time that is not negative.
unfoldable pub read_table :
    (json : Json) → (json.J → Option (Map Text)) → (json.J → Option ℕ) → json.J → Option TableInfo
read_table json schema_of minutes j = do
  name ← text_at json (codes "tableName") j
  schema_json ← json.at (codes "schema") j
  schema ← schema_of schema_json
  expiry_json ← json.at (codes "expiryInMins") j
  expiry ← minutes expiry_json
  some (record { valid = true; name = name; schema = schema; expiry_time_in_mins = expiry })

unfoldable pub described_table :
    (json : Json) → (json.J → Option (Map Text)) → (json.J → Option ℕ) → json.J → TableInfo
unfolding read_table
described_table json schema_of minutes j =
    or_default (read_table json schema_of minutes j)
      (record { valid = false; name = []; schema = []; expiry_time_in_mins = 0 })
