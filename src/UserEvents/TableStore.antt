-- ===== src/UserEvents/TableStore.antt =====
-- nimblenet/UserEvents/TableStore: the events of a table in memory and the preprocessors over them.
-- A preprocessor is of one of four element types; `numbers` gives each its scalar. The columns have
-- the ids of their places in the order of the schema's keys, and a row is stored in that order.
pub mod Columns
pub mod Tables
pub mod Cells
use nimble_sdk.Prelude.{
  ℕ, zero, suc, ◌+◌, Bool, true, false, not, ◌&&◌, Option, none, some, List, [], ◌∷◌, ◌++◌, Text,
  codes, eq_text, get_elem?, set, map, length, replicate, leb, ◌==◌, if◌then◌else◌, ◌>>=◌,
}
use nimble_sdk.Prelude.Map.{Map, find, insert, contains, keys}
use nimble_sdk.UserEvents.Structs.{TableEvent, TableRow, TableInfo, PreProcessorInfo, ModelInput}
use nimble_sdk.UserEvents.Scalar.{Scalar}
use nimble_sdk.UserEvents.PreProcessor
use nimble_sdk.UserEvents.PreProcessor.{
  PreProcessor, new_preprocessor, get_group_from_event, get_group_from_row,
}

-- The element types with a `PreProcessor<T>`.
pub data Element : Type 0 where
  float double int64 int32 : Element

-- The first place of each column, in the order of the schema: `id++` over its keys.
unfoldable pub number_columns : ℕ → List Text → Map ℕ → Map ℕ
number_columns id [] ids = ids
number_columns id (name ∷ names) ids = number_columns (id + 1) names (insert name id ids)

unfoldable pub tolower : Text → Text
tolower [] = []
tolower (c ∷ t) = (if leb b'A' c && leb c b'Z' then c + 32 else c) ∷ tolower t

unfoldable pub starts_with : Text → Text → Bool
starts_with [] t = true
starts_with (c ∷ p) [] = false
starts_with (c ∷ p) (d ∷ t) = c == d && starts_with p t

-- `t.find(p) != npos`.
unfoldable pub has_substring : Text → Text → Bool
unfolding starts_with
has_substring p [] = starts_with p []
has_substring p (c ∷ t) = if starts_with p (c ∷ t) then true else has_substring p t

unfoldable pub all_contained {ℓ κ} : {V : Type ℓ} {W : Type κ} → Map V → Map W → Bool
all_contained [] n = true
all_contained ((k, v) ∷ m) n = if not (contains k n) then false else all_contained m n

-- `_allEvents[i].groups.push_back(group)`.
unfoldable pub push_group : List TableEvent → ℕ → Text → List TableEvent
push_group [] i group = []
push_group (e ∷ es) zero group = record e { groups = e.groups ++ group ∷ [] } ∷ es
push_group (e ∷ es) (suc i) group = e ∷ push_group es i group

-- The values of a row in the order of its keys; none where a key is no column.
unfoldable pub row_values : Map ℕ → Map Text → Option (List Text)
row_values ids [] = some []
row_values ids ((k, v) ∷ row) = do
  vs ← row_values ids row
  if not (contains k ids) then none else some (v ∷ vs)

-- `none` inside: a column to group by is not there.
unfoldable pub group_ids_of : Map ℕ → List Text → Option (List ℕ)
group_ids_of ids [] = some []
group_ids_of ids (name ∷ names) = do
  id ← find name ids
  rest ← group_ids_of ids names
  some (id ∷ rest)

-- One SinglePreprocessorInput: its keys that are columns, with their values.
unfoldable pub fill_row : Map ℕ → List (Text × Text) → List Text → List Bool → List Text × List Bool
fill_row ids [] row filled = (row, filled)
fill_row ids ((key, value) ∷ input) row filled =
    let next = λ (row' : List Text) (filled' : List Bool). fill_row ids input row' filled' in
    elim (find key ids) [
      | none ↦ next row filled
      | some id ↦ next (set row id value) (set filled id true)
    ]

module _ (numbers : Element → Scalar) where
  pub data AnyPreProcessor : Type 0 where
    preprocessor : (t : Element) → PreProcessor (numbers t).T → AnyPreProcessor

  pub data AnyModelInput : Type 0 where
    model_input : (t : Element) → ModelInput (numbers t).T → AnyModelInput

  pub record TableStore : Type 0 where
    pub table_name : Text
    pub all_events : List TableEvent
    pub preprocessors : List AnyPreProcessor
    pub model_input_preprocessor_id : Map ℕ
    pub column_to_id : Map ℕ
    pub columns : List Text
    pub table_info : TableInfo
    pub is_ready_to_be_filled : Bool

  unfoldable pub new_table_store : TableInfo → TableStore
  unfolding number_columns
  new_table_store info = record {
    table_name = info.name;
    all_events = [];
    preprocessors = [];
    model_input_preprocessor_id = [];
    column_to_id = number_columns 0 (keys info.schema) [];
    columns = keys info.schema;
    table_info = info;
    is_ready_to_be_filled = false;
  }

  abbrev pub set_to_fill_in_memory : TableStore → TableStore
  set_to_fill_in_memory t = record t { is_ready_to_be_filled = true }

  unfoldable pub check_columns_of_row : TableStore → TableRow → Bool
  unfolding all_contained
  check_columns_of_row t r =
      if not (all_contained r.row t.column_to_id) then false else all_contained t.column_to_id r.row

  -- The virtual calls.
  abbrev pub group_of_event : AnyPreProcessor → TableEvent → Option Text
  group_of_event (preprocessor t p) e = get_group_from_event p e

  abbrev pub add_to : ℕ → AnyPreProcessor → List TableEvent → ℕ → Option AnyPreProcessor
  add_to now (preprocessor t p) all_events i = do
    p' ← PreProcessor.add_event (numbers t) now p all_events i
    some (preprocessor t p')

  -- The loop over `_preprocessors` for the event i, whose values are those of `e`.
  unfoldable pub feed_preprocessors :
      ℕ
      → TableEvent
      → ℕ
      → List AnyPreProcessor
      → List TableEvent
      → Option (List AnyPreProcessor × List TableEvent)
  unfolding push_group
  feed_preprocessors now e i [] all_events = some ([], all_events)
  feed_preprocessors now e i (p ∷ ps) all_events = do
    group ← group_of_event p e
    let all_events' = push_group all_events i group
    p' ← add_to now p all_events' i
    (ps', all_events'') ← feed_preprocessors now e i ps all_events'
    some (p' ∷ ps', all_events'')

  unfoldable pub add_row : ℕ → TableStore → TableRow → Option TableStore
  unfolding row_values feed_preprocessors
  add_row now t r =
      if not t.is_ready_to_be_filled then some t else elim (row_values t.column_to_id r.row) [
        | none ↦ some t
        | some row ↦ (do
          let e : TableEvent = record { groups = []; timestamp = r.timestamp; row = row }
          (ps, all_events) ←
              feed_preprocessors now e (length t.all_events) t.preprocessors
                (t.all_events ++ e ∷ [])
          some (record t { preprocessors = ps; all_events = all_events }))
      ]

  -- The columns to aggregate from the i-th on. The outer option is a fault, the inner one a refusal:
  -- the column is not in the table, or is text under another operator than Count.
  unfoldable pub column_ids_of : TableStore → List Text → List Text → ℕ → Option (Option (List ℕ))
  unfolding tolower has_substring
  column_ids_of t operators [] i = some (some [])
  column_ids_of t operators (name ∷ names) i =
      let rest = column_ids_of t operators names (i + 1) in
      elim (find name t.column_to_id) [
        | none ↦ some none
        | some id ↦ (do
          operator ← get_elem? operators i
          let declared : Text = elim (find name t.table_info.schema) [ none ↦ [] | some d ↦ d ]
          if not (eq_text operator (codes "Count"))
                && has_substring (codes "varchar") (tolower declared)
              then some none
              else (do ids ← rest; some (elim ids [ none ↦ none | some ids' ↦ some (id ∷ ids') ])))
      ]

  -- The events that are there, from the i-th on, n in all, go through the new preprocessor.
  unfoldable pub replay_events :
      ℕ → AnyPreProcessor → List TableEvent → ℕ → ℕ → Option (AnyPreProcessor × List TableEvent)
  unfolding push_group
  replay_events now p all_events zero i = some (p, all_events)
  replay_events now p all_events (suc n) i = do
    e ← get_elem? all_events i
    group ← group_of_event p e
    let all_events' = push_group all_events i group
    p' ← add_to now p all_events' i
    replay_events now p' all_events' n (i + 1)

  unfoldable pub create_preprocessor :
      ℕ
      → TableStore
      → (t : Element) → Text
      → PreProcessorInfo (numbers t).T
      → Option (TableStore × Bool)
  unfolding group_ids_of column_ids_of replay_events
  create_preprocessor now t element identifier info =
      elim (group_ids_of t.column_to_id info.group_columns) [
        | none ↦ some (t, false)
        | some group_ids ↦ (do
          column_ids ← column_ids_of t info.aggregate_operators info.columns_to_aggregate 0
          elim column_ids [
            | none ↦ some (t, false)
            | some ids ↦ (do
              let id = length t.preprocessors
              p ← new_preprocessor id info group_ids ids
              (p', all_events) ←
                  replay_events now (preprocessor element p) t.all_events (length t.all_events) 0
              some (
                record t {
                  all_events = all_events;
                  preprocessors = t.preprocessors ++ p' ∷ [];
                  model_input_preprocessor_id = insert identifier id t.model_input_preprocessor_id;
                },
                true,
              ))
          ])
      ]

  abbrev pub group_of_row : AnyPreProcessor → List Text → List Bool → Option Text
  group_of_row (preprocessor t p) row filled = get_group_from_row p row filled

  -- The groups of all inputs; `none` inside if one cannot be formed.
  unfoldable pub groups_of_inputs :
      TableStore → AnyPreProcessor → List (List (Text × Text)) → Option (Option (List Text))
  unfolding fill_row
  groups_of_inputs t p [] = some (some [])
  groups_of_inputs t p (input ∷ inputs) =
      let rest = groups_of_inputs t p inputs in
      let (row, filled) =
        fill_row t.column_to_id input (replicate (length t.columns) [])
          (replicate (length t.columns) false) in
      do
        group ← group_of_row p row filled
        if eq_text group [] then some none else (do
          groups ← rest
          some (elim groups [ none ↦ none | some gs ↦ some (group ∷ gs) ]))

  abbrev pub model_input_of :
      ℕ
      → AnyPreProcessor
      → List Text
      → List TableEvent
      → Option (AnyPreProcessor × Option AnyModelInput)
  model_input_of now (preprocessor t p) groups all_events = do
    (p', input) ← PreProcessor.get_model_input (numbers t) now p groups all_events
    some (preprocessor t p', elim input [ none ↦ none | some i ↦ some (model_input t i) ])

  unfoldable pub get_model_input :
      ℕ → TableStore → Text → List (List (Text × Text)) → Option (TableStore × Option AnyModelInput)
  unfolding groups_of_inputs
  get_model_input now t identifier inputs = elim (find identifier t.model_input_preprocessor_id) [
    | none ↦ some (t, none)
    | some id ↦ (do
      p ← get_elem? t.preprocessors id
      groups ← groups_of_inputs t p inputs
      elim groups [
        | none ↦ some (t, none)
        | some gs ↦ (do
          (p', input) ← model_input_of now p gs t.all_events
          some (record t { preprocessors = set t.preprocessors id p' }, input))
      ])
  ]
