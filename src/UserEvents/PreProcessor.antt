-- ===== src/UserEvents/PreProcessor.antt =====
-- nimblenet/UserEvents/PreProcessor: the feature vectors of the groups, one stretch of cells for each
-- rolling window. `none` is a fault; a null pointer of the source is a `none` inside a result.
pub mod Groups
pub mod Cells
use nimble_sdk.Prelude.{
  ℕ, zero, suc, ◌+◌, ◌*◌, ◌%◌, Bool, true, false, not, Option, none, some, List, [], ◌∷◌, ◌++◌,
  Text, codes, get_elem?, map, length, if◌then◌else◌, ◌>>=◌,
}
use nimble_sdk.Prelude.Map.{Map, find, insert}
use nimble_sdk.UserEvents.Structs.{TableEvent, PreProcessorInfo, ModelInput}
use nimble_sdk.UserEvents.Scalar.{Scalar}
use nimble_sdk.UserEvents.Window
use nimble_sdk.UserEvents.Window.{
  Window, new_window, create_aggregate_columns_for_group, update_window,
}

pub record PreProcessor (T : Type 0) : Type 0 where
  pub id : ℕ
  pub group_ids : List ℕ
  pub column_ids : List ℕ
  pub is_useless : Bool
  pub info : PreProcessorInfo T
  pub default_feature : List T
  pub rolling_windows : List (Window T)
  pub features : Map (List T)

-- `_defaultFeature[i] = defaultVector[i % columnsToAggregate.size()]` for n cells from i on.
unfoldable pub fill_default : {T : Type 0} → List T → ℕ → ℕ → ℕ → Option (List T)
fill_default default_vector columns zero i = some []
fill_default default_vector columns (suc n) i = do
  v ← get_elem? default_vector (i % columns)
  vs ← fill_default default_vector columns n (i + 1)
  some (v ∷ vs)

unfoldable pub new_preprocessor :
    {T : Type 0} → ℕ → PreProcessorInfo T → List ℕ → List ℕ → Option (PreProcessor T)
unfolding fill_default
new_preprocessor id info group_ids column_ids = do
  let columns = length info.columns_to_aggregate
  default_feature ←
      fill_default info.default_vector columns (length info.rolling_windows_in_secs * columns) 0
  some (record {
    id = id;
    group_ids = group_ids;
    column_ids = column_ids;
    is_useless = false;
    info = info;
    default_feature = default_feature;
    rolling_windows = map (new_window id info) info.rolling_windows_in_secs;
    features = [];
  })

-- `group += e.row[groupId] + "+"` for each group column.
unfoldable pub join_group : List ℕ → List Text → Option Text
join_group [] row = some []
join_group (id ∷ ids) row = do
  cell ← get_elem? row id
  rest ← join_group ids row
  some (cell ++ codes "+" ++ rest)

unfoldable pub get_group_from_event : {T : Type 0} → PreProcessor T → TableEvent → Option Text
unfolding join_group
get_group_from_event p e = join_group p.group_ids e.row

-- The empty text stands for a group that could not be formed.
unfoldable pub join_filled : List ℕ → List Text → List Bool → Text → Option Text
join_filled [] row columns_filled group = some group
join_filled (id ∷ ids) row columns_filled group = do
  filled ← get_elem? columns_filled id
  let rest = (do
    cell ← get_elem? row id
    join_filled ids row columns_filled (group ++ cell ++ codes "+"))
  if not filled then some [] else rest

unfoldable pub get_group_from_row :
    {T : Type 0} → PreProcessor T → List Text → List Bool → Option Text
unfolding join_filled
get_group_from_row p row columns_filled = join_filled p.group_ids row columns_filled []

-- The rows of the model's input: the vector of a group that was seen, the default of any other.
unfoldable pub copy_features : {T : Type 0} → PreProcessor T → List Text → List T
copy_features p [] = []
copy_features p (group ∷ groups) =
    elim (find group p.features) [ none ↦ p.default_feature | some vector ↦ vector ]
    ++ copy_features p groups

module _ (s : Scalar) where
  open s use {T}

  unfoldable pub update_windows :
      ℕ → List (Window T) → Map (List T) → List TableEvent → Option (List (Window T) × Map (List T))
  update_windows now [] features all_events = some ([], features)
  update_windows now (w ∷ ws) features all_events = do
    (w', features') ← update_window s now w features all_events
    (ws', features'') ← update_windows now ws features' all_events
    some (w' ∷ ws', features'')

  unfoldable pub get_model_input :
      ℕ
      → PreProcessor T
      → List Text
      → List TableEvent
      → Option (PreProcessor T × Option (ModelInput T))
  unfolding update_windows copy_features
  get_model_input now p groups all_events = if p.is_useless then some (p, none) else do
    (windows, features) ← update_windows now p.rolling_windows p.features all_events
    let p' = record p { rolling_windows = windows; features = features }
    some (
      p',
      some (record {
        length = length groups * length p.default_feature;
        values = copy_features p' groups;
      }),
    )

  -- The columns of a new group, in window i and those behind it; the flag says whether one failed.
  unfoldable pub create_in_windows :
      ℕ → PreProcessor T → Text → List T → List (Window T) → ℕ → Option (List (Window T) × Bool)
  create_in_windows columns p group vector [] i = some ([], false)
  create_in_windows columns p group vector (w ∷ ws) i = do
    (w', success) ← create_aggregate_columns_for_group s w group p.column_ids vector (i * columns)
    (ws', failed) ← create_in_windows columns p group vector ws (i + 1)
    some (w' ∷ ws', (if not success then true else failed))

  unfoldable pub add_to_windows :
      ℕ
      → List (Window T)
      → Map (List T)
      → List TableEvent
      → ℕ
      → Option (List (Window T) × Map (List T))
  add_to_windows now [] features all_events i = some ([], features)
  add_to_windows now (w ∷ ws) features all_events i = do
    (w', features') ← Window.add_event s now w features all_events i
    (ws', features'') ← add_to_windows now ws features' all_events i
    some (w' ∷ ws', features'')

  -- A group that has no vector yet gets the default one, and its columns.
  unfoldable pub ensure_group : PreProcessor T → Text → Option (PreProcessor T)
  unfolding create_in_windows
  ensure_group p group = elim (find group p.features) [
    | some vector ↦ some p
    | none ↦ (do
      (windows, failed) ←
          create_in_windows (length p.info.columns_to_aggregate) p group p.default_feature
            p.rolling_windows 0
      some (record p {
        features = insert group p.default_feature p.features;
        rolling_windows = windows;
        is_useless = (if failed then true else p.is_useless);
      }))
  ]

  unfoldable pub add_event : ℕ → PreProcessor T → List TableEvent → ℕ → Option (PreProcessor T)
  unfolding ensure_group add_to_windows
  add_event now p all_events i = do
    e ← get_elem? all_events i
    group ← get_elem? e.groups p.id
    p' ← ensure_group p group
    (windows, features) ← add_to_windows now p'.rolling_windows p'.features all_events i
    some (record p' { rolling_windows = windows; features = features })
