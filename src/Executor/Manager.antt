-- ===== src/Executor/Manager.antt =====
-- nimblenet/Executors/onnx: ONNXExecutor. The parsing of a model's description is the argument
-- `parse`, and whether the runtime can make a session of a plan is `session`.
pub mod Retries
use nimble_sdk.Prelude.{
  ℕ, ◌>>=◌, Bool, true, false, not, ◌&&◌, Option, none, some, List, [], ◌∷◌, Text, if◌then◌else◌,
}
use nimble_sdk.Prelude.Map.{Map, find, insert, contains}
use nimble_sdk.Prelude.Int.{ℤ, pos, pred_ℤ, leb_ℤ}
use nimble_sdk.Status.{terminal_error}
use nimble_sdk.FeatureStore.{FeatureStoreManager}
use nimble_sdk.Executor.Structs.{ElementTypes, TensorInfo, ModelInfo, InputBytes, PlanData}
use nimble_sdk.Executor.Inputs.{
  InferenceInputsDatabase, new_database, add_input_for_infer_id, release_model,
  get_inputs_for_infer_id, Output,
}
use nimble_sdk.Executor.Model.{Row, UserInput, OnnxModel}
use nimble_sdk.Executor.Model.Session.{new_model, get_inference, Inferred}

pub record OnnxExecutor : Type 0 where
  pub model_map : Map OnnxModel
  pub load_model_retries : Map ℤ
  pub is_model_updated : Map Bool
  pub inference_data_base : InferenceInputsDatabase

abbrev pub default_load_model_retries : ℤ
default_load_model_retries = pos 3

unfoldable pub start_all {ℓ} : {V : Type ℓ} → V → List Text → Map V → Map V
start_all v [] m = m
start_all v (id ∷ ids) m = start_all v ids (insert id v m)

unfoldable pub new_executor : List Text → ℕ → OnnxExecutor
unfolding start_all new_database
new_executor model_ids max_inputs_to_save = record {
  model_map = [];
  load_model_retries = start_all default_load_model_retries model_ids [];
  is_model_updated = start_all false model_ids [];
  inference_data_base = new_database max_inputs_to_save;
}

unfoldable pub check_plan_loaded : OnnxExecutor → Text → Bool
check_plan_loaded x model_id = contains model_id x.model_map

unfoldable pub get_plan_version : OnnxExecutor → Text → Text
get_plan_version x model_id = elim (find model_id x.model_map) [ none ↦ [] | some m ↦ m.version ]

unfoldable pub reset_model_retries : OnnxExecutor → Text → OnnxExecutor
reset_model_retries x model_id = elim (find model_id x.load_model_retries) [
  | none ↦ x
  | some n ↦ record x {
    load_model_retries = insert model_id default_load_model_retries x.load_model_retries;
  }
]

unfoldable pub update_model_retries : OnnxExecutor → Text → OnnxExecutor
update_model_retries x model_id = elim (find model_id x.load_model_retries) [
  | none ↦ x
  | some n ↦ record x { load_model_retries = insert model_id (pred_ℤ n) x.load_model_retries }
]

-- `_isModelUpdated[modelId]` makes an entry for a missing key.
unfoldable pub updated_flag : OnnxExecutor → Text → OnnxExecutor × Bool
updated_flag x model_id = elim (find model_id x.is_model_updated) [
  | none ↦ (record x { is_model_updated = insert model_id false x.is_model_updated }, false)
  | some flag ↦ (x, flag)
]

unfoldable pub retries_left : OnnxExecutor → Text → Bool
retries_left x model_id = elim (find model_id x.load_model_retries) [
  | none ↦ false
  | some n ↦ not (leb_ℤ n (pos 0))
]

unfoldable pub can_model_retry : OnnxExecutor → Text → OnnxExecutor × Bool
unfolding check_plan_loaded updated_flag retries_left
can_model_retry x model_id =
    if check_plan_loaded x model_id
    then (let (x', updated) = updated_flag x model_id in
        (x', if updated then false else retries_left x' model_id))
    else (x, retries_left x model_id)

unfoldable pub plan_updated : OnnxExecutor → Text → Bool → OnnxExecutor
plan_updated x model_id is_updated = elim (find model_id x.is_model_updated) [
  | none ↦ x
  | some flag ↦ record x { is_model_updated = insert model_id is_updated x.is_model_updated }
]

-- The version for ModelStatus; `none` where the method returns false.
unfoldable pub get_model_status : OnnxExecutor → Text → Option Text
get_model_status x model_id = elim (find model_id x.model_map) [
  | none ↦ none
  | some m ↦ some m.version
]

module _ (e : ElementTypes) where
  abbrev pub inputs_for_infer_id :
      OnnxExecutor → Text → Option (Option (List (Option Output)) × Bool)
  inputs_for_infer_id x = get_inputs_for_infer_id e x.inference_data_base

  module _ {U : Type 0} (parse : Text → Option ModelInfo) (session : Text → Bool)
      (create_preprocessor : U → Text → TensorInfo → Option (U × Bool)) where
    -- The new model takes the place of the old one, which nothing else holds, and is gone then.
    unfoldable pub load_plan : OnnxExecutor → Text → PlanData → U → Option (OnnxExecutor × U × Bool)
    unfolding new_model
    load_plan x model_id d events = elim (parse d.extra_fields) [
      | none ↦ some (x, events, false)
      | some info ↦ (do
        (events', model) ←
            new_model e create_preprocessor (session d.plan) info d.version model_id events
        some (elim model [
          | none ↦ (x, events', false)
          | some m ↦ (
            record x {
              model_map = insert model_id m x.model_map;
              inference_data_base = release_model model_id x.inference_data_base;
            },
            events',
            true,
          )
        ]))
    ]

  module _ {U : Type 0} (model_input : U → Text → List Row → Option (U × Option InputBytes))
      (run : List (List ℕ) → Option (List (List ℕ))) where
    -- ONNXExecutor.get_inference: the executor, the user events, the outputs and the status.
    unfoldable pub get_inference_of :
        OnnxExecutor
        → Text
        → Text
        → FeatureStoreManager
        → U
        → List UserInput
        → Option (OnnxExecutor × U × List (List ℕ) × ℤ)
    unfolding get_inference add_input_for_infer_id
    get_inference_of x infer_id model_id features events req = elim (find model_id x.model_map) [
      | none ↦ some (x, events, [], terminal_error)
      | some m ↦ (do
        r ← get_inference e model_input run m features events req
        let x' = record x {
          model_map = insert model_id r.model x.model_map;
          inference_data_base = add_input_for_infer_id x.inference_data_base infer_id r.saved;
        }
        some (x', r.events, r.outputs, r.status))
    ]
