-- ===== src/Executor/Model/Session.antt =====
-- ONNXModel.get_inference, and the constructor's preparation of the tensors.
use nimble_sdk.Prelude.{
  ℕ, suc, ◌+◌, ◌>>=◌, Bool, true, false, not, Option, none, some, List, [], ◌∷◌, ◌++◌, Text, length,
  replicate, ◌==◌, ◌||◌, if◌then◌else◌,
}
use nimble_sdk.Prelude.Map.{Map, insert}
use nimble_sdk.Prelude.Int.{ℤ}
use nimble_sdk.Status.{success, terminal_error}
use nimble_sdk.FeatureStore.{FeatureStoreManager}
use nimble_sdk.Executor.Structs.{
  ElementTypes, TensorInfo, ModelInfo, PreProcessorInput, InputBytes, get_field_size_from_data_type,
}
use nimble_sdk.Executor.Model.{
  Row, UserInput, Tensor, OnnxModel, released, Progress, load_inputs, fill_preprocessor_inputs,
  create_ort_tensor,
}

-- The bytes of all tensors; a null or a freed one is a fault.
unfoldable pub memories : List (Option Tensor) → Option (List (List ℕ))
memories [] = some []
memories (v ∷ vs) = do t ← v; bytes ← t.memory; rest ← memories vs; some (bytes ∷ rest)

unfoldable pub number_names : ℕ → List TensorInfo → Map ℕ → Map ℕ
number_names i [] ids = ids
number_names i (t ∷ ts) ids = number_names (i + 1) ts (insert t.name i ids)

module _ (e : ElementTypes) where
  -- The entries of the return object, before their bytes are written; `false` if a type has no size.
  unfoldable pub allocate_output_memory : List TensorInfo → List (Option TensorInfo) × Bool
  allocate_output_memory [] = ([], true)
  allocate_output_memory (t ∷ ts) =
      let (outputs, ok) = allocate_output_memory ts in
      if get_field_size_from_data_type e t.data_type == 0
      then (replicate (suc (length ts)) none, false)
      else (some t ∷ outputs, ok)

  -- run_dummy_inference, whose result is not looked at: the tensors it leaves behind point to the
  -- memory that it frees. `none` where it throws.
  unfoldable pub dummy_tensors : List TensorInfo → Option (List (Option Tensor))
  unfolding create_ort_tensor
  dummy_tensors [] = some []
  dummy_tensors (t ∷ ts) = do
    v ← create_ort_tensor e t []
    rest ← dummy_tensors ts
    some (some (record v { memory = none }) ∷ rest)

  -- The four types with a preprocessor.
  abbrev pub has_preprocessor : ℕ → Bool
  has_preprocessor t = (t == e.float) || (t == e.int64) || (t == e.int32) || (t == e.double)

  module _ {U : Type 0} (create_preprocessor : U → Text → TensorInfo → Option (U × Bool)) where
    -- The preprocessors of a new model. The outer option is a fault, the flag is false where the
    -- constructor throws.
    unfoldable pub create_preprocessors : Text → List TensorInfo → U → Option (U × Bool)
    create_preprocessors model_id [] events = some (events, true)
    create_preprocessors model_id (t ∷ ts) events =
        let next = create_preprocessors model_id ts in
        if not t.to_preprocess
        then next events
        else if not (has_preprocessor t.data_type)
        then some (events, false)
        else (do
          (events', created) ← create_preprocessor events (model_id ++ t.name) t
          if created then next events' else some (events', false))

    -- The constructor, given whether the runtime can make a session of the plan; `none` inside where
    -- it throws.
    unfoldable pub new_model : Bool → ModelInfo → Text → Text → U → Option (U × Option OnnxModel)
    unfolding create_preprocessors number_names dummy_tensors allocate_output_memory
    new_model session info version model_id events =
        if not session then some (events, none) else (do
          (events', created) ← create_preprocessors model_id info.inputs events
          let (outputs, allocated) = allocate_output_memory info.outputs
          let model : List (Option Tensor) → OnnxModel = λ tensors. record {
            info = info;
            model_id = model_id;
            version = version;
            input_tensors = tensors;
            input_names_to_id_map = number_names 0 info.inputs [];
          }
          some (
            events',
            if not created then none else elim (dummy_tensors info.inputs) [
              | none ↦ none
              | some tensors ↦ if allocated then some (model tensors) else none
            ],
          ))

  module _ {U : Type 0} (model_input : U → Text → List Row → Option (U × Option InputBytes)) where
    -- The method's effects: the model, the user events, the inputs to save and the status.
    pub record Inferred : Type 0 where
      pub model : OnnxModel
      pub events : U
      pub saved : List PreProcessorInput
      pub outputs : List (List ℕ)
      pub status : ℤ

    abbrev pub stopped : OnnxModel → Progress e model_input → ℤ → Inferred
    stopped m p status = record {
      model = record m { input_tensors = released p.tensors };
      events = p.events;
      saved = p.saved;
      outputs = [];
      status = status;
    }

    -- Session::Run on the memory of the tensors.
    unfoldable pub run_session :
        (List (List ℕ) → Option (List (List ℕ)))
        → OnnxModel
        → Progress e model_input
        → Option Inferred
    unfolding memories
    run_session run m p = do
      bytes ← memories p.tensors
      let done = stopped m p terminal_error
      some (elim (run bytes) [
        | none ↦ done
        | some outputs ↦ record done { outputs = outputs; status = success }
      ])

    unfoldable pub get_inference :
        (List (List ℕ) → Option (List (List ℕ)))
        → OnnxModel
        → FeatureStoreManager
        → U
        → List UserInput
        → Option Inferred
    unfolding load_inputs fill_preprocessor_inputs allocate_output_memory run_session
    get_inference run m features events req =
        let start : Progress e model_input = record {
          events = events;
          tensors = m.input_tensors;
          saved = [];
        } in
        do
          (p, status) ← load_inputs e model_input features req m.info.inputs 0 start
          elim status [
            | some s ↦ some (stopped m p s)
            | none ↦ (do
              (p', status') ←
                  fill_preprocessor_inputs e model_input m req m.info.preprocessor_inputs p
              elim status' [
                | some s ↦ some (stopped m p' s)
                | none ↦
                    let (outputs, ok) = allocate_output_memory m.info.outputs in
                    if not ok then some (stopped m p' terminal_error) else run_session run m p'
              ])
          ]
