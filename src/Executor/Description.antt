-- ===== src/Executor/Description.antt =====
-- nimblenet/Executors/onnx/src/ONNXExecutorStructs.cpp: the description of a model. `number` reads an
-- int that is not negative. The json of a tensor's preprocessor, which UserEvents.Description reads,
-- stands beside the tensor.
use nimble_sdk.Prelude.{ℕ, true, false, Option, none, some, List, [], ◌∷◌, Text, codes, ◌>>=◌}
use nimble_sdk.Json.{Json, get_json, text_at, texts_at, optional}
use nimble_sdk.Executor.Structs.{TensorInfo, PreProcessorInputInfo, ModelInfo, size_of_shape}

module _ (json : Json) (number : json.J → Option ℕ) where
  open json use {J, at, as_text, as_list}

  unfoldable pub all_numbers : List J → Option (List ℕ)
  all_numbers [] = some []
  all_numbers (v ∷ vs) = do n ← number v; ns ← all_numbers vs; some (n ∷ ns)

  unfoldable pub read_tensor : J → Option (TensorInfo × Option J)
  unfolding all_numbers
  read_tensor j = do
    name ← text_at json (codes "name") j
    data_type_json ← at (codes "dataType") j
    data_type ← number data_type_json
    (is_feature, feature_name) ← (elim (at (codes "featureStore") j) [
      | none ↦ some (false, [])
      | some v ↦ (do t ← as_text v; some (true, t))
    ])
    shape_json ← at (codes "shape") j
    shape_list ← as_list shape_json
    shape ← all_numbers shape_list
    some (
      record {
        name = name;
        data_type = data_type;
        feature_name = feature_name;
        is_feature = is_feature;
        shape = shape;
        size = size_of_shape shape;
        to_preprocess = elim (at (codes "processor") j) [ none ↦ false | some v ↦ true ];
      },
      at (codes "processor") j,
    )

  unfoldable pub read_tensors : List J → Option (List TensorInfo)
  unfolding read_tensor
  read_tensors [] = some []
  read_tensors (v ∷ vs) = do (t, processor) ← read_tensor v; ts ← read_tensors vs; some (t ∷ ts)

  unfoldable pub read_preprocessor_input : J → Option PreProcessorInputInfo
  read_preprocessor_input j = do
    name ← text_at json (codes "name") j
    input_names ← texts_at json (codes "inputNames") j
    some (record { name = name; input_names = input_names })

  unfoldable pub read_preprocessor_inputs : List J → Option (List PreProcessorInputInfo)
  unfolding read_preprocessor_input
  read_preprocessor_inputs [] = some []
  read_preprocessor_inputs (v ∷ vs) = do
    p ← read_preprocessor_input v
    ps ← read_preprocessor_inputs vs
    some (p ∷ ps)

  unfoldable pub read_model_info : J → Option ModelInfo
  unfolding read_tensors read_preprocessor_inputs
  read_model_info j = do
    inputs_json ← at (codes "inputs") j
    inputs_list ← as_list inputs_json
    inputs ← read_tensors inputs_list
    outputs_json ← at (codes "outputs") j
    outputs_list ← as_list outputs_json
    outputs ← read_tensors outputs_list
    preprocessor_inputs ←
        optional json (λ v. do vs ← as_list v; read_preprocessor_inputs vs)
          (codes "inputsToProcessors") j []
    some (record { inputs = inputs; outputs = outputs; preprocessor_inputs = preprocessor_inputs })

  -- What the executor reads of a text; `none` is a description that is not valid.
  unfoldable pub model_info_of : Text → Option ModelInfo
  unfolding read_model_info
  model_info_of t = get_json json (λ j. do m ← read_model_info j; some (some m)) none t
