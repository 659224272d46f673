-- ===== src/Executor/Inputs.antt =====
-- nimblenet/Executors/onnx: InferenceInputsDatabase, the preprocessed inputs of the last inferences.
pub mod Recent
use nimble_sdk.Prelude.{
  ℕ, zero, suc, ◌+◌, ◌*◌, ◌%◌, Bool, true, false, Option, none, some, List, [], ◌∷◌, Text, eq_text,
  get_elem?, set, length, map, replicate, ◌==◌, if◌then◌else◌, ◌>>=◌,
}
use nimble_sdk.Executor.Structs.{
  ElementTypes, TensorInfo, PreProcessorInput, InputBytes, get_field_size_from_data_type,
}

pub record InferenceInputsDatabase : Type 0 where
  pub preprocessor_inputs_for_infer_ids : List (List PreProcessorInput)
  pub infer_ids : List Text
  pub over_write_inference_index : ℕ
  pub max_inferences_saved : ℕ

unfoldable pub new_database : ℕ → InferenceInputsDatabase
new_database max = record {
  preprocessor_inputs_for_infer_ids = replicate max [];
  infer_ids = replicate max [];
  over_write_inference_index = 0;
  max_inferences_saved = max;
}

unfoldable pub add_input_for_infer_id :
    InferenceInputsDatabase → Text → List PreProcessorInput → InferenceInputsDatabase
add_input_for_infer_id db infer_id inputs =
    if db.max_inferences_saved == 0
    then db
    else (let i = db.over_write_inference_index in
        record db {
          preprocessor_inputs_for_infer_ids = set db.preprocessor_inputs_for_infer_ids i inputs;
          infer_ids = set db.infer_ids i infer_id;
          over_write_inference_index = (i + 1) % db.max_inferences_saved;
        })

-- What the end of a model does to the inputs that were saved for it: their pointers dangle.
abbrev pub release_model : Text → InferenceInputsDatabase → InferenceInputsDatabase
release_model model_id db = record db {
  preprocessor_inputs_for_infer_ids =
      map
        (map (λ (p : PreProcessorInput).
          if eq_text p.owner model_id then record p { tensor_info = none } else p))
        db.preprocessor_inputs_for_infer_ids;
}

-- One entry of an ONNXInferenceReturn.
pub record Output : Type 0 where
  pub bytes : List ℕ
  pub shape : List ℕ
  pub length : ℕ
  pub name : Text
  pub data_type : ℕ

-- `memcpy` of n bytes, which reads no more than there are.
unfoldable pub read_bytes : ℕ → List ℕ → Option (List ℕ)
read_bytes zero bytes = some []
read_bytes (suc n) [] = none
read_bytes (suc n) (b ∷ bytes) = do rest ← read_bytes n bytes; some (b ∷ rest)

-- The entries of the return object, `none` where they stay null pointers, and the method's result.
unfoldable pub populate_preprocessors_input_in_return_object :
    ElementTypes → List PreProcessorInput → Option (List (Option Output) × Bool)
unfolding read_bytes
populate_preprocessors_input_in_return_object e [] = some ([], true)
populate_preprocessors_input_in_return_object e (p ∷ ps) =
    let rest = populate_preprocessors_input_in_return_object e ps in
    do
      t ← p.tensor_info
      let field_size = get_field_size_from_data_type e t.data_type
      if field_size == 0 then some (replicate (suc (length ps)) none, false) else (do
        copied ← read_bytes (t.size * field_size) p.model_input.bytes
        (outputs, ok) ← rest
        some (
          some (record {
            bytes = copied;
            shape = t.shape;
            length = t.size;
            name = t.name;
            data_type = t.data_type;
          })
              ∷ outputs,
          ok,
        ))

-- The slots i, …, i + n - 1 are searched for an inference.
unfoldable pub find_inputs :
    InferenceInputsDatabase → Text → ℕ → ℕ → Option (Option (List PreProcessorInput))
find_inputs db infer_id zero i = some none
find_inputs db infer_id (suc n) i =
    let rest = find_inputs db infer_id n (i + 1) in
    do
      saved ← get_elem? db.infer_ids i
      if eq_text saved infer_id
          then (do inputs ← get_elem? db.preprocessor_inputs_for_infer_ids i; some (some inputs))
          else rest

unfoldable pub get_inputs_for_infer_id :
    ElementTypes → InferenceInputsDatabase → Text → Option (Option (List (Option Output)) × Bool)
unfolding find_inputs populate_preprocessors_input_in_return_object
get_inputs_for_infer_id e db infer_id = do
  found ← find_inputs db infer_id db.max_inferences_saved 0
  elim found [
    | none ↦ some (none, false)
    | some inputs ↦ (do
      (outputs, ok) ← populate_preprocessors_input_in_return_object e inputs
      some (some outputs, ok))
  ]
