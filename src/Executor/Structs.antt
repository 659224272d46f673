-- ===== src/Executor/Structs.antt =====
-- nimblenet/Executors/onnx/include: the structs of ONNXExecutorStructs.h and ExecutorStructs.h. Memory behind a pointer is the list of
-- its bytes. A shape has extents that are not negative, and its size is in the range of an int.
use nimble_sdk.Prelude.Int.{ℤ}
use nimble_sdk.Prelude.{Option, ℕ, ◌*◌, Bool, List, [], ◌∷◌, Text, ◌==◌, ◌||◌, if◌then◌else◌}

abbrev pub preprocessor_input_type : ℕ
preprocessor_input_type = 666

-- The values of ONNXTensorElementDataType that the source uses, from the runtime's header.
pub record ElementTypes : Type 0 where
  pub float : ℕ
  pub int32 : ℕ
  pub double : ℕ
  pub int64 : ℕ

pub record TensorInfo : Type 0 where
  pub name : Text
  pub data_type : ℕ
  pub feature_name : Text
  pub is_feature : Bool
  pub shape : List ℕ
  pub size : ℕ
  pub to_preprocess : Bool

pub record PreProcessorInputInfo : Type 0 where
  pub name : Text
  pub input_names : List Text

pub record ModelInfo : Type 0 where
  pub inputs : List TensorInfo
  pub outputs : List TensorInfo
  pub preprocessor_inputs : List PreProcessorInputInfo

-- ModelInput of the executor: the vector of a preprocessor as bytes, `length` elements.
pub record InputBytes : Type 0 where
  pub length : ℕ
  pub bytes : List ℕ

-- `tensorInfoPtr` points into the model that made the input, the one of the identifier `owner`: it
-- is `none` once that model is gone.
pub record PreProcessorInput : Type 0 where
  pub model_input : InputBytes
  pub owner : Text
  pub tensor_info : Option TensorInfo

-- PlanData of ResourceManagerStructs.h: a model, its version and its description.
pub record PlanData : Type 0 where
  pub valid : Bool
  pub version : Text
  pub plan : Text
  pub extra_fields : Text
  pub plan_length : ℤ

-- The loop of from_json(TensorInfo) over the shape.
abbrev pub size_of_shape : List ℕ → ℕ
size_of_shape shape = multiplied 1 shape
  where
    multiplied : ℕ → List ℕ → ℕ
    multiplied size [] = size
    multiplied size (n ∷ ns) = multiplied (size * n) ns

unfoldable pub get_field_size_from_data_type : ElementTypes → ℕ → ℕ
get_field_size_from_data_type e data_type =
    if (data_type == e.float) || (data_type == e.int32)
    then 4
    else if (data_type == e.double) || (data_type == e.int64)
    then 8
    else 0
