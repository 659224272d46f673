-- ===== src/Executor/Model.antt =====
-- nimblenet/Executors/onnx: ONNXModel. The runtime's session is the argument `run`, which has the
-- bytes of the outputs, or `none` where Session::Run throws; the manager of the user events is the
-- argument `model_input`. The memory behind a tensor is `none` once it is freed: between two calls
-- no tensor has memory, since a model keeps the tensors of its last inference and not what they
-- point to. Reading freed memory is a fault. Metrics and debug output are left out.
pub mod Session
pub mod Ends
pub mod Fresh
pub mod Filled
pub mod Total
pub mod Construct
use nimble_sdk.Prelude.{
  ℕ, zero, suc, ◌+◌, ◌*◌, ◌>>=◌, Bool, true, false, not, Option, none, some, List, [], ◌∷◌, ◌++◌,
  Text, eq_text, get_elem?, set, map, length, replicate, ◌==◌, if◌then◌else◌,
}
use nimble_sdk.Prelude.Map.{Map, find, insert}
use nimble_sdk.Prelude.Int.{ℤ, pos, eq_ℤ}
use nimble_sdk.Status.{success, terminal_error, retryable_error}
use nimble_sdk.FeatureStore.{FeatureStoreManager, Feature, get_read_lock, get_feature}
use nimble_sdk.Executor.Structs.{
  ElementTypes, TensorInfo, PreProcessorInputInfo, ModelInfo, PreProcessorInput, InputBytes,
  get_field_size_from_data_type, preprocessor_input_type,
}

-- One SinglePreprocessorInput, by its keys.
abbrev pub Row : Type 0
Row = List (Text × Text)

-- What `UserInput.data` points to.
pub data RequestData : Type 0 where
  raw : List ℕ → RequestData
  rows : List Row → RequestData

pub record UserInput : Type 0 where
  pub content : RequestData
  pub length : ℕ
  pub name : Text
  pub data_type : ℕ

pub record Tensor : Type 0 where
  pub memory : Option (List ℕ)
  pub size_bytes : ℕ
  pub shape : List ℕ
  pub data_type : ℕ

pub record OnnxModel : Type 0 where
  pub info : ModelInfo
  pub model_id : Text
  pub version : Text
  pub input_tensors : List (Option Tensor)
  pub input_names_to_id_map : Map ℕ

abbrev release_one : Option Tensor → Option Tensor
release_one none = none
release_one (some t) = some (record t { memory = none })

unfoldable pub released : List (Option Tensor) → List (Option Tensor)
released = map release_one

-- The first input of the request with a name.
unfoldable pub client_input : Text → List UserInput → Option UserInput
client_input name [] = none
client_input name (r ∷ rs) = if eq_text name r.name then some r else client_input name rs

-- The pointer cast to raw memory, or to rows.
abbrev pub as_raw : RequestData → Option (List ℕ)
as_raw (raw bytes) = some bytes
as_raw (rows rs) = none

abbrev pub as_rows : RequestData → Option (List Row)
as_rows (raw bytes) = none
as_rows (rows rs) = some rs

module _ (e : ElementTypes) where
  -- A data type as an int, since a feature that was never loaded has -1.
  unfoldable pub field_size : ℤ → ℕ
  unfolding get_field_size_from_data_type
  field_size (pos t) = get_field_size_from_data_type e t
  field_size _ = 0

  unfoldable pub create_ort_tensor : TensorInfo → List ℕ → Option Tensor
  create_ort_tensor t bytes =
      let size = get_field_size_from_data_type e t.data_type in
      if size == 0
      then none
      else some (record {
        memory = some bytes;
        size_bytes = size * t.size;
        shape = t.shape;
        data_type = t.data_type;
      })

  unfoldable pub check_input : TensorInfo → ℤ → ℕ → Bool
  unfolding field_size
  check_input t data_type input_size_bytes =
      let size = field_size data_type in
      if size == 0
      then false
      else if not (t.size * size == input_size_bytes)
      then false
      else if not (eq_ℤ (pos t.data_type) data_type)
      then false
      else true

  -- The manager of the user events: its state, and `none` for a fault.
  module _ {U : Type 0} (model_input : U → Text → List Row → Option (U × Option InputBytes)) where
    pub record Progress : Type 0 where
      pub events : U
      pub tensors : List (Option Tensor)
      pub saved : List PreProcessorInput

    -- A loop of get_inference ends, or returns a status from the method.
    abbrev pub Loop : Type 0
    Loop = Option (Progress × Option ℤ)

    abbrev pub return_with : ℤ → Progress → Loop
    return_with status p = some (p, some status)

    -- `_inputTensors[i] = std::move(createdTensor)`, if it has a value.
    abbrev pub place : TensorInfo → ℕ → List ℕ → Progress → (Progress → Loop) → Loop
    place t i bytes p next = elim (create_ort_tensor t bytes) [
      | none ↦ return_with terminal_error p
      | some v ↦ next (record p { tensors = set p.tensors i (some v) })
    ]

    -- One round of the loop over the inputs: the i-th, whose info is t, and the rounds after it.
    unfoldable pub load_input :
        FeatureStoreManager → List UserInput → TensorInfo → ℕ → Progress → (Progress → Loop) → Loop
    unfolding client_input create_ort_tensor check_input
    load_input features req t i p next =
        if t.to_preprocess
        then next p
        else if t.is_feature
        then (if get_read_lock features t.feature_name
            then (do
              feature ← get_feature features t.feature_name
              if check_input t feature.data_type (length feature.bytes)
                  then place t i feature.bytes p next
                  else return_with terminal_error p)
            else return_with retryable_error p)
        else elim (client_input t.name req) [
          | none ↦ return_with terminal_error p
          | some r ↦
              if check_input t (pos r.data_type)
                (r.length * get_field_size_from_data_type e r.data_type)
              then (do bytes ← as_raw r.content; place t i bytes p next)
              else return_with terminal_error p
        ]

    unfoldable pub load_inputs :
        FeatureStoreManager → List UserInput → List TensorInfo → ℕ → Progress → Loop
    unfolding load_input
    load_inputs features req [] i p = some (p, none)
    load_inputs features req (t ∷ ts) i p =
        load_input features req t i p (load_inputs features req ts (i + 1))

    -- The input i, whose info is t, from the rows of a preprocessor input.
    unfoldable pub fill_input :
        Text → List Row → TensorInfo → ℕ → Progress → (Progress → Loop) → Loop
    unfolding create_ort_tensor check_input
    fill_input model_id input t i p next =
        if t.to_preprocess
        then (do
          (events', filled) ← model_input p.events (model_id ++ t.name) input
          let p' = record p { events = events' }
          elim filled [
            | none ↦ return_with terminal_error p'
            | some v ↦
                let p'' = record p' {
                  saved =
                      p.saved
                      ++ record { model_input = v; owner = model_id; tensor_info = some t } ∷ [];
                } in
                if check_input t (pos t.data_type)
                  (v.length * get_field_size_from_data_type e t.data_type)
                then place t i v.bytes p'' next
                else return_with terminal_error p''
          ])
        else return_with terminal_error p

    -- The inputs that one preprocessor input fills.
    unfoldable pub fill_names : OnnxModel → List Row → List Text → Progress → Loop
    unfolding fill_input
    fill_names m input [] p = some (p, none)
    fill_names m input (name ∷ names) p = elim (find name m.input_names_to_id_map) [
      | none ↦ return_with terminal_error p
      | some i ↦ (do
        t ← get_elem? m.info.inputs i
        fill_input m.model_id input t i p (fill_names m input names))
    ]

    unfoldable pub fill_preprocessor_inputs :
        OnnxModel → List UserInput → List PreProcessorInputInfo → Progress → Loop
    unfolding client_input fill_names
    fill_preprocessor_inputs m req [] p = some (p, none)
    fill_preprocessor_inputs m req (info ∷ infos) p =
        let next = fill_preprocessor_inputs m req infos in
        elim (client_input info.name req) [
          | none ↦ return_with terminal_error p
          | some r ↦
              if r.data_type == preprocessor_input_type
              then (do
                input ← as_rows r.content
                (p', status) ← fill_names m input info.input_names p
                elim status [ none ↦ next p' | some s ↦ return_with s p' ])
              else return_with terminal_error p
        ]
