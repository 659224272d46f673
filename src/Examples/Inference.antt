-- ===== src/Examples/Inference.antt =====
-- The executor at a model with one input of the client and one of a preprocessor.
use nimble_sdk.Prelude.{
  ℕ, zero, suc, ◌+◌, ◌≡◌, Bool, true, false, Option, none, some, List, [], ◌∷◌, Text, codes,
  get_elem?, arith, IfSome, ◌⊎◌,
}
use nimble_sdk.Prelude.Keys.{Mem}
use nimble_sdk.Prelude.Map.{find}
use nimble_sdk.Executor.Structs.{
  ElementTypes, TensorInfo, PreProcessorInputInfo, InputBytes, PreProcessorInput,
}
use nimble_sdk.Executor.Inputs.{get_inputs_for_infer_id}
use nimble_sdk.Executor.Inputs.Recent.{
  get_inputs_for_infer_id-Recall, Recall, database_of, answer, History,
}
use nimble_sdk.Executor.Model.{Row, UserInput, OnnxModel, raw, rows}
use nimble_sdk.Executor.Model.Session.{number_names, new_model}
use nimble_sdk.Executor.Model.Construct.{new_model-Ready, Ready, Made, Fails}

abbrev pub types : ElementTypes
types = record { float = 1; int32 = 6; double = 11; int64 = 7 }

abbrev input : Text → Bool → TensorInfo
input name to_preprocess = record {
  name = name;
  data_type = 6;
  feature_name = [];
  is_feature = false;
  shape = 1 ∷ [];
  size = 1;
  to_preprocess = to_preprocess;
}

abbrev model : OnnxModel
model = record {
  info = record {
    inputs = input (codes "age") false ∷ input (codes "clicks") true ∷ [];
    outputs = input (codes "score") false ∷ [];
    preprocessor_inputs = record { name = codes "user"; input_names = codes "clicks" ∷ [] } ∷ [];
  };
  model_id = codes "m";
  version = codes "1.0.0";
  input_tensors = none ∷ none ∷ [];
  input_names_to_id_map =
      number_names 0 (input (codes "age") false ∷ input (codes "clicks") true ∷ []) [];
}

abbrev request : List UserInput
request =
    record { content = raw (5 ∷ 0 ∷ 0 ∷ 0 ∷ []); length = 1; name = codes "age"; data_type = 6 }
    ∷ record {
      content = rows (((codes "user", codes "ann") ∷ []) ∷ []);
      length = 1;
      name = codes "user";
      data_type = 666;
    }
    ∷ []

-- The user events are a count of the requests for a model input, which has to start at one.
abbrev model_input : ℕ → Text → List Row → Option (ℕ × Option InputBytes)
model_input zero id rs = none
model_input (suc u) id rs =
    some (suc (suc u), some (record { length = 1; bytes = 3 ∷ 0 ∷ 0 ∷ 0 ∷ [] }))

abbrev IsStarted : ℕ → Type 0
IsStarted zero = ⊥
IsStarted (suc u) = Unit

abbrev run : List (List ℕ) → Option (List (List ℕ))
run inputs = some inputs

-- What `covered` says of the input i.
abbrev CoveredAt : ℕ → TensorInfo → Type 0
CoveredAt i t =
    (k : ℕ) × (info : PreProcessorInputInfo) × (get_elem? model.info.preprocessor_inputs k
      ≡ some info)
    × Mem t.name info.input_names
    × (find t.name model.input_names_to_id_map ≡ some i)

abbrev saved : Text → History
saved id = (id, []) ∷ []

abbrev history : History
history = (codes "c", []) ∷ (codes "b", []) ∷ (codes "a", []) ∷ []

get_inputs_for_infer_id-Recall_example :
    (r : Option (List PreProcessorInput)) × (get_inputs_for_infer_id types
        (database_of 2 history)
        (codes "b")
      ≡ answer types r)
    × Recall 2 history (codes "b") r
get_inputs_for_infer_id-Recall_example =
    get_inputs_for_infer_id-Recall types 2 history (codes "b") (omega arith) (λ e. cc)

new_model-Ready_example :
    IfSome
      (λ r. Ready types model.info r.1)
      (new_model types
        (λ events id t. some (events + 1, true))
        true
        model.info
        (codes "1.0.0")
        (codes "m")
        0)
    × (Made types
          (λ events id t. some (events + 1, true))
          true
          model.info
          (codes "1.0.0")
          (codes "m")
          0
        ⊎ Fails types
            (λ events id t. some (events + 1, true))
            true
            model.info
            (codes "1.0.0")
            (codes "m")
            0)
new_model-Ready_example =
    new_model-Ready types (λ events id t. some (events + 1, true)) true model.info (codes "1.0.0")
      (codes "m") 0
