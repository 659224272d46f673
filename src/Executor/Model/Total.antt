-- ===== src/Executor/Model/Total.antt =====
-- get_inference never reads memory that is not there, and returns.
use nimble_sdk.Prelude.{ℕ, ◌≡◌, true, some, get_elem?}
use nimble_sdk.Prelude.Keys.{Mem}
use nimble_sdk.Prelude.Map.{find}
use nimble_sdk.Executor.Structs.{TensorInfo, PreProcessorInputInfo}
use nimble_sdk.Executor.Model.{OnnxModel}

-- Every input that is left to a preprocessor is named by one of the preprocessor inputs, under the
-- place that the model's map has for its name.
abbrev pub Covered : OnnxModel → Type 0
Covered m =
    (i : ℕ) (t : TensorInfo)
    → get_elem? m.info.inputs i ≡ some t
    → t.to_preprocess ≡ true
    → (k : ℕ) × (info : PreProcessorInputInfo) × (get_elem? m.info.preprocessor_inputs k
        ≡ some info)
      × Mem t.name info.input_names
      × (find t.name m.input_names_to_id_map ≡ some i)
