-- ===== src/Nimble.antt =====
-- nimblenet/nimblenet: the C interface. Its logger is the field `logger` of the command center, and
-- its other functions pass a call on to the command center. What init_logger finds at
-- the directories of the logs and of the metrics are the arguments `logs` and `metrics`.
pub mod Again
use nimble_sdk.Prelude.{ℕ, Bool, not, Option, some, List, Text, if◌then◌else◌, ◌>>=◌}
use nimble_sdk.Prelude.Int.{ℤ}
use nimble_sdk.Json.{Json}
use nimble_sdk.Config.{load_user_config}
use nimble_sdk.Server.{Network}
use nimble_sdk.Logger.{Moment, init_logger, update_device_details}
use nimble_sdk.Executor.Structs.{ElementTypes, TensorInfo, ModelInfo, InputBytes}
use nimble_sdk.Executor.Inputs.{Output}
use nimble_sdk.Executor.Model.{Row, UserInput}
use nimble_sdk.CommandCenter.{CommandCenter}
use nimble_sdk.CommandCenter.Calls
use nimble_sdk.CommandCenter.Start.{initialize}

module _ (json : Json) (network : Network) (e : ElementTypes) (parse : Text → Option ModelInfo)
    (session : Text → Bool) {U : Type 0}
    (create_preprocessor : U → Text → TensorInfo → Option (U × Bool))
    (new_events : List json.J → Bool → Option U) where
  unfoldable pub initialize_nimblenet :
      ℕ
      → Moment
      → (logs metrics : Bool) → Text
      → CommandCenter json U
      → Option (CommandCenter json U × ℕ)
  unfolding init_logger load_user_config update_device_details initialize
  initialize_nimblenet now m logs metrics config_json c =
      let (l, ready) = init_logger m logs c.logger in
      if not ready then some (record c { logger = l }, 0) else (do
        config ← load_user_config json config_json
        let known = update_device_details config.device_id config.client_id config.debug l
        if not config.valid
            then some (record c { logger = l }, 0)
            else initialize json network e parse session create_preprocessor new_events now m
                metrics config (record c { logger = known }))

module _ (json : Json) {U : Type 0} where
  unfoldable pub get_inference :
      (e : ElementTypes)
      → (U → Text → List Row → Option (U × Option InputBytes))
      → (List (List ℕ) → Option (List (List ℕ)))
      → ℕ
      → Moment
      → Text
      → List UserInput
      → Text
      → CommandCenter json U
      → Option (CommandCenter json U × List (List ℕ) × ℤ)
  get_inference e model_input run started m model_id req infer_id c =
      Calls.get_inference json e model_input run started m model_id req infer_id c

  unfoldable pub exit_inference :
      Moment → Text → Text → Bool → CommandCenter json U → Option (CommandCenter json U)
  exit_inference m model_id infer_id success c =
      Calls.exit_inference json m model_id infer_id success c

  unfoldable pub write_log : Moment → Text → CommandCenter json U → CommandCenter json U
  write_log m log c = Calls.write_outside_log json m log c

  unfoldable pub write_metric : Moment → Text → Text → CommandCenter json U → CommandCenter json U
  write_metric m type metric c = Calls.write_metric json m type metric c

  unfoldable pub add_event :
      (U → Text → Text → Option (U × Bool))
      → Text
      → Text
      → CommandCenter json U
      → Option (CommandCenter json U × Bool)
  add_event add event table c = Calls.add_user_event json add event table c

  unfoldable pub get_model_status : Text → CommandCenter json U → Option (Option Text)
  get_model_status model_id c = Calls.get_model_status json model_id c

  unfoldable pub internet_switched_on : CommandCenter json U → Option (CommandCenter json U)
  internet_switched_on c = Calls.internet_switched_on json c

  unfoldable pub get_inputs_for_infer_id :
      ElementTypes → Text → CommandCenter json U → Option (Option (List (Option Output)) × Bool)
  get_inputs_for_infer_id e infer_id c = Calls.get_inputs_for_infer_id json e infer_id c
