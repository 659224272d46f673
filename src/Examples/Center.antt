-- ===== src/Examples/Center.antt =====
-- A command center before and after its initialisation.
use nimble_sdk.Prelude.{
  ℕ, ◌≡◌, refl, Bool, true, false, some, compare_text, none, List, [], ◌∷◌, Text, codes, Option,
}
use nimble_sdk.Prelude.Map.{Map, is_some}
use nimble_sdk.Status.{terminal_error}
use nimble_sdk.Config.{Config, no_config}
use nimble_sdk.Prelude.Int.{pos}
use nimble_sdk.Config.Host.{strip_slashes_lem}
use nimble_sdk.Config.{strip_slashes, config_fields, load_user_config}
use nimble_sdk.Nimble.{initialize_nimblenet}
use nimble_sdk.Nimble.Again.{initialize_nimblenet_again}
use nimble_sdk.Logger.{
  Entry, default_secret_key, update_log_config, init_logger, update_device_details,
}
use nimble_sdk.Executor.Manager.{new_executor}
use nimble_sdk.CommandCenter.{CommandCenter, cloud_rounds}
use nimble_sdk.CommandCenter.Start.{initialize, new_parts, load_plans, load_features}
use nimble_sdk.CommandCenter.Calls.{
  get_inference, exit_inference, add_user_event, get_model_status, get_inputs_for_infer_id,
  internet_switched_on, write_outside_log,
}
use nimble_sdk.CommandCenter.Runs
use nimble_sdk.CommandCenter.Runs.{calls_members, initialised_stays, calls_before_initialize}
use nimble_sdk.Examples.Inference.{types}
use nimble_sdk.Examples.ToyJson.{toy_json, write_list, write_object}
use nimble_sdk.Examples.Device.{accepting}
use nimble_sdk.Examples.Cloud.{center, moment}

strip_slashes_lem_example :
    (strip_slashes (codes "http://h//") ≡ some (codes "http://h"))
    × (strip_slashes (codes "//") ≡ none)
strip_slashes_lem_example = strip_slashes_lem (codes "http://") b'h' 2 refl

abbrev in_order : Map Text → List Entry
in_order files = []

abbrev no_models : Config toy_json
no_models = record (no_config toy_json) { valid = true; host = codes "https://h" }

abbrev CenterCall : Type 0
CenterCall =
    Runs.Call toy_json accepting types (λ t. none) (λ t. true) {U = ℕ} (λ u id t. some (u, true))
      (λ tables debug. some 0) (λ u event table. some (u, true)) (λ u id rows. some (u, none))
      (λ inputs. none) (codes "linux") in_order

abbrev center_calls : List CenterCall → CommandCenter toy_json ℕ → Option (CommandCenter toy_json ℕ)
center_calls =
    Runs.calls toy_json accepting types (λ t. none) (λ t. true) {U = ℕ} (λ u id t. some (u, true))
      (λ tables debug. some 0) (λ u event table. some (u, true)) (λ u id rows. some (u, none))
      (λ inputs. none) (codes "linux") in_order

abbrev before_start : List CenterCall
before_start = Runs.log (moment 1) (codes "x") ∷ Runs.online ∷ []

abbrev add_event_to : ℕ → Text → Text → Option (ℕ × Bool)
add_event_to u event table = some (u, true)

calls_before_initialize_example :
    (get_inference toy_json types
        (λ u id rows. some (u, none))
        (λ inputs. none)
        1
        (moment 2)
        (codes "m")
        []
        (codes "i")
        center
      ≡ some (center, [], terminal_error))
    × (exit_inference toy_json (moment 2) (codes "m") (codes "i") true center ≡ some center)
    × (add_user_event toy_json add_event_to (codes "e") (codes "t") center ≡ some (center, false))
    × (get_model_status toy_json (codes "m") center ≡ some none)
    × (internet_switched_on toy_json center ≡ some center)
    × (get_inputs_for_infer_id toy_json types (codes "i") center ≡ none)
unfolding Runs.call Runs.calls write_outside_log internet_switched_on
calls_before_initialize_example =
    calls_before_initialize toy_json accepting types (λ t. none) (λ t. true) {U = ℕ}
      (λ u id t. some (u, true)) (λ tables debug. some 0) (λ u event table. some (u, true))
      (λ u id rows. some (u, none)) (λ inputs. none) (codes "linux") in_order before_start center
      center 1 (moment 2) (codes "m") (codes "i") (codes "e") (codes "t") [] true refl refl refl

abbrev started : CommandCenter toy_json ℕ
started = record center {
  config = no_models;
  initialize_success = true;
  metrics_agent =
      update_device_details [] [] false (init_logger (moment 1) true center.metrics_agent).0;
  parts = some (record { executor = new_executor [] 0; features = []; events = 0 });
}

calls_members_example : is_some started.parts ≡ started.initialize_success
unfolding Runs.call Runs.calls write_outside_log initialize new_parts load_plans load_features
    new_executor
calls_members_example =
    calls_members toy_json accepting types (λ t. none) (λ t. true) {U = ℕ}
      (λ u id t. some (u, true)) (λ tables debug. some 0) (λ u event table. some (u, true))
      (λ u id rows. some (u, none)) (λ inputs. none) (codes "linux") in_order
      (Runs.log (moment 1) (codes "x") ∷ Runs.start 1 (moment 1) true no_models ∷ []) center started
      refl refl

abbrev logged : CommandCenter toy_json ℕ
logged = write_outside_log toy_json (moment 6) (codes "x") started

initialised_stays_example : (logged.initialize_success ≡ true) × (logged.config ≡ started.config)
unfolding Runs.call Runs.calls initialize write_outside_log
initialised_stays_example =
    initialised_stays toy_json accepting types (λ t. none) (λ t. true) {U = ℕ}
      (λ u id t. some (u, true)) (λ tables debug. some 0) (λ u event table. some (u, true))
      (λ u id rows. some (u, none)) (λ inputs. none) (codes "linux") in_order
      (Runs.log (moment 6) (codes "x") ∷ Runs.start 7 (moment 7) true (no_config toy_json) ∷ [])
      started logged refl refl

-- The center after set_cloud_config, with the key and the address of the server.
abbrev running : CommandCenter toy_json ℕ
running = record started {
  cloud_config_set = true;
  logger = update_log_config (codes "key") (pos 5) (codes "https://logs") started.logger;
}

abbrev config_json : Text
config_json = write_object (
    (codes "host", codes "https://h/")
    ∷ (codes "deviceID", codes "d")
    ∷ (codes "clientID", codes "c")
    ∷ (codes "modelIDs", write_list [])
    ∷ (codes "clientSecret", codes "s")
    ∷ [])

initialize_nimblenet_again_example :
    (c' : CommandCenter toy_json ℕ) × (initialize_nimblenet toy_json accepting types
        (λ t. none)
        (λ t. true)
        (λ u id t. some (u, true))
        (λ tables debug. some 0)
        1
        (moment 5)
        true
        true
        config_json
        running
      ≡ some (c', 1))
    × (c'.config ≡ running.config)
    × ((cloud_rounds toy_json accepting ((moment 6, pos 9) ∷ []) c').logger.log_config.secret_key
        ≡ default_secret_key)
    × ((cloud_rounds toy_json accepting ((moment 6, pos 9) ∷ []) c').logger.log_config.host
        ≡ running.logger.log_config.host)
unfolding load_user_config config_fields strip_slashes compare_text
initialize_nimblenet_again_example =
    initialize_nimblenet_again toy_json accepting types (λ t. none) (λ t. true)
      (λ u id t. some (u, true)) (λ tables debug. some 0) 1 (moment 5) true config_json _ running
      ((moment 6, pos 9) ∷ []) refl refl refl refl refl refl
