-- ===== src/CommandCenter/Calls.antt =====
-- nimblenet/CommandCenter: the calls of a client. `none` is a fault, such as a call through a null
-- member.
use nimble_sdk.Prelude.{
  ℕ, ◌+◌, ◌-◌, Bool, false, not, Option, none, some, List, [], ◌∷◌, Text, codes, if◌then◌else◌,
  ◌>>=◌,
}
use nimble_sdk.Prelude.Map.{Map, find, insert}
use nimble_sdk.Prelude.Int.{ℤ, pos, eq_ℤ}
use nimble_sdk.Status.{success, terminal_error}
use nimble_sdk.Json.{Json}
use nimble_sdk.Server.{reset_register_retries}
use nimble_sdk.Logger.{Moment, write_log}
use nimble_sdk.Executor.Structs.{ElementTypes, InputBytes}
use nimble_sdk.Executor.Inputs.{Output}
use nimble_sdk.Executor.Model.{Row, UserInput}
use nimble_sdk.Executor.Manager
use nimble_sdk.Executor.Manager.{
  OnnxExecutor, get_plan_version, reset_model_retries, get_inference_of, inputs_for_infer_id,
}
use nimble_sdk.CommandCenter.{CommandCenter, log_metric, default_fetch_cloud_config_retries}

unfoldable pub reset_all_retries : List Text → OnnxExecutor → OnnxExecutor
unfolding reset_model_retries
reset_all_retries [] x = x
reset_all_retries (id ∷ ids) x = reset_all_retries ids (reset_model_retries x id)

-- A start that is missing is the epoch, and stays in the map.
abbrev pub start_of : Text → Map ℕ → ℕ
start_of infer_id starts = elim (find infer_id starts) [ none ↦ 0 | some t ↦ t ]

module _ (json : Json) where
  open json use {dump, of_text, of_int, of_object}

  unfoldable pub inference_metric : Text → Text → Text → ℕ → ℕ → Bool → Text
  inference_metric infer_id model_id version count time ok = dump (
      of_object (
        (codes "inferenceId", of_text infer_id)
        ∷ (codes "inferenceCount", of_int (pos count))
        ∷ (codes "uTime", of_int (pos time))
        ∷ (codes "modelId", of_text model_id)
        ∷ (codes "modelVersion", of_text version)
        ∷ (codes "success", of_text (if ok then codes "true" else codes "false"))
        ∷ (codes "source", of_text (codes "cpp"))
        ∷ []))

  module _ {U : Type 0} where
    unfoldable pub exit_inference :
        Moment → Text → Text → Bool → CommandCenter json U → Option (CommandCenter json U)
    unfolding inference_metric log_metric
    exit_inference m model_id infer_id ok c = if not c.initialize_success then some c else (do
      p ← c.parts
      let start = start_of infer_id c.inference_start_map
      let metric =
          inference_metric infer_id model_id (get_plan_version p.executor model_id)
            c.inference_count (m.now - start) ok
      some (record c {
        inference_start_map = insert infer_id start c.inference_start_map;
        metrics_agent = log_metric m (codes "inference") metric c.metrics_agent;
      }))

    unfoldable pub internet_switched_on : CommandCenter json U → Option (CommandCenter json U)
    unfolding reset_all_retries
    internet_switched_on c =
        if not c.initialize_success
        then some c
        else some (record c {
          parts = elim c.parts [
            | none ↦ none
            | some p ↦
                some (record p { executor = reset_all_retries c.config.model_ids p.executor })
          ];
          server = reset_register_retries c.server;
          cloud_config_fetch_retries = default_fetch_cloud_config_retries;
        })

    -- CommandCenter::write_log
    unfoldable pub write_outside_log : Moment → Text → CommandCenter json U → CommandCenter json U
    write_outside_log m log c =
        if not c.initialize_success
        then c
        else record c { metrics_agent = write_log m log (codes "OUTSIDE:::") c.metrics_agent }

    unfoldable pub write_metric : Moment → Text → Text → CommandCenter json U → CommandCenter json U
    unfolding log_metric
    write_metric m type metric c =
        if not c.initialize_success
        then c
        else record c { metrics_agent = log_metric m type metric c.metrics_agent }

    -- The version for ModelStatus; `none` inside where the method returns false.
    unfoldable pub get_model_status : Text → CommandCenter json U → Option (Option Text)
    get_model_status model_id c =
        if not c.initialize_success
        then some none
        else (do p ← c.parts; some (Manager.get_model_status p.executor model_id))

    unfoldable pub add_user_event :
        (U → Text → Text → Option (U × Bool))
        → Text
        → Text
        → CommandCenter json U
        → Option (CommandCenter json U × Bool)
    add_user_event add_event event table c =
        if not c.initialize_success then some (c, false) else (do
          p ← c.parts
          (events, added) ← add_event p.events event table
          some (record c { parts = some (record p { events = events }) }, added))

    -- The one call that does not look at `_initializeSuccess`.
    unfoldable pub get_inputs_for_infer_id :
        ElementTypes → Text → CommandCenter json U → Option (Option (List (Option Output)) × Bool)
    get_inputs_for_infer_id e infer_id c = do p ← c.parts; inputs_for_infer_id e p.executor infer_id

    module _ (e : ElementTypes) (model_input : U → Text → List Row → Option (U × Option InputBytes))
        (run : List (List ℕ) → Option (List (List ℕ))) where
      -- The start is noted at `started`, and the end of a call that fails at `m`.
      unfoldable pub get_inference :
          ℕ
          → Moment
          → Text
          → List UserInput
          → Text
          → CommandCenter json U
          → Option (CommandCenter json U × List (List ℕ) × ℤ)
      unfolding exit_inference
      get_inference started m model_id req infer_id c =
          if not c.initialize_success then some (c, [], terminal_error) else (do
            p ← c.parts
            (x, events, outputs, status) ←
                get_inference_of e model_input run p.executor infer_id model_id p.features p.events
                  req
            let c' = record c {
              inference_start_map = insert infer_id started c.inference_start_map;
              inference_count = c.inference_count + 1;
              parts = some (record p { executor = x; events = events });
            }
            if eq_ℤ status success then some (c', outputs, status) else (do
              c'' ← exit_inference m model_id infer_id false c'
              some (c'', outputs, status)))
