-- ===== src/CommandCenter/Start.antt =====
-- nimblenet/CommandCenter: initialize. `new_events` makes the manager of the user events from the
-- descriptions of its tables.
use nimble_sdk.Prelude.{
  ℕ, Bool, true, false, not, Option, none, some, List, [], ◌∷◌, Text, if◌then◌else◌, ◌>>=◌,
}
use nimble_sdk.Prelude.Int.{ℤ, pos, negsuc}
use nimble_sdk.Json.{Json}
use nimble_sdk.Config.{Config}
use nimble_sdk.Server.{Network, Server}
use nimble_sdk.Logger.{Moment, init_logger, update_device_details}
use nimble_sdk.FeatureStore.{new_feature_store_manager}
use nimble_sdk.Executor.Structs.{ElementTypes, TensorInfo, ModelInfo}
use nimble_sdk.Executor.Manager.{new_executor}
use nimble_sdk.Resources.{Resources, load_plan_from_device, load_feature_from_device}
use nimble_sdk.CommandCenter.{CommandCenter, Parts}

-- What the resource manager reaches through the command center, and back.
abbrev pub resources_of : {U : Type 0} → Server → Parts U → Resources U
resources_of s p = record {
  server = s;
  executor = p.executor;
  features = p.features;
  events = p.events;
}

abbrev pub parts_of : {U : Type 0} → Resources U → Parts U
parts_of r = record { executor = r.executor; features = r.features; events = r.events }

-- The vectors for the saved inputs; their constructor throws for a negative size.
abbrev pub as_size : ℤ → Option ℕ
as_size (pos n) = some n
as_size (negsuc n) = none

module _ (json : Json) (network : Network) (e : ElementTypes) (parse : Text → Option ModelInfo)
    (session : Text → Bool) {U : Type 0}
    (create_preprocessor : U → Text → TensorInfo → Option (U × Bool))
    (new_events : List json.J → Bool → Option U) where
  unfoldable pub load_plans : List Text → Resources U → Option (Resources U)
  unfolding load_plan_from_device
  load_plans [] r = some r
  load_plans (id ∷ ids) r = do
    (r', loaded) ← load_plan_from_device json network e parse session create_preprocessor r id
    load_plans ids r'

  unfoldable pub load_features : ℕ → List Text → Resources U → Resources U
  unfolding load_feature_from_device
  load_features now [] r = r
  load_features now (name ∷ names) r =
      load_features now names (load_feature_from_device json now r name).0

  -- The members that initialize makes, with what the device has for them.
  unfoldable pub new_parts : ℕ → Config json → Server → Option (Parts U)
  unfolding load_plans load_features new_executor new_feature_store_manager
  new_parts now config s = do
    max_inputs ← as_size config.max_inputs_to_save
    events ← new_events config.table_infos config.debug
    r ← load_plans config.model_ids (record {
      server = s;
      executor = new_executor config.model_ids max_inputs;
      features = new_feature_store_manager config.feature_stores;
      events = events;
    })
    some (parts_of (load_features now config.feature_stores r))

  -- The result is the int of the source. `has_directory` is whether the directory of the metrics is
  -- there or can be made; what init_logger returns is not looked at.
  unfoldable pub initialize :
      ℕ → Moment → Bool → Config json → CommandCenter json U → Option (CommandCenter json U × ℕ)
  unfolding new_parts init_logger update_device_details
  initialize now m has_directory config c =
      let configured = record c { config = config } in
      let agent =
        update_device_details config.device_id config.client_id false
          (init_logger m has_directory c.metrics_agent).0 in
      if c.init_locked
      then some (c, 0)
      else if c.initialize_success
      then some (c, 1)
      else if not config.valid
      then some (configured, 0)
      else (do
        parts ← new_parts now config c.server
        some (
          record configured {
            metrics_agent = agent;
            parts = some parts;
            initialize_success = true;
          },
          1,
        ))
