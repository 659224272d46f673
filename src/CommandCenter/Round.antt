-- ===== src/CommandCenter/Round.antt =====
-- nimblenet/CommandCenter: a round of the background thread. `metrics` is what the platform has to say
-- of the device, `readdir` the order in which a directory is listed.
use nimble_sdk.Prelude.{
  ℕ, ◌-◌, ◌/◌, ◌||◌, ◌==◌, Bool, not, Option, none, some, List, [], ◌∷◌, Text, codes, if◌then◌else◌,
  ◌>>=◌,
}
use nimble_sdk.Prelude.Map.{Map}
use nimble_sdk.Prelude.Int.{ℤ, pos, leb_ℤ}
use nimble_sdk.Json.{Json}
use nimble_sdk.Config.{Config}
use nimble_sdk.Server.{Server, ServerConfig, Network, init}
use nimble_sdk.Logger.{Moment, Entry}
use nimble_sdk.Logger.Upload.{send_pending_logs}
use nimble_sdk.Executor.Structs.{ElementTypes, TensorInfo, ModelInfo}
use nimble_sdk.Resources.{Resources, update_plan_if_required, update_feature_if_required}
use nimble_sdk.CommandCenter.{CommandCenter, log_metric, set_cloud_config}
use nimble_sdk.CommandCenter.Start.{resources_of, parts_of}

module _ (json : Json) where
  abbrev pub server_config : Config json → ServerConfig
  server_config c = record {
    host = c.host;
    device_id = c.device_id;
    client_id = c.client_id;
    client_secret = c.client_secret;
    model_ids = c.model_ids;
  }

  -- The assignment to `ServerAPI::_config` in ServerAPI::init, behind its two early returns.
  abbrev pub configured : Config json → Server → Server
  configured config s =
      if s.register_done || s.register_retries == 0
      then s
      else record s { config = server_config config }

  module _ {U : Type 0} where
    -- The metrics are collected when the interval has passed and the platform has some.
    unfoldable pub get_metrics : Moment → Option Text → CommandCenter json U → CommandCenter json U
    unfolding log_metric
    get_metrics m metrics c =
        let elapsed = (m.now - c.last_metric_time) / 1000000 in
        if not (leb_ℤ c.cloud_config.metrics_collection_interval (pos elapsed))
        then c
        else elim metrics [
          | none ↦ c
          | some text ↦ record c {
            metrics_agent = log_metric m (codes "dynamicDevice") text c.metrics_agent;
            last_metric_time = m.later;
          }
        ]

    module _ (network : Network) (platform : Text) (readdir : Map Text → List Entry) where
      -- First the metrics, then the logs.
      unfoldable pub send_all : Moment → Bool → CommandCenter json U → CommandCenter json U
      unfolding send_pending_logs
      send_all m init_complete c =
          let (s, agent) =
            send_pending_logs json network platform readdir m init_complete c.server
              c.metrics_agent in
          let (s', logger) =
            send_pending_logs json network platform readdir m init_complete s c.logger in
          record c { server = s'; metrics_agent = agent; logger = logger }

    module _ (network : Network) (e : ElementTypes) (parse : Text → Option ModelInfo)
        (session : Text → Bool)
        (create_preprocessor : U → Text → TensorInfo → Option (U × Bool)) where
      unfoldable pub update_plans : List Text → Resources U → Option (Resources U)
      unfolding update_plan_if_required
      update_plans [] r = some r
      update_plans (id ∷ ids) r = do
        r' ← update_plan_if_required json network e parse session create_preprocessor r id
        update_plans ids r'

      unfoldable pub update_features : ℕ → List Text → Resources U → Option (Resources U)
      unfolding update_feature_if_required
      update_features now [] r = some r
      update_features now (name ∷ names) r = do
        r' ← update_feature_if_required json network now r name
        update_features now names r'

      unfoldable pub update_resources : ℕ → CommandCenter json U → Option (CommandCenter json U)
      unfolding update_plans update_features
      update_resources now c = do
        p ← c.parts
        r ← update_plans c.config.model_ids (resources_of c.server p)
        r' ← update_features now c.config.feature_stores r
        some (record c { server = r'.server; parts = some (parts_of r') })

      module _ (platform : Text) (readdir : Map Text → List Entry) where
        -- `now` is in seconds, for the features.
        unfoldable pub background_round :
            ℕ
            → Moment
            → ℤ
            → Option Text
            → Bool
            → CommandCenter json U
            → Option (CommandCenter json U)
        unfolding init set_cloud_config update_resources get_metrics send_all
        background_round now m ping metrics init_complete c = do
          let registered = record c {
            server = (init json network (configured c.config c.server)).0;
          }
          c' ← update_resources now (set_cloud_config json network m ping registered)
          some (send_all network platform readdir m init_complete (get_metrics m metrics c'))
