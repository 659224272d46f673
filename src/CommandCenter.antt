-- ===== src/CommandCenter.antt =====
-- nimblenet/CommandCenter: its state, and what the background thread and the public calls share. What
-- is outside the process in an operation is its argument `m`, as for a logger. `U` is the manager of
-- the user events. The executor, the feature store and that manager are null until initialize makes
-- them: `parts` is none.
pub mod Cloud
pub mod Start
pub mod Calls
pub mod Round
pub mod Guards
pub mod Runs
use nimble_sdk.Prelude.{
  ℕ, zero, suc, ◌-◌, ◌++◌, Bool, true, false, not, Option, none, some, List, [], ◌∷◌, Text, codes,
  ◌==◌, if◌then◌else◌,
}
use nimble_sdk.Prelude.Map.{Map}
use nimble_sdk.Prelude.Int.{ℤ, pos, eq_ℤ}
use nimble_sdk.Status.{success}
use nimble_sdk.Json.{Json}
use nimble_sdk.Config.{Config}
use nimble_sdk.Server.{Network, Server, default_auth_error_retries}
use nimble_sdk.Server.Cloud.{get_cloud_config}
use nimble_sdk.Logger.{Logger, Moment, write_log, update_log_config}
use nimble_sdk.FeatureStore.{FeatureStoreManager}
use nimble_sdk.Executor.Manager.{OnnxExecutor}

pub record CloudConfig : Type 0 where
  pub log_key : Text
  pub metrics_key : Text
  pub log_url : Text
  pub log_time_interval : ℤ
  pub metrics_time_interval : ℤ
  pub metrics_collection_interval : ℤ

pub record Parts (U : Type 0) : Type 0 where
  pub executor : OnnxExecutor
  pub features : FeatureStoreManager
  pub events : U

abbrev pub default_fetch_cloud_config_retries : ℕ
default_fetch_cloud_config_retries = 3

-- LOGMETRICS
unfoldable pub log_metric : Moment → Text → Text → Logger → Logger
log_metric m type metric l = write_log m (type ++ (codes " ::: " ++ metric)) (codes "METRICS:::") l

module _ (json : Json) where
  open json use {dump, of_int, of_object}

  module _ (U : Type 0) where
    pub record CommandCenter : Type 0 where
      pub server : Server
      pub config : Config json
      -- `_initMutex` is held by another thread.
      pub init_locked : Bool
      pub initialize_success : Bool
      pub inference_count : ℕ
      pub inference_start_map : Map ℕ
      pub last_metric_time : ℕ
      pub cloud_config : CloudConfig
      pub cloud_config_set : Bool
      pub cloud_config_fetch_retries : ℕ
      pub logger : Logger
      pub metrics_agent : Logger
      pub parts : Option (Parts U)

  module _ {U : Type 0} (network : Network) where
    -- `ping` is the time that the call takes.
    unfoldable pub set_cloud_config : Moment → ℤ → CommandCenter U → CommandCenter U
    unfolding get_cloud_config update_log_config log_metric
    set_cloud_config m ping c =
        let (server, r) = get_cloud_config json network default_auth_error_retries c.server in
        let metric = dump (of_object ((codes "pingTime", of_int ping) ∷ [])) in
        let asked = record c {
          server = server;
          cloud_config_fetch_retries = c.cloud_config_fetch_retries - 1;
          metrics_agent = log_metric m (codes "pingTime") metric c.metrics_agent;
        } in
        if c.cloud_config_set
        then c
        else if c.cloud_config_fetch_retries == 0
        then c
        else if not (eq_ℤ r.status success)
        then asked
        else record asked {
          cloud_config = record c.cloud_config {
            log_key = r.log_key;
            metrics_key = r.metrics_key;
            log_url = r.log_url;
            log_time_interval = r.log_time_interval;
            metrics_time_interval = r.metrics_time_interval;
          };
          logger = update_log_config r.log_key r.log_time_interval r.log_url c.logger;
          metrics_agent =
              update_log_config r.metrics_key r.metrics_time_interval r.log_url asked.metrics_agent;
          cloud_config_set = true;
        }

    -- The calls of set_cloud_config in the first rounds of the background thread, one in each.
    unfoldable pub cloud_rounds : List (Moment × ℤ) → CommandCenter U → CommandCenter U
    unfolding set_cloud_config
    cloud_rounds [] c = c
    cloud_rounds ((m, ping) ∷ rounds) c = cloud_rounds rounds (set_cloud_config m ping c)
